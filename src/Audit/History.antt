-- ===== src/Audit/History.antt =====
-- Reading an Owner's history page by page, `list_for_owner` of audit/outbox.py.
use eidolon_data.Prelude.{
  ℕ, zero, suc, ◌+◌, ◌≤◌, String, ◌≡◌, refl, sym, ap, ◌∙◌, inl, inr, true, Option, none, some, List,
  [], ◌∷◌, ◌++◌, map, append-nil, map-append, arith, ltb, Bool-cases, length, take, drop, get_last?,
  length-take, length-drop, take-append-drop, take-take-suc, take_all, ℤ, select_where,
  order_by_desc, IsFalling, IsUnique, order_by_desc-IsFalling, select-order_by_desc, select-select,
  All-get_last?, select_after_take, select-IsUnique, select-IsFalling, All-select_where,
  get_last?_total, select_all, nat_eq, string_eq, option_eq,
}
use native.Mathlib.Nat.{le_refl}
use native.Mathlib.Numerals.{add-one}
use eidolon_data.Schema.{AuditOutboxRow}
use eidolon_data.Audit.Outbox.{
  Outbox, AuditEnvelope, envelope, cap_limit, is_history_of, is_before, history_rows, page_from,
  list_for_owner,
}

abbrev sequence : AuditOutboxRow → ℕ
sequence row = row.outbox_id

-- The whole history of an Owner, newest first: what the pages should add up to.
unfoldable pub history : String → Outbox → Outbox
history owner_id rows = order_by_desc sequence (select_where (is_history_of owner_id) rows)

abbrev follow : (ℕ → List AuditEnvelope) → Option ℕ → List AuditEnvelope
follow earlier none = []
follow earlier (some s) = earlier s

-- A client that asks for the first page, and then for the page before `next_sequence` until there
-- is none, and gathers the events.
unfoldable pub read_pages : ℕ → String → ℤ → Option ℕ → Outbox → List AuditEnvelope
read_pages zero owner_id limit before rows = []
read_pages (suc fuel) owner_id limit before rows =
    let page = list_for_owner owner_id limit before rows in
    page.events ++ follow (λ s. read_pages fuel owner_id limit (some s) rows) page.next_sequence

abbrev pub HasUniqueIds : Outbox → Type 0
HasUniqueIds = IsUnique sequence

history_rows_lem :
    (owner_id : String) (before : Option ℕ) (rows : Outbox)
    → HasUniqueIds rows
    → history_rows owner_id before rows ≡ select_where (is_before before) (history owner_id rows)
unfolding history_rows history
history_rows_lem owner_id before rows u =
    ap (order_by_desc sequence)
      (select-select sequence (is_history_of owner_id) (is_before before) rows)
    ∙ select-order_by_desc sequence (is_before before) (select_where (is_history_of owner_id) rows)
        (select-IsUnique sequence (is_history_of owner_id) rows u)

history-IsFalling :
    (owner_id : String) (rows : Outbox)
    → HasUniqueIds rows
    → IsFalling sequence (history owner_id rows)
unfolding history
history-IsFalling owner_id rows u =
    order_by_desc-IsFalling sequence (select_where (is_history_of owner_id) rows)
      (select-IsUnique sequence (is_history_of owner_id) rows u)

-- One row more than a page tells whether there are more, and does not change the page.
page_from-take :
    (capped : ℕ) (left : Outbox) → page_from capped (take (capped + 1) left) ≡ page_from capped left
page_from-take capped left =
    rw (add-one, take-take-suc capped left) (ground (arith, length-take (suc capped) left))

list_for_owner_lem :
    (owner_id : String) (limit : ℤ) (before : Option ℕ) (rows : Outbox)
    → HasUniqueIds rows
    → list_for_owner owner_id limit before rows
      ≡ page_from (cap_limit limit) (select_where (is_before before) (history owner_id rows))
unfolding list_for_owner
list_for_owner_lem owner_id limit before rows u =
    rw (history_rows_lem owner_id before rows u)
      (page_from-take (cap_limit limit) (select_where (is_before before) (history owner_id rows)))

-- Of the rows before a row that was read before `before`, none is cut by `before`.
select_again :
    (before : Option ℕ) (row : AuditOutboxRow) (rows : Outbox)
    → is_before before row ≡ true
    → select_where (is_before (some row.outbox_id)) (select_where (is_before before) rows)
      ≡ select_where (is_before (some row.outbox_id)) rows
select_again before row [] h = refl
select_again before row (y ∷ ys) h = ground (arith, select_again before row ys h)

cap_limit_pos : (limit : ℤ) → 1 ≤ cap_limit limit
unfolding cap_limit
cap_limit_pos limit = omega arith

module _ (owner_id : String) (limit : ℤ) (rows : Outbox) (u : HasUniqueIds rows) where
  abbrev left_before : Option ℕ → Outbox
  left_before before = select_where (is_before before) (history owner_id rows)

  -- what is left after a page
  left_after_page :
      (before : Option ℕ) (x : AuditOutboxRow)
      → get_last? (take (cap_limit limit) (left_before before)) ≡ some x
      → cap_limit limit ≤ length (left_before before)
      → left_before (some x.outbox_id) ≡ drop (cap_limit limit) (left_before before)
  left_after_page before x e h =
      sym (
        select_again before x (history owner_id rows) (
          All-get_last? sequence (λ y. is_before before y ≡ true) (cap_limit limit)
            (left_before before) x (All-select_where (is_before before) (history owner_id rows)) e))
      ∙ select_after_take sequence (cap_limit limit) (left_before before) x
          (select-IsFalling sequence (is_before before) (history owner_id rows)
            (history-IsFalling owner_id rows u))
          e h

  -- One more page is read, and then what is left after it.
  page_then_rest :
      (fuel : ℕ) (before : Option ℕ) (x : AuditOutboxRow)
      → get_last? (take (cap_limit limit) (left_before before)) ≡ some x
      → cap_limit limit ≤ length (left_before before)
      → read_pages fuel owner_id limit (some x.outbox_id) rows
        ≡ map envelope (left_before (some x.outbox_id))
      → map envelope (take (cap_limit limit) (left_before before))
          ++ read_pages fuel owner_id limit (some x.outbox_id) rows
        ≡ map envelope (left_before before)
  page_then_rest fuel before x e h ih =
      rw (ih, left_after_page before x e h)
        (sym (
            map-append envelope (take (cap_limit limit) (left_before before))
              (drop (cap_limit limit) (left_before before)))
          ∙ ap (map envelope) (take-append-drop (cap_limit limit) (left_before before)))

  read_pages_lem :
      (fuel : ℕ) (before : Option ℕ)
      → length (left_before before) ≤ fuel
      → read_pages fuel owner_id limit before rows ≡ map envelope (left_before before)
  unfolding read_pages
  read_pages_lem zero before h = ap (map envelope) (take_all 0 (left_before before) h)
  read_pages_lem (suc fuel) before h =
      rw (list_for_owner_lem owner_id limit before rows u)
        (elim (Bool-cases (ltb (cap_limit limit) (length (left_before before)))) [
          | inl more ↦
              let (x, e) =
                get_last?_total (cap_limit limit) (left_before before) (cap_limit_pos limit)
                  (ground arith) in
              let full : cap_limit limit ≤ length (left_before before) = ground arith in
              let fits : length (left_before (some x.outbox_id)) ≤ fuel =
                rw (left_after_page before x e full) (
                  omega (
                    arith,
                    length-drop (cap_limit limit) (left_before before),
                    cap_limit_pos limit,
                  )) in
              rw (more, e)
                (page_then_rest fuel before x e full (read_pages_lem fuel (some x.outbox_id) fits))
          | inr last ↦ rw last (
              append-nil _
              ∙ ap (map envelope) (take_all (cap_limit limit) (left_before before) (ground arith)))
        ])

-- However the client chooses its limit, the pages that it reads one after another are the whole
-- history of the Owner that the table holds, newest first, with nothing missing and nothing twice.
-- As many requests as there are events suffice. This holds if the ids of the rows are distinct.
pub read_pages-eq-history :
    (owner_id : String) (limit : ℤ) (rows : Outbox)
    → HasUniqueIds rows
    → read_pages (length (history owner_id rows)) owner_id limit none rows
      ≡ map envelope (history owner_id rows)
read_pages-eq-history owner_id limit rows u =
    let whole = select_all (history owner_id rows) in
    read_pages_lem owner_id limit rows u (length (history owner_id rows)) none
      (rw whole (le_refl (length (history owner_id rows))))
    ∙ ap (map envelope) whole
