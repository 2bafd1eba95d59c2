-- ===== src/Audit/Retention.antt =====
-- What leaves the outbox, and what stays.
use eidolon_data.Prelude.{
  ℕ, ◌≤◌, String, ◌≡◌, refl, Bool, false, none, some, List, [], ◌∷◌, arith, if◌then◌else◌, ◌==◌,
  ==→≡, All, find, mem, find-update_where, find-delete_where, find-append, find_sound, committed,
  string_eq,
}
use eidolon_data.Audit.Delivery.{mark_published_lem, mark_failed_lem}
use eidolon_data.Schema.{AuditOutboxRow}
use eidolon_data.Audit.Outbox.{
  Outbox, AuditEnvelope, envelope, enqueue, is_open_among, set_published, mark_published,
  set_failed, mark_failed, is_expired, purge_published,
}

abbrev pub has_id : String → AuditOutboxRow → Bool
has_id i row = row.event_id == i

-- The event with the id `i` is in the table, is not published, and would be sent as `e`.
abbrev pub Waits : String → AuditEnvelope → Outbox → Type 0
Waits i e rows =
    (row : AuditOutboxRow) × (find (has_id i) rows ≡ some row)
    × (row.published_at ≡ none)
    × (envelope row ≡ e)

-- One call on the repository, by any of the processes that share it.
pub data OutboxCall : Type 0 where
  call_enqueue : AuditOutboxRow → OutboxCall
  call_published : ℕ → List String → OutboxCall
  call_failed : ℕ → List String → String → ℕ → OutboxCall
  call_purge : ℕ → OutboxCall

unfoldable pub perform : OutboxCall → Outbox → Outbox
perform (call_enqueue row) rows = committed (enqueue row rows) rows
perform (call_published at ids) rows = (mark_published at ids rows).1
perform (call_failed now ids message retry_after) rows =
    (mark_failed now ids message retry_after rows).1
perform (call_purge before) rows = (purge_published before rows).1

unfoldable pub perform_all : List OutboxCall → Outbox → Outbox
perform_all [] rows = rows
perform_all (c ∷ cs) rows = perform_all cs (perform c rows)

-- The call does not report the event as published.
abbrev pub Unacknowledged : String → OutboxCall → Type 0
Unacknowledged i (call_published at ids) = mem i ids ≡ false
Unacknowledged i _ = Unit

enqueue-Waits :
    (row : AuditOutboxRow) (i : String) (e : AuditEnvelope) (rows : Outbox)
    → Waits i e rows
    → Waits i e (committed (enqueue row rows) rows)
unfolding enqueue
enqueue-Waits row i e rows (r, f, n, s) =
    (r, ground (arith, find-append (has_id i) rows (row ∷ []) r), n, s)

failed-Waits :
    (now : ℕ) (ids : List String) (message : String) (retry_after : ℕ) (i : String)
    (e : AuditEnvelope) (rows : Outbox)
    → Waits i e rows
    → Waits i e (mark_failed now ids message retry_after rows).1
unfolding envelope
failed-Waits now ids message retry_after i e rows (r, f, n, s) =
    let f' =
      find-update_where (has_id i) (is_open_among ids) (set_failed now retry_after message) rows r
        (λ y. refl) f in
    rw (mark_failed_lem now ids message retry_after rows) (
      if is_open_among ids r then set_failed now retry_after message r else r,
      f',
      ground arith,
      ground arith,
    )

purge-Waits :
    (before : ℕ) (i : String) (e : AuditEnvelope) (rows : Outbox)
    → Waits i e rows
    → Waits i e (purge_published before rows).1
unfolding purge_published
purge-Waits before i e rows (r, f, n, s) =
    (r, find-delete_where (has_id i) (is_expired before) rows r f (ground arith), n, s)

perform-Waits :
    (c : OutboxCall) (i : String) (e : AuditEnvelope) (rows : Outbox)
    → Unacknowledged i c
    → Waits i e rows
    → Waits i e (perform c rows)
unfolding perform
perform-Waits (call_enqueue row) i e rows u (r, f, n, s) = enqueue-Waits row i e rows (r, f, n, s)
perform-Waits (call_published at ids) i e rows u (r, f, n, s) = (
  r,
  rw (mark_published_lem at ids rows) (
      ground (
        arith,
        find-update_where (has_id i) (is_open_among ids) (set_published at) rows r (λ y. refl) f,
        find_sound (has_id i) rows r f,
        ==→≡ r.event_id i,
      )),
  n,
  s,
)
perform-Waits (call_failed now ids message retry_after) i e rows u w =
    failed-Waits now ids message retry_after i e rows w
perform-Waits (call_purge before) i e rows u w = purge-Waits before i e rows w

-- An event that is never reported as published is never lost: whatever calls the processes make in
-- whatever order, it is in the table, still to be sent, and with the content that it was stored with.
pub perform_all-Waits :
    (cs : List OutboxCall) (i : String) (e : AuditEnvelope) (rows : Outbox)
    → All (Unacknowledged i) cs
    → Waits i e rows
    → Waits i e (perform_all cs rows)
unfolding perform_all
perform_all-Waits [] i e rows u w = w
perform_all-Waits (c ∷ cs) i e rows u w =
    perform_all-Waits cs i e (perform c rows) u.1 (perform-Waits c i e rows u.0 w)

-- A purge in the list leaves what was published at `at`.
abbrev pub Spares : ℕ → OutboxCall → Type 0
Spares at (call_purge before) = before ≤ at
Spares at _ = Unit

perform_published :
    (c : OutboxCall) (i : String) (at : ℕ) (r : AuditOutboxRow) (rows : Outbox)
    → Spares at c
    → r.published_at ≡ some at
    → find (has_id i) rows ≡ some r
    → find (has_id i) (perform c rows) ≡ some r
unfolding perform enqueue purge_published
perform_published (call_enqueue row) i at r rows h p f =
    ground (arith, find-append (has_id i) rows (row ∷ []) r)
perform_published (call_published now ids) i at r rows h p f =
    rw (mark_published_lem now ids rows) (
      ground (
        arith,
        find-update_where (has_id i) (is_open_among ids) (set_published now) rows r (λ y. refl) f,
      ))
perform_published (call_failed now ids message retry_after) i at r rows h p f =
    rw (mark_failed_lem now ids message retry_after rows) (
      ground (
        arith,
        find-update_where (has_id i) (is_open_among ids) (set_failed now retry_after message) rows r
            (λ y. refl) f,
      ))
perform_published (call_purge before) i at r rows h p f =
    find-delete_where (has_id i) (is_expired before) rows r f (ground arith)

-- A published row is final: no later call, a late acknowledgement or failure included, changes any of
-- its columns, and only a purge whose horizon lies after its publication removes it.
pub perform_all_published :
    (cs : List OutboxCall) (i : String) (at : ℕ) (r : AuditOutboxRow) (rows : Outbox)
    → All (Spares at) cs
    → r.published_at ≡ some at
    → find (has_id i) rows ≡ some r
    → find (has_id i) (perform_all cs rows) ≡ some r
unfolding perform_all
perform_all_published [] i at r rows h p f = f
perform_all_published (c ∷ cs) i at r rows h p f =
    perform_all_published cs i at r (perform c rows) h.1 p (perform_published c i at r rows h.0 p f)
