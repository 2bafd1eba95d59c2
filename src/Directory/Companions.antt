-- ===== src/Directory/Companions.antt =====
-- `CompanionsRepository`.
use eidolon_data.Prelude.{
  ℕ, String, Bool, true, not, ◌&&◌, ◌||◌, Option, none, some, List, if◌then◌else◌, ltb, ◌==◌, ◌!=◌,
  take, find, select_where, order_by, sort_by, or_text, is_empty, text_ltb, string_eq, option_eq,
  nat_eq,
}
use eidolon_data.Schema.{Db, CompanionRow, companion_active}
use eidolon_data.Personas.Genomes.{has_companion_id}
use eidolon_data.Deletion.Cascades.{has_owner_id, is_companion_of}

unfoldable pub get_companion : String → Db → Option CompanionRow
get_companion companion_id db = find (has_companion_id companion_id) db.companions

unfoldable pub list_companions : String → Db → List CompanionRow
list_companions owner_id db =
    order_by (λ c. c.created_at) (select_where (is_companion_of owner_id) db.companions)

-- the order of the pages, `(created_at, companion_id)`
abbrev pub is_earlier : ℕ × String → ℕ × String → Bool
is_earlier (t, i) (u, j) = ltb t u || t == u && text_ltb i j

abbrev pub sort_key : CompanionRow → ℕ × String
sort_key c = (c.created_at, c.companion_id)

abbrev pub is_after : Option (ℕ × String) → CompanionRow → Bool
is_after none c = true
is_after (some key) c = is_earlier key (sort_key c)

abbrev pub sort_companions : List CompanionRow → List CompanionRow
sort_companions = sort_by (λ a b. not (is_earlier (sort_key b) (sort_key a)))

unfoldable pub page_for_owner : String → ℕ → Option (ℕ × String) → Db → List CompanionRow
page_for_owner owner_id limit after db = take limit (
    sort_companions
      (select_where (λ c. is_companion_of owner_id c && is_after after c) db.companions))

unfoldable pub get_default_for_owner : String → Db → Option CompanionRow
get_default_for_owner owner_id db = elim (find (has_owner_id owner_id) db.owners) [
  | none ↦ none
  | some owner ↦
      if is_empty (or_text owner.default_companion_id "")
      then none
      else elim (find (has_companion_id (or_text owner.default_companion_id "")) db.companions) [
        | none ↦ none
        | some c ↦
            if c.owner_id != owner_id || not (companion_active c.lifecycle_state)
            then none
            else some c
      ]
]
