-- ===== src/Personas/Current.antt =====
-- The current genome of a Companion, through the commands.
use eidolon_data.Prelude.{
  String, ◌≡◌, refl, sym, ap, ◌∙◌, inl, inr, true, some, List, arith, Option-cases, find, or_text,
  is_empty, string_eq, option_eq, nat_eq,
}
use eidolon_data.Schema.{Db, Env, CompanionRow, PersonaGenomeRow, is_committed}
use eidolon_data.Personas.Sdk.{PersonaSdk}
use eidolon_data.Personas.Genomes.{has_companion_id, is_genome}
use eidolon_data.Personas.Evolution.{get_current_genome}
use eidolon_data.Personas.Changes.{PersonaChange}
use eidolon_data.Personas.Calls.{PersonaAction, perform_all, always_keeps}
use eidolon_data.Personas.Pointers.{Committed, Committed-step, stays, goes, moved_from}

-- Every Companion's pointer names a committed genome of that Companion.
abbrev pub HasCommitted : Db → Type 0
HasCommitted db =
    (i g : String) (c : CompanionRow)
    → find (has_companion_id i) db.companions ≡ some c
    → c.current_genome_id ≡ some g
    → Committed db i g

HasCommitted-step : (db db' : Db) → PersonaChange db db' → HasCommitted db → HasCommitted db'
HasCommitted-step db db' change h i g c' e' points =
    let (c, e, moves) = moved_from db db' i c' change e' in
    elim moves [
      | stays p ↦ Committed-step db db' i g change (h i g c e (sym p ∙ points))
      | goes k p (row, found, owned, settled) new ↦
          let one : k ≡ g = ground arith in
          (row, ap (λ x. find (is_genome x) db'.persona_genomes) (sym one) ∙ found, owned, settled)
    ]

-- Where every Companion's pointer names a committed genome of that Companion, each does after any
-- calls.
pub perform_all-HasCommitted :
    (sdk : PersonaSdk) (actions : List (Env × PersonaAction sdk)) (db : Db)
    → HasCommitted db
    → HasCommitted (perform_all sdk actions db)
perform_all-HasCommitted sdk actions db h =
    always_keeps sdk HasCommitted HasCommitted-step actions db h

pub or_text_empty : (s : String) → or_text (some s) "" ≡ s
or_text_empty String.[] = refl
or_text_empty (String.◌∷◌ c s) = refl

-- Where every Companion's pointer names a committed genome of that Companion, what
-- `get_current_genome` answers after any calls is a committed genome of the Companion asked for.
pub get_current_genome-Committed :
    (sdk : PersonaSdk) (actions : List (Env × PersonaAction sdk)) (db : Db) (i : String)
    (row : PersonaGenomeRow)
    → HasCommitted db
    → get_current_genome i (perform_all sdk actions db) ≡ some row
    → (is_committed row.status ≡ true) × (row.companion_id ≡ i)
unfolding get_current_genome
get_current_genome-Committed sdk actions db i row h e =
    let db' = perform_all sdk actions db in
    elim (Option-cases (find (has_companion_id i) db'.companions)) [
      | inl missing ↦ absurd (ground arith)
      | inr (c, found) ↦ elim (Option-cases c.current_genome_id) [
        | inl nowhere ↦
            let blank : is_empty (or_text c.current_genome_id "") ≡ true =
              ap (λ o. is_empty (or_text o "")) nowhere in
            absurd (ground arith)
        | inr (g, points) ↦
            let (kept, e', owned, settled) =
              perform_all-HasCommitted sdk actions db h i g c found points in
            let at_g : or_text c.current_genome_id "" ≡ g =
              ap (λ o. or_text o "") points ∙ or_text_empty g in
            let here = ap (λ k. find (is_genome k) db'.persona_genomes) at_g in
            (ground arith, ground arith)
      ]
    ]

-- Companion `i` does not point to `g`.
abbrev pub HasLeft : String → String → Db → Type 0
HasLeft i g db =
    (c : CompanionRow)
    → find (has_companion_id i) db.companions ≡ some c
    → ¬ (c.current_genome_id ≡ some g)

HasLeft-step :
    (i g : String) (db db' : Db)
    → PersonaChange db db'
    → Committed db i g × HasLeft i g db
    → Committed db' i g × HasLeft i g db'
HasLeft-step i g db db' change (old, away) = (
  Committed-step db db' i g change old,
  (λ c' e' points.
      let (row, found, owned, settled) = old in
      let (c, e, moves) = moved_from db db' i c' change e' in
      elim moves [
        | stays p ↦ away c e (sym p ∙ points)
        | goes k p is_in new ↦
            let one : k ≡ g = ground arith in
            new i (row, ap (λ x. find (is_genome x) db.persona_genomes) one ∙ found, owned, settled)
      ]),
)

-- The pointer of a Companion never comes back: when a committed genome of it is not its current one,
-- it is not the current one after any calls. A restore adds a new genome.
pub perform_all-HasLeft :
    (sdk : PersonaSdk) (actions : List (Env × PersonaAction sdk)) (db : Db) (i g : String)
    → Committed db i g
    → HasLeft i g db
    → HasLeft i g (perform_all sdk actions db)
perform_all-HasLeft sdk actions db i g old away =
    (always_keeps sdk (λ s. Committed s i g × HasLeft i g s) (HasLeft-step i g) actions db
      (old, away)).1
