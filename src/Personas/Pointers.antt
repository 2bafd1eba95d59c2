-- ===== src/Personas/Pointers.antt =====
-- Where the pointer of a Companion, `current_genome_id`, goes.
use eidolon_data.Personas.Evolution.{set_committed}
use eidolon_data.Prelude.{
  ℕ, String, ◌≡◌, refl, sym, ap, ◌∙◌, ◌⊎◌, inl, inr, true, false, none, some, [], ◌∷◌, ◌++◌, arith,
  if◌then◌else◌, ==-refl, ==→≡, Bool-cases, Option-cases, find, update_where, find-update_where,
  find-update_where-none, find_sound, string_eq, option_eq, nat_eq,
}
use eidolon_data.Schema.{
  Db, CompanionRow, GenomeStatus, proposed, rejected, stale, PersonaGenomeRow, is_committed,
  is_proposed,
}
use eidolon_data.Personas.Genomes.{has_companion_id, is_genome, copy_persona}
use eidolon_data.Personas.Changes.{
  receipt_at, KeepsReceipts, Written, Added, PersonaChange, same, written, appended, drafted,
  activated, made_stale, made_rejected, find-Added_before, find-Added, KeepsReceipts-of_metadata,
}
use eidolon_data.Personas.Decided.{change-Evolves}

-- a committed genome of Companion `i`
abbrev pub Committed : Db → String → String → Type 0
Committed db i g =
    (row : PersonaGenomeRow) × (find (is_genome g) db.persona_genomes ≡ some row)
    × (row.companion_id ≡ i)
    × (is_committed row.status ≡ true)

not_proposed : (s : GenomeStatus) → is_committed s ≡ true → is_proposed s ≡ false
not_proposed GenomeStatus.committed e = refl
not_proposed proposed e = absurd (ground arith)
not_proposed rejected e = refl
not_proposed stale e = refl

pub Committed-step :
    (db db' : Db) (i g : String) → PersonaChange db db' → Committed db i g → Committed db' i g
Committed-step db db' i g change (row, e, owned, settled) =
    let (row', e', evolved) = change-Evolves g row db db' change e in
    let is_row = evolved.decided (not_proposed row.status settled) in
    (row, e' ∙ ap some is_row, owned, settled)

-- What a change does to one Companion's pointer.
pub data Moves (db db' : Db) (i : String) (c c' : CompanionRow) : Type 0 where
  stays : c'.current_genome_id ≡ c.current_genome_id → Moves db db' i c c'
  -- to a genome that was not committed before
  goes :
      (g : String)
      → c'.current_genome_id ≡ some g
      → Committed db' i g
      → ((j : String) → ¬ (Committed db j g))
      → Moves db db' i c c'

Moves-cong :
    (db db' : Db) (i j : String) (c c' x x' : CompanionRow)
    → j ≡ i
    → x.current_genome_id ≡ c.current_genome_id
    → x'.current_genome_id ≡ c'.current_genome_id
    → Moves db db' i c c'
    → Moves db db' j x x'
Moves-cong db db' i j c c' x x' at_i from to (stays p) = stays (to ∙ p ∙ sym from)
Moves-cong db db' i j c c' x x' at_i from to (goes g p (row, e, owned, settled) new) =
    goes g (to ∙ p) (row, e, owned ∙ sym at_i, settled) new

-- a Companion after a change, with its receipts
abbrev pub MovesIn : Db → Db → String → CompanionRow → Type 0
MovesIn db db' i c =
    (c' : CompanionRow) × (find (has_companion_id i) db'.companions ≡ some c')
    × Moves db db' i c c'
    × KeepsReceipts c c'

module _ (db db' : Db) (i : String) (c c' : CompanionRow) (w : Written db i c c')
    (kept : db'.companions
      ≡ update_where (has_companion_id c'.companion_id) (copy_persona c') db.companions) where
  -- a Companion that is written back, and the others
  written_companion :
      (j : String) (x : CompanionRow)
      → find (has_companion_id j) db.companions ≡ some x
      → (found : CompanionRow) × (find (has_companion_id j) db'.companions ≡ some found)
        × ((found ≡ x) ⊎ ((j ≡ i) × (x ≡ c) × (found ≡ copy_persona c' x)))
  written_companion j x e =
      let later =
        ap (λ rows. find (has_companion_id j) rows) kept
        ∙ find-update_where (has_companion_id j) (has_companion_id c'.companion_id)
            (copy_persona c') db.companions x (λ r. refl) e in
      elim (Bool-cases (has_companion_id c'.companion_id x)) [
        | inl hit ↦
            let at_j = ==→≡ x.companion_id j (find_sound (has_companion_id j) db.companions x e) in
            let at_i =
              ==→≡ c.companion_id i (find_sound (has_companion_id i) db.companions c w.loaded) in
            let one : j ≡ i = sym at_j ∙ ==→≡ x.companion_id c'.companion_id hit ∙ w.id ∙ at_i in
            let again : find (has_companion_id i) db.companions ≡ some x =
              ap (λ k. find (has_companion_id k) db.companions) (sym one) ∙ e in
            let loaded = w.loaded in
            (
              copy_persona c' x,
              later ∙ ap (λ b. some (if b then copy_persona c' x else x)) hit,
              inr (one, ground arith, refl),
            )
        | inr miss ↦ (x, later ∙ ap (λ b. some (if b then copy_persona c' x else x)) miss, inl refl)
      ]

  missing_companion :
      (j : String)
      → find (has_companion_id j) db.companions ≡ none
      → find (has_companion_id j) db'.companions ≡ none
  missing_companion j e =
      ap (λ rows. find (has_companion_id j) rows) kept
      ∙ find-update_where-none (has_companion_id j) (has_companion_id c'.companion_id)
          (copy_persona c') db.companions (λ r. refl) e

  -- the case of every command that writes the Companion
  written_Moves :
      Moves db db' i c c'
      → (j : String) (x : CompanionRow) → find (has_companion_id j) db.companions ≡ some x
      → MovesIn db db' j x
  written_Moves moves j x e =
      let (found, e', which) = written_companion j x e in
      elim which [
        | inl other ↦ (
          found,
          e',
          stays (ap (λ r. r.current_genome_id) other),
          KeepsReceipts-of_metadata x found (ap (λ r. r.metadata_json) other),
        )
        | inr (one, is_c, is_copy) ↦ (
          found,
          e',
          Moves-cong db db' i j c c' x found one (ap (λ r. r.current_genome_id) is_c)
              (ap (λ r. r.current_genome_id) is_copy) moves,
          (λ op json h.
              ap (receipt_at op) is_copy ∙ w.receipts op json (ap (receipt_at op) (sym is_c) ∙ h)),
        )
      ]

-- the new genome of an append, in the table that has it
appended_genome :
    (db db' : Db) (i : String) (row : PersonaGenomeRow)
    → Added db i row
    → is_committed row.status ≡ true
    → db'.persona_genomes ≡ db.persona_genomes ++ row ∷ []
    → Committed db' i row.genome_id × ((j : String) → ¬ (Committed db j row.genome_id))
appended_genome db db' i row added settled table =
    let none_yet = find-Added_before db i row added in
    (
      (row, find-Added db db' i row added table, added.companion, settled),
      (λ j (x, e, owned, s). absurd (ground arith)),
    )

-- a proposal that is committed, in the table that has the decision
activated_genome :
    (db db' : Db) (i event_id : String) (now : ℕ) (row : PersonaGenomeRow)
    → find (is_genome row.genome_id) db.persona_genomes ≡ some row
    → row.companion_id ≡ i
    → is_proposed row.status ≡ true
    → db'.persona_genomes
      ≡ update_where (is_genome row.genome_id) (set_committed now event_id) db.persona_genomes
    → Committed db' i row.genome_id × ((j : String) → ¬ (Committed db j row.genome_id))
activated_genome db db' i event_id now row found owned was table = (
  (
    set_committed now event_id row,
    ap (λ rows. find (is_genome row.genome_id) rows) table
        ∙ find-update_where (is_genome row.genome_id) (is_genome row.genome_id)
            (set_committed now event_id) db.persona_genomes row (λ r. refl) found
        ∙ ap (λ b. some (if b then set_committed now event_id row else row))
            (==-refl row.genome_id),
    owned,
    refl,
  ),
  (λ j (x, e, o, settled). absurd (ground (arith, not_proposed x.status settled))),
)

module _ (db db' : Db) (j : String) (x : CompanionRow) where
  MovesIn-of_same :
      db'.companions ≡ db.companions
      → find (has_companion_id j) db.companions ≡ some x
      → MovesIn db db' j x
  MovesIn-of_same kept e =
      (x, ap (λ rows. find (has_companion_id j) rows) kept ∙ e, stays refl, λ op json h. h)

  pub change-Moves :
      PersonaChange db db' → find (has_companion_id j) db.companions ≡ some x → MovesIn db db' j x
  change-Moves (same kept table) e = MovesIn-of_same kept e
  change-Moves (written i c c' w pointer (kept, table)) e =
      written_Moves db db' i c c' w kept (stays pointer) j x e
  change-Moves (appended i c c' new w added settled pointer (kept, table)) e =
      let (is_in, not_before) = appended_genome db db' i new added settled table in
      written_Moves db db' i c c' w kept (goes new.genome_id pointer is_in not_before) j x e
  change-Moves (drafted i new added open_row kept table) e = MovesIn-of_same kept e
  change-Moves (activated i event_id now c c' row w found owned was pointer (kept, table)) e =
      let (is_in, not_before) = activated_genome db db' i event_id now row found owned was table in
      written_Moves db db' i c c' w kept (goes row.genome_id pointer is_in not_before) j x e
  change-Moves (made_stale now row found was kept table) e = MovesIn-of_same kept e
  change-Moves (made_rejected now reason row found was kept table) e = MovesIn-of_same kept e

-- No command adds a Companion.
change-missing :
    (db db' : Db) (j : String)
    → PersonaChange db db'
    → find (has_companion_id j) db.companions ≡ none
    → find (has_companion_id j) db'.companions ≡ none
change-missing db db' j (same kept table) e = ap (λ rows. find (has_companion_id j) rows) kept ∙ e
change-missing db db' j (written i c c' w pointer (kept, table)) e =
    missing_companion db db' i c c' w kept j e
change-missing db db' j (appended i c c' new w added settled pointer (kept, table)) e =
    missing_companion db db' i c c' w kept j e
change-missing db db' j (drafted i new added open_row kept table) e =
    ap (λ rows. find (has_companion_id j) rows) kept ∙ e
change-missing db db' j (activated i ev now c c' row w found owned was pointer (kept, table)) e =
    missing_companion db db' i c c' w kept j e
change-missing db db' j (made_stale now row found was kept table) e =
    ap (λ rows. find (has_companion_id j) rows) kept ∙ e
change-missing db db' j (made_rejected now reason row found was kept table) e =
    ap (λ rows. find (has_companion_id j) rows) kept ∙ e

-- A Companion after a change was there before it.
pub moved_from :
    (db db' : Db) (j : String) (x' : CompanionRow)
    → PersonaChange db db'
    → find (has_companion_id j) db'.companions ≡ some x'
    → (x : CompanionRow) × (find (has_companion_id j) db.companions ≡ some x) × Moves db db' j x x'
moved_from db db' j x' change e' = elim (Option-cases (find (has_companion_id j) db.companions)) [
  | inl missing ↦ let gone = change-missing db db' j change missing in absurd (ground arith)
  | inr (x, e) ↦
      let (y, e'', moves, receipts) = change-Moves db db' j x change e in
      let is_y : x' ≡ y = ground arith in
      (x, e, Moves-cong db db' j j x y x x' refl refl (ap (λ r. r.current_genome_id) is_y) moves)
]
