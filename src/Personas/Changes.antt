-- ===== src/Personas/Changes.antt =====
-- What the commands do to the genomes and the Companions.
use eidolon_data.Personas.Restores.{append_restored}
use eidolon_data.Prelude.{
  ℕ, String, ◌≡◌, ap, ◌∙◌, inl, inr, true, false, Option, none, some, List, [], ◌∷◌, ◌++◌, arith,
  if◌then◌else◌, ==-refl, Option-cases, Json, dict_get, truthy, find, update_where, exists_where,
  find-append_none, find-none_of_exists, exists_where_imp, ok, Result-cases, nat_eq, string_eq,
  option_eq,
}
use eidolon_data.Schema.{Db, Env, CompanionRow, PersonaGenomeRow, is_committed, is_proposed}
use eidolon_data.Audit.Row.{governance_fact}
use eidolon_data.Audit.Facts.{add_fact}
use eidolon_data.Personas.Sdk.{PersonaSdk}
use eidolon_data.Personas.Genomes.{
  has_companion_id, is_genome, genome_clashes, add_genome, copy_persona, write_companion, event,
  pointed_to, normalized, genome_of_arguments, owned_payload, genome_row, add_rolled_back,
  append_persona,
}
use eidolon_data.Personas.Edits.{receipts_of}
use eidolon_data.Personas.Evolution.{set_stale, set_rejected, set_committed}

-- The receipt of an operation, where a replay finds it.
abbrev pub receipt_at : String → CompanionRow → Option Json
receipt_at op c = elim (receipts_of c.metadata_json) [
  | none ↦ none
  | some receipts ↦ truthy (dict_get op receipts)
]

abbrev pub KeepsReceipts : CompanionRow → CompanionRow → Type 0
KeepsReceipts c c' =
    (op : String) (json : Json) → receipt_at op c ≡ some json → receipt_at op c' ≡ some json

-- A loaded Companion as it is written back.
pub record Written (db : Db) (i : String) (c c' : CompanionRow) : Type 0 where
  pub loaded : find (has_companion_id i) db.companions ≡ some c
  pub id : c'.companion_id ≡ c.companion_id
  pub receipts : KeepsReceipts c c'

-- A genome that a command adds.
pub record Added (db : Db) (i : String) (row : PersonaGenomeRow) : Type 0 where
  pub free : exists_where (genome_clashes row) db.persona_genomes ≡ false
  pub companion : row.companion_id ≡ i

-- Companion `i` is written back as `c'`, and the genomes are `rows`.
abbrev pub Updates : Db → String → CompanionRow → List PersonaGenomeRow → Db → Type 0
Updates db i c' rows db' =
    (db'.companions
      ≡ update_where (has_companion_id c'.companion_id) (copy_persona c') db.companions)
    × (db'.persona_genomes ≡ rows)

pub data PersonaChange (db db' : Db) : Type 0 where
  same :
      db'.companions ≡ db.companions
      → db'.persona_genomes ≡ db.persona_genomes
      → PersonaChange db db'
  -- the Companion alone, under its old pointer
  written :
      (i : String) (c c' : CompanionRow)
      → Written db i c c'
      → c'.current_genome_id ≡ c.current_genome_id
      → Updates db i c' db.persona_genomes db'
      → PersonaChange db db'
  -- a new committed genome, to which the pointer moves
  appended :
      (i : String) (c c' : CompanionRow) (row : PersonaGenomeRow)
      → Written db i c c'
      → Added db i row
      → is_committed row.status ≡ true
      → c'.current_genome_id ≡ some row.genome_id
      → Updates db i c' (db.persona_genomes ++ row ∷ []) db'
      → PersonaChange db db'
  -- a new genome that is not committed
  drafted :
      (i : String) (row : PersonaGenomeRow)
      → Added db i row
      → is_committed row.status ≡ false
      → db'.companions ≡ db.companions
      → db'.persona_genomes ≡ db.persona_genomes ++ row ∷ []
      → PersonaChange db db'
  -- a proposal that is committed, to which the pointer moves
  activated :
      (i e : String) (now : ℕ) (c c' : CompanionRow) (row : PersonaGenomeRow)
      → Written db i c c'
      → find (is_genome row.genome_id) db.persona_genomes ≡ some row
      → row.companion_id ≡ i
      → is_proposed row.status ≡ true
      → c'.current_genome_id ≡ some row.genome_id
      → Updates db i c'
          (update_where (is_genome row.genome_id) (set_committed now e) db.persona_genomes)
          db'
      → PersonaChange db db'
  -- a proposal that becomes stale, or is rejected
  made_stale :
      (now : ℕ) (row : PersonaGenomeRow)
      → find (is_genome row.genome_id) db.persona_genomes ≡ some row
      → is_proposed row.status ≡ true
      → db'.companions ≡ db.companions
      → db'.persona_genomes
        ≡ update_where (is_genome row.genome_id) (set_stale now) db.persona_genomes
      → PersonaChange db db'
  made_rejected :
      (now : ℕ) (reason : String) (row : PersonaGenomeRow)
      → find (is_genome row.genome_id) db.persona_genomes ≡ some row
      → is_proposed row.status ≡ true
      → db'.companions ≡ db.companions
      → db'.persona_genomes
        ≡ update_where (is_genome row.genome_id) (set_rejected now reason) db.persona_genomes
      → PersonaChange db db'

module _ (sdk : PersonaSdk) (env : Env) (companion c' : CompanionRow)
    (current row : PersonaGenomeRow) (candidate : sdk.Genome) (source summary : String)
    (restored : Option PersonaGenomeRow) (db db' : Db) where
  -- `_append_persona` adds one committed genome and points the Companion to it
  pub append_persona_effect :
      append_persona sdk env companion current candidate source summary restored db
        ≡ ok ((row, c'), db')
      → Added db companion.companion_id row
        × (is_committed row.status ≡ true)
        × (c' ≡ pointed_to env row companion)
        × (db'.companions ≡ db.companions)
        × (db'.persona_genomes ≡ db.persona_genomes ++ row ∷ [])
  unfolding append_persona genome_row genome_of_arguments normalized owned_payload add_genome
      add_fact add_rolled_back event governance_fact
  append_persona_effect ran = (
    record { free = ground arith; companion = ground arith },
    ground arith,
    ground arith,
    ground arith,
    ground arith,
  )

-- An added genome is new, and it is found by its id.
pub find-Added_before :
    (db : Db) (i : String) (row : PersonaGenomeRow)
    → Added db i row
    → find (is_genome row.genome_id) db.persona_genomes ≡ none
find-Added_before db i row added =
    find-none_of_exists (is_genome row.genome_id) db.persona_genomes (
      exists_where_imp (genome_clashes row) (is_genome row.genome_id) db.persona_genomes
        (λ r h. ground arith) added.free)

pub find-Added :
    (db db' : Db) (i : String) (row : PersonaGenomeRow)
    → Added db i row
    → db'.persona_genomes ≡ db.persona_genomes ++ row ∷ []
    → find (is_genome row.genome_id) db'.persona_genomes ≡ some row
find-Added db db' i row added table =
    let at_end : find (is_genome row.genome_id) (row ∷ []) ≡ some row =
      ap (λ b. if b then some row else none) (==-refl row.genome_id) in
    ap (λ rows. find (is_genome row.genome_id) rows) table
    ∙ find-append_none (is_genome row.genome_id) db.persona_genomes (row ∷ [])
        (find-Added_before db i row added)
    ∙ at_end

pub KeepsReceipts-of_metadata :
    (c c' : CompanionRow) → c'.metadata_json ≡ c.metadata_json → KeepsReceipts c c'
KeepsReceipts-of_metadata c c' e op json h = rw e h

module _ (sdk : PersonaSdk) (env : Env) (companion : CompanionRow)
    (current target row : PersonaGenomeRow) (summary : String) (db db' : Db)
    (loaded : find (has_companion_id companion.companion_id) db.companions ≡ some companion) where
  pub append_restored_change :
      append_restored sdk env companion current target summary db ≡ ok (row, db')
      → PersonaChange db db'
  unfolding append_restored normalized write_companion
  append_restored_change ran = elim (Option-cases (sdk.normalize target.genome_json)) [
    | inl missing ↦ absurd (ground arith)
    | inr (genome, valid) ↦
        elim (Result-cases (
          append_persona sdk env companion current (sdk.with_name companion.display_name genome)
            "owner_restore" summary (some target) db)) [
              | inr (x, e) ↦ absurd (ground arith)
              | inl (((row', c'), s), e) ↦
                  let (is_added, is_settled, moved, kept, table) =
                    append_persona_effect sdk env companion c' current row'
                      (sdk.with_name companion.display_name genome) "owner_restore" summary
                      (some target) db s e in
                  appended companion.companion_id companion c' row'
                    (record {
                      loaded = loaded;
                      id = ground arith;
                      receipts = KeepsReceipts-of_metadata companion c' (ground arith);
                    })
                    is_added is_settled (ground arith) (ground arith, ground arith)
            ]
  ]
