-- ===== src/Personas/EditEffects.antt =====
-- What `edit` has done when it returns.
use eidolon_data.Prelude.{
  String, ◌≡◌, sym, ap, ◌∙◌, inl, inr, true, not, ◌||◌, Option, none, some, [], ◌∷◌, ◌++◌, arith,
  if◌then◌else◌, ==-refl, ==→≡, Bool-cases, Json, obj, JsonDict, dict_get, dict_set, to_fields,
  as_dict, truthy, of_fields-to_fields, dict_get-dict_set, find, update_where, ok, string_eq,
  option_eq, nat_eq,
}
use eidolon_data.Schema.{Db, Env, CompanionRow, PersonaGenomeRow, is_committed}
use eidolon_data.Personas.Sdk.{EditAction, rename_to, restore_from, author_persona, PersonaSdk}
use eidolon_data.Personas.Genomes.{
  has_companion_id, is_genome, copy_persona, normalized, read_preferences, make_snapshot,
  edit_snapshot,
}
use eidolon_data.Personas.Edits.{
  Receipt, receipt_json, receipts_of, set_receipt, Plan, moves_to, load_target, Snapshot,
  EditRequest, replay_receipt, plan_edit, append_if_changed, change_preferences, set_preferences,
  receipt_for,
}
use eidolon_data.Personas.Changes.{
  receipt_at, KeepsReceipts, Added, PersonaChange, written, appended, append_persona_effect,
  find-Added,
}

module _ (sdk : PersonaSdk) (env : Env) (db db' : Db) where
  -- `edit_snapshot` reads, and so do the steps before the append
  pub edit_snapshot_reads :
      (companion : CompanionRow) (current : PersonaGenomeRow) (result : Snapshot sdk)
      → edit_snapshot sdk companion current db ≡ ok (result, db')
      → (db' ≡ db) × (result.genome_id ≡ current.genome_id)
  unfolding edit_snapshot normalized read_preferences make_snapshot
  edit_snapshot_reads companion current result ran = (ground arith, ground arith)

  pub plan_edit_reads :
      (companion : CompanionRow) (current : PersonaGenomeRow) (base : sdk.Genome) (summary : String)
      (action : EditAction sdk.Authoring) (plan : Plan sdk.Genome)
      → plan_edit sdk companion current base summary action db ≡ ok (plan, db')
      → (db' ≡ db)
        × (plan.companion.companion_id ≡ companion.companion_id)
        × (plan.companion.metadata_json ≡ companion.metadata_json)
        × (plan.companion.current_genome_id ≡ companion.current_genome_id)
  unfolding plan_edit load_target normalized
  plan_edit_reads companion current base summary (rename_to name) plan ran =
      (ground arith, ground arith, ground arith, ground arith)
  plan_edit_reads companion current base summary (restore_from genome_id) plan ran =
      (ground arith, ground arith, ground arith, ground arith)
  plan_edit_reads companion current base summary (author_persona persona) plan ran =
      (ground arith, ground arith, ground arith, ground arith)

  pub set_preferences_reads :
      (before : Snapshot sdk) (preferences : Option sdk.Preferences) (companion c' : CompanionRow)
      → set_preferences sdk env before preferences companion db ≡ ok (c', db')
      → (db' ≡ db)
        × (c'.companion_id ≡ companion.companion_id)
        × (c'.metadata_json ≡ companion.metadata_json)
        × (c'.current_genome_id ≡ companion.current_genome_id)
  unfolding set_preferences change_preferences read_preferences
  set_preferences_reads before none companion c' ran =
      (ground arith, ground arith, ground arith, ground arith)
  set_preferences_reads before (some p) companion c' ran =
      (ground arith, ground arith, ground arith, ground arith)

  pub replay_receipt_reads :
      (request : EditRequest sdk) (json : Json) (result : Snapshot sdk)
      → replay_receipt sdk request json db ≡ ok (result, db')
      → db' ≡ db
  unfolding replay_receipt normalized make_snapshot
  replay_receipt_reads request json result ran = ground arith

-- The receipts of a Companion, with one more.
pub receipts_of-set_receipt :
    (op : String) (done : Receipt) (receipts : JsonDict) (c : CompanionRow)
    → receipts_of (set_receipt op done receipts c).metadata_json
      ≡ some (dict_set op (receipt_json done) receipts)
receipts_of-set_receipt op done receipts c =
    let kept = dict_set op (receipt_json done) receipts in
    ap as_dict (
      dict_get-dict_set "persona_operations" "persona_operations" (obj (to_fields kept))
        c.metadata_json)
    ∙ ap some (of_fields-to_fields kept)

pub receipt_at-set_receipt :
    (op : String) (done : Receipt) (receipts : JsonDict) (c : CompanionRow)
    → receipt_at op (set_receipt op done receipts c) ≡ some (receipt_json done)
receipt_at-set_receipt op done receipts c =
    ap (λ r. elim r [ none ↦ none | some found ↦ truthy (dict_get op found) ])
      (receipts_of-set_receipt op done receipts c)
    ∙ ap truthy (dict_get-dict_set op op (receipt_json done) receipts)
    ∙ ap (λ b. truthy (if b then some (receipt_json done) else dict_get op receipts)) (==-refl op)

KeepsReceipts-set_receipt :
    (op : String) (done : Receipt) (receipts : JsonDict) (c c' : CompanionRow)
    → receipts_of c.metadata_json ≡ some receipts
    → truthy (dict_get op receipts) ≡ none
    → KeepsReceipts c (set_receipt op done receipts c')
KeepsReceipts-set_receipt op done receipts c c' e fresh key json h = ground (
  arith,
  receipts_of-set_receipt op done receipts c',
  dict_get-dict_set key op (receipt_json done) receipts,
  ==→≡ op key,
)

-- `edit_new` up to its last write: what it finds of the Companion and the genomes then
pub data Grown (db db' : Db) (companion : CompanionRow) (row : PersonaGenomeRow) (c' : CompanionRow)
    : Type 0 where
  stayed :
      c'.current_genome_id ≡ companion.current_genome_id
      → db'.persona_genomes ≡ db.persona_genomes
      → Grown db db' companion row c'
  grew :
      Added db companion.companion_id row
      → is_committed row.status ≡ true
      → c'.current_genome_id ≡ some row.genome_id
      → db'.persona_genomes ≡ db.persona_genomes ++ row ∷ []
      → Grown db db' companion row c'

pub Grown-through :
    (db s db' : Db) (companion c c' : CompanionRow) (row : PersonaGenomeRow)
    → db'.persona_genomes ≡ s.persona_genomes
    → c'.current_genome_id ≡ c.current_genome_id
    → Grown db s companion row c
    → Grown db db' companion row c'
Grown-through db s db' companion c c' row table pointer (stayed old kept) =
    stayed (pointer ∙ old) (table ∙ kept)
Grown-through db s db' companion c c' row table pointer (grew is_added is_settled moved grown) =
    grew is_added is_settled (pointer ∙ moved) (table ∙ grown)

module _ (sdk : PersonaSdk) (env : Env) (db db' : Db) where
  stayed_found :
      {current row : PersonaGenomeRow}
      → current ≡ row
      → db'.persona_genomes ≡ db.persona_genomes
      → find (is_genome current.genome_id) db.persona_genomes ≡ some current
      → find (is_genome row.genome_id) db'.persona_genomes ≡ some row
  stayed_found {current = current} is_row table e =
      ap (λ r. find (is_genome r.genome_id) db'.persona_genomes) (sym is_row)
      ∙ ap (λ rows. find (is_genome current.genome_id) rows) table
      ∙ e
      ∙ ap some is_row

  pub append_if_changed_effect :
      (companion c' : CompanionRow) (current row : PersonaGenomeRow) (base : sdk.Genome)
      (plan : Plan sdk.Genome)
      → plan.companion.companion_id ≡ companion.companion_id
      → plan.companion.metadata_json ≡ companion.metadata_json
      → plan.companion.current_genome_id ≡ companion.current_genome_id
      → find (is_genome current.genome_id) db.persona_genomes ≡ some current
      → append_if_changed sdk env current base plan db ≡ ok ((row, c'), db')
      → Grown db db' companion row c'
        × (db'.companions ≡ db.companions)
        × (c'.companion_id ≡ companion.companion_id)
        × (find (is_genome row.genome_id) db'.persona_genomes ≡ some row)
  unfolding append_if_changed
  append_if_changed_effect companion c' current row base plan id metadata pointer at_current ran =
      elim (Bool-cases
        (not (sdk.same_persona plan.candidate base) || moves_to plan.target current)) [
          | inl moves ↦
              let (is_added, is_settled, moved, kept, table) =
                append_persona_effect sdk env plan.companion c' current row plan.candidate
                  plan.source plan.summary plan.target db db' (ground arith) in
              (
                grew (record { free = is_added.free; companion = is_added.companion ∙ id })
                    is_settled (ground arith) table,
                kept,
                ground arith,
                find-Added db db' plan.companion.companion_id row is_added table,
              )
          | inr stays ↦ (
            stayed (ground arith) (ground arith),
            ground arith,
            ground arith,
            stayed_found (ground arith) (ground arith) at_current,
          )
        ]

module _ (sdk : PersonaSdk) (env : Env) (db db' : Db) where
  pub edit_written :
      (companion c' : CompanionRow) (row : PersonaGenomeRow) (receipts : JsonDict)
      (request : EditRequest sdk) (result : Snapshot sdk)
      → find (has_companion_id companion.companion_id) db.companions ≡ some companion
      → receipts_of companion.metadata_json ≡ some receipts
      → truthy (dict_get request.operation_id receipts) ≡ none
      → c'.companion_id ≡ companion.companion_id
      → Grown db db' companion row c'
      → (db'.companions
          ≡ update_where
              (has_companion_id c'.companion_id)
              (copy_persona
                (set_receipt request.operation_id (receipt_for sdk request result) receipts c'))
              db.companions)
      → PersonaChange db db'
  edit_written companion c' row receipts request result loaded e fresh id (stayed pointer table)
        kept =
      let done : Receipt = receipt_for sdk request result in
      written companion.companion_id companion (set_receipt request.operation_id done receipts c')
        (record {
          loaded = loaded;
          id = id;
          receipts =
              KeepsReceipts-set_receipt request.operation_id done receipts companion c' e fresh;
        })
        pointer (kept, table)
  edit_written companion c' row receipts request result loaded e fresh id
        (grew is_added is_settled pointer table) kept =
      let done : Receipt = receipt_for sdk request result in
      appended companion.companion_id companion (set_receipt request.operation_id done receipts c')
        row
        (record {
          loaded = loaded;
          id = id;
          receipts =
              KeepsReceipts-set_receipt request.operation_id done receipts companion c' e fresh;
        })
        is_added is_settled pointer (kept, table)
