-- ===== src/Personas/Receipts.antt =====
-- The receipt that `edit` stores, read back.
use eidolon_data.Prelude.{
  String, ◌≡◌, refl, ap, ◌∙◌, some, arith, if◌then◌else◌, ◌==◌, ==-refl, Json, JsonDict,
  of_fields-to_fields, find, update_where, find-update_where, ok, string_eq, option_eq, nat_eq,
}
use eidolon_data.Schema.{Db, CompanionRow, PersonaGenomeRow}
use eidolon_data.Personas.Sdk.{PersonaSdk}
use eidolon_data.Personas.Genomes.{
  has_companion_id, is_genome, copy_persona, normalized, read_preferences, make_snapshot,
  edit_snapshot,
}
use eidolon_data.Personas.Edits.{
  Receipt, receipt_json, set_receipt, Snapshot, EditRequest, replay_receipt, receipt_for,
}
use eidolon_data.Personas.Changes.{receipt_at}
use eidolon_data.Personas.EditEffects.{receipt_at-set_receipt}

-- The receipt of a request is stored, and it tells `result`.
pub record Receipted (sdk : PersonaSdk) (i : String) (request : EditRequest sdk)
    (result : Snapshot sdk) (db : Db) : Type 0 where
  pub companion : CompanionRow
  pub found : find (has_companion_id i) db.companions ≡ some companion
  pub json : Json
  pub stored : receipt_at request.operation_id companion ≡ some json
  pub told : replay_receipt sdk request json db ≡ ok (result, db)

module _ (sdk : PersonaSdk) (request : EditRequest sdk) (result : Snapshot sdk) where
  replay_of_snapshot :
      (changed : CompanionRow) (row : PersonaGenomeRow) (s s' db' : Db)
      → edit_snapshot sdk changed row s ≡ ok (result, s')
      → find (is_genome row.genome_id) db'.persona_genomes ≡ some row
      → replay_receipt sdk request (receipt_json (receipt_for sdk request result)) db'
        ≡ ok (result, db')
  unfolding replay_receipt edit_snapshot read_preferences normalized make_snapshot
  replay_of_snapshot changed row s s' db' made found =
      let back = of_fields-to_fields (sdk.dump_preferences result.preferences) in
      let law = sdk.validate-dump_preferences result.preferences in
      let known = ==-refl (sdk.fingerprint request) in
      let at_row : result.genome_id ≡ row.genome_id = ground arith in
      let there : find (is_genome result.genome_id) db'.persona_genomes ≡ some row =
        ap (λ k. find (is_genome k) db'.persona_genomes) at_row ∙ found in
      ground arith

  pub Receipted-of_write :
      (i : String) (companion changed : CompanionRow) (row : PersonaGenomeRow) (receipts : JsonDict)
      (s s' db db' : Db)
      → find (has_companion_id i) db.companions ≡ some companion
      → changed.companion_id ≡ companion.companion_id
      → edit_snapshot sdk changed row s ≡ ok (result, s')
      → find (is_genome row.genome_id) db'.persona_genomes ≡ some row
      → (db'.companions
          ≡ update_where
              (has_companion_id changed.companion_id)
              (copy_persona (
                set_receipt request.operation_id (receipt_for sdk request result) receipts changed))
              db.companions)
      → Receipted sdk i request result db'
  Receipted-of_write i companion changed row receipts s s' db db' loaded id made found kept =
      let done : Receipt = receipt_for sdk request result in
      let end : CompanionRow = set_receipt request.operation_id done receipts changed in
      record {
        companion = copy_persona end companion;
        found =
            ap (λ rows. find (has_companion_id i) rows) kept
            ∙ find-update_where (has_companion_id i) (has_companion_id changed.companion_id)
                (copy_persona end) db.companions companion (λ r. refl) loaded
            ∙ ap
                (λ k.
                  some
                    (if companion.companion_id == k then copy_persona end companion else companion))
                id
            ∙ ap (λ b. some (if b then copy_persona end companion else companion))
                (==-refl companion.companion_id);
        json = receipt_json done;
        stored = receipt_at-set_receipt request.operation_id done receipts changed;
        told = replay_of_snapshot changed row s s' db' made found;
      }
