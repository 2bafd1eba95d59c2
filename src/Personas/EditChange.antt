-- ===== src/Personas/EditChange.antt =====
-- The steps of `edit` composed.
use eidolon_data.Personas.Commands.{loaded_self, loaded_genome}
use eidolon_data.Prelude.{
  String, ◌≡◌, sym, ap, ◌∙◌, inl, inr, none, some, arith, Option-cases, JsonDict, dict_get, truthy,
  find, update_where, ok, ◌>>=◌, Result-cases, or_text, string_eq, option_eq, nat_eq,
}
use eidolon_data.Schema.{Db, Env, CompanionRow, PersonaGenomeRow}
use eidolon_data.Audit.Row.{governance_fact}
use eidolon_data.Audit.Facts.{add_fact}
use eidolon_data.Personas.Sdk.{PersonaSdk}
use eidolon_data.Personas.Genomes.{
  has_companion_id, is_genome, companion_for_edit, current_for_edit, copy_persona, write_companion,
  normalized, edit_snapshot,
}
use eidolon_data.Personas.Edits.{
  receipts_of, set_receipt, Snapshot, EditRequest, replay_receipt, plan_edit, append_if_changed,
  set_preferences, receipt_for, add_saved, save_edit, edit_new, edit,
}
use eidolon_data.Personas.Changes.{PersonaChange, same}
use eidolon_data.Personas.Receipts.{Receipted, Receipted-of_write}
use eidolon_data.Personas.EditEffects.{
  edit_snapshot_reads, plan_edit_reads, set_preferences_reads, replay_receipt_reads, Grown,
  Grown-through, append_if_changed_effect, edit_written,
}

module _ (sdk : PersonaSdk) (env : Env) (db db' : Db) (companion : CompanionRow)
    (receipts : JsonDict) (request : EditRequest sdk) (summary : String) (result : Snapshot sdk)
    (loaded : find (has_companion_id companion.companion_id) db.companions ≡ some companion)
    (read : receipts_of companion.metadata_json ≡ some receipts)
    (fresh : truthy (dict_get request.operation_id receipts) ≡ none) where
  -- what `edit_new` has done
  abbrev Edited : Type 0
  Edited = PersonaChange db db' × Receipted sdk companion.companion_id request result db'

  save_edit_change :
      (before : Snapshot sdk) (row : PersonaGenomeRow) (grown : CompanionRow) (s : Db)
      → Grown db s companion row grown
      → s.companions ≡ db.companions
      → grown.companion_id ≡ companion.companion_id
      → find (is_genome row.genome_id) s.persona_genomes ≡ some row
      → save_edit sdk env companion receipts request before (row, grown) s ≡ ok (result, db')
      → Edited
  unfolding save_edit write_companion add_saved add_fact governance_fact
  save_edit_change before row grown s is_grown kept id there ran =
      elim (Result-cases (set_preferences sdk env before request.preferences grown s)) [
        | inr (x, broke) ↦ absurd (ground arith)
        | inl ((changed, s'), e) ↦
            let (is_s, same_id, same_metadata, same_pointer) =
              set_preferences_reads sdk env s s' before request.preferences grown changed e in
            elim (Result-cases (edit_snapshot sdk changed row s')) [
              | inr (x, broke) ↦ absurd (ground arith)
              | inl ((made, s''), e') ↦
                  let (is_s', at_row) = edit_snapshot_reads sdk env s' s'' changed row made e' in
                  let table : db'.persona_genomes ≡ s.persona_genomes = ground arith in
                  let is_made : made ≡ result = ground arith in
                  let kept_row : db'.companions
                      ≡ update_where (has_companion_id changed.companion_id)
                          (copy_persona (
                            set_receipt request.operation_id (receipt_for sdk request result)
                              receipts changed))
                          db.companions =
                    ground arith in
                  (
                    edit_written sdk env db db' companion changed row receipts request result loaded
                        read fresh (same_id ∙ id)
                        (Grown-through db s db' companion grown changed row table same_pointer
                          is_grown)
                        kept_row,
                    Receipted-of_write sdk request result companion.companion_id companion changed
                        row receipts s' s'' db db' loaded (same_id ∙ id)
                        (e' ∙ ap (λ x. ok (x, s'')) is_made)
                        (ap (λ rows. find (is_genome row.genome_id) rows) table ∙ there) kept_row,
                  )
            ]
      ]

  edit_planned :
      (before : Snapshot sdk) (current : PersonaGenomeRow) (base : sdk.Genome) (s : Db)
      → s ≡ db
      → find (is_genome current.genome_id) db.persona_genomes ≡ some current
      → (plan_edit sdk companion current base summary request.action >>= λ plan.
            append_if_changed sdk env current base plan
            >>= save_edit sdk env companion receipts request before)
          s
        ≡ ok (result, db')
      → Edited
  edit_planned before current base s is_db there ran =
      elim (Result-cases (plan_edit sdk companion current base summary request.action s)) [
        | inr (x, broke) ↦ absurd (ground arith)
        | inl ((plan, t), e) ↦
            let (is_s, id, metadata, pointer) =
              plan_edit_reads sdk env s t companion current base summary request.action plan e in
            elim (Result-cases (append_if_changed sdk env current base plan t)) [
              | inr (x, broke) ↦ absurd (ground arith)
              | inl (((row, grown), t'), e') ↦
                  let (is_grown, kept, id', there') =
                    append_if_changed_effect sdk env db t' companion grown current row base plan id
                      metadata pointer there
                      (ap (append_if_changed sdk env current base plan) (sym (is_s ∙ is_db))
                        ∙ e') in
                  save_edit_change before row grown t' is_grown kept id' there' (ground arith)
            ]
      ]

  current_of_edit :
      (current : PersonaGenomeRow) (s : Db)
      → current_for_edit companion db ≡ ok (current, s)
      → (s ≡ db) × (find (is_genome current.genome_id) db.persona_genomes ≡ some current)
  unfolding current_for_edit
  current_of_edit current s e = (
    ground arith,
    loaded_genome (or_text companion.current_genome_id "") db.persona_genomes current
        (ground arith),
  )

  edit_new_change :
      edit_new sdk env companion receipts request summary db ≡ ok (result, db') → Edited
  unfolding edit_new normalized
  edit_new_change ran = elim (Result-cases (current_for_edit companion db)) [
    | inr (x, broke) ↦ absurd (ground arith)
    | inl ((current, s), e) ↦ elim (Result-cases (edit_snapshot sdk companion current s)) [
      | inr (x, broke) ↦ absurd (ground arith)
      | inl ((before, s'), e') ↦
          let (is_db, there) = current_of_edit current s e in
          let (is_s, at_current) = edit_snapshot_reads sdk env s s' companion current before e' in
          elim (Option-cases (sdk.normalize current.genome_json)) [
            | inl missing ↦ absurd (ground arith)
            | inr (base, valid) ↦
                edit_planned before current base s' (is_s ∙ is_db) there (ground arith)
          ]
    ]
  ]

module _ (sdk : PersonaSdk) (env : Env) (db db' : Db) (request : EditRequest sdk) (summary : String)
    (result : Snapshot sdk) where
  edit_loaded :
      (i : String) (companion : CompanionRow) (receipts : JsonDict)
      → find (has_companion_id i) db.companions ≡ some companion
      → receipts_of companion.metadata_json ≡ some receipts
      → edit sdk env i request summary db ≡ ok (result, db')
      → PersonaChange db db' × Receipted sdk i request result db'
  unfolding edit companion_for_edit
  edit_loaded i companion receipts found read ran =
      elim (Option-cases (truthy (dict_get request.operation_id receipts))) [
        | inl fresh ↦
            let (is_i, loaded) = loaded_self i db.companions companion found in
            let (change, r) =
              edit_new_change sdk env db db' companion receipts request summary result loaded read
                fresh (ground arith) in
            (
              change,
              record {
                companion = r.companion;
                found = ap (λ k. find (has_companion_id k) db'.companions) (sym is_i) ∙ r.found;
                json = r.json;
                stored = r.stored;
                told = r.told;
              },
            )
        | inr (json, done) ↦
            let ran' : replay_receipt sdk request json db ≡ ok (result, db') = ground arith in
            let is_db = replay_receipt_reads sdk env db db' request json result ran' in
            (
              same (ap (λ s. s.companions) is_db) (ap (λ s. s.persona_genomes) is_db),
              record {
                companion = companion;
                found = ap (λ s. find (has_companion_id i) s.companions) is_db ∙ found;
                json = json;
                stored = ground arith;
                told = ap (replay_receipt sdk request json) is_db ∙ ran';
              },
            )
      ]

  pub edit_effect :
      (i : String)
      → edit sdk env i request summary db ≡ ok (result, db')
      → PersonaChange db db' × Receipted sdk i request result db'
  unfolding edit companion_for_edit
  edit_effect i ran = elim (Option-cases (find (has_companion_id i) db.companions)) [
    | inl missing ↦ absurd (ground arith)
    | inr (companion, found) ↦ elim (Option-cases (receipts_of companion.metadata_json)) [
      | inl broken ↦ absurd (ground arith)
      | inr (receipts, read) ↦ edit_loaded i companion receipts found read ran
    ]
  ]
