-- ===== src/Personas/Locks.antt =====
-- Changes against a base that is no longer current.
use eidolon_data.Personas.Current.{or_text_empty, HasLeft, perform_all-HasLeft}
use eidolon_data.Personas.Pointers.{Committed}
use eidolon_data.Personas.Calls.{PersonaAction, perform_all}
use eidolon_data.Prelude.{
  String, ◌≡◌, sym, ap, ◌∙◌, inl, inr, true, false, none, some, List, arith, ==→≡, Option-cases,
  find, find_sound, ok, Result-cases, or_text, is_empty, string_eq, option_eq, nat_eq,
}
use eidolon_data.Schema.{Db, Env, CompanionRow, PersonaGenomeRow}
use eidolon_data.Personas.Sdk.{PersonaSdk}
use eidolon_data.Personas.Genomes.{
  has_companion_id, is_genome, companion_for_edit, current_for_edit, edit_snapshot,
}
use eidolon_data.Personas.Edits.{receipts_of, Snapshot, EditRequest, edit_new, edit}
use eidolon_data.Personas.Changes.{receipt_at}

module _ (sdk : PersonaSdk) (env : Env) (i : String) (request : EditRequest sdk) (summary : String)
    (c : CompanionRow) where
  -- without a receipt, `edit` returns only where the expected base is the current genome
  edit_base :
      (db db' : Db) (result : Snapshot sdk)
      → find (has_companion_id i) db.companions ≡ some c
      → receipt_at request.operation_id c ≡ none
      → edit sdk env i request summary db ≡ ok (result, db')
      → (row : PersonaGenomeRow) × (find
            (is_genome (or_text c.current_genome_id ""))
            db.persona_genomes
          ≡ some row)
        × (row.genome_id ≡ request.expected_base_genome_id)
  unfolding edit companion_for_edit edit_new current_for_edit
  edit_base db db' result found fresh ran = elim (Option-cases (receipts_of c.metadata_json)) [
    | inl broken ↦ absurd (ground arith)
    | inr (receipts, e) ↦
        elim (Option-cases (find (is_genome (or_text c.current_genome_id "")) db.persona_genomes)) [
          | inl missing ↦ absurd (ground arith)
          | inr (row, e') ↦ elim (Result-cases (edit_snapshot sdk c row db)) [
            | inr (x, broke) ↦ absurd (ground arith)
            | inl ((before, s), e'') ↦
                (row, e', ==→≡ row.genome_id request.expected_base_genome_id (ground arith))
          ]
        ]
  ]

-- An edit of a base that is no longer current never returns: once the committed genome that a new
-- request expects, by an id that is not empty, is not the Companion's current one, the request raises
-- after any calls, unless its operation is one that has been done.
pub edit-HasLeft :
    (sdk : PersonaSdk) (env : Env) (actions : List (Env × PersonaAction sdk)) (db db' : Db)
    (i summary : String) (request : EditRequest sdk) (c : CompanionRow) (result : Snapshot sdk)
    → is_empty request.expected_base_genome_id ≡ false
    → Committed db i request.expected_base_genome_id
    → HasLeft i request.expected_base_genome_id db
    → find (has_companion_id i) (perform_all sdk actions db).companions ≡ some c
    → receipt_at request.operation_id c ≡ none
    → ¬ (edit sdk env i request summary (perform_all sdk actions db) ≡ ok (result, db'))
edit-HasLeft sdk env actions db db' i summary request c result some_id old away found fresh ran =
    let now = perform_all sdk actions db in
    let (row, e, at_base) = edit_base sdk env i request summary c now db' result found fresh ran in
    let left =
      perform_all-HasLeft sdk actions db i request.expected_base_genome_id old away c found in
    let named = find_sound (is_genome (or_text c.current_genome_id "")) now.persona_genomes row e in
    let is_id = ==→≡ row.genome_id (or_text c.current_genome_id "") named in
    elim (Option-cases c.current_genome_id) [
      | inl nowhere ↦
          let blank : request.expected_base_genome_id ≡ "" =
            sym at_base ∙ is_id ∙ ap (λ o. or_text o "") nowhere in
          let no : is_empty request.expected_base_genome_id ≡ true = ap is_empty blank in
          absurd (ground arith)
      | inr (g, points) ↦ left (
          points
          ∙ ap some (sym (ap (λ o. or_text o "") points ∙ or_text_empty g) ∙ sym is_id ∙ at_base))
    ]
