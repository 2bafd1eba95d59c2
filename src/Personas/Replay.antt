-- ===== src/Personas/Replay.antt =====
-- `edit` is idempotent in its operation id.
use eidolon_data.Personas.EditChange.{edit_effect}
use eidolon_data.Personas.Calls.{PersonaAction, perform_all, always_keeps}
use eidolon_data.Personas.Receipts.{Receipted}
use eidolon_data.Prelude.{
  String, ◌≡◌, ap, ◌∙◌, inl, inr, false, none, some, List, arith, ◌==◌, ==→≡, Option-cases, Json,
  dict_get, as_dict, find, ok, err, string_eq, option_eq, nat_eq,
}
use eidolon_data.Schema.{Db, Env}
use eidolon_data.Personas.Sdk.{PersonaSdk}
use eidolon_data.Personas.Genomes.{
  operation_conflict, conflict, is_genome, companion_for_edit, normalized, make_snapshot,
}
use eidolon_data.Personas.Edits.{text_of, receipts_of, Snapshot, EditRequest, replay_receipt, edit}
use eidolon_data.Personas.Changes.{receipt_at, PersonaChange}
use eidolon_data.Personas.Decided.{change-Evolves}
use eidolon_data.Personas.Pointers.{change-Moves}

module _ (sdk : PersonaSdk) (i : String) (request : EditRequest sdk) (result : Snapshot sdk) where
  -- a replay reads the content of one stored genome, which no later call changes
  replay_receipt_later :
      (db db' : Db) (json : Json)
      → PersonaChange db db'
      → replay_receipt sdk request json db ≡ ok (result, db)
      → replay_receipt sdk request json db' ≡ ok (result, db')
  unfolding replay_receipt normalized make_snapshot
  replay_receipt_later db db' json change told = elim (Option-cases (as_dict (some json))) [
    | inl broken ↦ absurd (ground arith)
    | inr (d, e) ↦ elim (Option-cases (text_of (dict_get "genome_id" d))) [
      | inl no_id ↦ absurd (ground arith)
      | inr (id, e') ↦ elim (Option-cases (find (is_genome id) db.persona_genomes)) [
        | inl missing ↦ absurd (ground arith)
        | inr (original, e'') ↦
            let (later, found, evolved) = change-Evolves id original db db' change e'' in
            let same_content = evolved.content in
            let same_id = evolved.genome_id in
            let normal : sdk.normalize later.genome_json ≡ sdk.normalize original.genome_json =
              ap sdk.normalize same_content in
            ground arith
      ]
    ]
  ]

  Receipted-step :
      (db db' : Db)
      → PersonaChange db db'
      → Receipted sdk i request result db
      → Receipted sdk i request result db'
  Receipted-step db db' change r =
      let (c', e, moves, receipts) = change-Moves db db' i r.companion change r.found in
      record {
        companion = c';
        found = e;
        json = r.json;
        stored = receipts request.operation_id r.json r.stored;
        told = replay_receipt_later db db' r.json change r.told;
      }

  -- the replay of a stored receipt
  edit-Receipted :
      (env : Env) (summary : String) (db : Db)
      → Receipted sdk i request result db
      → edit sdk env i request summary db ≡ ok (result, db)
  unfolding edit companion_for_edit
  edit-Receipted env summary db r =
      let found = r.found in
      let stored = r.stored in
      let told = r.told in
      elim (Option-cases (receipts_of r.companion.metadata_json)) [
        | inl broken ↦ absurd (ground arith)
        | inr (receipts, e) ↦ ground arith
      ]

-- Once `edit` has returned, the same request gives the same result after any calls, and changes
-- nothing: neither the Companions, nor the genomes, nor the audit outbox.
pub edit-again :
    (sdk : PersonaSdk) (env env' : Env) (i summary summary' : String) (request : EditRequest sdk)
    (result : Snapshot sdk) (actions : List (Env × PersonaAction sdk)) (db db' : Db)
    → edit sdk env i request summary db ≡ ok (result, db')
    → edit sdk env' i request summary' (perform_all sdk actions db')
      ≡ ok (result, perform_all sdk actions db')
edit-again sdk env env' i summary summary' request result actions db db' ran =
    edit-Receipted sdk i request result env' summary' (perform_all sdk actions db') (
      always_keeps sdk (Receipted sdk i request result) (Receipted-step sdk i request result)
        actions db' (edit_effect sdk env db db' request summary result i ran).1)

module _ (sdk : PersonaSdk) (i : String) (request other : EditRequest sdk) (result : Snapshot sdk)
    (same_operation : other.operation_id ≡ request.operation_id)
    (differs : (sdk.fingerprint request == sdk.fingerprint other) ≡ false) where
  replay_other :
      (db : Db) (json : Json)
      → replay_receipt sdk request json db ≡ ok (result, db)
      → replay_receipt sdk other json db ≡ err (conflict operation_conflict none)
  unfolding replay_receipt
  replay_other db json told = elim (Option-cases (as_dict (some json))) [
    | inl broken ↦ absurd (ground arith)
    | inr (d, e) ↦ elim (Option-cases (text_of (dict_get "fingerprint" d))) [
      | inl no_text ↦ absurd (ground arith)
      | inr (f, e') ↦
          let is_known : f ≡ sdk.fingerprint request =
            ==→≡ f (sdk.fingerprint request) (ground arith) in
          let unlike : (f == sdk.fingerprint other) ≡ false =
            ap (λ k. k == sdk.fingerprint other) is_known ∙ differs in
          ground arith
    ]
  ]

  edit_other :
      (env : Env) (summary : String) (db : Db)
      → Receipted sdk i request result db
      → edit sdk env i other summary db ≡ err (conflict operation_conflict none)
  unfolding edit companion_for_edit
  edit_other env summary db r =
      let found = r.found in
      let stored : receipt_at other.operation_id r.companion ≡ some r.json =
        ap (λ op. receipt_at op r.companion) same_operation ∙ r.stored in
      let told = replay_other db r.json r.told in
      elim (Option-cases (receipts_of r.companion.metadata_json)) [
        | inl broken ↦ absurd (ground arith)
        | inr (receipts, e) ↦ ground arith
      ]

-- Once `edit` has returned, another request under the same operation id (one with another
-- fingerprint) raises the conflict of operations after any calls.
pub edit-operation_conflict :
    (sdk : PersonaSdk) (env env' : Env) (i summary summary' : String)
    (request other : EditRequest sdk) (result : Snapshot sdk)
    (actions : List (Env × PersonaAction sdk)) (db db' : Db)
    → edit sdk env i request summary db ≡ ok (result, db')
    → other.operation_id ≡ request.operation_id
    → (sdk.fingerprint request == sdk.fingerprint other) ≡ false
    → edit sdk env' i other summary' (perform_all sdk actions db')
      ≡ err (conflict operation_conflict none)
edit-operation_conflict sdk env env' i summary summary' request other result actions db db' ran h
      d =
    edit_other sdk i request other result h d env' summary' (perform_all sdk actions db') (
      always_keeps sdk (Receipted sdk i request result) (Receipted-step sdk i request result)
        actions db' (edit_effect sdk env db db' request summary result i ran).1)
