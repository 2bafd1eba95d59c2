-- ===== src/Tests/PersonaTheorems.antt =====
-- The theorems on personas, at the data of Tests.Personas.
use eidolon_data.Personas.Approvals.{Decision, approve_evolution_lem}
use eidolon_data.Personas.Locks.{edit-HasLeft}
use eidolon_data.Personas.Walk.{walk_to_origin_ends}
use eidolon_data.Personas.Replay.{edit-again, edit-operation_conflict}
use eidolon_data.Personas.Pointers.{Committed}
use eidolon_data.Personas.Current.{
  HasCommitted, perform_all-HasCommitted, HasLeft, perform_all-HasLeft,
}
use eidolon_data.Personas.Decided.{Evolves, perform_all-EvolvesIn, approve_evolution-err_of_decided}
use eidolon_data.Prelude.{
  ℕ, ◌≤◌, String, ◌≡◌, refl, ap, ◌∙◌, ◌⊎◌, true, false, none, some, [], arith, ◌==◌, find, Result,
  ok, err, string_eq, nat_eq, option_eq,
}
use eidolon_data.Schema.{Db, conversational, CompanionRow, stale, PersonaGenomeRow, is_proposed}
use eidolon_data.Personas.Sdk.{rename_to}
use eidolon_data.Personas.Genomes.{
  operation_conflict, state_not_eligible, PersonaError, conflict, not_found, has_companion_id,
  is_genome,
}
use eidolon_data.Personas.Edits.{edit}
use eidolon_data.Personas.Restores.{walk_to_origin}
use eidolon_data.Personas.Evolution.{Approval, conflicted, approve_evolution, reject_evolution}
use eidolon_data.Personas.Calls.{perform_all}
use eidolon_data.Tests.Fixtures.{companion_named, db_fixture}
use eidolon_data.Tests.Personas.{
  sdk, persona_code, env_of, db_born, request_of, request_a, result_a, db_edited, edit_ok,
  db_proposed, approve_p, db_approved, later, from_birth, no_pointer,
}

abbrev blank_row : PersonaGenomeRow
blank_row = record {
  genome_id = "";
  companion_id = "";
  version = 0;
  status = stale;
  base_genome_id = none;
  schema_version = "";
  genome_hash = "";
  realizer_version = "";
  applied_event_id = none;
  source_json = [];
  genome_json = [];
  change_summary = "";
  created_at = 0;
  updated_at = 0;
}

abbrev row_in : String → Db → PersonaGenomeRow
row_in genome_id db = elim (find (is_genome genome_id) db.persona_genomes) [
  | none ↦ blank_row
  | some row ↦ row
]

perform_all-EvolvesIn_example :
    (row : PersonaGenomeRow) × (find
        (is_genome "g1")
        (perform_all sdk later db_edited).persona_genomes
      ≡ some row)
    × Evolves (row_in "g1" db_edited) row
unfolding persona_code
perform_all-EvolvesIn_example =
    perform_all-EvolvesIn sdk later db_edited "g1" (row_in "g1" db_edited) refl

approve_evolution-err_of_decided_example :
    ((approve_evolution sdk
          (env_of "k" 99)
          "talker"
          "owner-a"
          "g1"
          none
          (perform_all sdk later db_edited)
        ≡ err not_found)
      ⊎ (approve_evolution sdk
            (env_of "k" 99)
            "talker"
            "owner-a"
            "g1"
            none
            (perform_all sdk later db_edited)
          ≡ err (conflict state_not_eligible none)))
    × ((reject_evolution (env_of "k" 99) "owner-a" "g1" none "no" (perform_all sdk later db_edited)
          ≡ err not_found)
        ⊎ (reject_evolution
              (env_of "k" 99)
              "owner-a"
              "g1"
              none
              "no"
              (perform_all sdk later db_edited)
            ≡ err (conflict state_not_eligible none)))
unfolding persona_code
approve_evolution-err_of_decided_example =
    approve_evolution-err_of_decided sdk (env_of "k" 99) later db_edited "g1"
      (row_in "g1" db_edited) refl refl "owner-a" "talker" "no" none none

perform_all-HasCommitted_example : HasCommitted (perform_all sdk from_birth db_fixture)
perform_all-HasCommitted_example = perform_all-HasCommitted sdk from_birth db_fixture no_pointer

first_Committed : Committed db_edited "talker" "g1"
unfolding persona_code
first_Committed = (row_in "g1" db_edited, refl, refl, refl)

first_HasLeft : HasLeft "talker" "g1" db_edited
unfolding persona_code
first_HasLeft c found points =
    let elsewhere : some "g_b3" ≡ c.current_genome_id =
      ap (λ o. elim o [ none ↦ none | some x ↦ x.current_genome_id ]) found in
    let clash : false ≡ true =
      ap (λ o. elim o [ none ↦ true | some s ↦ s == "g1" ]) (elsewhere ∙ points) in
    absurd (ground arith)

perform_all-HasLeft_example : HasLeft "talker" "g1" (perform_all sdk later db_edited)
perform_all-HasLeft_example =
    perform_all-HasLeft sdk later db_edited "talker" "g1" first_Committed first_HasLeft

edit-again_example :
    edit sdk (env_of "k" 99) "talker" request_a "s" (perform_all sdk later db_edited)
    ≡ ok (result_a, perform_all sdk later db_edited)
edit-again_example =
    edit-again sdk (env_of "b" 20) (env_of "k" 99) "talker" "s" "s" request_a result_a later db_born
      db_edited edit_ok

edit-operation_conflict_example :
    edit sdk
      (env_of "k" 99)
      "talker"
      (request_of "op-1" "g1" 1 (rename_to "Cy"))
      "s"
      (perform_all sdk later db_edited)
    ≡ err (conflict operation_conflict none)
edit-operation_conflict_example =
    edit-operation_conflict sdk (env_of "b" 20) (env_of "k" 99) "talker" "s" "s" request_a
      (request_of "op-1" "g1" 1 (rename_to "Cy")) result_a later db_born db_edited edit_ok refl refl

walk_to_origin_ends_example :
    (origin : PersonaGenomeRow) × ((n : ℕ)
      → 4 ≤ n
      → walk_to_origin n "talker" db_approved.persona_genomes [] (row_in "g_p" db_approved)
        ≡ some origin)
unfolding persona_code
walk_to_origin_ends_example =
    walk_to_origin_ends "talker" db_approved.persona_genomes (row_in "g_p" db_approved) refl

abbrev talker_in : Db → CompanionRow
talker_in db = elim (find (has_companion_id "talker") db.companions) [
  | none ↦ companion_named "" "" conversational
  | some c ↦ c
]

edit-HasLeft_example : ¬ (
    edit sdk
      (env_of "k" 99)
      "talker"
      (request_of "op-2" "g1" 1 (rename_to "Cy"))
      "s"
      (perform_all sdk later db_edited)
    ≡ ok (result_a, db_edited))
unfolding persona_code
edit-HasLeft_example =
    edit-HasLeft sdk (env_of "k" 99) later db_edited db_edited "talker" "s"
      (request_of "op-2" "g1" 1 (rename_to "Cy")) (talker_in (perform_all sdk later db_edited))
      result_a refl first_Committed first_HasLeft refl refl

abbrev answer_of : Result PersonaError (Approval × Db) → Approval
answer_of (ok (answer, db)) = answer
answer_of (err e) = conflicted e

approve_evolution_lem_example :
    (is_proposed (row_in "g_p" db_proposed).status ≡ true)
    × ((row_in "g_p" db_proposed).companion_id ≡ (talker_in db_proposed).companion_id)
    × ((talker_in db_proposed).owner_id ≡ "owner-a")
    × Decision
        (env_of "d" 40)
        none
        (talker_in db_proposed)
        (row_in "g_p" db_proposed)
        db_proposed
        db_approved
        (answer_of (approve_p none db_proposed))
unfolding persona_code
approve_evolution_lem_example =
    approve_evolution_lem sdk (env_of "d" 40) "talker" "owner-a" "g_p" none db_proposed db_approved
      (talker_in db_proposed) (row_in "g_p" db_proposed) (answer_of (approve_p none db_proposed))
      refl refl refl
