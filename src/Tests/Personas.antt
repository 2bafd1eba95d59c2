-- ===== src/Tests/Personas.antt =====
-- Personas.
use eidolon_data.Personas.Current.{HasCommitted}
use eidolon_data.Prelude.{
  ℕ, zero, suc, ◌+◌, String, ◌≡◌, refl, true, Option, none, some, List, [], ◌∷◌, arith, ◌==◌, num,
  str, arr, obj, nil, JsonDict, dict_get, to_fields, Result, ok, err, committed, ◌⧺◌, string_eq,
  nat_eq, option_eq,
}
use eidolon_data.Schema.{Db, Env, GenomeStatus}
use eidolon_data.Audit.Row.{governance_fact}
use eidolon_data.Audit.Facts.{add_fact}
use eidolon_data.Personas.Sdk.{
  EditAction, rename_to, restore_from, author_persona, PersonaProposal, PersonaSdk,
}
use eidolon_data.Personas.Genomes.{
  base_not_current, preferences_changed, not_this_companion, state_not_eligible, companion_missing,
  PersonaError, conflict, not_found, companion_for_edit, current_for_edit, owned_companion,
  add_genome, write_companion, write_genome, max_version, event, normalized, genome_of_arguments,
  owned_payload, genome_row, read_preferences, make_snapshot, edit_snapshot, add_rolled_back,
  append_persona,
}
use eidolon_data.Personas.Edits.{
  load_target, Snapshot, EditRequest, read_edit_snapshot, replay_receipt, plan_edit,
  append_if_changed, change_preferences, set_preferences, add_saved, save_edit, edit_new, edit,
}
use eidolon_data.Personas.Restores.{
  walk_to_origin, append_restored, restore_chapter, rollback_to_genome, rename_companion, rename,
  reset_to_origin,
}
use eidolon_data.Personas.Evolution.{
  add_event, check_base, point_if_committed, CreateGenome, Approval, make_stale, load_proposed,
  create_genome, check_evolution, create_evolution_proposal, revalidate, activate_proposal,
  approve_evolution, get_current_genome, record_observation, reject_evolution, list_for_companion,
}
use eidolon_data.Personas.Calls.{
  PersonaAction, call_edit, call_reset_to_origin, call_create_genome,
  call_create_evolution_proposal, call_approve_evolution, perform, perform_all,
}
use eidolon_data.Tests.Fixtures.{db_fixture}

-- A genome is its name, an authoring a new name, and preferences are a number.
abbrev pub read_name : JsonDict → Option String
read_name d = elim (dict_get "name" d) [ some (str s) ↦ some s | _ ↦ none ]

abbrev pub read_tone : JsonDict → Option ℕ
read_tone d = elim (dict_get "tone" d) [ none ↦ some 0 | some (num n) ↦ some n | _ ↦ none ]

abbrev pub action_text : EditAction String → String
action_text (rename_to name) = "rename " ⧺ name
action_text (restore_from genome_id) = "restore " ⧺ genome_id
action_text (author_persona persona) = "author " ⧺ persona

abbrev pub sdk : PersonaSdk
sdk = record {
  Genome = String;
  normalize = read_name;
  to_json = λ g. ("name", str g) ∷ [];
  hash = λ d. "hash";
  default_genome = λ name origin base. name;
  name_of = λ g. g;
  with_name = λ name g. name;
  with_provenance = λ origin base g. g;
  same_persona = λ a b. a == b;
  Authoring = String;
  authoring_of = λ g. g;
  apply_authoring = λ base persona current. some persona;
  Preferences = ℕ;
  validate_preferences = read_tone;
  dump_preferences = λ p. ("tone", num p) ∷ [];
  same_preferences = λ a b. a == b;
  validate-dump_preferences = λ p. refl;
  accepts_snapshot = λ s. true;
  fingerprint = λ r. action_text r.action;
  read_proposal_id = λ j. elim j [ str s ↦ some s | _ ↦ none ];
  read_evidence = λ j. elim j [ arr items ↦ some items | _ ↦ none ];
  validate_evolution = λ g p. true;
  dump_proposal = λ p. [];
  text_of = λ j. "";
}

-- what a run needs unfolded
unfoldable pub persona_code : Unit {0}
unfolding companion_for_edit current_for_edit owned_companion add_genome write_companion
    write_genome max_version event normalized genome_of_arguments owned_payload genome_row
    read_preferences make_snapshot edit_snapshot add_rolled_back append_persona load_target
    read_edit_snapshot replay_receipt plan_edit append_if_changed change_preferences set_preferences
    add_saved save_edit edit_new edit walk_to_origin append_restored restore_chapter
    rollback_to_genome rename_companion rename reset_to_origin add_event check_base
    point_if_committed make_stale load_proposed create_genome check_evolution
    create_evolution_proposal revalidate activate_proposal approve_evolution get_current_genome
    record_observation reject_evolution list_for_companion perform perform_all add_fact
    governance_fact
persona_code = tt

-- the ids drawn are `a` and then `b`, and from the fourth on `g`
abbrev pub ids : String → ℕ → String
ids s zero = s ⧺ "0"
ids s (suc zero) = s ⧺ "1"
ids s (suc (suc zero)) = s ⧺ "2"
ids s (suc (suc (suc n))) = s ⧺ "3"

abbrev pub env_of : String → ℕ → Env
env_of s k = record { now = 5; uuid = ids s; outbox_id = λ n. k + n }

abbrev pub first_genome : CreateGenome
first_genome = record {
  genome_id = "g1";
  companion_id = "talker";
  owner_id = "owner-a";
  event_id = "e1";
  version = 1;
  genome_json = some (("name", str "Ada") ∷ []);
  source_json = none;
  status = GenomeStatus.committed;
  base_genome_id = none;
  change_summary = "";
}

abbrev pub db_born : Db
db_born = committed (create_genome sdk (env_of "a" 10) first_genome db_fixture) db_fixture

abbrev pub owned_json : String → JsonDict
owned_json name =
    ("name", str name)
    ∷ (
      "provenance",
      obj (to_fields (("owner_id", str "owner-a") ∷ ("companion_id", str "talker") ∷ [])),
    )
    ∷ []

-- the current genome, by its id, version and content
abbrev pub current_in : Db → Option (String × ℕ × JsonDict)
current_in db = elim (get_current_genome "talker" db) [
  | none ↦ none
  | some row ↦ some (row.genome_id, row.version, row.genome_json)
]

born_current : current_in db_born ≡ some ("g1", 1, owned_json "Ada")
unfolding persona_code
born_current = refl

abbrev pub request_of : String → String → ℕ → EditAction String → EditRequest sdk
request_of operation_id base revision action = record {
  operation_id = operation_id;
  expected_base_genome_id = base;
  expected_preference_revision = revision;
  action = action;
  preferences = some 3;
}

abbrev pub request_a : EditRequest sdk
request_a = request_of "op-1" "g1" 1 (author_persona "Bea")

abbrev pub result_a : Snapshot sdk
result_a = record {
  genome_id = "g_b3";
  display_name = "";
  companion_revision = 3;
  persona = "Bea";
  preferences = 3;
  preference_revision = 2;
}

abbrev pub db_edited : Db
db_edited = committed (edit sdk (env_of "b" 20) "talker" request_a "s" db_born) db_born

pub edit_ok : edit sdk (env_of "b" 20) "talker" request_a "s" db_born ≡ ok (result_a, db_edited)
unfolding persona_code
edit_ok = refl

edit_current : current_in db_edited ≡ some ("g_b3", 2, owned_json "Bea")
unfolding persona_code
edit_current = refl

edit_refused :
    (edit sdk (env_of "c" 30) "talker" (request_of "op-2" "g1" 2 (rename_to "Cy")) "s" db_edited
      ≡ err (conflict base_not_current (some "g_b3")))
    × (edit sdk (env_of "c" 30) "talker" (request_of "op-2" "g_b3" 1 (rename_to "Cy")) "s" db_edited
        ≡ err (conflict preferences_changed (some "g_b3")))
    × (edit sdk
          (env_of "c" 30)
          "talker"
          (request_of "op-2" "g_b3" 2 (restore_from "g9"))
          "s"
          db_edited
        ≡ err (conflict not_this_companion none))
    × (edit sdk (env_of "c" 30) "nobody" request_a "s" db_edited
        ≡ err (conflict companion_missing none))
unfolding persona_code
edit_refused = (refl, refl, refl, refl)

-- a proposal on the edited persona, approved
abbrev pub proposal_on : String → String → PersonaProposal String
proposal_on base genome_id = record {
  proposal_id = "p";
  owner_id = "owner-a";
  companion_id = "talker";
  base_genome_id = base;
  base_genome_hash = "hash";
  proposed_genome_id = genome_id;
  proposed_genome = "Cy";
  rationale = "r";
  evidence_refs = nil;
}

abbrev pub db_proposed : Db
db_proposed =
    committed (create_evolution_proposal sdk (env_of "c" 30) (proposal_on "g_b3" "g_p") db_edited)
      db_edited

abbrev pub approve_p : Option String → Db → Result PersonaError (Approval × Db)
approve_p expected = approve_evolution sdk (env_of "d" 40) "talker" "owner-a" "g_p" expected

abbrev pub db_approved : Db
db_approved = committed (approve_p none db_proposed) db_proposed

abbrev pub db_stale : Db
db_stale = committed (approve_p (some "g1") db_proposed) db_proposed

approve_current :
    (current_in db_proposed ≡ current_in db_edited)
    × (current_in db_approved ≡ some ("g_p", 3, owned_json "Cy"))
    × (current_in db_stale ≡ current_in db_edited)
    × (approve_p none db_approved ≡ err (conflict state_not_eligible none))
    × (approve_p none db_stale ≡ err (conflict state_not_eligible none))
unfolding persona_code
approve_current = (refl, refl, refl, refl, refl)

abbrev pub db_reset : Db
db_reset =
    committed (reset_to_origin sdk (env_of "e" 50) "owner-a" "talker" db_approved) db_approved

reset_current : current_in db_reset ≡ some ("g_e3", 4, owned_json "")
unfolding persona_code
reset_current = refl

reject_ok :
    (reject_evolution (env_of "f" 60) "owner-a" "g_p" none "no" db_approved
      ≡ err (conflict state_not_eligible none))
    × (reject_evolution (env_of "f" 60) "owner-b" "g_p" none "no" db_proposed ≡ err not_found)
unfolding persona_code
reject_ok = (refl, refl)

abbrev pub later : List (Env × PersonaAction sdk)
later =
    (env_of "h" 70, call_create_evolution_proposal (proposal_on "g_b3" "g_p"))
    ∷ (env_of "i" 80, call_approve_evolution "talker" "owner-a" "g_p" none)
    ∷ (env_of "j" 90, call_reset_to_origin "owner-a" "talker")
    ∷ []

abbrev pub from_birth : List (Env × PersonaAction sdk)
from_birth =
    (env_of "a" 10, call_create_genome first_genome)
    ∷ (env_of "b" 20, call_edit "talker" request_a "s")
    ∷ later

pub no_pointer : HasCommitted db_fixture
no_pointer i g c found points = absurd (ground arith)
