-- ===== src/Teams/Sdk.antt =====
-- What services/teams.py uses of `eidolon_sdk.biz.control.teams`, which is not part of the
-- repository: a parameter of the model, with the laws of its data classes.
use eidolon_data.Prelude.{ℕ, String, ◌≡◌, ◌↔◌, Bool, true, Option, some, List, JsonDict}

pub record TeamSdk : Type 1 where
  -- `TeamConfiguration`, its `==`, the companion ids of its `members`, `model_dump` and
  -- `model_validate` (`none` for a ValidationError)
  pub Configuration : Type 0
  pub same_configuration : Configuration → Configuration → Bool
  pub members : Configuration → List String
  pub dump : Configuration → JsonDict
  pub validate : JsonDict → Option Configuration
  -- whether `TeamRevision` accepts its id, revision and configuration
  pub accepts : String → ℕ → Configuration → Bool
  -- whether `TypeAdapter(Identifier)` accepts a session id
  pub is_identifier : String → Bool
  -- a resolved selection: its `session_id`, `==`, `model_dump`, and `resolve` of a configuration with
  -- the devices and attachments that a selection names (`none` for its ValueError)
  pub Selection : Type 0
  pub selection_session : Selection → String
  pub same_selection : Selection → Selection → Bool
  pub dump_selection : Selection → JsonDict
  pub resolve : Configuration → String → Selection → Option Selection
  -- a model equals itself, and a dumped model is read back as it was
  pub same_configuration_iff : (a b : Configuration) → (same_configuration a b ≡ true) ↔ (a ≡ b)
  pub validate-dump : (c : Configuration) → validate (dump c) ≡ some c

pub data TeamError : Type 0 where
  invalid_revision invalid_host not_found revision_conflict companion_unavailable : TeamError
  invalid_limit team_busy_or_revision_conflict idempotency_conflict run_already_closed : TeamError
  invalid_closure_evidence snapshot_identity_mismatch snapshot_configuration_mismatch : TeamError
  validation_error integrity_error attribute_error : TeamError
