-- ===== src/Personas/Edits/Steps.antt =====
-- The steps of `edit`.
use eidolon_data.Prelude.{
  ◌+◌, String, not, ◌||◌, Option, none, some, [], ◌∷◌, if◌then◌else◌, ◌==◌, ◌!=◌, Json, num, str,
  obj, JsonDict, dict_get, dict_set, to_fields, as_dict, truthy, find, pure, gets, or_raise,
  raise_if, ◌>>=◌, ◌>>◌, strip, nat_eq, string_eq, option_eq,
}
use eidolon_data.Schema.{Env, CompanionRow, PersonaGenomeRow}
use eidolon_data.Audit.Row.{details, governance_fact}
use eidolon_data.Audit.Facts.{add_fact}
use eidolon_data.Personas.Sdk.{
  PersonaEditSnapshot, EditAction, rename_to, restore_from, author_persona, PersonaEditRequest,
  PersonaSdk,
}
use eidolon_data.Personas.Genomes.{
  operation_conflict, base_not_current, preferences_changed, conflict, validation_error,
  attribute_error, type_error, integrity_error, PersonaCall, is_genome, companion_for_edit,
  current_for_edit, write_companion, normalized, read_preferences, make_snapshot, edit_snapshot,
  append_persona,
}
use eidolon_data.Personas.Edits.Stored.{
  Receipt, text_of, number_of, dict_of, receipts_of, set_receipt, Plan, moves_to, load_target,
}

module _ (sdk : PersonaSdk) where
  open sdk use {
    Genome, name_of, with_name, same_persona, Authoring, authoring_of, apply_authoring, Preferences,
    validate_preferences, dump_preferences, same_preferences, fingerprint,
  }

  abbrev pub Snapshot : Type 0
  Snapshot = PersonaEditSnapshot Authoring Preferences

  abbrev pub EditRequest : Type 0
  EditRequest = PersonaEditRequest Authoring Preferences

  unfoldable pub read_edit_snapshot : String → PersonaCall Snapshot
  unfolding companion_for_edit current_for_edit edit_snapshot
  read_edit_snapshot companion_id = do
    companion ← companion_for_edit companion_id
    current ← current_for_edit companion
    edit_snapshot sdk companion current

  -- the block `if receipt := …:`
  unfoldable pub replay_receipt : EditRequest → Json → PersonaCall Snapshot
  unfolding normalized make_snapshot
  replay_receipt request json = do
    d ← or_raise (as_dict (some json)) type_error
    stored ← or_raise (text_of (dict_get "fingerprint" d)) type_error
    raise_if (stored != fingerprint request) (conflict operation_conflict none)
    genome_id ← or_raise (text_of (dict_get "genome_id" d)) type_error
    found ← gets (λ db. find (is_genome genome_id) db.persona_genomes)
    original ← or_raise found attribute_error
    display_name ← or_raise (text_of (dict_get "display_name" d)) type_error
    companion_revision ← or_raise (number_of (dict_get "companion_revision" d)) type_error
    genome ← normalized sdk original.genome_json
    dumped ← or_raise (dict_of (dict_get "preferences" d)) type_error
    preferences ← or_raise (validate_preferences dumped) validation_error
    preference_revision ← or_raise (number_of (dict_get "preference_revision" d)) type_error
    make_snapshot sdk (record {
      genome_id = original.genome_id;
      display_name = display_name;
      companion_revision = companion_revision;
      persona = authoring_of genome;
      preferences = preferences;
      preference_revision = preference_revision;
    })

  -- the branches on `request.action`
  unfoldable pub plan_edit :
      CompanionRow
      → PersonaGenomeRow
      → Genome
      → String
      → EditAction Authoring
      → PersonaCall (Plan Genome)
  unfolding load_target normalized
  plan_edit companion current base summary (rename_to display_name) = do
    let candidate = with_name (strip display_name) base
    pure (record {
      candidate = candidate;
      target = none;
      source = "owner_rename";
      summary = "更新伙伴名字";
      companion = record companion { display_name = name_of candidate };
    })
  plan_edit companion current base summary (restore_from genome_id) = do
    target ← load_target companion.companion_id genome_id
    genome ← normalized sdk target.genome_json
    pure (record {
      candidate =
          if target.genome_id == current.genome_id
          then base
          else with_name companion.display_name genome;
      target = some target;
      source = "owner_restore";
      summary = "恢复性格设定";
      companion = companion;
    })
  plan_edit companion current base summary (author_persona persona) = do
    candidate ← or_raise (apply_authoring base persona current.genome_id) validation_error
    pure (record {
      candidate = candidate;
      target = none;
      source = "owner_authored";
      summary = summary;
      companion = companion;
    })

  -- `if changed or (target is not None and …):`
  unfoldable pub append_if_changed :
      Env → PersonaGenomeRow → Genome → Plan Genome → PersonaCall (PersonaGenomeRow × CompanionRow)
  append_if_changed env current base plan =
      if not (same_persona plan.candidate base) || moves_to plan.target current
      then append_persona sdk env plan.companion current plan.candidate plan.source plan.summary
          plan.target
      else pure (current, plan.companion)

  -- the changed `runtime_config_json`, which the column's validator reads
  unfoldable pub change_preferences :
      Env → Snapshot → Preferences → CompanionRow → PersonaCall CompanionRow
  unfolding read_preferences
  change_preferences env before preferences companion = do
    let config = dict_set "preference_revision" (num (before.preference_revision + 1)) (
        dict_set "conversation_preferences" (obj (to_fields (dump_preferences preferences)))
          companion.runtime_config_json)
    valid ← read_preferences sdk config
    pure (record companion {
      runtime_config_json = config;
      revision = companion.revision + 1;
      updated_at = env.now;
    })

  -- `if request.preferences is not None and …:`
  unfoldable pub set_preferences :
      Env → Snapshot → Option Preferences → CompanionRow → PersonaCall CompanionRow
  set_preferences env before none companion = pure companion
  set_preferences env before (some preferences) companion =
      if same_preferences preferences before.preferences
      then pure companion
      else change_preferences env before preferences companion

  abbrev pub receipt_for : EditRequest → Snapshot → Receipt
  receipt_for request result = record {
    fingerprint = fingerprint request;
    genome_id = result.genome_id;
    display_name = result.display_name;
    companion_revision = result.companion_revision;
    preferences = dump_preferences result.preferences;
    preference_revision = result.preference_revision;
  }

  unfoldable pub add_saved :
      Env → CompanionRow → EditRequest → Snapshot → Snapshot → PersonaCall (Unit {0})
  add_saved env companion request before result = add_fact integrity_error (
      governance_fact env 2 companion.owner_id "companion" companion.companion_id
        "persona.settings.saved"
        (record details {
          payload = some (
              ("genome_id", str result.genome_id)
              ∷ ("previous_genome_id", str before.genome_id)
              ∷ ("preference_revision", num result.preference_revision)
              ∷ ("operation_id", str request.operation_id)
              ∷ []);
        }))

  -- `edit` after the append
  unfoldable pub save_edit :
      Env
      → CompanionRow
      → JsonDict
      → EditRequest
      → Snapshot
      → PersonaGenomeRow × CompanionRow
      → PersonaCall Snapshot
  save_edit env companion receipts request before (current, grown) = do
    changed ← set_preferences env before request.preferences grown
    result ← edit_snapshot sdk changed current
    write_companion (set_receipt request.operation_id (receipt_for request result) receipts changed)
    add_saved env companion request before result
    pure result

  -- the rest of `edit`
  unfoldable pub edit_new :
      Env → CompanionRow → JsonDict → EditRequest → String → PersonaCall Snapshot
  edit_new env companion receipts request change_summary = do
    current ← current_for_edit companion
    before ← edit_snapshot sdk companion current
    raise_if (current.genome_id != request.expected_base_genome_id)
        (conflict base_not_current (some current.genome_id))
    raise_if (before.preference_revision != request.expected_preference_revision)
        (conflict preferences_changed (some current.genome_id))
    base ← normalized sdk current.genome_json
    plan ← plan_edit companion current base change_summary request.action
    appended ← append_if_changed env current base plan
    save_edit env companion receipts request before appended

  unfoldable pub edit : Env → String → EditRequest → String → PersonaCall Snapshot
  edit env companion_id request change_summary = do
    companion ← companion_for_edit companion_id
    receipts ← or_raise (receipts_of companion.metadata_json) type_error
    elim (truthy (dict_get request.operation_id receipts)) [
      | none ↦ edit_new env companion receipts request change_summary
      | some json ↦ replay_receipt request json
    ]
