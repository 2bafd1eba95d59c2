-- ===== src/Personas/Genomes/Versions.antt =====
-- `_genome_row`, `_edit_snapshot` and `_append_persona`.
use eidolon_data.Prelude.{
  ℕ, ◌+◌, String, not, Option, none, some, [], ◌∷◌, num, str, obj, JsonDict, dict_get, dict_set,
  to_fields, of_fields, as_dict, truthy, pure, gets, or_raise, raise_if, ◌>>=◌, ◌>>◌, ◌⧺◌, nat_eq,
  string_eq, option_eq,
}
use eidolon_data.Schema.{Env, success, CompanionRow, GenomeStatus, PersonaGenomeRow}
use eidolon_data.Audit.Facts.{add_fact}
use eidolon_data.Personas.Sdk.{PersonaEditSnapshot, PersonaSdk}
use eidolon_data.Personas.Genomes.Tables.{
  validation_error, type_error, integrity_error, PersonaCall, add_genome, max_version, event,
  origin_of, pointed_to,
}

-- The arguments of `_genome_row`.
pub record GenomeArguments : Type 0 where
  pub genome_id : String
  pub companion_id : String
  pub owner_id : String
  pub version : ℕ
  pub status : GenomeStatus
  pub base_genome_id : Option String
  pub source_json : JsonDict
  pub genome_json : Option JsonDict
  pub applied_event_id : Option String
  pub change_summary : String

module _ (sdk : PersonaSdk) where
  open sdk use {
    Genome, normalize, to_json, hash, default_genome, Authoring, authoring_of, Preferences,
    validate_preferences, accepts_snapshot, text_of, with_provenance,
  }

  unfoldable pub normalized : JsonDict → PersonaCall Genome
  normalized genome_json = or_raise (normalize genome_json) validation_error

  unfoldable pub genome_of_arguments : GenomeArguments → PersonaCall Genome
  unfolding normalized
  genome_of_arguments a = elim a.genome_json [
    | some genome_json ↦ normalized genome_json
    | none ↦ pure (
        default_genome a.companion_id
          (origin_of text_of (truthy (dict_get "source_type" a.source_json))) a.base_genome_id)
  ]

  -- `payload["provenance"] = {**dict(payload.get("provenance") or {}), …}`
  unfoldable pub owned_payload : GenomeArguments → JsonDict → PersonaCall JsonDict
  owned_payload a payload = do
    provenance ← or_raise (as_dict (dict_get "provenance" payload)) type_error
    pure (
        dict_set "provenance"
          (obj (
            to_fields (
              dict_set "companion_id" (str a.companion_id)
                (dict_set "owner_id" (str a.owner_id) provenance))))
          payload)

  -- `_genome_row`
  unfoldable pub genome_row : Env → GenomeArguments → PersonaCall PersonaGenomeRow
  genome_row env a = do
    genome ← genome_of_arguments a
    payload ← owned_payload a (to_json genome)
    pure (record {
      genome_id = a.genome_id;
      companion_id = a.companion_id;
      version = a.version;
      status = a.status;
      base_genome_id = a.base_genome_id;
      schema_version = "eidolon.persona_genome";
      genome_hash = hash payload;
      realizer_version = "eidolon.persona_realizer";
      applied_event_id = a.applied_event_id;
      source_json = a.source_json;
      genome_json = payload;
      change_summary = a.change_summary;
      created_at = env.now;
      updated_at = env.now;
    })

  -- `config.get("conversation_preferences", {})`, which a validator takes only as a dict
  abbrev preferences_json : JsonDict → Option JsonDict
  preferences_json config = elim (dict_get "conversation_preferences" config) [
    | none ↦ some []
    | some (obj d) ↦ some (of_fields d)
    | some _ ↦ none
  ]

  -- `config.get("preference_revision", 1)`, which the snapshot takes only as a number
  abbrev revision_json : JsonDict → Option ℕ
  revision_json config = elim (dict_get "preference_revision" config) [
    | none ↦ some 1
    | some (num n) ↦ some n
    | some _ ↦ none
  ]

  unfoldable pub read_preferences : JsonDict → PersonaCall Preferences
  read_preferences config = do
    json ← or_raise (preferences_json config) validation_error
    or_raise (validate_preferences json) validation_error

  unfoldable pub make_snapshot :
      PersonaEditSnapshot Authoring Preferences
      → PersonaCall (PersonaEditSnapshot Authoring Preferences)
  make_snapshot snapshot = do
    raise_if (not (accepts_snapshot snapshot)) validation_error
    pure snapshot

  -- `_edit_snapshot`
  unfoldable pub edit_snapshot :
      CompanionRow → PersonaGenomeRow → PersonaCall (PersonaEditSnapshot Authoring Preferences)
  edit_snapshot companion current = do
    genome ← normalized current.genome_json
    preferences ← read_preferences companion.runtime_config_json
    revision ← or_raise (revision_json companion.runtime_config_json) validation_error
    make_snapshot (record {
      genome_id = current.genome_id;
      display_name = companion.display_name;
      companion_revision = companion.revision;
      persona = authoring_of genome;
      preferences = preferences;
      preference_revision = revision;
    })

  -- the entries of `source_json` that name what was restored
  abbrev restored_json : Option PersonaGenomeRow → JsonDict
  restored_json none = []
  restored_json (some target) =
      ("restored_from", str target.genome_id) ∷ ("restored_version", num target.version) ∷ []

  -- the fact that `restored_from` adds
  unfoldable pub add_rolled_back :
      Env → CompanionRow → PersonaGenomeRow → Option PersonaGenomeRow → PersonaCall (Unit {0})
  add_rolled_back env companion row none = pure tt
  add_rolled_back env companion row (some target) = add_fact integrity_error (
      event env 1 companion.owner_id companion.companion_id row.genome_id
        "persona.genome.rolled_back" success
        (("genome_id", str row.genome_id) ∷ ("restored_from", str target.genome_id) ∷ []) none)

  -- `_append_persona`; the changed Companion is written by the caller
  unfoldable pub append_persona :
      Env
      → CompanionRow
      → PersonaGenomeRow
      → Genome
      → String
      → String
      → Option PersonaGenomeRow
      → PersonaCall (PersonaGenomeRow × CompanionRow)
  unfolding genome_row genome_of_arguments normalized owned_payload
  append_persona env companion current candidate source summary restored_from = do
    let genome = with_provenance source current.genome_id candidate
    highest ← gets (λ db. max_version companion.companion_id db.persona_genomes)
    row ← genome_row env (record {
      genome_id = "g_" ⧺ env.uuid 3;
      companion_id = companion.companion_id;
      owner_id = companion.owner_id;
      version = highest + 1;
      status = GenomeStatus.committed;
      base_genome_id = some current.genome_id;
      source_json =
          ("source_type", str source)
          ∷ ("previous_genome_id", str current.genome_id)
          ∷ restored_json restored_from;
      genome_json = some (to_json genome);
      applied_event_id = some ("audit-" ⧺ env.uuid 0);
      change_summary = summary;
    })
    add_genome row
    add_fact integrity_error (
        event env 0 companion.owner_id companion.companion_id row.genome_id
          "persona.genome.committed" success
          (("genome_id", str row.genome_id)
            ∷ ("previous_genome_id", str current.genome_id)
            ∷ ("source", str source)
            ∷ [])
          none)
    add_rolled_back env companion row restored_from
    pure (row, pointed_to env row companion)
