-- ===== src/Personas/Genomes/Tables.antt =====
-- The errors of the persona service, and the rows that its helpers read and write.
use eidolon_data.Prelude.{
  ℕ, ◌+◌, max, String, Bool, not, ◌&&◌, ◌||◌, Option, none, some, List, [], ◌∷◌, ◌++◌,
  if◌then◌else◌, ◌==◌, ◌!=◌, Json, str, JsonDict, dict_update, find, update_where, exists_where, Tx,
  pure, gets, or_raise, raise_if, modify, ◌>>=◌, ◌>>◌, or_text, nat_eq, string_eq, option_eq,
}
use eidolon_data.Schema.{
  Db, Env, Outcome, AuditOutboxRow, CompanionRow, PersonaGenomeRow, is_committed,
}
use eidolon_data.Audit.Row.{details, governance_fact}

-- `PersonaConflictCode`
pub data ConflictCode : Type 0 where
  operation_conflict base_not_current preferences_changed not_this_companion : ConflictCode
  state_not_eligible companion_missing current_changed : ConflictCode

pub data PersonaError : Type 0 where
  conflict : ConflictCode → Option String → PersonaError
  not_found bad_value validation_error attribute_error type_error integrity_error : PersonaError

abbrev pub PersonaCall : Type 0 → Type 0
PersonaCall A = Tx Db PersonaError A

abbrev pub has_companion_id : String → CompanionRow → Bool
has_companion_id companion_id c = c.companion_id == companion_id

abbrev pub is_genome : String → PersonaGenomeRow → Bool
is_genome genome_id row = row.genome_id == genome_id

abbrev pub is_genome_of : String → PersonaGenomeRow → Bool
is_genome_of companion_id row = row.companion_id == companion_id

-- `_companion_for_edit`
unfoldable pub companion_for_edit : String → PersonaCall CompanionRow
companion_for_edit companion_id = do
  found ← gets (λ db. find (has_companion_id companion_id) db.companions)
  or_raise found (conflict companion_missing none)

-- `_current_for_edit`
unfoldable pub current_for_edit : CompanionRow → PersonaCall PersonaGenomeRow
current_for_edit companion = do
  found ← gets (λ db. find (is_genome (or_text companion.current_genome_id "")) db.persona_genomes)
  current ← or_raise found (conflict state_not_eligible none)
  raise_if (not (is_committed current.status)) (conflict state_not_eligible none)
  pure current

-- `_owned_companion`
unfoldable pub owned_companion : String → String → PersonaCall CompanionRow
owned_companion owner_id companion_id = do
  found ← gets (λ db. find (has_companion_id companion_id) db.companions)
  companion ← or_raise found not_found
  raise_if (companion.owner_id != owner_id) not_found
  pure companion

-- the primary key, the unique constraint and the CHECK of the version
abbrev pub genome_clashes : PersonaGenomeRow → PersonaGenomeRow → Bool
genome_clashes new row =
    row.genome_id == new.genome_id
    || row.companion_id == new.companion_id && row.version == new.version

-- `session.add` of a genome and its flush; the Companion and the base have been loaded before
unfoldable pub add_genome : PersonaGenomeRow → PersonaCall (Unit {0})
add_genome new = do
  raise_if (new.version == 0) integrity_error
  raise_if (← gets (λ db. exists_where (genome_clashes new) db.persona_genomes)) integrity_error
  modify (λ db. record db { persona_genomes = db.persona_genomes ++ new ∷ [] })

-- what the commands set on a loaded Companion
abbrev pub copy_persona : CompanionRow → CompanionRow → CompanionRow
copy_persona c row = record row {
  display_name = c.display_name;
  current_genome_id = c.current_genome_id;
  revision = c.revision;
  runtime_config_json = c.runtime_config_json;
  metadata_json = c.metadata_json;
  updated_at = c.updated_at;
}

-- the flush of a loaded Companion; no query of a command reads the Companion again
unfoldable pub write_companion : CompanionRow → PersonaCall (Unit {0})
write_companion c = modify (λ db. record db {
  companions = update_where (has_companion_id c.companion_id) (copy_persona c) db.companions;
})

-- the flush of a loaded genome
unfoldable pub write_genome :
    String → (PersonaGenomeRow → PersonaGenomeRow) → PersonaCall (Unit {0})
write_genome genome_id f =
    modify (λ db. record db {
      persona_genomes = update_where (is_genome genome_id) f db.persona_genomes;
    })

-- `func.max(version)`, `or 0`
unfoldable pub max_version : String → List PersonaGenomeRow → ℕ
max_version companion_id [] = 0
max_version companion_id (row ∷ rows) =
    let rest = max_version companion_id rows in
    if is_genome_of companion_id row then max row.version rest else rest

-- `_event`, with the id of the n-th fact of the transaction
unfoldable pub event :
    Env
    → ℕ
    → String
    → String
    → String
    → String
    → Outcome
    → JsonDict
    → Option String
    → AuditOutboxRow
event env n owner_id companion_id genome_id event_type outcome payload event_id =
    governance_fact env n owner_id "persona_genome" genome_id event_type (record details {
      event_id = event_id;
      outcome = outcome;
      payload = some (dict_update (("companion_id", str companion_id) ∷ []) payload);
    })

-- `str((source_json or {}).get("source_type") or "template")`
abbrev pub origin_of : (Json → String) → Option Json → String
origin_of text_of none = "template"
origin_of text_of (some (str s)) = s
origin_of text_of (some value) = text_of value

abbrev pub pointed_to : Env → PersonaGenomeRow → CompanionRow → CompanionRow
pointed_to env row companion = record companion {
  current_genome_id = some row.genome_id;
  revision = companion.revision + 1;
  updated_at = env.now;
}
