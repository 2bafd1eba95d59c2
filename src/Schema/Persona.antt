-- ===== src/Schema/Persona.antt =====
-- eidolon_data/schema/core.py: persona genomes and memory realms.
use eidolon_data.Prelude.{ℕ, String, Bool, true, false, Option, JsonDict}

pub data GenomeStatus : Type 0 where
  proposed committed rejected stale : GenomeStatus

pub record PersonaGenomeRow : Type 0 where
  pub genome_id : String
  pub companion_id : String
  pub version : ℕ
  pub status : GenomeStatus
  pub base_genome_id : Option String
  pub schema_version : String
  pub genome_hash : String
  pub realizer_version : String
  pub applied_event_id : Option String
  pub source_json : JsonDict
  pub genome_json : JsonDict
  pub change_summary : String
  pub created_at : ℕ
  pub updated_at : ℕ

abbrev pub is_committed : GenomeStatus → Bool
is_committed GenomeStatus.committed = true
is_committed _ = false

abbrev pub is_proposed : GenomeStatus → Bool
is_proposed proposed = true
is_proposed _ = false

pub data RealmStatus : Type 0 where
  active inactive deleting : RealmStatus

pub record MemoryRealmRow : Type 0 where
  pub realm_id : String
  pub owner_id : String
  pub person_id : Option String
  pub engine : String
  pub engine_config_json : JsonDict
  pub policy_json : JsonDict
  pub status : RealmStatus
  pub created_at : ℕ
  pub updated_at : ℕ
