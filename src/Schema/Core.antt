-- ===== src/Schema/Core.antt =====
-- eidolon_data/schema/core.py
use eidolon_data.Prelude.{ℕ, String, Bool, true, false, Option, JsonDict}

pub data OwnerKind : Type 0 where
  person family team : OwnerKind

pub data OwnerStatus : Type 0 where
  active archived deleting : OwnerStatus

pub record OwnerRow : Type 0 where
  pub owner_id : String
  pub display_name : String
  pub kind : OwnerKind
  pub status : OwnerStatus
  pub default_companion_id : Option String
  pub revision : ℕ
  pub profile_json : JsonDict
  pub settings_json : JsonDict
  pub created_at : ℕ
  pub updated_at : ℕ

pub data CompanionKind : Type 0 where
  conversational guard specialist system : CompanionKind

pub data LifecycleState : Type 0 where
  active retiring archived deleting : LifecycleState

pub record CompanionRow : Type 0 where
  pub companion_id : String
  pub owner_id : String
  pub display_name : String
  pub kind : CompanionKind
  pub lifecycle_state : LifecycleState
  pub revision : ℕ
  pub current_genome_id : Option String
  pub default_memory_realm_id : Option String
  pub profile_json : JsonDict
  pub runtime_config_json : JsonDict
  pub metadata_json : JsonDict
  pub created_at : ℕ
  pub updated_at : ℕ

-- `owner.status == "active"`, `companion.lifecycle_state == "active"`, `companion.kind == "guard"`
abbrev pub owner_active : OwnerStatus → Bool
owner_active OwnerStatus.active = true
owner_active _ = false

abbrev pub companion_active : LifecycleState → Bool
companion_active LifecycleState.active = true
companion_active _ = false

abbrev pub is_guard : CompanionKind → Bool
is_guard guard = true
is_guard _ = false
