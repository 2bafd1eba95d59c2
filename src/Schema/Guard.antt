-- ===== src/Schema/Guard.antt =====
-- eidolon_data/schema/guard.py
use eidolon_data.Prelude.{ℕ, String, Bool, true, false, Option, JsonDict}

pub data GuardState : Type 0 where
  active disabled revoked : GuardState

pub record GuardBindingRow : Type 0 where
  pub binding_id : String
  pub owner_id : String
  pub guard_companion_id : String
  pub device_id : String
  pub state : GuardState
  pub policy_id : String
  pub policy_revision : ℕ
  pub policy_json : JsonDict
  pub activated_at : ℕ
  pub disabled_at : Option ℕ
  pub revoked_at : Option ℕ
  pub created_at : ℕ
  pub updated_at : ℕ

abbrev pub guard_active : GuardState → Bool
guard_active GuardState.active = true
guard_active _ = false
