-- ===== src/Schema/Assets.antt =====
-- eidolon_data/schema/assets.py
use eidolon_data.Prelude.{ℕ, String, Bool, true, false, Option, ℤ, JsonDict}

pub data AssetState : Type 0 where
  active superseded : AssetState

pub data IdleStatus : Type 0 where
  unset pending generating ready failed : IdleStatus

pub record CompanionFaceAssetRow : Type 0 where
  pub face_asset_id : String
  pub companion_id : String
  pub owner_id : String
  pub version : ℕ
  pub state : AssetState
  pub source : String
  pub cond_storage_key : String
  pub cond_content_type : String
  pub cond_size_bytes : ℕ
  pub cond_sha256 : String
  pub width : Option ℤ
  pub height : Option ℤ
  pub idle_status : IdleStatus
  pub idle_storage_key : Option String
  pub idle_content_type : Option String
  pub idle_size_bytes : Option ℕ
  pub idle_sha256 : Option String
  pub idle_error : Option String
  pub meta_json : JsonDict
  pub created_at : ℕ
  pub updated_at : ℕ

abbrev pub asset_active : AssetState → Bool
asset_active AssetState.active = true
asset_active _ = false

pub data ProfileState : Type 0 where
  draft desired superseded : ProfileState

pub data DesiredState : Type 0 where
  active cleared : DesiredState

pub record OwnerFaceProfileRevisionRow : Type 0 where
  pub profile_revision_id : String
  pub profile_id : String
  pub owner_id : String
  pub revision : ℕ
  pub state : ProfileState
  pub desired_state : DesiredState
  pub model_id : Option String
  pub preprocessing_version : Option String
  pub activated_at : Option ℕ
  pub created_at : ℕ
  pub updated_at : ℕ

abbrev pub is_draft : ProfileState → Bool
is_draft draft = true
is_draft _ = false

abbrev pub is_desired : ProfileState → Bool
is_desired desired = true
is_desired _ = false

abbrev pub wants_active : DesiredState → Bool
wants_active DesiredState.active = true
wants_active _ = false

pub record OwnerFaceReferenceRow : Type 0 where
  pub reference_id : String
  pub profile_revision_id : String
  pub pose : String
  pub content_type : String
  pub size_bytes : ℕ
  pub sha256 : String
  pub storage_key : String
  pub created_at : ℕ
