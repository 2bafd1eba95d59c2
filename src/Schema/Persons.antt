-- ===== src/Schema/Persons.antt =====
-- eidolon_data/schema/persons.py (the table `persons`) and eidolon_data/schema/person_faces.py
use eidolon_data.Prelude.{ℕ, String, Bool, true, false, Option, JsonDict}

pub data PersonStatus : Type 0 where
  active inactive : PersonStatus

pub data Maturity : Type 0 where
  candidate established : Maturity

pub data RecognitionState : Type 0 where
  active retained : RecognitionState

pub record PersonRow : Type 0 where
  pub person_id : String
  pub owner_id : String
  pub display_name : String
  pub status : PersonStatus
  pub deleted : Bool
  pub identity_state : String
  pub maturity : Maturity
  pub recognition_state : RecognitionState
  pub candidate_activity_at : Option ℕ
  pub is_named : Bool
  pub archived_at : Option String
  pub revision : ℕ
  pub profile_json : JsonDict

abbrev pub person_active : PersonStatus → Bool
person_active PersonStatus.active = true
person_active _ = false

pub record PersonFaceRow : Type 0 where
  pub person_id : String
  pub owner_id : String
  pub revision : ℕ
  pub storage_key : Option String
  pub sha256 : Option String
  pub model_id : Option String
  pub preprocessing_version : Option String
  pub feature_schema_version : Option ℕ
  pub features_json : Option JsonDict
