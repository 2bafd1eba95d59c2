-- ===== src/Schema/Teams.antt =====
-- eidolon_data/schema/teams.py
use eidolon_data.Prelude.{ℕ, String, Bool, Option, JsonDict}

pub record TeamRow : Type 0 where
  pub owner_id : String
  pub team_id : String
  pub host_id : String
  pub active_session_id : Option String
  pub deleted : Bool
  pub revision : ℕ

pub record TeamRevisionRow : Type 0 where
  pub owner_id : String
  pub team_id : String
  pub revision : ℕ
  pub configuration : JsonDict

pub record TeamStartRow : Type 0 where
  pub owner_id : String
  pub session_id : String
  pub team_id : String
  pub revision : ℕ
  pub closed : Bool
  pub selection : Option JsonDict
  pub terminal_status : Option JsonDict
