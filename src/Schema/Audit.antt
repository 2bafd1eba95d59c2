-- ===== src/Schema/Audit.antt =====
-- eidolon_data/schema/audit.py
use eidolon_data.Prelude.{ℕ, String, Bool, true, false, Option, JsonDict}

pub data Category : Type 0 where
  governance receipt : Category

pub data Outcome : Type 0 where
  success failure denied deferred : Outcome

pub data Severity : Type 0 where
  info warn error critical : Severity

abbrev pub is_governance : Category → Bool
is_governance governance = true
is_governance receipt = false

pub record AuditOutboxRow : Type 0 where
  pub outbox_id : ℕ
  pub event_id : String
  pub producer : String
  pub category : Category
  pub owner_id : Option String
  pub subject_type : String
  pub subject_id : String
  pub action : String
  pub outcome : Outcome
  pub severity : Severity
  pub reason : Option String
  pub trace_id : Option String
  pub data_classification : String
  pub schema_version : ℕ
  pub payload_json : JsonDict
  pub occurred_at : ℕ
  pub published_at : Option ℕ
  pub attempt_count : ℕ
  pub next_attempt_at : ℕ
  pub last_error : String
  pub created_at : ℕ
