-- ===== src/Audit/Row.antt =====
-- The rows of the outbox: `AuditOutboxRepository.build_row` (audit/outbox.py) and `governance_fact`
-- (audit/facts.py).
use eidolon_data.Prelude.{ℕ, String, Option, none, some, [], JsonDict, ◌⧺◌, or_text, or_value}
use eidolon_data.Schema.{
  Env, Category, governance, Outcome, success, Severity, info, AuditOutboxRow,
}

-- The keyword arguments of `build_row`, with its defaults in `details`.
pub record Details : Type 0 where
  pub event_id : Option String
  pub owner_id : Option String
  pub outcome : Outcome
  pub severity : Severity
  pub reason : Option String
  pub trace_id : Option String
  pub data_classification : String
  pub schema_version : ℕ
  pub payload : Option JsonDict
  pub occurred_at : Option ℕ

abbrev pub details : Details
details = record {
  event_id = none;
  owner_id = none;
  outcome = success;
  severity = info;
  reason = none;
  trace_id = none;
  data_classification = "safe";
  schema_version = 1;
  payload = none;
  occurred_at = none;
}

-- The row that the n-th `session.add` of a transaction stores: columns that the constructor does
-- not set have the defaults of schema/audit.py.
unfoldable pub build_row :
    Env → ℕ → String → Category → String → String → String → Details → AuditOutboxRow
build_row env n producer category subject_type subject_id action d = record {
  outbox_id = env.outbox_id n;
  event_id = or_text d.event_id ("audit-" ⧺ env.uuid n);
  producer = producer;
  category = category;
  owner_id = d.owner_id;
  subject_type = subject_type;
  subject_id = subject_id;
  action = action;
  outcome = d.outcome;
  severity = d.severity;
  reason = d.reason;
  trace_id = d.trace_id;
  data_classification = d.data_classification;
  schema_version = d.schema_version;
  payload_json = or_value d.payload [];
  occurred_at = or_value d.occurred_at env.now;
  published_at = none;
  attempt_count = 0;
  next_attempt_at = env.now;
  last_error = "";
  created_at = env.now;
}

unfoldable pub governance_fact :
    Env → ℕ → String → String → String → String → Details → AuditOutboxRow
unfolding build_row
governance_fact env n owner_id subject_type subject_id action d =
    build_row env n "eidolon-system-data" governance subject_type subject_id action
      (record d { owner_id = some owner_id; schema_version = 1 })
