-- ===== src/Audit/Outbox.antt =====
-- The repository of audit/outbox.py. Each method is one session over the table; sets of event ids
-- are lists that are only asked for membership.
use eidolon_data.Prelude.{
  ℕ, ◌+◌, min, max, String, Bool, true, false, ◌&&◌, ◌||◌, Option, none, some, List, [], ◌∷◌, ◌++◌,
  map, if◌then◌else◌, ltb, leb, ◌==◌, is_none, length, take, get_last?, ℤ, pos_part, JsonDict, find,
  select_where, update_where, count_where, delete_where, exists_where, order_by, order_by_desc, mem,
  Tx, pure, gets, raise_if, modify, ◌>>=◌, ◌>>◌, truncate, nat_eq, string_eq, option_eq,
}
use eidolon_data.Schema.{Category, Outcome, Severity, is_governance, AuditOutboxRow}

abbrev pub Outbox : Type 0
Outbox = List AuditOutboxRow

-- What `_envelope` hands to the constructor of the SDK's `AuditEnvelope`.
pub record AuditEnvelope : Type 0 where
  pub event_id : String
  pub producer : String
  pub producer_seq : ℕ
  pub category : Category
  pub owner_id : Option String
  pub subject_type : String
  pub subject_id : String
  pub action : String
  pub outcome : Outcome
  pub severity : Severity
  pub reason : Option String
  pub trace_id : Option String
  pub data_classification : String
  pub schema_version : ℕ
  pub payload : JsonDict
  pub occurred_at : ℕ

-- `_envelope`
unfoldable pub envelope : AuditOutboxRow → AuditEnvelope
envelope row = record {
  event_id = row.event_id;
  producer = row.producer;
  producer_seq = row.outbox_id;
  category = row.category;
  owner_id = row.owner_id;
  subject_type = row.subject_type;
  subject_id = row.subject_id;
  action = row.action;
  outcome = row.outcome;
  severity = row.severity;
  reason = row.reason;
  trace_id = row.trace_id;
  data_classification = row.data_classification;
  schema_version = row.schema_version;
  payload = row.payload_json;
  occurred_at = row.occurred_at;
}

pub data OutboxError : Type 0 where
  integrity_error : OutboxError

-- `session.add` of a row and its flush: the primary key and `event_id` are unique.
unfoldable pub add_row : AuditOutboxRow → Tx Outbox OutboxError AuditOutboxRow
add_row row = do
  raise_if (← gets (exists_where (λ r. r.outbox_id == row.outbox_id || r.event_id == row.event_id)))
      integrity_error
  modify (λ rows. rows ++ row ∷ [])
  pure row

-- `enqueue`, with the row that `build_row` made of its keyword arguments
unfoldable pub enqueue : AuditOutboxRow → Tx Outbox OutboxError AuditEnvelope
unfolding add_row envelope
enqueue row = do stored ← add_row row; pure (envelope stored)

pub record AuditDeliveryState : Type 0 where
  pub event_id : String
  pub attempt_count : ℕ
  pub published_at : Option ℕ
  pub next_attempt_at : ℕ
  pub last_error : String

abbrev delivery_state : AuditOutboxRow → AuditDeliveryState
delivery_state row = record {
  event_id = row.event_id;
  attempt_count = row.attempt_count;
  published_at = row.published_at;
  next_attempt_at = row.next_attempt_at;
  last_error = row.last_error;
}

abbrev read_state : Option AuditOutboxRow → Option AuditDeliveryState
read_state none = none
read_state (some row) = some (delivery_state row)

unfoldable pub get_delivery_state : String → Outbox → Option AuditDeliveryState
get_delivery_state event_id rows = read_state (find (λ r. r.event_id == event_id) rows)

pub record PendingAuditBatch : Type 0 where
  pub events : List AuditEnvelope
  pub max_attempt_count : ℕ

-- `max((row.attempt_count for row in rows), default=0)`
unfoldable pub max_attempts : Outbox → ℕ
max_attempts [] = 0
max_attempts (row ∷ rows) = max row.attempt_count (max_attempts rows)

abbrev pub is_pending : ℕ → AuditOutboxRow → Bool
is_pending now row = is_none row.published_at && leb row.next_attempt_at now

unfoldable pub pending_rows : ℕ → ℕ → Outbox → Outbox
pending_rows now limit rows =
    take limit (order_by (λ r. r.outbox_id) (select_where (is_pending now) rows))

unfoldable pub pending_batch : ℕ → ℕ → Outbox → PendingAuditBatch
unfolding pending_rows envelope max_attempts
pending_batch now limit rows =
    let due = pending_rows now limit rows in
    record { events = map envelope due; max_attempt_count = max_attempts due }

unfoldable pub list_pending : ℕ → ℕ → Outbox → List AuditEnvelope
list_pending now limit rows = (pending_batch now limit rows).events

-- the WHERE clause of both updates
abbrev pub is_open_among : List String → AuditOutboxRow → Bool
is_open_among event_ids row = mem row.event_id event_ids && is_none row.published_at

abbrev pub set_published : ℕ → AuditOutboxRow → AuditOutboxRow
set_published at row = record row { published_at = some at; last_error = "" }

-- `mark_published`, at the time that its `published_at or datetime.now(UTC)` gives. The early
-- return on an empty set reads no row.
unfoldable pub mark_published : ℕ → List String → Outbox → ℕ × Outbox
mark_published at [] rows = (0, rows)
mark_published at (i ∷ is) rows =
    let ids = i ∷ is in
    (count_where (is_open_among ids) rows, update_where (is_open_among ids) (set_published at) rows)

abbrev pub set_failed : ℕ → ℕ → String → AuditOutboxRow → AuditOutboxRow
set_failed now retry_after message row = record row {
  attempt_count = row.attempt_count + 1;
  last_error = truncate 2000 message;
  next_attempt_at = now + retry_after;
}

unfoldable pub mark_failed : ℕ → List String → String → ℕ → Outbox → ℕ × Outbox
mark_failed now [] message retry_after rows = (0, rows)
mark_failed now (i ∷ is) message retry_after rows =
    let ids = i ∷ is in
    (
      count_where (is_open_among ids) rows,
      update_where (is_open_among ids) (set_failed now retry_after message) rows,
    )

abbrev pub is_expired : ℕ → AuditOutboxRow → Bool
is_expired before row = elim row.published_at [ none ↦ false | some at ↦ ltb at before ]

unfoldable pub purge_published : ℕ → Outbox → ℕ × Outbox
purge_published before rows =
    (count_where (is_expired before) rows, delete_where (is_expired before) rows)

pub record OwnerGovernancePage : Type 0 where
  pub events : List AuditEnvelope
  pub next_sequence : Option ℕ

-- `max(1, min(limit, 100))`
unfoldable pub cap_limit : ℤ → ℕ
cap_limit limit = max 1 (min (pos_part limit) 100)

abbrev pub is_history_of : String → AuditOutboxRow → Bool
is_history_of owner_id row = row.owner_id == some owner_id && is_governance row.category

abbrev pub is_before : Option ℕ → AuditOutboxRow → Bool
is_before none row = true
is_before (some before_sequence) row = ltb row.outbox_id before_sequence

abbrev pub sequence_of : Option AuditOutboxRow → Option ℕ
sequence_of none = none
sequence_of (some row) = some row.outbox_id

unfoldable pub history_rows : String → Option ℕ → Outbox → Outbox
history_rows owner_id before_sequence rows =
    order_by_desc (λ r. r.outbox_id)
      (select_where (λ r. is_history_of owner_id r && is_before before_sequence r) rows)

-- What `list_for_owner` makes of the rows that it found, one more than a page has.
abbrev pub page_from : ℕ → Outbox → OwnerGovernancePage
page_from capped found =
    let page = take capped found in
    record {
      events = map envelope page;
      next_sequence = if ltb capped (length found) then sequence_of (get_last? page) else none;
    }

unfoldable pub list_for_owner : String → ℤ → Option ℕ → Outbox → OwnerGovernancePage
list_for_owner owner_id limit before_sequence rows =
    let capped = cap_limit limit in
    page_from capped (take (capped + 1) (history_rows owner_id before_sequence rows))
