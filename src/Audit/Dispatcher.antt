-- ===== src/Audit/Dispatcher.antt =====
-- audit/dispatcher.py. Durations are in microseconds; the source multiplies them as floats.
use eidolon_data.Prelude.{
  ℕ, ◌*◌, ◌^◌, min, max, String, List, [], ◌∷◌, map, length, select_where, delete_where, mem,
  Result, ok, err, ◌⧺◌, string_eq,
}
use eidolon_data.Audit.Outbox.{Outbox, AuditEnvelope, pending_batch, mark_published, mark_failed}

-- `_retry_delay`
unfoldable pub retry_delay : ℕ → ℕ → ℕ → ℕ
retry_delay attempt_count base maximum = min (base * 2 ^ min (max 0 attempt_count) 16) maximum

-- An exception of the transport, as `type(exc).__name__` and `str(exc)`.
pub record PublishFailure : Type 0 where
  pub name : String
  pub message : String

-- `publish_many` of the SDK's `AuditPublisher`: it raises, or returns the ids that it acknowledges.
abbrev pub Publisher : Type 0
Publisher = List AuditEnvelope → Result PublishFailure (List String)

-- The constructor's arguments.
pub record Dispatcher : Type 0 where
  pub batch_size : ℕ
  pub retry_base : ℕ
  pub retry_max : ℕ

abbrev pub event_ids : List AuditEnvelope → List String
event_ids = map (λ e. e.event_id)

abbrev pub acknowledged_of : List String → List String → List String
acknowledged_of ids acked = select_where (λ i. mem i acked) ids

-- The `try` around the transport's call and what follows it. The ids of a batch are distinct, since
-- `event_id` is unique. `clock n` is the n-th reading of the clock in the call.
unfoldable pub settle_batch :
    (ℕ → ℕ) → List String → ℕ → Result PublishFailure (List String) → Outbox → ℕ × Outbox
settle_batch clock ids retry_after (err exc) rows =
    (0, (mark_failed (clock 1) ids (exc.name ⧺ ": " ⧺ exc.message) retry_after rows).1)
settle_batch clock ids retry_after (ok acked) rows =
    let acknowledged = acknowledged_of ids acked in
    let missing = delete_where (λ i. mem i acknowledged) ids in
    let published = (mark_published (clock 1) acknowledged rows).1 in
    (
      length acknowledged,
      (mark_failed (clock 2) missing "transport did not acknowledge event" retry_after published).1,
    )

unfoldable pub dispatch_events :
    Dispatcher → Publisher → (ℕ → ℕ) → ℕ → List AuditEnvelope → Outbox → ℕ × Outbox
unfolding settle_batch retry_delay
dispatch_events d publish clock attempts [] rows = (0, rows)
dispatch_events d publish clock attempts (e ∷ es) rows =
    settle_batch clock (event_ids (e ∷ es)) (retry_delay attempts d.retry_base d.retry_max)
      (publish (e ∷ es)) rows

unfoldable pub dispatch_once : Dispatcher → Publisher → (ℕ → ℕ) → Outbox → ℕ × Outbox
unfolding dispatch_events
dispatch_once d publish clock rows =
    let batch = pending_batch (clock 0) d.batch_size rows in
    dispatch_events d publish clock batch.max_attempt_count batch.events rows
