-- ===== src/Audit/Kept.antt =====
-- One round of the loop of audit/runner.py keeps what has not been published for long.
use eidolon_data.Prelude.{
  ℕ, ◌+◌, ◌-◌, ◌≤◌, String, ◌≡◌, ◌∙◌, inl, inr, true, Option, none, some, List, arith, leb,
  Bool-cases, find, find-map, find-delete_where, Result, ok, err, string_eq, nat_eq,
}
use eidolon_data.Schema.{AuditOutboxRow}
use eidolon_data.Audit.Outbox.{
  Outbox, AuditEnvelope, envelope, pending_batch, is_expired, purge_published, is_history_of,
}
use eidolon_data.Audit.Dispatcher.{
  retry_delay, PublishFailure, Publisher, Dispatcher, event_ids, dispatch_once,
}
use eidolon_data.Audit.Delivery.{settle_row, dispatch_once-eq-map}
use eidolon_data.Audit.Runner.{purge_expired_audit, Tick, Runner, run_round}
use eidolon_data.Audit.Retention.{has_id}

-- published at `start` or later, or not yet
abbrev pub NotPublishedBefore : ℕ → Option ℕ → Type 0
NotPublishedBefore start none = Unit
NotPublishedBefore start (some at) = start ≤ at

-- The event `i` is in the table, in the history of the Owner `o`, with the content `e`, and it has
-- not been published before `start`.
abbrev pub IsKept : ℕ → String → String → AuditEnvelope → Outbox → Type 0
IsKept start o i e rows =
    (row : AuditOutboxRow) × (find (has_id i) rows ≡ some row)
    × NotPublishedBefore start row.published_at
    × (is_history_of o row ≡ true)
    × (envelope row ≡ e)

-- The round runs after `start`, and less than the retention after it.
abbrev pub IsWithin : ℕ → ℕ → Tick → Type 0
IsWithin start retention t = (start ≤ t.clock 1) × (t.moment ≤ start + retention)

module _ (clock : ℕ → ℕ) (ids : List String) (retry_after : ℕ)
    (answer : Result PublishFailure (List String)) where
  settle_row-has_id :
      (i : String) (row : AuditOutboxRow)
      → has_id i (settle_row clock ids retry_after answer row) ≡ has_id i row
  settle_row-has_id i row =
      elim answer as (λ a. has_id i (settle_row clock ids retry_after a row) ≡ has_id i row) [
        | ok acked ↦ ground arith
        | err exc ↦ ground arith
      ]

  settle_row-is_history_of :
      (o : String) (row : AuditOutboxRow)
      → is_history_of o (settle_row clock ids retry_after answer row) ≡ is_history_of o row
  settle_row-is_history_of o row =
      elim answer
        as (λ a. is_history_of o (settle_row clock ids retry_after a row) ≡ is_history_of o row) [
          | ok acked ↦ ground arith
          | err exc ↦ ground arith
        ]

  pub settle_row-outbox_id :
      (row : AuditOutboxRow)
      → (settle_row clock ids retry_after answer row).outbox_id ≡ row.outbox_id
  settle_row-outbox_id row =
      elim answer as (λ a. (settle_row clock ids retry_after a row).outbox_id ≡ row.outbox_id) [
        | ok acked ↦ ground arith
        | err exc ↦ ground arith
      ]

  settle_row-content :
      (start : ℕ) (row : AuditOutboxRow)
      → start ≤ clock 1
      → NotPublishedBefore start row.published_at
      → NotPublishedBefore start (settle_row clock ids retry_after answer row).published_at
        × (envelope (settle_row clock ids retry_after answer row) ≡ envelope row)
  unfolding envelope
  settle_row-content start row h n =
      elim answer
        as (λ a.
          NotPublishedBefore start (settle_row clock ids retry_after a row).published_at
          × (envelope (settle_row clock ids retry_after a row) ≡ envelope row)) [
            | ok acked ↦ ground arith
            | err exc ↦ ground arith
          ]

dispatch-IsKept :
    (d : Dispatcher) (publish : Publisher) (clock : ℕ → ℕ) (start : ℕ) (o i : String)
    (e : AuditEnvelope) (rows : Outbox)
    → start ≤ clock 1
    → IsKept start o i e rows
    → IsKept start o i e (dispatch_once d publish clock rows).1
dispatch-IsKept d publish clock start o i e rows w (r, f, n, h, s) =
    let batch = pending_batch (clock 0) d.batch_size rows in
    let ids = event_ids batch.events in
    let delay = retry_delay batch.max_attempt_count d.retry_base d.retry_max in
    let answer = publish batch.events in
    let (n', s') = settle_row-content clock ids delay answer start r w n in
    rw (dispatch_once-eq-map d publish clock rows) (
      settle_row clock ids delay answer r,
      find-map (has_id i) (settle_row clock ids delay answer) rows r
          (settle_row-has_id clock ids delay answer i) f,
      n',
      settle_row-is_history_of clock ids delay answer o r ∙ h,
      s' ∙ s,
    )

purge-IsKept :
    (start moment retention : ℕ) (o i : String) (e : AuditEnvelope) (rows : Outbox)
    → moment ≤ start + retention
    → IsKept start o i e rows
    → IsKept start o i e (purge_expired_audit moment retention rows).1
unfolding purge_expired_audit purge_published
purge-IsKept start moment retention o i e rows w (r, f, n, h, s) = (
  r,
  find-delete_where (has_id i) (is_expired (moment - retention)) rows r f (ground arith),
  n,
  h,
  s,
)

pub run_round-IsKept :
    (d : Dispatcher) (publish : Publisher) (retention start : ℕ) (o i : String) (e : AuditEnvelope)
    (t : Tick) (s : Runner)
    → IsWithin start retention t
    → IsKept start o i e s.outbox
    → IsKept start o i e (run_round d publish retention t s).outbox
unfolding run_round
run_round-IsKept d publish retention start o i e t s w r =
    let after = (dispatch_once d publish t.clock s.outbox).1 in
    let r' = dispatch-IsKept d publish t.clock start o i e s.outbox w.0 r in
    elim (Bool-cases (leb s.next_purge t.monotonic)) [
      | inl due ↦ rw due (purge-IsKept start t.moment retention o i e after w.1 r')
      | inr early ↦ rw early r'
    ]
