-- ===== src/Audit/Delivery.antt =====
-- What one run of the dispatcher does to every row of the outbox.
use eidolon_data.Prelude.{
  ℕ, String, ◌≡◌, refl, sym, List, [], ◌∷◌, map, if◌then◌else◌, update_where, delete_where, mem,
  Result, ok, err, ◌⧺◌, update_where_none, string_eq, arith, ap, mem-select_where, mem-delete_where,
}
use eidolon_data.Schema.{AuditOutboxRow}
use eidolon_data.Audit.Outbox.{
  Outbox, is_open_among, set_published, mark_published, set_failed, mark_failed, AuditEnvelope,
  pending_batch,
}
use eidolon_data.Audit.Dispatcher.{
  PublishFailure, acknowledged_of, settle_batch, dispatch_events, dispatch_once, Dispatcher,
  Publisher, event_ids, retry_delay,
}

pub mark_published_lem :
    (at : ℕ) (ids : List String) (rows : Outbox)
    → (mark_published at ids rows).1 ≡ update_where (is_open_among ids) (set_published at) rows
unfolding mark_published
mark_published_lem at [] rows =
    sym (update_where_none (is_open_among []) (set_published at) rows (λ r. refl))
mark_published_lem at (i ∷ is) rows = refl

pub mark_failed_lem :
    (now : ℕ) (ids : List String) (message : String) (retry_after : ℕ) (rows : Outbox)
    → (mark_failed now ids message retry_after rows).1
      ≡ update_where (is_open_among ids) (set_failed now retry_after message) rows
unfolding mark_failed
mark_failed_lem now [] message retry_after rows =
    sym (update_where_none (is_open_among []) (set_failed now retry_after message) rows (λ r. refl))
mark_failed_lem now (i ∷ is) message retry_after rows = refl

-- The fate of one row, given the ids of the batch and the answer of the transport.
abbrev pub settle_row :
    (ℕ → ℕ)
    → List String
    → ℕ
    → Result PublishFailure (List String)
    → AuditOutboxRow
    → AuditOutboxRow
settle_row clock ids retry_after (err exc) row =
    if is_open_among ids row
    then set_failed (clock 1) retry_after (exc.name ⧺ ": " ⧺ exc.message) row
    else row
settle_row clock ids retry_after (ok acked) row =
    if is_open_among ids row
    then if mem row.event_id acked
      then set_published (clock 1) row
      else set_failed (clock 2) retry_after "transport did not acknowledge event" row
    else row

settle_acknowledged :
    (clock : ℕ → ℕ) (ids : List String) (retry_after : ℕ) (acked : List String) (rows : Outbox)
    → update_where
        (is_open_among (delete_where (λ i. mem i (acknowledged_of ids acked)) ids))
        (set_failed (clock 2) retry_after "transport did not acknowledge event")
        (update_where (is_open_among (acknowledged_of ids acked)) (set_published (clock 1)) rows)
      ≡ map (settle_row clock ids retry_after (ok acked)) rows
settle_acknowledged clock ids retry_after acked [] = refl
settle_acknowledged clock ids retry_after acked (row ∷ rows) = ground (
  arith,
  settle_acknowledged clock ids retry_after acked rows,
  mem-select_where (λ i. mem i acked) row.event_id ids,
  mem-delete_where (λ i. mem i (acknowledged_of ids acked)) row.event_id ids,
)

settle_refused :
    (clock : ℕ → ℕ) (ids : List String) (retry_after : ℕ) (exc : PublishFailure) (rows : Outbox)
    → update_where
        (is_open_among ids)
        (set_failed (clock 1) retry_after (exc.name ⧺ ": " ⧺ exc.message))
        rows
      ≡ map (settle_row clock ids retry_after (err exc)) rows
settle_refused clock ids retry_after exc [] = refl
settle_refused clock ids retry_after exc (row ∷ rows) =
    ap (λ rest. settle_row clock ids retry_after (err exc) row ∷ rest)
      (settle_refused clock ids retry_after exc rows)

settle_batch_lem :
    (clock : ℕ → ℕ) (ids : List String) (retry_after : ℕ)
    (answer : Result PublishFailure (List String)) (rows : Outbox)
    → (settle_batch clock ids retry_after answer rows).1
      ≡ map (settle_row clock ids retry_after answer) rows
unfolding settle_batch
settle_batch_lem clock ids retry_after (err exc) rows =
    simp mark_failed_lem (settle_refused clock ids retry_after exc rows)
settle_batch_lem clock ids retry_after (ok acked) rows =
    simp (mark_failed_lem, mark_published_lem)
      (settle_acknowledged clock ids retry_after acked rows)

map_unsettled :
    (clock : ℕ → ℕ) (retry_after : ℕ) (answer : Result PublishFailure (List String)) (rows : Outbox)
    → rows ≡ map (settle_row clock [] retry_after answer) rows
map_unsettled clock retry_after answer [] = refl
map_unsettled clock retry_after (ok acked) (row ∷ rows) =
    ap (λ rest. row ∷ rest) (map_unsettled clock retry_after (ok acked) rows)
map_unsettled clock retry_after (err exc) (row ∷ rows) =
    ap (λ rest. row ∷ rest) (map_unsettled clock retry_after (err exc) rows)

dispatch_events_lem :
    (d : Dispatcher) (publish : Publisher) (clock : ℕ → ℕ) (attempts : ℕ)
    (events : List AuditEnvelope) (rows : Outbox)
    → (dispatch_events d publish clock attempts events rows).1
      ≡ map
          (settle_row clock
            (event_ids events)
            (retry_delay attempts d.retry_base d.retry_max)
            (publish events))
          rows
unfolding dispatch_events
dispatch_events_lem d publish clock attempts [] rows =
    map_unsettled clock (retry_delay attempts d.retry_base d.retry_max) (publish []) rows
dispatch_events_lem d publish clock attempts (e ∷ es) rows =
    settle_batch_lem clock (event_ids (e ∷ es)) (retry_delay attempts d.retry_base d.retry_max)
      (publish (e ∷ es)) rows

-- One run of the dispatcher, in its three sessions, is one pass over the table. Exactly the rows of
-- the batch that are still unpublished change: an acknowledged one is published, with no error left;
-- any other has one attempt more, the error, and its next attempt after the delay. If the transport
-- raises, all of the batch counts as not acknowledged. No row is dropped, added or moved.
pub dispatch_once-eq-map :
    (d : Dispatcher) (publish : Publisher) (clock : ℕ → ℕ) (rows : Outbox)
    → let batch = pending_batch (clock 0) d.batch_size rows in
      (dispatch_once d publish clock rows).1
      ≡ map
          (settle_row clock
            (event_ids batch.events)
            (retry_delay batch.max_attempt_count d.retry_base d.retry_max)
            (publish batch.events))
          rows
unfolding dispatch_once
dispatch_once-eq-map d publish clock rows =
    let batch = pending_batch (clock 0) d.batch_size rows in
    dispatch_events_lem d publish clock batch.max_attempt_count batch.events rows
