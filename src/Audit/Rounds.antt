-- ===== src/Audit/Rounds.antt =====
-- The loop of audit/runner.py over many rounds.
use eidolon_data.Audit.Kept.{IsKept, IsWithin, settle_row-outbox_id, run_round-IsKept}
use eidolon_data.Prelude.{
  ℕ, ◌-◌, String, inl, inr, none, List, [], ◌∷◌, Mem, mem-map, leb, Bool-cases, length, All, ℤ,
  select_where, Mem-select_where, Mem-order_by_desc, IsUnique-map, IsUnique-delete_where, string_eq,
  nat_eq,
}
use eidolon_data.Audit.Outbox.{
  AuditEnvelope, pending_batch, is_expired, purge_published, is_history_of,
}
use eidolon_data.Audit.Dispatcher.{retry_delay, Publisher, Dispatcher, event_ids, dispatch_once}
use eidolon_data.Audit.Delivery.{settle_row, dispatch_once-eq-map}
use eidolon_data.Audit.Runner.{purge_expired_audit, Tick, Runner, run_round, run_rounds}
use eidolon_data.Audit.Retention.{has_id}
use eidolon_data.Audit.History.{history, read_pages, HasUniqueIds, read_pages-eq-history}

module _ (d : Dispatcher) (publish : Publisher) (retention : ℕ) where
  run_rounds-IsKept :
      (start : ℕ) (o i : String) (e : AuditEnvelope) (ts : List Tick) (s : Runner)
      → All (IsWithin start retention) ts
      → IsKept start o i e s.outbox
      → IsKept start o i e (run_rounds d publish retention ts s).outbox
  unfolding run_rounds
  run_rounds-IsKept start o i e [] s w r = r
  run_rounds-IsKept start o i e (t ∷ ts) s w r =
      run_rounds-IsKept start o i e ts (run_round d publish retention t s) w.1
        (run_round-IsKept d publish retention start o i e t s w.0 r)

  -- the rounds give no row another id
  run_round-HasUniqueIds :
      (t : Tick) (s : Runner)
      → HasUniqueIds s.outbox
      → HasUniqueIds (run_round d publish retention t s).outbox
  unfolding run_round purge_expired_audit purge_published
  run_round-HasUniqueIds t s u =
      let batch = pending_batch (t.clock 0) d.batch_size s.outbox in
      let ids = event_ids batch.events in
      let delay = retry_delay batch.max_attempt_count d.retry_base d.retry_max in
      let answer = publish batch.events in
      let after = (dispatch_once d publish t.clock s.outbox).1 in
      let sent : HasUniqueIds after = rw (dispatch_once-eq-map d publish t.clock s.outbox) (
        IsUnique-map (λ r. r.outbox_id) (settle_row t.clock ids delay answer)
          (settle_row-outbox_id t.clock ids delay answer) s.outbox u) in
      elim (Bool-cases (leb s.next_purge t.monotonic)) [
        | inl due ↦ rw due (
            IsUnique-delete_where (λ r. r.outbox_id) (is_expired (t.moment - retention)) after sent)
        | inr early ↦ rw early sent
      ]

  run_rounds-HasUniqueIds :
      (ts : List Tick) (s : Runner)
      → HasUniqueIds s.outbox
      → HasUniqueIds (run_rounds d publish retention ts s).outbox
  unfolding run_rounds
  run_rounds-HasUniqueIds [] s u = u
  run_rounds-HasUniqueIds (t ∷ ts) s u =
      run_rounds-HasUniqueIds ts (run_round d publish retention t s) (run_round-HasUniqueIds t s u)

  -- Whatever the transport answers, a governance event that is in the table at `start`, and has not
  -- been published before, is read by its Owner with unchanged content after any number of rounds
  -- that run within the retention: it is among the events of the pages that `list_for_owner` returns
  -- one after another, for any limit. This holds if the ids of the rows are distinct at first.
  pub run_rounds-read_pages :
      (start : ℕ) (o i : String) (e : AuditEnvelope) (ts : List Tick) (s : Runner) (limit : ℤ)
      → All (IsWithin start retention) ts
      → HasUniqueIds s.outbox
      → IsKept start o i e s.outbox
      → let rows = (run_rounds d publish retention ts s).outbox in
        Mem e (read_pages (length (history o rows)) o limit none rows)
  unfolding history
  run_rounds-read_pages start o i e ts s limit w u r =
      let rows = (run_rounds d publish retention ts s).outbox in
      let (row, found, n, h, same) = run_rounds-IsKept start o i e ts s w r in
      let there =
        Mem-order_by_desc (λ x. x.outbox_id) row (select_where (is_history_of o) rows)
          (Mem-select_where (has_id i) (is_history_of o) rows row found h) in
      rw (read_pages-eq-history o limit rows (run_rounds-HasUniqueIds ts s u))
        (mem-map.1 ∣ (row, there, same) ∣₁)
