-- ===== src/Tests/Audit.antt =====
-- The audit outbox.
use eidolon_data.Audit.Backoff.{retry_delay_bounds}
use eidolon_data.Audit.Delivery.{settle_row, dispatch_once-eq-map}
use eidolon_data.Audit.Rounds.{run_rounds-read_pages}
use eidolon_data.Audit.Runner.{
  owner_history_retention, purge_expired_audit, Tick, Runner, run_round, run_rounds,
}
use eidolon_data.Audit.Retention.{
  has_id, Waits, OutboxCall, call_enqueue, call_published, call_failed, call_purge, perform,
  perform_all, perform_all-Waits, perform_all_published,
}
use eidolon_data.Audit.History.{history, read_pages, HasUniqueIds, read_pages-eq-history}
use eidolon_data.Audit.Dispatcher.{
  retry_delay, Publisher, Dispatcher, event_ids, settle_batch, dispatch_events, dispatch_once,
}
use eidolon_data.Prelude.{
  ℕ, ◌+◌, ◌≤◌, min, String, ◌≡◌, refl, none, some, List, [], ◌∷◌, map, Mem, arith, length, pos,
  negsuc, find, ok, err, string_eq, nat_eq, option_eq,
}
use eidolon_data.Schema.{AuditOutboxRow}
use eidolon_data.Audit.Row.{details, governance_fact}
use eidolon_data.Audit.Outbox.{
  Outbox, envelope, integrity_error, add_row, enqueue, max_attempts, pending_rows, pending_batch,
  set_published, mark_published, set_failed, mark_failed, purge_published, cap_limit, history_rows,
  list_for_owner,
}
use eidolon_data.Tests.Fixtures.{env_at}

-- what a run needs unfolded
audit_code : Unit {0}
unfolding governance_fact envelope pending_batch pending_rows max_attempts mark_published
    mark_failed purge_published cap_limit history_rows list_for_owner retry_delay settle_batch
    dispatch_events dispatch_once enqueue add_row history perform perform_all run_round run_rounds
    purge_expired_audit
audit_code = tt

abbrev fact_at : ℕ → String → String → AuditOutboxRow
fact_at k event_id owner_id =
    governance_fact (env_at 10 event_id "" k) 0 owner_id "owner" owner_id "owner.created" details

abbrev outbox : Outbox
outbox = fact_at 1 "x" "owner-a" ∷ fact_at 2 "y" "owner-b" ∷ fact_at 3 "z" "owner-a" ∷ []

abbrev dispatcher : Dispatcher
dispatcher = record { batch_size = 200; retry_base = 1000000; retry_max = 60000000 }

-- a transport that acknowledges one event of those that it is given
abbrev acknowledges : String → Publisher
acknowledges i events = ok (i ∷ "audit-other" ∷ [])

abbrev down : Publisher
down events = err (record { name = "TimeoutError"; message = "no bus" })

abbrev clock : ℕ → ℕ
clock n = 20 + n

dispatch_partly : dispatch_once dispatcher (acknowledges "audit-y") clock outbox ≡ (
  1,
  set_failed 22 1000000 "transport did not acknowledge event" (fact_at 1 "x" "owner-a")
      ∷ set_published 21 (fact_at 2 "y" "owner-b")
      ∷ set_failed 22 1000000 "transport did not acknowledge event" (fact_at 3 "z" "owner-a")
      ∷ [],
)
unfolding audit_code
dispatch_partly = refl

first_page :
    list_for_owner "owner-a" (negsuc 4) none outbox
    ≡ record { events = envelope (fact_at 3 "z" "owner-a") ∷ []; next_sequence = some 3 }
unfolding audit_code
first_page = refl

enqueue_twice : enqueue (fact_at 9 "x" "owner-a") outbox ≡ err integrity_error
unfolding audit_code
enqueue_twice = refl

dispatch_once-eq-map_example :
    (dispatch_once dispatcher down clock outbox).1
    ≡ map
        (settle_row clock
          (event_ids (pending_batch 20 200 outbox).events)
          (retry_delay (pending_batch 20 200 outbox).max_attempt_count 1000000 60000000)
          (down (pending_batch 20 200 outbox).events))
        outbox
dispatch_once-eq-map_example = dispatch_once-eq-map dispatcher down clock outbox

outbox-HasUniqueIds : HasUniqueIds outbox
unfolding audit_code
outbox-HasUniqueIds = omega arith

read_pages-eq-history_example :
    read_pages (length (history "owner-a" outbox)) "owner-a" (pos 1) none outbox
    ≡ map envelope (history "owner-a" outbox)
read_pages-eq-history_example = read_pages-eq-history "owner-a" (pos 1) outbox outbox-HasUniqueIds

abbrev calls : List OutboxCall
calls =
    call_failed 20 ("audit-x" ∷ []) "no bus" 1000000
    ∷ call_published 30 ("audit-y" ∷ [])
    ∷ call_purge 40
    ∷ call_enqueue (fact_at 4 "w" "owner-a")
    ∷ []

found_x : find (has_id "audit-x") outbox ≡ some (fact_at 1 "x" "owner-a")
unfolding audit_code
found_x = refl

perform_all-Waits_example :
    Waits "audit-x" (envelope (fact_at 1 "x" "owner-a")) (perform_all calls outbox)
unfolding governance_fact
perform_all-Waits_example =
    perform_all-Waits calls "audit-x" (envelope (fact_at 1 "x" "owner-a")) outbox
      (tt, (refl, (tt, (tt, tt)))) (fact_at 1 "x" "owner-a", found_x, refl, refl)

abbrev published_x : AuditOutboxRow
published_x = set_published 40 (fact_at 1 "x" "owner-a")

found_published : find (has_id "audit-x") (published_x ∷ []) ≡ some published_x
unfolding audit_code
found_published = refl

perform_all_published_example :
    find (has_id "audit-x") (perform_all calls (published_x ∷ [])) ≡ some published_x
perform_all_published_example =
    perform_all_published calls "audit-x" 40 published_x (published_x ∷ [])
      (tt, (tt, (omega arith, (tt, tt)))) refl found_published

abbrev tick : ℕ → Tick
tick n = record { clock = λ k. n + k; monotonic = n; moment = n }

abbrev runner : Runner
runner = record { outbox = outbox; next_purge = 0; purges = 0; sleeps = 0 }

abbrev after_rounds : Outbox
after_rounds =
    (run_rounds dispatcher down owner_history_retention (tick 20 ∷ tick 30 ∷ []) runner).outbox

run_rounds-read_pages_example :
    Mem
      (envelope (fact_at 1 "x" "owner-a"))
      (read_pages (length (history "owner-a" after_rounds)) "owner-a" (pos 1) none after_rounds)
unfolding governance_fact
run_rounds-read_pages_example =
    run_rounds-read_pages dispatcher down owner_history_retention 15 "owner-a" "audit-x"
      (envelope (fact_at 1 "x" "owner-a")) (tick 20 ∷ tick 30 ∷ []) runner (pos 1)
      ((omega arith, omega arith), ((omega arith, omega arith), tt)) outbox-HasUniqueIds
      (fact_at 1 "x" "owner-a", found_x, tt, refl, refl)

retry_delay_bounds_example :
    (retry_delay 9 1000000 60000000 ≤ 60000000)
    × (min 1000000 60000000 ≤ retry_delay 3 1000000 60000000)
    × (retry_delay 3 1000000 60000000 ≤ retry_delay 9 1000000 60000000)
    × (retry_delay (16 + 9) 1000000 60000000 ≡ retry_delay 16 1000000 60000000)
retry_delay_bounds_example = retry_delay_bounds 3 9 1000000 60000000 (omega arith)
