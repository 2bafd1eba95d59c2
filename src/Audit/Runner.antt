-- ===== src/Audit/Runner.antt =====
-- audit/runner.py: the retention, and the loop that drains the outbox. Times are in microseconds.
-- A session that raises ends its round, and is not modelled.
use eidolon_data.Prelude.{ℕ, ◌+◌, ◌-◌, ◌*◌, List, [], ◌∷◌, if◌then◌else◌, leb, ◌==◌, nat_eq}
use eidolon_data.Audit.Outbox.{Outbox, purge_published}
use eidolon_data.Audit.Dispatcher.{Publisher, Dispatcher, dispatch_once}

-- `OWNER_HISTORY_RETENTION`, ninety days
abbrev pub owner_history_retention : ℕ
owner_history_retention = 90 * 24 * 3600 * 1000000

-- `_PURGE_INTERVAL_SECONDS`
abbrev pub purge_interval : ℕ
purge_interval = 60 * 60 * 1000000

-- `purge_expired_audit`
unfoldable pub purge_expired_audit : ℕ → ℕ → Outbox → ℕ × Outbox
purge_expired_audit moment retention rows = purge_published (moment - retention) rows

-- What a round reads: the wall clock in the dispatcher, the monotonic clock, and the wall clock of
-- the purge.
pub record Tick : Type 0 where
  pub clock : ℕ → ℕ
  pub monotonic : ℕ
  pub moment : ℕ

pub record Runner : Type 0 where
  pub outbox : Outbox
  pub next_purge : ℕ
  pub purges : ℕ  -- how many times the loop has purged, for the statements
  pub sleeps : ℕ  -- how many times it has slept

-- The body of the loop.
unfoldable pub run_round : Dispatcher → Publisher → ℕ → Tick → Runner → Runner
run_round d publish retention t s =
    let (published, rows) = dispatch_once d publish t.clock s.outbox in
    let idle = if published == 0 then s.sleeps + 1 else s.sleeps in
    if leb s.next_purge t.monotonic
    then record {
      outbox = (purge_expired_audit t.moment retention rows).1;
      next_purge = t.monotonic + purge_interval;
      purges = s.purges + 1;
      sleeps = idle;
    }
    else record s { outbox = rows; sleeps = idle }

unfoldable pub run_rounds : Dispatcher → Publisher → ℕ → List Tick → Runner → Runner
run_rounds d publish retention [] s = s
run_rounds d publish retention (t ∷ ts) s =
    run_rounds d publish retention ts (run_round d publish retention t s)
