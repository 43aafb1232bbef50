-- ===== src/Restart/Supervisor.antt =====
-- nrdot-supervisor/supervisor.go: what the supervisor does when the collector fails. Logging and
-- metrics are left out, and what the collector and the context do comes in as an `Outcome`.
use nrdot_host.Common.{ℕ, ◌+◌, List, [], ◌∷◌, Bool, true, false, if◌then◌else◌}
use nrdot_host.Restart.{
  Strategy, Config, create, strategy_next_delay, strategy_record_failure, strategy_record_success,
}

-- How a restart goes: the context ends during the delay, the process does not start, it does not
-- become healthy (and is stopped), or it runs.
pub data Outcome : Type 0 where
  cancelled not_started unhealthy healthy : Outcome

-- The state of the supervisor: its strategy, whether the collector runs, and the number of restarts
-- that were attempted so far.
pub record Supervisor : Type 0 where
  pub strategy : Strategy
  pub collector_running : Bool
  pub restarts : ℕ

unfoldable pub new : Config → Supervisor
new c = record { strategy = create c; collector_running = false; restarts = 0 }

-- `startCollector`: only a healthy collector is recorded as a success.
unfoldable pub start_collector : Outcome → Supervisor → Supervisor
start_collector healthy s = record s {
  strategy = strategy_record_success s.strategy;
  collector_running = true;
}
start_collector _ s = record s { collector_running = false }

-- What follows a granted restart: the collector is stopped, the delay is waited out, and the
-- collector is started.
unfoldable pub restart : Outcome → Supervisor → Supervisor
unfolding start_collector
restart cancelled s = record s { collector_running = false }
restart o s = start_collector o (record s { collector_running = false; restarts = s.restarts + 1 })

unfoldable pub handle_collector_failure : Outcome → Supervisor → Supervisor
unfolding restart
handle_collector_failure o s =
    let (strategy, delay, should_restart) =
      strategy_next_delay (strategy_record_failure s.strategy) in
    if should_restart
    then restart o (record s { strategy = strategy })
    else record s { strategy = strategy }

-- The first start, and then one failure after another.
unfoldable pub supervise : List Outcome → Supervisor → Supervisor
unfolding handle_collector_failure
supervise [] s = s
supervise (o ∷ os) s = supervise os (handle_collector_failure o s)

unfoldable pub run : Config → Outcome → List Outcome → Supervisor
unfolding supervise start_collector
run c first os = supervise os (start_collector first (new c))
