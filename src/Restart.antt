-- ===== src/Restart.antt =====
-- nrdot-supervisor/pkg/restart (strategy.go, exponential.go): when the collector is restarted.
pub mod Bounds
pub mod Supervisor
pub mod Budget
use nrdot_host.Common.{ℕ, ◌+◌, Bool, true, false, ◌&&◌, ltb, leb, if◌then◌else◌, Str}

pub data Policy : Type 0 where
  never on_failure always : Policy
  other : Str → Policy

-- Durations are not negative. `multiply` is the product with `BackoffMultiplier` in floating point,
-- cut to a whole number of nanoseconds.
pub record Config : Type 0 where
  pub policy : Policy
  pub max_retries : ℕ
  pub initial_delay : ℕ
  pub max_delay : ℕ
  pub multiply : ℕ → ℕ

pub record ExponentialBackoff : Type 0 where
  pub initial_delay : ℕ
  pub max_delay : ℕ
  pub multiply : ℕ → ℕ
  pub max_retries : ℕ
  pub current_delay : ℕ
  pub retry_count : ℕ
  pub consecutive_success : ℕ

unfoldable pub new_exponential_backoff : ℕ → ℕ → (ℕ → ℕ) → ℕ → ExponentialBackoff
new_exponential_backoff initial_delay max_delay multiply max_retries = record {
  initial_delay = initial_delay;
  max_delay = max_delay;
  multiply = multiply;
  max_retries = max_retries;
  current_delay = initial_delay;
  retry_count = 0;
  consecutive_success = 0;
}

-- The delay before the next restart, and whether there is to be one.
unfoldable pub next_delay : ExponentialBackoff → ExponentialBackoff × ℕ × Bool
next_delay e =
    let next = e.multiply e.current_delay in
    if ltb 0 e.max_retries && leb e.max_retries e.retry_count then (e, 0, false) else (
      record e {
        retry_count = e.retry_count + 1;
        current_delay = if ltb e.max_delay next then e.max_delay else next;
      },
      e.current_delay,
      true,
    )

unfoldable pub reset : ExponentialBackoff → ExponentialBackoff
reset e = record e { current_delay = e.initial_delay; retry_count = 0; consecutive_success = 0 }

unfoldable pub record_failure : ExponentialBackoff → ExponentialBackoff
record_failure e = record e { consecutive_success = 0 }

-- The third success in a row starts the backoff anew.
unfoldable pub record_success : ExponentialBackoff → ExponentialBackoff
record_success e =
    let counted = record e { consecutive_success = e.consecutive_success + 1 } in
    if leb 3 (e.consecutive_success + 1)
    then record counted { current_delay = e.initial_delay; retry_count = 0 }
    else counted

-- The implementations of the interface `Strategy`.
pub data Strategy : Type 0 where
  never_strategy : Strategy
  always_strategy : ℕ → Strategy
  exponential : ExponentialBackoff → Strategy

abbrev backoff_of : Config → Strategy
backoff_of c =
    exponential (new_exponential_backoff c.initial_delay c.max_delay c.multiply c.max_retries)

-- The `switch` on the policy; an unknown policy is that of failures.
abbrev create_for : Policy → Config → Strategy
create_for never c = never_strategy
create_for always c = always_strategy c.initial_delay
create_for on_failure c = backoff_of c
create_for (other _) c = backoff_of c

unfoldable pub create : Config → Strategy
unfolding new_exponential_backoff
create c = create_for c.policy c

unfoldable pub strategy_next_delay : Strategy → Strategy × ℕ × Bool
unfolding next_delay
strategy_next_delay never_strategy = (never_strategy, 0, false)
strategy_next_delay (always_strategy delay) = (always_strategy delay, delay, true)
strategy_next_delay (exponential e) =
    let (e', delay, restart) = next_delay e in (exponential e', delay, restart)

unfoldable pub strategy_reset : Strategy → Strategy
unfolding reset
strategy_reset (exponential e) = exponential (reset e)
strategy_reset s = s

unfoldable pub strategy_record_failure : Strategy → Strategy
unfolding record_failure
strategy_record_failure (exponential e) = exponential (record_failure e)
strategy_record_failure s = s

unfoldable pub strategy_record_success : Strategy → Strategy
unfolding record_success
strategy_record_success (exponential e) = exponential (record_success e)
strategy_record_success s = s
