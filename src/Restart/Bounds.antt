-- ===== src/Restart/Bounds.antt =====
-- strategy.go, exponential.go: the delays stay bounded, and the retries within their budget.
use nrdot_host.Common.{ℕ, ◌≡◌, ◌≤◌, ◌<◌, max, refl, List, [], ◌∷◌, arith}
use nrdot_host.Restart.{
  ExponentialBackoff, new_exponential_backoff, next_delay, reset, record_failure, record_success,
}

-- A call of one of the methods.
pub data Call : Type 0 where
  next failure success restart : Call

unfoldable pub call : Call → ExponentialBackoff → ExponentialBackoff
unfolding next_delay record_failure record_success reset
call next e = (next_delay e).0
call failure e = record_failure e
call success e = record_success e
call restart e = reset e

unfoldable pub calls : List Call → ExponentialBackoff → ExponentialBackoff
unfolding call
calls [] e = e
calls (c ∷ cs) e = calls cs (call c e)

pub record IsBounded (e : ExponentialBackoff) : Type 0 where
  pub delay : e.current_delay ≤ max e.initial_delay e.max_delay
  pub retries : 0 < e.max_retries → e.retry_count ≤ e.max_retries

-- Every method keeps the bounds.
pub call-IsBounded : (c : Call) (e : ExponentialBackoff) → IsBounded e → IsBounded (call c e)
unfolding call
call-IsBounded next e h = ground arith
call-IsBounded failure e h = ground arith
call-IsBounded success e h = ground arith
call-IsBounded restart e h = ground arith

call_max :
    (c : Call) (e : ExponentialBackoff)
    → ((call c e).max_delay ≡ e.max_delay) × ((call c e).initial_delay ≡ e.initial_delay)
unfolding call
call_max next e = ground arith
call_max failure e = ground arith
call_max success e = ground arith
call_max restart e = ground arith

calls-IsBounded : (cs : List Call) (e : ExponentialBackoff) → IsBounded e → IsBounded (calls cs e)
unfolding calls
calls-IsBounded [] e h = h
calls-IsBounded (c ∷ cs) e h = calls-IsBounded cs (call c e) (call-IsBounded c e h)

calls_max :
    (cs : List Call) (e : ExponentialBackoff)
    → ((calls cs e).max_delay ≡ e.max_delay) × ((calls cs e).initial_delay ≡ e.initial_delay)
unfolding calls
calls_max [] e = (refl, refl)
calls_max (c ∷ cs) e = ground (arith, calls_max cs (call c e), call_max c e)

-- Whatever methods were called on a new backoff, the delay that it gives is at most the larger of the
-- initial delay and the largest delay.
pub next_delay_bounded :
    (initial_delay max_delay : ℕ) (multiply : ℕ → ℕ) (max_retries : ℕ) (cs : List Call)
    → (next_delay
        (calls cs (new_exponential_backoff initial_delay max_delay multiply max_retries))).1
      ≤ max initial_delay max_delay
unfolding next_delay new_exponential_backoff
next_delay_bounded initial_delay max_delay multiply max_retries cs =
    let e0 = new_exponential_backoff initial_delay max_delay multiply max_retries in
    let b : IsBounded e0 = ground arith in
    ground (arith, (calls-IsBounded cs e0 b).delay, calls_max cs e0)
