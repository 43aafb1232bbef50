-- ===== src/Tests/ServiceTests.antt =====
-- Restarts, rate limits and tokens: the theorems at concrete inputs.
use mathlib.Core.List.{lookup}
use nrdot_host.Common.Int.{pos}
use nrdot_host.Common.{
  ◌+◌, ◌*◌, ◌-◌, ◌/◌, ◌≡◌, ◌≤◌, max, refl, List, [], ◌∷◌, true, false, some, arith, ltb, length,
  Str, Str-discrete, ℕ_discrete, str_eq, codes,
}
use nrdot_host.Restart.{
  on_failure, Config, next_delay, new_exponential_backoff, strategy_next_delay,
}
use nrdot_host.Restart.Supervisor.{Outcome, unhealthy, healthy, run}
use nrdot_host.Restart.Bounds.{next, failure, success, calls, next_delay_bounded}
use nrdot_host.Restart.Budget.{run_budget}
use nrdot_host.RateLimit.{TokenBucket, RateLimiter, allow, cleanup, ten_minutes}
use nrdot_host.RateLimit.Bounds.{allow_all, allow_all_bounded}
use nrdot_host.RateLimit.Cleanup.{allow-cleanup}
use nrdot_host.Auth.{
  TokenInfo, TokenStore, info_of, create_token, validate_token, revoke_token, has_required_role,
  http_middleware, strip_bearer, authenticate, new_token,
}
use nrdot_host.Auth.Access.{accepted}
use nrdot_host.Auth.Revocation.{validate, clean, perform_all, revoke_token_lasts}
use nrdot_host.Auth.Requests.{Served, token_of, validate_token-create_token, http_middleware_serves}

abbrev config : Config
config = record {
  policy = on_failure;
  max_retries = 2;
  initial_delay = 5;
  max_delay = 60;
  multiply = λ d. d * 2;
}

abbrev outcomes : List Outcome
outcomes = healthy ∷ unhealthy ∷ healthy ∷ []

run_budget_example :
    ((run config healthy outcomes).restarts ≤ 2)
    × ((strategy_next_delay (run config healthy outcomes).strategy).2 ≡ ltb (length outcomes) 2)
run_budget_example = run_budget config refl (omega arith) healthy outcomes

next_delay_bounded_example :
    (next_delay (
      calls (next ∷ success ∷ next ∷ failure ∷ []) (new_exponential_backoff 5 60 (λ d. d * 2) 3))).1
    ≤ max 5 60
next_delay_bounded_example =
    next_delay_bounded 5 60 (λ d. d * 2) 3 (next ∷ success ∷ next ∷ failure ∷ [])

abbrev key : Str
key = codes "k"

abbrev empty_bucket : TokenBucket
empty_bucket = record { tokens = 0; last_refill = 5 }

-- An hour per interval.
abbrev limiter : RateLimiter
limiter = record {
  buckets = (key, empty_bucket) ∷ [];
  rate = 2;
  interval = 6 * ten_minutes;
  bucket_size = 2;
}

allow_all_bounded_example :
    allow_all key (7 ∷ 9 ∷ []) limiter ≤ 0 + 2 * ((10 - 5) / (6 * ten_minutes))
unfolding lookup Str-discrete ℕ_discrete
allow_all_bounded_example =
    allow_all_bounded key (7 ∷ 9 ∷ []) 10 limiter empty_bucket (omega arith)
      (omega arith, (omega arith, tt)) refl (omega arith)

allow-cleanup_example :
    ((allow key (2 * ten_minutes) (2 * ten_minutes) limiter).1 ≡ false)
    × ((allow key (2 * ten_minutes) (2 * ten_minutes) (cleanup (2 * ten_minutes) limiter)).1 ≡ true)
    × (lookup Str-discrete key
          (allow key
            (2 * ten_minutes)
            (2 * ten_minutes)
            (cleanup (2 * ten_minutes) limiter)).0.buckets
        ≡ some (record { tokens = limiter.bucket_size - 1; last_refill = 2 * ten_minutes }))
unfolding lookup Str-discrete ℕ_discrete
allow-cleanup_example =
    allow-cleanup key (2 * ten_minutes) limiter empty_bucket (refl, tt) refl refl (omega arith) refl
      (omega arith) (omega arith)

abbrev encode : Str → Str
encode bytes = bytes

abbrev info : TokenInfo
info = new_token key (codes "u") (codes "admin") [] (pos 50) 100

abbrev store : TokenStore
store = record { tokens = (key, info) ∷ [] }

revoke_token_lasts_example :
    accepted
      (validate_token key 120 121
        (perform_all encode (validate key 110 111 ∷ clean 115 ∷ []) (revoke_token key store).0)).1
    ≡ false
unfolding lookup Str-discrete ℕ_discrete
revoke_token_lasts_example =
    revoke_token_lasts encode key (validate key 110 111 ∷ clean 115 ∷ []) 120 121 store (refl, tt)
      (tt, (tt, tt))

validate_token-create_token_example :
    (validate_token key 120 121
      (create_token encode (some key) (codes "u") (codes "admin") [] (pos 50) 100 store).0).1
    ≡ info_of (record info { last_used = some 121 })
validate_token-create_token_example =
    validate_token-create_token encode key (codes "u") (codes "admin") [] (pos 50) 100 120 121 store
      (omega arith)

http_middleware_serves_example :
    (i : TokenInfo) × (lookup Str-discrete (token_of (codes "Bearer k") []) store.tokens ≡ some i)
    × Served (codes "viewer") 120 121 i (record info { last_used = some 121 })
unfolding http_middleware authenticate has_required_role str_eq validate_token lookup strip_bearer
    Str-discrete ℕ_discrete
http_middleware_serves_example =
    http_middleware_serves (codes "viewer") (codes "Bearer k") [] 120 121 store
      (record info { last_used = some 121 }) (λ e. ground arith) refl
