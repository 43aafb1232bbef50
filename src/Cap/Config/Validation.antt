-- ===== src/Cap/Config/Validation.antt =====
-- nrcap/config.go: what a configuration must be for Validate to accept it.
use nrdot_host.Common.{
  ℕ, ◌≡◌, ◌≤◌, ◌<◌, ◌↔◌, refl, List, [], ◌∷◌, Option, none, some, ◌==◌, All, arith, Str,
}
use nrdot_host.Common.Int.{ℤ, pos, negsuc}
use nrdot_host.Cap.Config.{
  Config, ConfigError, Strategy, drop, aggregate, sample, oldest, other, one, validate,
  check_metric_limits, check_strategy, check_alert_threshold, reject_if, ◌or_else◌,
}

-- The sample rate counts for the strategy `sample` only.
abbrev pub IsKnown : Strategy → ℕ → Type 0
IsKnown (other s) rate = ⊥
IsKnown sample rate = (0 < rate) × (rate ≤ one)
IsKnown _ rate = Unit

abbrev pub IsPercentage : ℤ → Type 0
IsPercentage (pos n) = n ≤ 100
IsPercentage (negsuc n) = ⊥

pub record IsAccepted (cfg : Config) : Type 0 where
  pub global_limit : 0 < cfg.global_limit
  pub default_limit : 0 < cfg.default_limit
  pub metric_limits : All (λ (e : Str × ℕ). 0 < e.1) cfg.metric_limits
  pub strategy : IsKnown cfg.strategy cfg.sample_rate
  pub reset_interval : 0 < cfg.reset_interval
  pub window_size : 0 < cfg.window_size
  pub alert_threshold : IsPercentage cfg.alert_threshold

limits_positive :
    (limits : List (Str × ℕ))
    → check_metric_limits limits ≡ none
    → All (λ (e : Str × ℕ). 0 < e.1) limits
unfolding check_metric_limits
limits_positive [] h = tt
limits_positive ((metric, limit) ∷ rest) h =
    (ground (arith, h), limits_positive rest (ground (arith, h)))

limits_pass :
    (limits : List (Str × ℕ))
    → All (λ (e : Str × ℕ). 0 < e.1) limits
    → check_metric_limits limits ≡ none
unfolding check_metric_limits
limits_pass [] h = refl
limits_pass ((metric, limit) ∷ rest) (h, hs) = ground (arith, h, limits_pass rest hs)

check_strategy-IsKnown : (s : Strategy) (rate : ℕ) → (check_strategy s rate ≡ none) ↔ IsKnown s rate
unfolding check_strategy
check_strategy-IsKnown drop rate = (λ h. tt, λ h. refl)
check_strategy-IsKnown aggregate rate = (λ h. tt, λ h. refl)
check_strategy-IsKnown oldest rate = (λ h. tt, λ h. refl)
check_strategy-IsKnown sample rate =
    (λ h. (ground (arith, h), ground (arith, h)), λ (h, k). ground (arith, h, k))
check_strategy-IsKnown (other s) rate = (λ h. ground (arith, h), λ h. elim h [ ])

check_alert_threshold-IsPercentage : (t : ℤ) → (check_alert_threshold t ≡ none) ↔ IsPercentage t
unfolding check_alert_threshold
check_alert_threshold-IsPercentage (pos n) = (λ h. ground (arith, h), λ h. ground (arith, h))
check_alert_threshold-IsPercentage (negsuc n) = (λ h. ground (arith, h), λ h. elim h [ ])

or_else-none : (a b : Option ConfigError) → (a or_else b) ≡ none → (a ≡ none) × (b ≡ none)
or_else-none none b h = (refl, h)
or_else-none (some e) b h = absurd (ground (arith, h))

reject_zero : (n : ℕ) (e : ConfigError) → reject_if (n == 0) e ≡ none → 0 < n
reject_zero n e h = ground (arith, h)

accept_positive : (n : ℕ) (e : ConfigError) → 0 < n → reject_if (n == 0) e ≡ none
accept_positive n e h = ground (arith, h)

-- Validate accepts exactly the configurations whose limits and durations are all positive, with one of
-- the four strategies, a sample rate above 0 and up to 1 if the strategy is `sample`, and an alert
-- threshold from 0 to 100.
validate_accepts : (cfg : Config) → (validate cfg ≡ none) ↔ IsAccepted cfg
unfolding validate
validate_accepts cfg = (
  λ h.
      let (g, h1) = or_else-none _ _ h in
      let (d, h2) = or_else-none _ _ h1 in
      let (m, h3) = or_else-none _ _ h2 in
      let (s, h4) = or_else-none _ _ h3 in
      let (r, h5) = or_else-none _ _ h4 in
      let (w, t) = or_else-none _ _ h5 in
      record {
        global_limit = reject_zero _ _ g;
        default_limit = reject_zero _ _ d;
        metric_limits = limits_positive _ m;
        strategy = (check_strategy-IsKnown _ _).0 s;
        reset_interval = reject_zero _ _ r;
        window_size = reject_zero _ _ w;
        alert_threshold = (check_alert_threshold-IsPercentage _).0 t;
      },
  λ a.
      rw
        (
          accept_positive cfg.global_limit ConfigError.bad_global_limit a.global_limit,
          accept_positive cfg.default_limit ConfigError.bad_default_limit a.default_limit,
          limits_pass cfg.metric_limits a.metric_limits,
          (check_strategy-IsKnown cfg.strategy cfg.sample_rate).1 a.strategy,
          accept_positive cfg.reset_interval ConfigError.bad_reset_interval a.reset_interval,
          accept_positive cfg.window_size ConfigError.bad_window_size a.window_size,
        )
        ((check_alert_threshold-IsPercentage cfg.alert_threshold).1 a.alert_threshold),
)
