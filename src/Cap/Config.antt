-- ===== src/Cap/Config.antt =====
-- nrcap/config.go: the settings and their check.
pub mod Validation
use mathlib.Core.List.{lookup}
use nrdot_host.Common.{
  ℕ, ◌*◌, ◌^◌, List, [], ◌∷◌, Bool, true, false, ◌||◌, Option, none, some, ltb, ◌==◌, if◌then◌else◌,
  Str, Str-discrete, codes,
}
use nrdot_host.Common.Int.{ℤ, pos, negsuc}

pub data Strategy : Type 0 where
  drop aggregate sample oldest : Strategy
  other : Str → Strategy

-- A limit or a duration that is zero or negative stands as 0: all tests of the code treat these
-- alike. `sample_rate` is the least number of steps of 2^-53 that reaches the float.
pub record Config : Type 0 where
  pub global_limit : ℕ
  pub metric_limits : List (Str × ℕ)
  pub default_limit : ℕ
  pub strategy : Strategy
  pub deny_labels : List Str
  pub allow_labels : List Str
  pub reset_interval : ℕ
  pub enable_stats : Bool
  pub sample_rate : ℕ
  pub aggregation_labels : List Str
  pub window_size : ℕ
  pub alert_threshold : ℤ

pub data ConfigError : Type 0 where
  bad_global_limit bad_default_limit bad_sample_rate bad_reset_interval : ConfigError
  bad_window_size bad_alert_threshold : ConfigError
  bad_metric_limit : Str → ConfigError
  bad_strategy : Str → ConfigError

-- 1.0 in the steps of `sample_rate`.
abbrev pub one : ℕ
one = 2 ^ 53

abbrev pub second : ℕ
second = 1000000000

unfoldable pub create_default_config : Config
create_default_config = record {
  global_limit = 100000;
  metric_limits = [];
  default_limit = 1000;
  strategy = drop;
  deny_labels = [];
  allow_labels = [];
  reset_interval = 3600 * second;
  enable_stats = true;
  sample_rate = 900719925474100;
  aggregation_labels = codes "service" ∷ codes "environment" ∷ codes "host" ∷ codes "region" ∷ [];
  window_size = 300 * second;
  alert_threshold = pos 90;
}

-- The loop over the metric limits: the first one that is not positive.
unfoldable pub check_metric_limits : List (Str × ℕ) → Option ConfigError
check_metric_limits [] = none
check_metric_limits ((metric, limit) ∷ rest) =
    if limit == 0 then some (bad_metric_limit metric) else check_metric_limits rest

unfoldable pub check_strategy : Strategy → ℕ → Option ConfigError
check_strategy (other s) rate = some (bad_strategy s)
check_strategy sample rate = if rate == 0 || ltb one rate then some bad_sample_rate else none
check_strategy _ rate = none

unfoldable pub check_alert_threshold : ℤ → Option ConfigError
check_alert_threshold (negsuc n) = some bad_alert_threshold
check_alert_threshold (pos n) = if ltb 100 n then some bad_alert_threshold else none

-- The first error, as successive early returns give it.
infixr 30 ◌or_else◌
abbrev pub ◌or_else◌ : Option ConfigError → Option ConfigError → Option ConfigError
none or_else e = e
some e or_else _ = some e

abbrev pub reject_if : Bool → ConfigError → Option ConfigError
reject_if true e = some e
reject_if false e = none

unfoldable pub validate : Config → Option ConfigError
unfolding check_metric_limits check_strategy check_alert_threshold
validate cfg =
    reject_if (cfg.global_limit == 0) bad_global_limit
    or_else reject_if (cfg.default_limit == 0) bad_default_limit
    or_else check_metric_limits cfg.metric_limits
    or_else check_strategy cfg.strategy cfg.sample_rate
    or_else reject_if (cfg.reset_interval == 0) bad_reset_interval
    or_else reject_if (cfg.window_size == 0) bad_window_size
    or_else check_alert_threshold cfg.alert_threshold

-- The limit of a metric: its own, or the default.
unfoldable pub get_metric_limit : Config → Str → ℕ
get_metric_limit cfg metric_name = elim (lookup Str-discrete metric_name cfg.metric_limits) [
  | some limit ↦ limit
  | none ↦ cfg.default_limit
]
