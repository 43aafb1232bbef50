-- ===== src/Cap/Limiter/Process.antt =====
-- nrcap/limiter.go: ProcessMetrics as a whole, the alert and the reset.
use mathlib.Core.List.{lookup}
use nrdot_host.Common.Dict.{insert}
use nrdot_host.Common.{
  ℕ, suc, ◌+◌, ◌*◌, List, [], ◌∷◌, Bool, Option, none, some, ltb, if◌then◌else◌, ◌>>=◌,
  Str-discrete, codes,
}
use nrdot_host.Common.Int.{ℤ, pos, negsuc}
use nrdot_host.Cap.Metric.{Metric, ScopeMetrics, Metrics}
use nrdot_host.Cap.Config.{Config, second}
use nrdot_host.Cap.Env.{Env}
use nrdot_host.Cap.Tracker.{
  CardinalityStats, cleanup_old_entries, get_global_cardinality, get_stats,
}
use nrdot_host.Cap.Tracker
use nrdot_host.Cap.Limiter.{Limiter, with_tracker}
use nrdot_host.Cap.Limiter.Labels.{remove_deny_labels_from_metrics, track_labels}
use nrdot_host.Cap.Limiter.Strategies.{process_metric}

-- `global > limit * threshold / 100`, without the rounding of the floats, which is exact below 2^45.
abbrev pub over_threshold : ℕ → ℕ → ℤ → Bool
over_threshold global limit (pos percent) = ltb (limit * percent) (global * 100)
over_threshold global limit (negsuc n) = ltb 0 (global * 100 + limit * (n + 1))

module _ {V : Type 0} (env : Env V) where
  -- The time of the last alert is read against a first reading of the clock, and the new one is a
  -- second reading.
  unfoldable pub send_alert : Limiter → Option ℕ → Limiter
  send_alert l none = record l {
    alerts_sent = insert Str-discrete (codes "global") (env.now l.tracker.ticks) l.alerts_sent;
    tracker = record (l.tracker) { ticks = suc l.tracker.ticks };
  }
  send_alert l (some last) =
      if ltb (last + 300 * second) (env.now l.tracker.ticks)
      then record l {
        alerts_sent =
            insert Str-discrete (codes "global") (env.now (suc l.tracker.ticks)) l.alerts_sent;
        tracker = record (l.tracker) { ticks = suc (suc l.tracker.ticks) };
      }
      else record l { tracker = record (l.tracker) { ticks = suc l.tracker.ticks } }

  unfoldable pub check_alerts : Config → Limiter → Limiter
  unfolding send_alert
  check_alerts cfg l =
      if over_threshold (get_global_cardinality l.tracker) cfg.global_limit cfg.alert_threshold
      then send_alert l (lookup Str-discrete (codes "global") l.alerts_sent)
      else l

  -- The three nested loops, each with the output that it appends to.
  module _ (cfg : Config) where
    unfoldable pub process_scope :
        List (Metric V) → List (Metric V) → Limiter → Option (List (Metric V) × Limiter)
    process_scope [] output l = some (output, l)
    process_scope (metric ∷ metrics) output l =
        process_metric env cfg metric output l >>= λ r. process_scope metrics r.0 r.1

    unfoldable pub process_scopes :
        List (ScopeMetrics V) → Limiter → Option (List (ScopeMetrics V) × Limiter)
    unfolding process_scope
    process_scopes [] l = some ([], l)
    process_scopes (sm ∷ sms) l = process_scope sm.metrics [] l >>= λ r.
        process_scopes sms r.1 >>= λ rest. some (record sm { metrics = r.0 } ∷ rest.0, rest.1)

    unfoldable pub process_resources : Metrics V → Limiter → Option (Metrics V × Limiter)
    unfolding process_scopes
    process_resources [] l = some ([], l)
    process_resources (rm ∷ rms) l = process_scopes rm.scopes l >>= λ r.
        process_resources rms r.1 >>= λ rest. some (record rm { scopes = r.0 } ∷ rest.0, rest.1)

    unfoldable pub process_metrics : Metrics V → Limiter → Option (Metrics V × Limiter)
    unfolding process_resources check_alerts
    process_metrics metrics l =
        let allowed = remove_deny_labels_from_metrics cfg metrics in
        process_resources allowed (track_labels env allowed l) >>= λ r.
        some (r.0, check_alerts cfg (with_tracker (cleanup_old_entries env r.1.tracker) r.1))

  -- `GetStats` and `Reset` of the limiter.
  unfoldable pub limiter_stats : Limiter → CardinalityStats
  limiter_stats l = get_stats l.tracker

  unfoldable pub limiter_reset : Limiter → Limiter
  limiter_reset l = record l {
    tracker = Tracker.reset env l.tracker;
    label_cardinality = [];
    alerts_sent = [];
  }
