-- ===== src/Cap/Limiter/Sampling.antt =====
-- nrcap/limiter.go, the `sample` methods: what the statistics and the random source account for.
use nrdot_host.Common.{ℕ, suc, ◌+◌, ◌≡◌, List, [], ◌∷◌, arith, length, Str}
use nrdot_host.Cap.Metric.{DataPoint}
use nrdot_host.Cap.Config.{Config}
use nrdot_host.Cap.Env.{Env}
use nrdot_host.Cap.Tracker.{increment_stats}
use nrdot_host.Cap.Tracker.Entries.{bit, track_data_point_totals}
use nrdot_host.Cap.Limiter.{Limiter, judge_sample, mark_sample}

module _ {V : Type 0} (env : Env V) (cfg : Config) (name : Str) (limit : ℕ) where
  judge_sample_accounts :
      (dp : DataPoint V) (l : Limiter)
      → let r = judge_sample env cfg name limit dp l in
        (r.0.tracker.stats.total_metrics ≡ l.tracker.stats.total_metrics + 1)
        × (r.0.tracker.stats.dropped_metrics ≡ l.tracker.stats.dropped_metrics + bit r.1)
        × (r.0.draws + l.tracker.stats.sampled_metrics
            ≡ l.draws + r.0.tracker.stats.sampled_metrics + bit r.1)
  unfolding judge_sample increment_stats
  judge_sample_accounts dp l =
      ground (arith, track_data_point_totals env name dp.attributes l.tracker)

  -- The statistics account for every data point of a `sample` method: the total grows by their
  -- number, the dropped by the number of those that are marked, and each draw from the random source
  -- either keeps a point, counted as sampled, or marks one.
  mark_sample_accounts :
      (i : ℕ) (dps : List (DataPoint V)) (l : Limiter)
      → let r = mark_sample env cfg name limit i dps l in
        (r.1.tracker.stats.total_metrics ≡ l.tracker.stats.total_metrics + length dps)
        × (r.1.tracker.stats.dropped_metrics ≡ l.tracker.stats.dropped_metrics + length r.0)
        × (r.1.draws + l.tracker.stats.sampled_metrics
            ≡ l.draws + r.1.tracker.stats.sampled_metrics + length r.0)
  unfolding mark_sample
  mark_sample_accounts i [] l = (omega arith, omega arith, omega arith)
  mark_sample_accounts i (dp ∷ dps) l = ground (
    arith,
    mark_sample_accounts (suc i) dps (judge_sample env cfg name limit dp l).0,
    judge_sample_accounts dp l,
  )
