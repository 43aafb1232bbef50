-- ===== src/Cap/Limiter.antt =====
-- nrcap/limiter.go: the state of the limiter, and how it marks data points that go over a limit.
-- The five kinds of data points share one type here, so the four copies of each loop are one
-- definition, and each copy is a name of its own for it.
pub mod Labels
pub mod Strategies
pub mod Process
pub mod Marking
pub mod Room
pub mod Sampling
pub mod Passing
pub mod Consistent
pub mod Allowed
pub mod Stripped
pub mod Denied
use mathlib.Core.List.{lookup, reverse}
use nrdot_host.Common.Dict.{or_else, insert, delete}
use nrdot_host.Common.{
  ℕ, zero, suc, ◌+◌, ◌*◌, List, [], ◌∷◌, ◌++◌, Bool, true, false, ◌&&◌, ◌||◌, Option, none, some,
  ltb, leb, ◌==◌, if◌then◌else◌, ◌>>=◌, get_elem?, length, Str, Str-discrete, codes,
}
use nrdot_host.Cap.Metric.{
  Attributes, DataPoint, Metric, MetricType, empty, gauge, sum, histogram, summary,
  exponential_histogram,
}
use nrdot_host.Cap.Config.{Config, get_metric_limit}
use nrdot_host.Cap.Env.{Env}
use nrdot_host.Cap.Tracker.{
  Tracker, StatType, total, dropped, aggregated, sampled, get_cardinality, get_global_cardinality,
  increment_stats, track_data_point, remove_entry, cleanup_old_entries, track_label_cardinality,
  get_stats, CardinalityStats, new_cardinality_tracker,
}
use nrdot_host.Cap.Tracker
use nrdot_host.Cap.Tracker.Oldest.{get_oldest_entries}

-- `draws` counts the draws from the random source.
pub record Limiter : Type 0 where
  pub tracker : Tracker
  pub label_cardinality : List (Str × List (Str × Unit {0}))
  pub alerts_sent : List (Str × ℕ)
  pub draws : ℕ

-- Whether a new data point goes over the metric's limit or the global one, by the counts that were
-- read before it was tracked.
abbrev pub is_over : Config → ℕ → Tracker → Bool → Str → Bool
is_over cfg limit before is_new metric_name =
    is_new
    && ((leb limit (get_cardinality metric_name before) && is_new)
        || (leb cfg.global_limit (get_global_cardinality before) && is_new))

-- One operation on the tracker, the rest of the limiter left alone.
abbrev pub with_tracker : Tracker → Limiter → Limiter
with_tracker t l = record l { tracker = t }

module _ {V : Type 0} (env : Env V) where
  unfoldable pub new_cardinality_limiter : Config → ℕ → Limiter
  unfolding new_cardinality_tracker
  new_cardinality_limiter cfg ticks = record {
    tracker = new_cardinality_tracker env cfg.window_size ticks;
    label_cardinality = [];
    alerts_sent = [];
    draws = 0;
  }

  module _ (cfg : Config) (metric_name : Str) (limit : ℕ) where
    -- The tracker after one round of the loop of `filterDataPoints`, and whether the point goes.
    unfoldable pub judge : DataPoint V → Tracker → Tracker × Bool
    judge dp t =
        let (t', is_new, _) = track_data_point env metric_name dp.attributes t in
        let counted = increment_stats total t' in
        if is_over cfg limit t is_new metric_name
        then (increment_stats dropped counted, true)
        else (counted, false)

    -- The loop: the indices to remove, the first of them `i` or more.
    unfoldable pub mark_over : ℕ → List (DataPoint V) → Tracker → List ℕ × Tracker
    mark_over i [] t = ([], t)
    mark_over i (dp ∷ dps) t =
        let (t', goes) = judge dp t in
        let (to_remove, t'') = mark_over (suc i) dps t' in
        (if goes then i ∷ to_remove else to_remove, t'')

    -- One round of the loop of `sampleDataPoints`: a point over a limit is kept by a draw below the
    -- sample rate.
    unfoldable pub judge_sample : DataPoint V → Limiter → Limiter × Bool
    judge_sample dp l =
        let t = l.tracker in
        let (t', is_new, _) = track_data_point env metric_name dp.attributes t in
        let counted = increment_stats total t' in
        if is_over cfg limit t is_new metric_name
        then (let drawn = record l { draws = suc l.draws } in
            if leb cfg.sample_rate (env.rand l.draws)
            then (with_tracker (increment_stats dropped counted) drawn, true)
            else (with_tracker (increment_stats sampled counted) drawn, false))
        else (with_tracker counted l, false)

    unfoldable pub mark_sample : ℕ → List (DataPoint V) → Limiter → List ℕ × Limiter
    mark_sample i [] l = ([], l)
    mark_sample i (dp ∷ dps) l =
        let (l', goes) = judge_sample dp l in
        let (to_remove, l'') = mark_sample (suc i) dps l' in
        (if goes then i ∷ to_remove else to_remove, l'')

  module _ (metric_name : Str) (limit : ℕ) where
    -- What `processOldestDataPoints` does for a new point at the limit: the oldest entry goes.
    abbrev pub evict_first : List ℕ → Tracker → Tracker
    evict_first [] t = t
    evict_first (oldest ∷ _) t = remove_entry metric_name oldest t

    unfoldable pub make_room : Attributes V → Tracker → Tracker
    make_room attrs t =
        (track_data_point env metric_name attrs
          (evict_first (get_oldest_entries env t.metrics metric_name 1) t)).0

    unfoldable pub process_oldest_point : DataPoint V → Tracker → Tracker
    process_oldest_point dp t =
        let (t', is_new, _) = track_data_point env metric_name dp.attributes t in
        let counted = increment_stats total t' in
        if is_new && leb limit (get_cardinality metric_name t)
        then make_room dp.attributes counted
        else counted

    unfoldable pub process_oldest : List (DataPoint V) → Tracker → Tracker
    process_oldest [] t = t
    process_oldest (dp ∷ dps) t = process_oldest dps (process_oldest_point dp t)

  -- `dps.At(k).Timestamp() == dp.Timestamp()`, with the slice as the callback finds it; an index out
  -- of range is a panic.
  abbrev pub same_timestamp : ℕ → List (DataPoint V) → DataPoint V → Option Bool
  same_timestamp k slice dp = elim (get_elem? slice k) [
    | none ↦ none
    | some marked ↦ some (marked.timestamp == dp.timestamp)
  ]

  -- The loop over `toRemove`, last index first: the list is given in that order.
  unfoldable pub remove_marked : List ℕ → List (DataPoint V) → Option (List (DataPoint V))
  remove_marked [] dps = some dps
  remove_marked (k ∷ ks) dps = env.remove_points (same_timestamp k) dps >>= remove_marked ks

  module _ (cfg : Config) (metric_name : Str) (limit : ℕ) (dps : List (DataPoint V))
      (l : Limiter) where
    -- Both loops of a `filter` method.
    unfoldable pub filter_loops : Option (List (DataPoint V) × Limiter)
    unfolding mark_over remove_marked
    filter_loops = do
      let marked = mark_over cfg metric_name limit 0 dps l.tracker
      kept ← remove_marked (reverse marked.0) dps
      some (kept, with_tracker marked.1 l)

    -- Both loops of a `sample` method.
    unfoldable pub sample_loops : Option (List (DataPoint V) × Limiter)
    unfolding mark_sample remove_marked
    sample_loops = do
      let marked = mark_sample cfg metric_name limit 0 dps l
      kept ← remove_marked (reverse marked.0) dps
      some (kept, marked.1)
