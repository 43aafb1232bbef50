-- ===== src/Cap/Limiter/Strategies.antt =====
-- nrcap/limiter.go: the four strategies. The kinds of data points share one type here, so that the
-- method of each kind runs the same loops.
use nrdot_host.Common.{
  ℕ, List, [], ◌∷◌, ◌++◌, Bool, true, false, ◌||◌, Option, some, leb, ◌==◌, if◌then◌else◌, ◌>>=◌,
  length, Str, str_eq,
}
use nrdot_host.Cap.Metric.{
  DataPoint, Metric, MetricType, empty, gauge, sum, histogram, summary, exponential_histogram,
  points_of,
}
use nrdot_host.Cap.Config.{
  Config, Strategy, drop, aggregate, sample, oldest, other, get_metric_limit,
}
use nrdot_host.Cap.Env.{Env}
use nrdot_host.Cap.Tracker.{
  Tracker, total, aggregated, get_cardinality, get_global_cardinality, increment_stats,
  track_data_point,
}
use nrdot_host.Cap.Limiter.{Limiter, with_tracker, filter_loops, sample_loops, process_oldest}
use nrdot_host.Cap.Limiter.Labels.{remove_high_cardinality_labels}

abbrev pub has_labels : List Str → Bool
has_labels [] = false
has_labels (_ ∷ _) = true

-- What a method on the data points gives back: the points that are left, and the limiter.
abbrev pub Kept : Type 0 → Type 0
Kept V = Option (List (DataPoint V) × Limiter)

unfoldable pub get_data_point_count : {V : Type 0} → Metric V → ℕ
get_data_point_count metric = length (points_of metric.type metric.points)

unfoldable pub should_aggregate : Config → Str → ℕ → Tracker → Bool
should_aggregate cfg metric_name limit t =
    leb limit (get_cardinality metric_name t) || leb cfg.global_limit (get_global_cardinality t)

module _ {V : Type 0} (env : Env V) (cfg : Config) where
  module _ (metric : Metric V) (dps : List (DataPoint V)) (limit : ℕ) (l : Limiter) where
    unfoldable pub filter_data_points : Kept V
    filter_data_points = filter_loops env cfg metric.name limit dps l

    unfoldable pub filter_histogram_data_points : Kept V
    filter_histogram_data_points = filter_loops env cfg metric.name limit dps l

    unfoldable pub filter_summary_data_points : Kept V
    filter_summary_data_points = filter_loops env cfg metric.name limit dps l

    unfoldable pub filter_exponential_histogram_data_points : Kept V
    filter_exponential_histogram_data_points = filter_loops env cfg metric.name limit dps l

    unfoldable pub sample_data_points : Kept V
    sample_data_points = sample_loops env cfg metric.name limit dps l

    unfoldable pub sample_histogram_data_points : Kept V
    sample_histogram_data_points = sample_loops env cfg metric.name limit dps l

    unfoldable pub sample_summary_data_points : Kept V
    sample_summary_data_points = sample_loops env cfg metric.name limit dps l

    unfoldable pub sample_exponential_histogram_data_points : Kept V
    sample_exponential_histogram_data_points = sample_loops env cfg metric.name limit dps l

    -- The `oldest` methods change no data point.
    unfoldable pub process_oldest_data_points : Limiter
    process_oldest_data_points = with_tracker (process_oldest env metric.name limit dps l.tracker) l

    unfoldable pub process_oldest_histogram_data_points : Limiter
    process_oldest_histogram_data_points =
        with_tracker (process_oldest env metric.name limit dps l.tracker) l

    unfoldable pub process_oldest_summary_data_points : Limiter
    process_oldest_summary_data_points =
        with_tracker (process_oldest env metric.name limit dps l.tracker) l

    unfoldable pub process_oldest_exponential_histogram_data_points : Limiter
    process_oldest_exponential_histogram_data_points =
        with_tracker (process_oldest env metric.name limit dps l.tracker) l

    -- The three `switch` statements.
    unfoldable pub filter_by_type : MetricType → Kept V
    unfolding filter_data_points filter_histogram_data_points filter_summary_data_points
        filter_exponential_histogram_data_points
    filter_by_type gauge = filter_data_points
    filter_by_type sum = filter_data_points
    filter_by_type histogram = filter_histogram_data_points
    filter_by_type summary = filter_summary_data_points
    filter_by_type exponential_histogram = filter_exponential_histogram_data_points
    filter_by_type empty = some (dps, l)

    unfoldable pub sample_by_type : MetricType → Kept V
    unfolding sample_data_points sample_histogram_data_points sample_summary_data_points
        sample_exponential_histogram_data_points
    sample_by_type gauge = sample_data_points
    sample_by_type sum = sample_data_points
    sample_by_type histogram = sample_histogram_data_points
    sample_by_type summary = sample_summary_data_points
    sample_by_type exponential_histogram = sample_exponential_histogram_data_points
    sample_by_type empty = some (dps, l)

    unfoldable pub oldest_by_type : MetricType → Limiter
    unfolding process_oldest_data_points process_oldest_histogram_data_points
        process_oldest_summary_data_points process_oldest_exponential_histogram_data_points
    oldest_by_type gauge = process_oldest_data_points
    oldest_by_type sum = process_oldest_data_points
    oldest_by_type histogram = process_oldest_histogram_data_points
    oldest_by_type summary = process_oldest_summary_data_points
    oldest_by_type exponential_histogram = process_oldest_exponential_histogram_data_points
    oldest_by_type empty = l

  -- The metric goes to the output, and is taken out again if no data point remains: with it goes
  -- every metric of its name.
  unfoldable pub append_unless_empty : Metric V → List (Metric V) → Option (List (Metric V))
  unfolding get_data_point_count
  append_unless_empty out output =
      if get_data_point_count out == 0
      then env.remove_metrics (λ _ m. some (str_eq m.name out.name)) (output ++ (out ∷ []))
      else some (output ++ (out ∷ []))

  -- The loops of `trackAllDataPoints`.
  unfoldable pub track_points : Str → List (DataPoint V) → Tracker → Tracker
  track_points metric_name [] t = t
  track_points metric_name (dp ∷ dps) t =
      track_points metric_name dps
        (increment_stats total (track_data_point env metric_name dp.attributes t).0)

  unfoldable pub track_all_data_points : Metric V → Tracker → Tracker
  unfolding track_points
  track_all_data_points metric t = track_points metric.name (points_of metric.type metric.points) t

  module _ (metric : Metric V) (output : List (Metric V)) (limit : ℕ) (l : Limiter) where
    unfoldable pub handle_drop : Option (List (Metric V) × Limiter)
    unfolding filter_by_type append_unless_empty
    handle_drop = do
      (kept, l') ← filter_by_type metric metric.points limit l metric.type
      output' ← append_unless_empty (record metric { points = kept }) output
      some (output', l')

    unfoldable pub handle_sample : Option (List (Metric V) × Limiter)
    unfolding sample_by_type append_unless_empty
    handle_sample = do
      (kept, l') ← sample_by_type metric metric.points limit l metric.type
      output' ← append_unless_empty (record metric { points = kept }) output
      some (output', l')

    unfoldable pub handle_oldest : Option (List (Metric V) × Limiter)
    unfolding oldest_by_type
    handle_oldest =
        some (output ++ (metric ∷ []), oldest_by_type metric metric.points limit l metric.type)

    unfoldable pub handle_aggregate : Option (List (Metric V) × Limiter)
    unfolding should_aggregate track_all_data_points remove_high_cardinality_labels
    handle_aggregate =
        let t = l.tracker in
        let reduce =
          has_labels cfg.aggregation_labels || should_aggregate cfg metric.name limit t in
        let out = if reduce then remove_high_cardinality_labels env cfg metric else metric in
        let t' = if reduce then increment_stats aggregated t else t in
        some (output ++ (out ∷ []), with_tracker (track_all_data_points out t') l)

  -- The `switch` on the strategy has no default: with an unknown one the metric is not passed on.
  unfoldable pub dispatch :
      Strategy → Metric V → List (Metric V) → ℕ → Limiter → Option (List (Metric V) × Limiter)
  unfolding handle_drop handle_aggregate handle_sample handle_oldest
  dispatch drop metric output limit l = handle_drop metric output limit l
  dispatch aggregate metric output limit l = handle_aggregate metric output limit l
  dispatch sample metric output limit l = handle_sample metric output limit l
  dispatch oldest metric output limit l = handle_oldest metric output limit l
  dispatch (other _) metric output limit l = some (output, l)

  unfoldable pub process_metric :
      Metric V → List (Metric V) → Limiter → Option (List (Metric V) × Limiter)
  unfolding dispatch
  process_metric metric output l =
      dispatch cfg.strategy metric output (get_metric_limit cfg metric.name) l
