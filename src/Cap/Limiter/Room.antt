-- ===== src/Cap/Limiter/Room.antt =====
-- nrcap/limiter.go, the `drop` strategy: a metric that fits its limits passes whole, and what happens
-- to one of which nothing is left.
use nrdot_host.Common.{
  ℕ, suc, ◌+◌, ◌≡◌, ◌≢◌, ◌≤◌, ◌<◌, refl, List, [], ◌∷◌, ◌++◌, some, arith, length, Str, str_eq,
  remove_where,
}
use nrdot_host.Cap.Metric.{
  DataPoint, Metric, MetricType, empty, gauge, sum, histogram, summary, exponential_histogram,
  points_of,
}
use nrdot_host.Cap.Config.{Config}
use nrdot_host.Cap.Env.{Env, IsRemoveIf}
use nrdot_host.Cap.Tracker.{Tracker, get_cardinality}
use nrdot_host.Cap.Limiter.{Limiter, mark_over, with_tracker, remove_marked, filter_loops}
use nrdot_host.Cap.Limiter.Marking.{judged, judge_goes, judge_counts}
use nrdot_host.Cap.Limiter.Strategies.{
  filter_by_type, filter_data_points, filter_histogram_data_points, filter_summary_data_points,
  filter_exponential_histogram_data_points, append_unless_empty, get_data_point_count, handle_drop,
}

module _ {V : Type 0} (env : Env V) (cfg : Config) where
  mark_over_room :
      (name : Str) (limit i : ℕ) (dps : List (DataPoint V)) (t : Tracker)
      → get_cardinality name t + length dps ≤ limit
      → t.global_count + length dps ≤ cfg.global_limit
      → (mark_over env cfg name limit i dps t).0 ≡ []
  unfolding mark_over
  mark_over_room name limit i [] t h g = refl
  mark_over_room name limit i (dp ∷ dps) t h g = ground (
    arith,
    mark_over_room name limit (suc i) dps (judged env cfg name limit dp t),
    judge_goes env cfg name limit dp t,
    judge_counts env cfg name limit dp t,
  )

  points_of_filled :
      (type : MetricType) (dps : List (DataPoint V)) → type ≢ empty → points_of type dps ≡ dps
  points_of_filled empty dps ne = absurd (ne refl)
  points_of_filled gauge dps ne = refl
  points_of_filled sum dps ne = refl
  points_of_filled histogram dps ne = refl
  points_of_filled summary dps ne = refl
  points_of_filled exponential_histogram dps ne = refl

  points_of_none : (type : MetricType) → points_of {V = V} type [] ≡ []
  points_of_none empty = refl
  points_of_none gauge = refl
  points_of_none sum = refl
  points_of_none histogram = refl
  points_of_none summary = refl
  points_of_none exponential_histogram = refl

  append_some :
      (metric : Metric V) (output : List (Metric V))
      → metric.type ≢ empty
      → 0 < length metric.points
      → append_unless_empty env cfg metric output ≡ some (output ++ (metric ∷ []))
  unfolding append_unless_empty get_data_point_count
  append_some metric output ne h =
      rw (points_of_filled metric.type metric.points ne) (ground (arith, h))

  append_none :
      IsRemoveIf env.remove_metrics
      → (metric : Metric V) (output : List (Metric V))
      → append_unless_empty env cfg (record metric { points = [] }) output
        ≡ some (
            remove_where
              (λ (m : Metric V). str_eq m.name metric.name)
              (output ++ (record metric { points = [] } ∷ [])))
  unfolding append_unless_empty get_data_point_count
  append_none rm metric output = rw (points_of_none metric.type) (
      rm.removes (λ _ m. some (str_eq m.name metric.name)) (λ m. str_eq m.name metric.name)
        (output ++ (record metric { points = [] } ∷ [])) (λ s x. refl))

  module _ (metric : Metric V) (output : List (Metric V)) (limit : ℕ) (l : Limiter) where
    filter_loops_room :
        get_cardinality metric.name l.tracker + length metric.points ≤ limit
        → l.tracker.global_count + length metric.points ≤ cfg.global_limit
        → filter_loops env cfg metric.name limit metric.points l
          ≡ some (
            metric.points,
            with_tracker (mark_over env cfg metric.name limit 0 metric.points l.tracker).1 l,
          )
    unfolding filter_loops remove_marked
    filter_loops_room h g = rw (mark_over_room metric.name limit 0 metric.points l.tracker h g) refl

    filter_loops_by_type :
        (type : MetricType)
        → type ≢ empty
        → filter_by_type env cfg metric metric.points limit l type
          ≡ filter_loops env cfg metric.name limit metric.points l
    unfolding filter_by_type filter_data_points filter_histogram_data_points
        filter_summary_data_points filter_exponential_histogram_data_points
    filter_loops_by_type empty ne = absurd (ne refl)
    filter_loops_by_type gauge ne = refl
    filter_loops_by_type sum ne = refl
    filter_loops_by_type histogram ne = refl
    filter_loops_by_type summary ne = refl
    filter_loops_by_type exponential_histogram ne = refl

    -- A metric with data points that fit its limit and the global one beside what is tracked already is
    -- passed on whole, whatever the timestamps.
    pub handle_drop_room :
        metric.type ≢ empty
        → 0 < length metric.points
        → get_cardinality metric.name l.tracker + length metric.points ≤ limit
        → l.tracker.global_count + length metric.points ≤ cfg.global_limit
        → handle_drop env cfg metric output limit l
          ≡ some (
            output ++ (metric ∷ []),
            with_tracker (mark_over env cfg metric.name limit 0 metric.points l.tracker).1 l,
          )
    unfolding handle_drop
    handle_drop_room type some_points h g =
        rw (filter_loops_by_type metric.type type, filter_loops_room h g)
          (rw (append_some metric output type some_points) refl)

    -- When no data point of a metric is left, all metrics of its name leave the output with it.
    -- `RemoveIf` removes the elements for which the callback says so.
    pub handle_drop_empty :
        IsRemoveIf env.remove_metrics
        → (l' : Limiter)
        → filter_by_type env cfg metric metric.points limit l metric.type ≡ some ([], l')
        → handle_drop env cfg metric output limit l
          ≡ some (
            remove_where
                (λ (m : Metric V). str_eq m.name metric.name)
                (output ++ (record metric { points = [] } ∷ [])),
            l',
          )
    unfolding handle_drop
    handle_drop_empty rm l' e = rw e (rw (append_none rm metric output) refl)
