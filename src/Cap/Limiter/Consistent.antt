-- ===== src/Cap/Limiter/Consistent.antt =====
-- nrcap/limiter.go: whatever the strategy and the telemetry, the tracker's counts stay right.
use mathlib.Core.List.{lookup, reverse}
use nrdot_host.Common.{
  ℕ, suc, ◌+◌, ◌*◌, ltb, ◌≡◌, List, [], ◌∷◌, Bool, Option, none, some, if_split, Ensures,
  Ensures->>=, Ensures-some, if◌then◌else◌, Str, Str-discrete, codes, ◌&&◌, ◌>>=◌, leb, ◌||◌,
}
use nrdot_host.Cap.Metric.{DataPoint, Metric, MetricType, ScopeMetrics, Metrics, empty, points_of}
use nrdot_host.Cap.Config.{
  Config, second, Strategy, drop, aggregate, sample, oldest, other, get_metric_limit,
}
use nrdot_host.Cap.Env.{Env}
use nrdot_host.Cap.Tracker.{
  Tracker, total, aggregated, increment_stats, track_data_point, get_cardinality,
  cleanup_old_entries, get_global_cardinality, track_label_cardinality,
}
use nrdot_host.Cap.Tracker.Oldest.{get_oldest_entries}
use nrdot_host.Cap.Tracker.Consistent.{IsValid}
use nrdot_host.Cap.Tracker.Entries.{track_data_point-IsValid, remove_entry-IsValid}
use nrdot_host.Cap.Tracker.Cleanup.{cleanup_old_entries-IsValid}
use nrdot_host.Cap.Limiter.{
  Limiter, with_tracker, is_over, judge_sample, mark_sample, mark_over, evict_first, make_room,
  process_oldest_point, process_oldest, remove_marked, filter_loops, sample_loops,
}
use nrdot_host.Cap.Limiter.Labels.{
  LabelValues, report_labels, track_all_labels, all_metrics, track_labels,
  remove_deny_labels_from_metrics, remove_high_cardinality_labels,
}
use nrdot_host.Cap.Limiter.Marking.{mark_over-IsValid}
use nrdot_host.Cap.Limiter.Strategies.{
  filter_by_type, sample_by_type, oldest_by_type, append_unless_empty, track_points,
  track_all_data_points, handle_drop, handle_sample, handle_oldest, handle_aggregate,
  should_aggregate, has_labels, dispatch, process_metric,
}
use nrdot_host.Cap.Limiter.Process.{
  process_scope, process_scopes, process_resources, process_metrics, check_alerts, send_alert,
  over_threshold,
}

abbrev pub IsSound : Limiter → Type 0
IsSound l = IsValid l.tracker

report_labels-IsValid :
    (seen : LabelValues) (t : Tracker) → IsValid t → IsValid (report_labels seen t)
unfolding report_labels track_label_cardinality
report_labels-IsValid [] t h = h
report_labels-IsValid ((label, values) ∷ rest) t h = report_labels-IsValid rest _ h

beside :
    {A B : Type 0} (Q : B → Type 0) (m : Option A) (b : B)
    → Q b
    → Ensures {A = A × B} (λ r. Q r.1) (m >>= λ a. some (a, b))
beside Q none b h = tt
beside Q (some a) b h = h

module _ {V : Type 0} (env : Env V) (cfg : Config) where
  judge_sample-IsSound :
      (name : Str) (limit : ℕ) (dp : DataPoint V) (l : Limiter)
      → IsSound l
      → IsSound (judge_sample env cfg name limit dp l).0
  unfolding judge_sample increment_stats
  judge_sample-IsSound name limit dp l h =
      let h' = track_data_point-IsValid env name dp.attributes l.tracker h in
      if_split {A = Limiter × Bool} (λ r. IsSound r.0)
        (is_over cfg limit l.tracker (track_data_point env name dp.attributes l.tracker).1 name) _ _
        (λ _.
          if_split {A = Limiter × Bool} (λ r. IsSound r.0) (leb cfg.sample_rate (env.rand l.draws))
            _ _ (λ _. h') (λ _. h'))
        (λ _. h')

  mark_sample-IsSound :
      (name : Str) (limit : ℕ) (i : ℕ) (dps : List (DataPoint V)) (l : Limiter)
      → IsSound l
      → IsSound (mark_sample env cfg name limit i dps l).1
  unfolding mark_sample
  mark_sample-IsSound name limit i [] l h = h
  mark_sample-IsSound name limit i (dp ∷ dps) l h =
      mark_sample-IsSound name limit (suc i) dps (judge_sample env cfg name limit dp l).0
        (judge_sample-IsSound name limit dp l h)

  evict_first-IsValid :
      (name : Str) (limit : ℕ) (found : List ℕ) (t : Tracker)
      → IsValid t
      → IsValid (evict_first env name limit found t)
  evict_first-IsValid name limit [] t h = h
  evict_first-IsValid name limit (o ∷ _) t h = remove_entry-IsValid name o t h

  process_oldest-IsValid :
      (name : Str) (limit : ℕ) (dps : List (DataPoint V)) (t : Tracker)
      → IsValid t
      → IsValid (process_oldest env name limit dps t)
  unfolding process_oldest process_oldest_point make_room increment_stats
  process_oldest-IsValid name limit [] t h = h
  process_oldest-IsValid name limit (dp ∷ dps) t h =
      process_oldest-IsValid name limit dps (process_oldest_point env name limit dp t) (
        if_split IsValid
          ((track_data_point env name dp.attributes t).1 && leb limit (get_cardinality name t)) _ _
          (λ _.
            track_data_point-IsValid env name dp.attributes _
              (evict_first-IsValid name limit (get_oldest_entries env t'.metrics name 1) t' h'))
          (λ _. h'))
    where
      t' : Tracker
      t' = increment_stats total (track_data_point env name dp.attributes t).0

      h' : IsValid t'
      h' = track_data_point-IsValid env name dp.attributes t h

  abbrev KeptSound : List (DataPoint V) × Limiter → Type 0
  KeptSound r = IsSound r.1

  abbrev OutSound : List (Metric V) × Limiter → Type 0
  OutSound r = IsSound r.1

  module _ (metric : Metric V) (dps : List (DataPoint V)) (limit : ℕ) (l : Limiter)
      (h : IsSound l) where
    filter_loops-IsSound : Ensures KeptSound (filter_loops env cfg metric.name limit dps l)
    unfolding filter_loops
    filter_loops-IsSound =
        let marked = mark_over env cfg metric.name limit 0 dps l.tracker in
        beside IsSound (remove_marked env (reverse marked.0) dps) (with_tracker marked.1 l)
          (mark_over-IsValid env cfg metric.name limit 0 dps l.tracker h)

    sample_loops-IsSound : Ensures KeptSound (sample_loops env cfg metric.name limit dps l)
    unfolding sample_loops
    sample_loops-IsSound =
        let marked = mark_sample env cfg metric.name limit 0 dps l in
        beside IsSound (remove_marked env (reverse marked.0) dps) marked.1
          (mark_sample-IsSound metric.name limit 0 dps l h)

    filter_by_type-IsSound :
        (type : MetricType) → Ensures KeptSound (filter_by_type env cfg metric dps limit l type)
    unfolding filter_by_type
    filter_by_type-IsSound empty = h
    filter_by_type-IsSound _ = filter_loops-IsSound

    sample_by_type-IsSound :
        (type : MetricType) → Ensures KeptSound (sample_by_type env cfg metric dps limit l type)
    unfolding sample_by_type
    sample_by_type-IsSound empty = h
    sample_by_type-IsSound _ = sample_loops-IsSound

    oldest_by_type-IsSound :
        (type : MetricType) → IsSound (oldest_by_type env cfg metric dps limit l type)
    unfolding oldest_by_type
    oldest_by_type-IsSound empty = h
    oldest_by_type-IsSound _ = process_oldest-IsValid metric.name limit dps l.tracker h

  track_points-IsValid :
      (name : Str) (dps : List (DataPoint V)) (t : Tracker)
      → IsValid t
      → IsValid (track_points env cfg name dps t)
  unfolding track_points increment_stats
  track_points-IsValid name [] t h = h
  track_points-IsValid name (dp ∷ dps) t h =
      track_points-IsValid name dps _ (track_data_point-IsValid env name dp.attributes t h)

  module _ (metric : Metric V) (output : List (Metric V)) (limit : ℕ) (l : Limiter)
      (h : IsSound l) where
    handle_drop-IsSound : Ensures OutSound (handle_drop env cfg metric output limit l)
    unfolding handle_drop
    handle_drop-IsSound =
        Ensures->>= KeptSound OutSound
          (filter_by_type env cfg metric metric.points limit l metric.type) _
          (filter_by_type-IsSound metric metric.points limit l h metric.type)
          (λ r s.
            beside IsSound (append_unless_empty env cfg (record metric { points = r.0 }) output) r.1
              s)

    handle_sample-IsSound : Ensures OutSound (handle_sample env cfg metric output limit l)
    unfolding handle_sample
    handle_sample-IsSound =
        Ensures->>= KeptSound OutSound
          (sample_by_type env cfg metric metric.points limit l metric.type) _
          (sample_by_type-IsSound metric metric.points limit l h metric.type)
          (λ r s.
            beside IsSound (append_unless_empty env cfg (record metric { points = r.0 }) output) r.1
              s)

    handle_oldest-IsSound : Ensures OutSound (handle_oldest env cfg metric output limit l)
    unfolding handle_oldest
    handle_oldest-IsSound = oldest_by_type-IsSound metric metric.points limit l h metric.type

    handle_aggregate-IsSound : Ensures OutSound (handle_aggregate env cfg metric output limit l)
    unfolding handle_aggregate track_all_data_points increment_stats
    handle_aggregate-IsSound =
        let t = l.tracker in
        let reduce =
          has_labels cfg.aggregation_labels || should_aggregate cfg metric.name limit t in
        let out = if reduce then remove_high_cardinality_labels env cfg metric else metric in
        let t' = if reduce then increment_stats aggregated t else t in
        track_points-IsValid out.name (points_of out.type out.points) t'
          (if_split IsValid reduce (increment_stats aggregated t) t (λ _. h) (λ _. h))

  dispatch-IsSound :
      (s : Strategy) (metric : Metric V) (output : List (Metric V)) (limit : ℕ) (l : Limiter)
      → IsSound l
      → Ensures OutSound (dispatch env cfg s metric output limit l)
  unfolding dispatch
  dispatch-IsSound drop metric output limit l h = handle_drop-IsSound metric output limit l h
  dispatch-IsSound aggregate metric output limit l h =
      handle_aggregate-IsSound metric output limit l h
  dispatch-IsSound sample metric output limit l h = handle_sample-IsSound metric output limit l h
  dispatch-IsSound oldest metric output limit l h = handle_oldest-IsSound metric output limit l h
  dispatch-IsSound (other _) metric output limit l h = h

  process_scope-IsSound :
      (metrics output : List (Metric V)) (l : Limiter)
      → IsSound l
      → Ensures OutSound (process_scope env cfg metrics output l)
  unfolding process_scope process_metric
  process_scope-IsSound [] output l h = h
  process_scope-IsSound (metric ∷ metrics) output l h =
      Ensures->>= OutSound OutSound (process_metric env cfg metric output l) _
        (dispatch-IsSound cfg.strategy metric output (get_metric_limit cfg metric.name) l h)
        (λ r s. process_scope-IsSound metrics r.0 r.1 s)

  abbrev ScopesSound : List (ScopeMetrics V) × Limiter → Type 0
  ScopesSound r = IsSound r.1

  process_scopes-IsSound :
      (sms : List (ScopeMetrics V)) (l : Limiter)
      → IsSound l
      → Ensures ScopesSound (process_scopes env cfg sms l)
  unfolding process_scopes
  process_scopes-IsSound [] l h = h
  process_scopes-IsSound (sm ∷ sms) l h =
      Ensures->>= OutSound ScopesSound (process_scope env cfg sm.metrics [] l) _
        (process_scope-IsSound sm.metrics [] l h)
        (λ r s.
          Ensures->>= ScopesSound ScopesSound (process_scopes env cfg sms r.1) _
            (process_scopes-IsSound sms r.1 s) (λ rest k. k))

  abbrev ResourcesSound : Metrics V × Limiter → Type 0
  ResourcesSound r = IsSound r.1

  process_resources-IsSound :
      (rms : Metrics V) (l : Limiter)
      → IsSound l
      → Ensures ResourcesSound (process_resources env cfg rms l)
  unfolding process_resources
  process_resources-IsSound [] l h = h
  process_resources-IsSound (rm ∷ rms) l h =
      Ensures->>= ScopesSound ResourcesSound (process_scopes env cfg rm.scopes l) _
        (process_scopes-IsSound rm.scopes l h)
        (λ r s.
          Ensures->>= ResourcesSound ResourcesSound (process_resources env cfg rms r.1) _
            (process_resources-IsSound rms r.1 s) (λ rest k. k))

  send_alert-IsSound : (l : Limiter) (o : Option ℕ) → IsSound l → IsSound (send_alert env l o)
  unfolding send_alert
  send_alert-IsSound l none h = h
  send_alert-IsSound l (some last) h =
      if_split IsSound (ltb (last + 300 * second) (env.now l.tracker.ticks)) _ _ (λ _. h) (λ _. h)

  -- With any strategy: if the counts are right before a batch, and it is processed without a panic, they
  -- are right after it.
  pub process_metrics-IsSound :
      (metrics out : Metrics V) (l l' : Limiter)
      → IsSound l
      → process_metrics env cfg metrics l ≡ some (out, l')
      → IsSound l'
  unfolding process_metrics check_alerts track_labels
  process_metrics-IsSound metrics out l l' h e =
      Ensures-some ResourcesSound (process_metrics env cfg metrics l) (out, l')
        (Ensures->>= ResourcesSound ResourcesSound
          (process_resources env cfg allowed (track_labels env allowed l)) _
          (process_resources-IsSound allowed (track_labels env allowed l) (
            report_labels-IsValid (track_all_labels env (all_metrics allowed) l.label_cardinality)
              l.tracker h))
          (λ r s.
            let l1 = with_tracker (cleanup_old_entries env r.1.tracker) r.1 in
            let s1 : IsSound l1 = cleanup_old_entries-IsValid env r.1.tracker s in
            if_split IsSound
              (over_threshold (get_global_cardinality l1.tracker) cfg.global_limit
                cfg.alert_threshold)
              _ _
              (λ _. send_alert-IsSound l1 (lookup Str-discrete (codes "global") l1.alerts_sent) s1)
              (λ _. s1)))
        e
    where
      allowed : Metrics V
      allowed = remove_deny_labels_from_metrics cfg metrics
