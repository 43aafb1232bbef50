-- ===== src/Cap/Limiter/Denied.antt =====
-- nrcap/limiter.go: no label of the deny list reaches the next consumer.
use mathlib.Core.List.{lookup, reverse}
use nrdot_host.Common.Dict.{insert, lookup-insert}
use nrdot_host.Common.{
  ℕ, ◌≡◌, refl, List, [], ◌∷◌, ◌++◌, Bool, Option, none, some, arith, if_split, ◌>>=◌, ◌||◌, ◌==◌,
  Ensures, Ensures->>=, Ensures-some, All, All-append, Option-cases, inl, inr, Str, Str-discrete,
  str_eq,
}
use nrdot_host.Cap.Metric.{
  Attributes, DataPoint, Metric, MetricType, ScopeMetrics, Metrics, empty, points_of,
}
use nrdot_host.Cap.Config.{
  Config, Strategy, drop, aggregate, sample, oldest, other, get_metric_limit,
}
use nrdot_host.Cap.Env.{Env, IsRemoveIf}
use nrdot_host.Cap.Limiter.{
  Limiter, same_timestamp, remove_marked, mark_over, mark_sample, filter_loops, sample_loops,
  with_tracker,
}
use nrdot_host.Cap.Limiter.Labels.{
  is_denied_label, keep_labels, copy_allowed, aggregate_attributes, aggregate_with, map_points,
  remove_deny_labels_from_metrics, aggregate_by_type, remove_high_cardinality_labels, track_labels,
}
use nrdot_host.Cap.Limiter.Strategies.{
  filter_by_type, sample_by_type, append_unless_empty, get_data_point_count, has_labels,
  should_aggregate, handle_drop, handle_sample, handle_oldest, handle_aggregate, dispatch,
  process_metric,
}
use nrdot_host.Cap.Limiter.Process.{
  process_scope, process_scopes, process_resources, process_metrics,
}
use nrdot_host.Cap.Limiter.Allowed.{
  Allowed, AllowedPoint, AllowedMetric, AllowedScope, AllowedResource, deny-Allowed,
}

module _ {V : Type 0} (env : Env V) (rp : IsRemoveIf env.remove_points)
    (rm : IsRemoveIf env.remove_metrics) (cfg : Config) where
  remove_marked-Allowed :
      (ks : List ℕ) (dps : List (DataPoint V))
      → All (AllowedPoint cfg) dps
      → Ensures (All (AllowedPoint cfg)) (remove_marked env ks dps)
  unfolding remove_marked
  remove_marked-Allowed [] dps h = h
  remove_marked-Allowed (k ∷ ks) dps h =
      elim (Option-cases (env.remove_points (same_timestamp env k) dps)) [
        | inl e ↦ rw e tt
        | inr (rest, e) ↦ rw e (
            remove_marked-Allowed ks rest
              (rp.only_removes (same_timestamp env k) (AllowedPoint cfg) dps rest e h))
      ]

  abbrev KeptAllowed : List (DataPoint V) × Limiter → Type 0
  KeptAllowed r = All (AllowedPoint cfg) r.0

  kept_Allowed :
      (m : Option (List (DataPoint V))) (l : Limiter)
      → Ensures (All (AllowedPoint cfg)) m
      → Ensures KeptAllowed (m >>= λ kept. some (kept, l))
  kept_Allowed none l h = tt
  kept_Allowed (some kept) l h = h

  module _ (metric : Metric V) (limit : ℕ) (l : Limiter) where
    filter_loops-Allowed :
        (dps : List (DataPoint V))
        → All (AllowedPoint cfg) dps
        → Ensures KeptAllowed (filter_loops env cfg metric.name limit dps l)
    unfolding filter_loops
    filter_loops-Allowed dps h =
        let marked = mark_over env cfg metric.name limit 0 dps l.tracker in
        kept_Allowed (remove_marked env (reverse marked.0) dps) (with_tracker marked.1 l)
          (remove_marked-Allowed (reverse marked.0) dps h)

    sample_loops-Allowed :
        (dps : List (DataPoint V))
        → All (AllowedPoint cfg) dps
        → Ensures KeptAllowed (sample_loops env cfg metric.name limit dps l)
    unfolding sample_loops
    sample_loops-Allowed dps h =
        let marked = mark_sample env cfg metric.name limit 0 dps l in
        kept_Allowed (remove_marked env (reverse marked.0) dps) marked.1
          (remove_marked-Allowed (reverse marked.0) dps h)

    abbrev KeptOf : MetricType → List (DataPoint V) × Limiter → Type 0
    KeptOf type r = All (AllowedPoint cfg) (points_of type r.0)

    filter_by_type-Allowed :
        (type : MetricType) (dps : List (DataPoint V))
        → All (AllowedPoint cfg) (points_of type dps)
        → Ensures (KeptOf type) (filter_by_type env cfg metric dps limit l type)
    unfolding filter_by_type
    filter_by_type-Allowed empty dps h = tt
    filter_by_type-Allowed _ dps h = filter_loops-Allowed dps h

    sample_by_type-Allowed :
        (type : MetricType) (dps : List (DataPoint V))
        → All (AllowedPoint cfg) (points_of type dps)
        → Ensures (KeptOf type) (sample_by_type env cfg metric dps limit l type)
    unfolding sample_by_type
    sample_by_type-Allowed empty dps h = tt
    sample_by_type-Allowed _ dps h = sample_loops-Allowed dps h

  append_unless_empty-Allowed :
      (out : Metric V) (output : List (Metric V))
      → AllowedMetric cfg out
      → All (AllowedMetric cfg) output
      → Ensures (All (AllowedMetric cfg)) (append_unless_empty env cfg out output)
  unfolding append_unless_empty
  append_unless_empty-Allowed out output h hs =
      if_split (Ensures (All (AllowedMetric cfg))) (get_data_point_count out == 0) _ _
        (λ _. elim (Option-cases (env.remove_metrics same_name all)) [
          | inl e ↦ rw e tt
          | inr (rest, e) ↦ rw e (rm.only_removes same_name (AllowedMetric cfg) all rest e both)
        ])
        (λ _. both)
    where
      all : List (Metric V)
      all = output ++ (out ∷ [])

      same_name : List (Metric V) → Metric V → Option Bool
      same_name = λ _ m. some (str_eq m.name out.name)

      both : All (AllowedMetric cfg) all
      both = All-append (AllowedMetric cfg) output (out ∷ []) hs (h, tt)

  abbrev OutAllowed : List (Metric V) × Limiter → Type 0
  OutAllowed r = All (AllowedMetric cfg) r.0

  out_Allowed :
      (m : Option (List (Metric V))) (l : Limiter)
      → Ensures (All (AllowedMetric cfg)) m
      → Ensures OutAllowed (m >>= λ output. some (output, l))
  out_Allowed none l h = tt
  out_Allowed (some kept) l h = h

  -- Attributes that are built from allowed ones are allowed.
  keep_labels-Allowed :
      (labels : List Str) (attrs new : Attributes V)
      → Allowed cfg attrs
      → Allowed cfg new
      → Allowed cfg (keep_labels env labels attrs new)
  unfolding keep_labels
  keep_labels-Allowed [] attrs new h k = k
  keep_labels-Allowed (label ∷ labels) attrs new h k =
      elim (Option-cases (lookup Str-discrete label attrs)) [
        | inl e ↦ rw e (keep_labels-Allowed labels attrs new h k)
        | inr (v, e) ↦ rw e (
            keep_labels-Allowed labels attrs
              (insert Str-discrete label (env.of_string (env.as_string v)) new) h
              (λ key d. ground (
                arith,
                lookup-insert Str-discrete key label (env.of_string (env.as_string v)) new,
                h key d,
                k key d,
              )))
      ]

  copy_allowed-Allowed :
      (attrs new : Attributes V) → Allowed cfg new → Allowed cfg (copy_allowed env cfg attrs new)
  unfolding copy_allowed
  copy_allowed-Allowed [] new k = k
  copy_allowed-Allowed ((i, v) ∷ attrs) new k = copy_allowed-Allowed attrs _ (
      if_split (Allowed cfg) (is_denied_label cfg i) new (insert Str-discrete i v new) (λ _. k)
        (λ e key d. ground (arith, lookup-insert Str-discrete key i v new, k key d)))

  aggregate_attributes-Allowed :
      (attrs : Attributes V) → Allowed cfg attrs → Allowed cfg (aggregate_attributes env cfg attrs)
  unfolding aggregate_attributes lookup
  aggregate_attributes-Allowed attrs h = go cfg.aggregation_labels
    where
      nothing : Allowed {V = V} cfg []
      nothing key d = refl

      go : (l : List Str) → Allowed cfg (aggregate_with env l cfg attrs)
      go [] = copy_allowed-Allowed attrs [] nothing
      go (x ∷ xs) = keep_labels-Allowed (x ∷ xs) attrs [] h nothing

  map_aggregate-Allowed :
      (dps : List (DataPoint V))
      → All (AllowedPoint cfg) dps
      → All (AllowedPoint cfg) (map_points (aggregate_attributes env cfg) dps)
  map_aggregate-Allowed [] h = tt
  map_aggregate-Allowed (dp ∷ dps) h =
      (aggregate_attributes-Allowed dp.attributes h.0, map_aggregate-Allowed dps h.1)

  aggregate_by_type-Allowed :
      (type : MetricType) (dps : List (DataPoint V))
      → All (AllowedPoint cfg) (points_of type dps)
      → All (AllowedPoint cfg) (points_of type (aggregate_by_type env cfg type dps))
  unfolding aggregate_by_type
  aggregate_by_type-Allowed empty dps h = tt
  aggregate_by_type-Allowed _ dps h = map_aggregate-Allowed dps h

  -- Each strategy passes on allowed metrics only.
  dispatch-Allowed :
      (s : Strategy) (metric : Metric V) (output : List (Metric V)) (limit : ℕ) (l : Limiter)
      → AllowedMetric cfg metric
      → All (AllowedMetric cfg) output
      → Ensures OutAllowed (dispatch env cfg s metric output limit l)
  unfolding dispatch handle_drop handle_sample handle_oldest handle_aggregate
      remove_high_cardinality_labels
  dispatch-Allowed drop metric output limit l h hs =
      Ensures->>= (KeptOf metric limit l metric.type) OutAllowed
        (filter_by_type env cfg metric metric.points limit l metric.type) _
        (filter_by_type-Allowed metric limit l metric.type metric.points h)
        (λ r k.
          out_Allowed (append_unless_empty env cfg (record metric { points = r.0 }) output) r.1
            (append_unless_empty-Allowed (record metric { points = r.0 }) output k hs))
  dispatch-Allowed sample metric output limit l h hs =
      Ensures->>= (KeptOf metric limit l metric.type) OutAllowed
        (sample_by_type env cfg metric metric.points limit l metric.type) _
        (sample_by_type-Allowed metric limit l metric.type metric.points h)
        (λ r k.
          out_Allowed (append_unless_empty env cfg (record metric { points = r.0 }) output) r.1
            (append_unless_empty-Allowed (record metric { points = r.0 }) output k hs))
  dispatch-Allowed oldest metric output limit l h hs =
      All-append (AllowedMetric cfg) output (metric ∷ []) hs (h, tt)
  dispatch-Allowed aggregate metric output limit l h hs =
      All-append (AllowedMetric cfg) output (_ ∷ []) hs (
        if_split (AllowedMetric cfg)
            (has_labels cfg.aggregation_labels || should_aggregate cfg metric.name limit l.tracker)
            (remove_high_cardinality_labels env cfg metric) metric
            (λ _. aggregate_by_type-Allowed metric.type metric.points h) (λ _. h),
        tt,
      )
  dispatch-Allowed (other _) metric output limit l h hs = hs

  process_scope-Allowed :
      (metrics output : List (Metric V)) (l : Limiter)
      → All (AllowedMetric cfg) metrics
      → All (AllowedMetric cfg) output
      → Ensures OutAllowed (process_scope env cfg metrics output l)
  unfolding process_scope process_metric
  process_scope-Allowed [] output l h hs = hs
  process_scope-Allowed (metric ∷ metrics) output l h hs =
      Ensures->>= OutAllowed OutAllowed (process_metric env cfg metric output l) _
        (dispatch-Allowed cfg.strategy metric output (get_metric_limit cfg metric.name) l h.0 hs)
        (λ r k. process_scope-Allowed metrics r.0 r.1 h.1 k)

  abbrev ScopesAllowed : List (ScopeMetrics V) × Limiter → Type 0
  ScopesAllowed r = All (AllowedScope cfg) r.0

  process_scopes-Allowed :
      (sms : List (ScopeMetrics V)) (l : Limiter)
      → All (AllowedScope cfg) sms
      → Ensures ScopesAllowed (process_scopes env cfg sms l)
  unfolding process_scopes
  process_scopes-Allowed [] l h = tt
  process_scopes-Allowed (sm ∷ sms) l h =
      Ensures->>= OutAllowed ScopesAllowed (process_scope env cfg sm.metrics [] l) _
        (process_scope-Allowed sm.metrics [] l h.0 tt)
        (λ r s.
          Ensures->>= ScopesAllowed ScopesAllowed (process_scopes env cfg sms r.1) _
            (process_scopes-Allowed sms r.1 h.1) (λ rest k. (s, k)))

  abbrev ResourcesAllowed : Metrics V × Limiter → Type 0
  ResourcesAllowed r = All (AllowedResource cfg) r.0

  process_resources-Allowed :
      (rms : Metrics V) (l : Limiter)
      → All (AllowedResource cfg) rms
      → Ensures ResourcesAllowed (process_resources env cfg rms l)
  unfolding process_resources
  process_resources-Allowed [] l h = tt
  process_resources-Allowed (res ∷ rms) l h =
      Ensures->>= ScopesAllowed ResourcesAllowed (process_scopes env cfg res.scopes l) _
        (process_scopes-Allowed res.scopes l h.0)
        (λ r s.
          Ensures->>= ResourcesAllowed ResourcesAllowed (process_resources env cfg rms r.1) _
            (process_resources-Allowed rms r.1 h.1) (λ rest k. (s, k)))

  -- With any strategy, no data point that is passed on has a label of the deny list, if the batch is
  -- processed without a panic. `RemoveIf` only removes.
  pub process_metrics-Allowed :
      (metrics out : Metrics V) (l l' : Limiter)
      → process_metrics env cfg metrics l ≡ some (out, l')
      → All (AllowedResource cfg) out
  unfolding process_metrics
  process_metrics-Allowed metrics out l l' e =
      Ensures-some ResourcesAllowed (process_metrics env cfg metrics l) (out, l')
        (Ensures->>= ResourcesAllowed ResourcesAllowed
          (process_resources env cfg allowed (track_labels env allowed l)) _
          (process_resources-Allowed allowed (track_labels env allowed l)
            (deny-Allowed cfg metrics))
          (λ r k. k))
        e
    where
      allowed : Metrics V
      allowed = remove_deny_labels_from_metrics cfg metrics
