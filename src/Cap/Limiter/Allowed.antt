-- ===== src/Cap/Limiter/Allowed.antt =====
-- nrcap/limiter.go: the deny list is taken out of all incoming telemetry.
use mathlib.Core.List.{lookup}
use nrdot_host.Common.Dict.{delete, lookup-delete}
use nrdot_host.Common.{
  ◌≡◌, refl, List, [], ◌∷◌, map, true, false, none, arith, if◌then◌else◌, All, Bool-cases, inl, inr,
  Str, Str-discrete, str_eq,
}
use nrdot_host.Cap.Metric.{
  Attributes, DataPoint, Metric, MetricType, ScopeMetrics, ResourceMetrics, Metrics, empty, gauge,
  points_of,
}
use nrdot_host.Cap.Config.{Config}
use nrdot_host.Cap.Limiter.Labels.{
  is_listed, is_denied_label, remove_labels, map_points, map_attributes,
  remove_deny_labels_from_metric, remove_deny_labels_from_metrics, deny_from,
}
use nrdot_host.Cap.Limiter.Strategies.{has_labels}

All-map :
    {A : Type 0} (P : A → Type 0) (f : A → A)
    → ((a : A) → P (f a))
    → (xs : List A) → All P (map f xs)
All-map P f h [] = tt
All-map P f h (x ∷ xs) = (h x, All-map P f h xs)

module _ {V : Type 0} where
  -- The deny list is taken out of the attributes of a data point: a label on it is gone, and every other
  -- one is as it was.
  pub lookup-remove_labels :
      (labels : List Str) (attrs : Attributes V) (key : Str)
      → lookup Str-discrete key (remove_labels labels attrs)
        ≡ (if is_listed labels key then none else lookup Str-discrete key attrs)
  unfolding remove_labels is_listed str_eq
  lookup-remove_labels [] attrs key = refl
  lookup-remove_labels (label ∷ labels) attrs key = ground (
    arith,
    lookup-remove_labels labels (delete Str-discrete label attrs) key,
    lookup-delete Str-discrete key label attrs,
  )

  -- No key of the deny list is among the attributes.
  abbrev pub Allowed : Config → Attributes V → Type 0
  Allowed cfg attrs =
      (key : Str) → is_denied_label cfg key ≡ true → lookup Str-discrete key attrs ≡ none

  abbrev pub AllowedPoint : Config → DataPoint V → Type 0
  AllowedPoint cfg dp = Allowed cfg dp.attributes

  -- Of the data points that a metric has.
  abbrev pub AllowedMetric : Config → Metric V → Type 0
  AllowedMetric cfg metric = All (AllowedPoint cfg) (points_of metric.type metric.points)

  abbrev pub AllowedScope : Config → ScopeMetrics V → Type 0
  AllowedScope cfg sm = All (AllowedMetric cfg) sm.metrics

  abbrev pub AllowedResource : Config → ResourceMetrics V → Type 0
  AllowedResource cfg rm = All (AllowedScope cfg) rm.scopes

  remove_labels-Allowed :
      (cfg : Config) (attrs : Attributes V) → Allowed cfg (remove_labels cfg.deny_labels attrs)
  unfolding is_denied_label
  remove_labels-Allowed cfg attrs key h =
      ground (arith, lookup-remove_labels cfg.deny_labels attrs key)

  map_points-Allowed :
      (cfg : Config) (f : Attributes V → Attributes V)
      → ((a : Attributes V) → Allowed cfg (f a))
      → (dps : List (DataPoint V)) → All (AllowedPoint cfg) (map_points f dps)
  map_points-Allowed cfg f h [] = tt
  map_points-Allowed cfg f h (dp ∷ dps) = (h dp.attributes, map_points-Allowed cfg f h dps)

  deny-AllowedMetric :
      (cfg : Config) (metric : Metric V)
      → AllowedMetric cfg (remove_deny_labels_from_metric cfg metric)
  unfolding remove_deny_labels_from_metric
  deny-AllowedMetric cfg metric = go metric.type metric.points
    where
      go :
          (type : MetricType) (dps : List (DataPoint V))
          → AllowedMetric cfg (
              map_attributes
                (remove_labels cfg.deny_labels)
                type
                (record { name = metric.name; type = type; points = dps }))
      go empty dps = tt
      go gauge dps =
          map_points-Allowed cfg (remove_labels cfg.deny_labels) (remove_labels-Allowed cfg) dps
      go _ dps =
          map_points-Allowed cfg (remove_labels cfg.deny_labels) (remove_labels-Allowed cfg) dps

  -- With nothing denied everything is allowed.
  no_list :
      (cfg : Config)
      → has_labels cfg.deny_labels ≡ false
      → (attrs : Attributes V) → Allowed cfg attrs
  unfolding is_denied_label is_listed
  no_list cfg e attrs key h = ground arith

All-of : {A : Type 0} (P : A → Type 0) → ((a : A) → P a) → (xs : List A) → All P xs
All-of P h [] = tt
All-of P h (x ∷ xs) = (h x, All-of P h xs)

module _ {V : Type 0} (cfg : Config) where
  no_denied_points :
      ((a : Attributes V) → Allowed cfg a)
      → (metrics : Metrics V) → All (AllowedResource cfg) metrics
  no_denied_points h = All-of (AllowedResource cfg) (λ rm.
      All-of (AllowedScope cfg)
        (λ sm.
          All-of (AllowedMetric cfg)
            (λ m. All-of (AllowedPoint cfg) (λ dp. h dp.attributes) (points_of m.type m.points))
            sm.metrics)
        rm.scopes)

  pub deny-Allowed :
      (metrics : Metrics V)
      → All (AllowedResource cfg) (remove_deny_labels_from_metrics cfg metrics)
  unfolding remove_deny_labels_from_metrics
  deny-Allowed metrics = elim (Bool-cases (has_labels cfg.deny_labels)) [
    | inl e ↦ go cfg.deny_labels e
    | inr e ↦ no_denied_points (no_list cfg e) (deny_from cfg.deny_labels cfg metrics)
  ]
    where
      go :
          (l : List Str) → has_labels l ≡ true → All (AllowedResource cfg) (deny_from l cfg metrics)
      go [] e = cc
      go (_ ∷ _) e =
          All-map (AllowedResource cfg) _
            (λ rm.
              All-map (AllowedScope cfg) _
                (λ sm. All-map (AllowedMetric cfg) _ (deny-AllowedMetric cfg) sm.metrics) rm.scopes)
            metrics
