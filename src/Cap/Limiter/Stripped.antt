-- ===== src/Cap/Limiter/Stripped.antt =====
-- nrcap/limiter.go: what removeDenyLabelsFromMetrics changes in the telemetry, and that it is only that.
use mathlib.Core.List.{lookup}
use nrdot_host.Common.{
  ◌≡◌, refl, subst, inl, inr, List, [], ◌∷◌, true, none, arith, Bool-cases, if_true, if_false, ◌∙◌,
  Str, Str-discrete, str_eq,
}
use nrdot_host.Common.Pointwise.{Member, Pointwise, Pointwise-map, Pointwise-self}
use nrdot_host.Cap.Metric.{
  Attributes, DataPoint, Metric, MetricType, ScopeMetrics, ResourceMetrics, Metrics, empty, gauge,
  sum, histogram, summary, exponential_histogram, points_of,
}
use nrdot_host.Cap.Config.{Config}
use nrdot_host.Cap.Limiter.Labels.{
  is_listed, remove_labels, map_points, map_attributes, remove_deny_labels_from_metric,
  remove_deny_labels_from_metrics, deny_from,
}
use nrdot_host.Cap.Limiter.Allowed.{lookup-remove_labels}

is_listed-Member : (ls : List Str) (key : Str) → is_listed ls key ≡ true → Member key ls
unfolding is_listed str_eq
is_listed-Member [] key h = absurd (ground (arith, h))
is_listed-Member (l ∷ ls) key h = elim (Str-discrete key l) [
  | yes e ↦ inl e
  | no ne ↦ inr (is_listed-Member ls key (ground (arith, h, ne)))
]

Member-is_listed : (ls : List Str) (key : Str) → Member key ls → is_listed ls key ≡ true
unfolding is_listed str_eq
Member-is_listed [] key h = absurd h
Member-is_listed (l ∷ ls) key (inl e) = ground (arith, e)
Member-is_listed (l ∷ ls) key (inr h) = ground (arith, Member-is_listed ls key h)

module _ {V : Type 0} (cfg : Config) where
  -- The labels of the deny list are gone, and every other label is as it was.
  abbrev pub Stripped : Attributes V → Attributes V → Type 0
  Stripped old new =
      (key : Str)
      → (Member key cfg.deny_labels → lookup Str-discrete key new ≡ none)
        × ((¬ Member key cfg.deny_labels)
            → lookup Str-discrete key new ≡ lookup Str-discrete key old)

  -- All else of a data point, a metric, a scope and a resource stays.
  abbrev pub StrippedPoint : DataPoint V → DataPoint V → Type 0
  StrippedPoint old new =
      (new ≡ record old { attributes = new.attributes }) × Stripped old.attributes new.attributes

  abbrev pub StrippedMetric : Metric V → Metric V → Type 0
  StrippedMetric old new =
      (new ≡ record old { points = new.points })
      × Pointwise StrippedPoint (points_of old.type old.points) (points_of old.type new.points)

  abbrev pub StrippedScope : ScopeMetrics V → ScopeMetrics V → Type 0
  StrippedScope old new =
      (new ≡ record old { metrics = new.metrics })
      × Pointwise StrippedMetric old.metrics new.metrics

  abbrev pub StrippedResource : ResourceMetrics V → ResourceMetrics V → Type 0
  StrippedResource old new =
      (new ≡ record old { scopes = new.scopes }) × Pointwise StrippedScope old.scopes new.scopes

  remove_labels-Stripped :
      (attrs : Attributes V) → Stripped attrs (remove_labels cfg.deny_labels attrs)
  remove_labels-Stripped attrs key =
      let e = lookup-remove_labels cfg.deny_labels attrs key in
      (
        λ m. e ∙ if_true _ _ _ (Member-is_listed cfg.deny_labels key m),
        λ n. elim (Bool-cases (is_listed cfg.deny_labels key)) [
          | inl b ↦ absurd (n (is_listed-Member cfg.deny_labels key b))
          | inr b ↦ e ∙ if_false _ _ _ b
        ],
      )

  points-Stripped :
      (dps : List (DataPoint V))
      → Pointwise StrippedPoint dps (map_points (remove_labels cfg.deny_labels) dps)
  points-Stripped dps =
      Pointwise-map StrippedPoint _ (λ dp. (refl, remove_labels-Stripped dp.attributes)) dps

  metric-Stripped :
      (metric : Metric V) → StrippedMetric metric (remove_deny_labels_from_metric cfg metric)
  unfolding remove_deny_labels_from_metric
  metric-Stripped metric = go metric.type metric.points
    where
      go :
          (type : MetricType) (dps : List (DataPoint V))
          → StrippedMetric
              (record { name = metric.name; type = type; points = dps })
              (map_attributes
                (remove_labels cfg.deny_labels)
                type
                (record { name = metric.name; type = type; points = dps }))
      go empty dps = (refl, tt)
      go gauge dps = (refl, points-Stripped dps)
      go sum dps = (refl, points-Stripped dps)
      go histogram dps = (refl, points-Stripped dps)
      go summary dps = (refl, points-Stripped dps)
      go exponential_histogram dps = (refl, points-Stripped dps)

  -- With an empty deny list nothing changes.
  same-Stripped :
      (metrics : Metrics V)
      → ((key : Str) → ¬ Member key cfg.deny_labels)
      → Pointwise StrippedResource metrics metrics
  same-Stripped metrics h =
      Pointwise-self StrippedResource
        (λ rm. (
          refl,
          Pointwise-self StrippedScope
              (λ sm. (
                refl,
                Pointwise-self StrippedMetric
                    (λ m. (
                      refl,
                      Pointwise-self StrippedPoint
                          (λ dp. (refl, λ key. (λ x. absurd (h key x), λ _. refl)))
                          (points_of m.type m.points),
                    ))
                    sm.metrics,
              ))
              rm.scopes,
        ))
        metrics

  pub deny-Stripped :
      (metrics : Metrics V)
      → Pointwise StrippedResource metrics (remove_deny_labels_from_metrics cfg metrics)
  unfolding remove_deny_labels_from_metrics
  deny-Stripped metrics = go cfg.deny_labels refl
    where
      go :
          (l : List Str)
          → cfg.deny_labels ≡ l
          → Pointwise StrippedResource metrics (deny_from l cfg metrics)
      go [] e = same-Stripped metrics (λ key m. absurd (subst (Member key) e m))
      go (_ ∷ _) e =
          Pointwise-map StrippedResource _
            (λ rm. (
              refl,
              Pointwise-map StrippedScope _
                  (λ sm. (refl, Pointwise-map StrippedMetric _ metric-Stripped sm.metrics))
                  rm.scopes,
            ))
            metrics
