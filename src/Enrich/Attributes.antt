-- ===== src/Enrich/Attributes.antt =====
-- What enrichment does to every attribute of processors/nrenrich's telemetry (enricher.go).
use nrdot_host.Common.{
  ◌≡◌, refl, ap, ◌∙◌, inl, inr, Option-cases, List, [], ◌∷◌, Option, none, some, Str, Str-discrete,
  ite, arith,
}
use nrdot_host.Common.Dict.{lookup-insert}
use nrdot_host.Enrich.{
  Any, Metadata, AttributeMap, AttributeValue, set_attribute_value, add_missing, enrich_attributes,
  enrich_record, apply_rules, apply_dynamic_attributes, Metric, gauge, sum, histogram,
  exponential_histogram, summary, empty, enrich_metric_data_points, Resource, enrich_resource,
  Enricher, Call, collect_metadata, enrich_traces, enrich_logs, enrich_metrics,
}
use nrdot_host.Common.Pointwise.{Pointwise, Pointwise-map}
use mathlib.Core.List.{lookup}

-- The value that was there, and the metadata's where there was none.
abbrev pub kept_or_added : Option AttributeValue → Option Any → Option AttributeValue
kept_or_added (some w) v = some w
kept_or_added none none = none
kept_or_added none (some v) = some (set_attribute_value v)

-- Under each key, what was there is kept and what was missing comes from the metadata.
abbrev pub Enriched : Metadata → AttributeMap → AttributeMap → Type 0
Enriched md old new =
    (k : Str)
    → lookup Str-discrete k new
      ≡ kept_or_added (lookup Str-discrete k old) (lookup Str-discrete k md)

absent_added :
    (k j : Str) (v : Any) (o : Option AttributeValue)
    → (k ≡ j → o ≡ none)
    → ite (Str-discrete k j) (some (set_attribute_value v)) o
      ≡ kept_or_added o (ite (Str-discrete k j) (some v) none)
absent_added k j v o h =
    elim (Str-discrete k j)
      as (λ d. ite d (some (set_attribute_value v)) o ≡ kept_or_added o (ite d (some v) none)) [
        | yes p ↦ rw (h p) refl
        | no p ↦ elim o as (λ o. o ≡ kept_or_added o none) [ none ↦ refl | some w ↦ refl ]
      ]

present_kept :
    (k j : Str) (v : Any) (w : AttributeValue) (o : Option AttributeValue)
    → (k ≡ j → o ≡ some w)
    → o ≡ kept_or_added o (ite (Str-discrete k j) (some v) none)
present_kept k j v w o h =
    elim (Str-discrete k j) as (λ d. o ≡ kept_or_added o (ite d (some v) none)) [
      | yes p ↦ rw (h p) refl
      | no p ↦ elim o as (λ o. o ≡ kept_or_added o none) [ none ↦ refl | some w ↦ refl ]
    ]

lookup-add_missing :
    (k j : Str) (v : Any) (attrs : AttributeMap)
    → lookup Str-discrete k (add_missing j v attrs)
      ≡ kept_or_added (lookup Str-discrete k attrs) (ite (Str-discrete k j) (some v) none)
unfolding add_missing
lookup-add_missing k j v attrs = elim (Option-cases (lookup Str-discrete j attrs)) [
  | inl e ↦
      rw (e, lookup-insert Str-discrete k j)
        (absent_added k j v (lookup Str-discrete k attrs)
          (λ p. ap (λ i. lookup Str-discrete i attrs) p ∙ e))
  | inr (w, e) ↦ rw e (
      present_kept k j v w (lookup Str-discrete k attrs)
        (λ p. ap (λ i. lookup Str-discrete i attrs) p ∙ e))
]

kept_twice :
    (o : Option AttributeValue) (k j : Str) (v : Any) (w : Option Any)
    → kept_or_added (kept_or_added o (ite (Str-discrete k j) (some v) none)) w
      ≡ kept_or_added o (ite (Str-discrete k j) (some v) w)
kept_twice o k j v w = ground arith

enrich_attributes-Enriched :
    (md : Metadata) (attrs : AttributeMap) → Enriched md attrs (enrich_attributes attrs md)
unfolding enrich_attributes lookup
enrich_attributes-Enriched [] attrs k = ground arith
enrich_attributes-Enriched ((j, v) ∷ md) attrs k =
    rw (enrich_attributes-Enriched md (add_missing j v attrs) k, lookup-add_missing k j v attrs)
      (kept_twice (lookup Str-discrete k attrs) k j v (lookup Str-discrete k md))

record-Enriched :
    (md : Metadata) (res attrs : AttributeMap) → Enriched md attrs (enrich_record md res attrs)
unfolding enrich_record apply_rules apply_dynamic_attributes
record-Enriched md res attrs = enrich_attributes-Enriched md attrs

-- The same kind of metric, with every data point enriched.
abbrev pub MetricEnriched : Metadata → Metric → Metric → Type 0
MetricEnriched md (gauge ps) (gauge qs) = Pointwise (Enriched md) ps qs
MetricEnriched md (sum ps) (sum qs) = Pointwise (Enriched md) ps qs
MetricEnriched md (histogram ps) (histogram qs) = Pointwise (Enriched md) ps qs
MetricEnriched md (exponential_histogram ps) (exponential_histogram qs) =
    Pointwise (Enriched md) ps qs
MetricEnriched md (summary ps) (summary qs) = Pointwise (Enriched md) ps qs
MetricEnriched md empty empty = Unit
MetricEnriched md _ _ = ⊥

metric-Enriched :
    (md : Metadata) (res : AttributeMap) (m : Metric)
    → MetricEnriched md m (enrich_metric_data_points md res m)
unfolding enrich_metric_data_points
metric-Enriched md res (gauge ps) = Pointwise-map _ _ (record-Enriched md res) ps
metric-Enriched md res (sum ps) = Pointwise-map _ _ (record-Enriched md res) ps
metric-Enriched md res (histogram ps) = Pointwise-map _ _ (record-Enriched md res) ps
metric-Enriched md res (exponential_histogram ps) = Pointwise-map _ _ (record-Enriched md res) ps
metric-Enriched md res (summary ps) = Pointwise-map _ _ (record-Enriched md res) ps
metric-Enriched md res empty = tt

-- The resource's attributes are enriched, and the items of its scopes one by one.
abbrev pub ResourceEnriched :
    {A : Type 0} → Metadata → (A → A → Type 0) → Resource A → Resource A → Type 0
ResourceEnriched md R r s =
    Enriched md r.attributes s.attributes × Pointwise (Pointwise R) r.scopes s.scopes

resource-Enriched :
    {A : Type 0} (md : Metadata) (R : A → A → Type 0) (item : AttributeMap → A → A)
    → ((res : AttributeMap) (a : A) → R a (item res a))
    → (r : Resource A) → ResourceEnriched md R r (enrich_resource md item r)
unfolding enrich_resource
resource-Enriched md R item h r = (
  enrich_attributes-Enriched md r.attributes,
  Pointwise-map _ _ (Pointwise-map R _ (h (enrich_attributes r.attributes md))) r.scopes,
)

-- Enrichment of metrics, and of traces and logs, keeps every resource, scope, metric, data point, span
-- and log record in its place, and under each key of their attributes it keeps the value that was
-- there and adds the metadata's where there was none.
pub enrich_metrics-Enriched :
    (e : Enricher) (call : Call) (ms : List (Resource Metric)) (ts : List (Resource AttributeMap))
    → let md = (collect_metadata e call).1 in
      Pointwise (ResourceEnriched md (MetricEnriched md)) ms (enrich_metrics e call ms).1
      × Pointwise (ResourceEnriched md (Enriched md)) ts (enrich_traces e call ts).1
      × Pointwise (ResourceEnriched md (Enriched md)) ts (enrich_logs e call ts).1
unfolding enrich_metrics enrich_traces enrich_logs
enrich_metrics-Enriched e call ms ts =
    let md = (collect_metadata e call).1 in
    let each = Pointwise-map _ _ (resource-Enriched md (Enriched md) _ (record-Enriched md)) in
    (
      Pointwise-map _ _ (resource-Enriched md (MetricEnriched md) _ (metric-Enriched md)) ms,
      each ts,
      each ts,
    )
