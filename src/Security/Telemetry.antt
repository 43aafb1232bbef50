-- ===== src/Security/Telemetry.antt =====
-- nrsecurity: all telemetry that the processor passes on is clean, and when a redactor is refused.
use nrdot_host.Common.{
  ◌≡◌, ◌↔◌, ◌⊎◌, inl, inr, refl, sym, subst, List, [], ◌∷◌, map, true, none, some, All, arith,
  if◌then◌else◌, Option-cases,
}
use nrdot_host.Cap.Metric.{MetricType, empty, gauge, sum, histogram, summary, exponential_histogram}
use nrdot_host.Security.Value.{Attributes}
use nrdot_host.Security.Config.{Config, PatternConfig}
use nrdot_host.Security.Patterns.{
  Regexp, PatternManager, append_compiled, add_pattern, new_pattern_manager,
}
use nrdot_host.Security.Redactor.{Redactor, add_patterns, new_redactor}
use nrdot_host.Security.Clean.{CleanAll, redact_attributes-CleanAll}
use nrdot_host.Security.Processor.{
  Span, DataPoint, Metric, LogRecord, Group, Traces, Metrics, Logs, redact_group, redact_all_groups,
  redact_span, redact_metric, redact_log, process_by_type, process_traces, process_metrics,
  process_logs, redact_map,
}

module _ {R : Type 0} (re : Regexp R) (r : Redactor R) where
  abbrev pub CleanSpan : Span → Type 0
  CleanSpan s =
      CleanAll re r s.attributes × All (CleanAll re r) s.events × All (CleanAll re r) s.links

  abbrev pub CleanPoint : DataPoint → Type 0
  CleanPoint dp = CleanAll re r dp.attributes

  -- A metric with no data has no points.
  abbrev pub CleanPoints : MetricType → List DataPoint → Type 0
  CleanPoints empty dps = Unit
  CleanPoints _ dps = All CleanPoint dps

  abbrev pub CleanMetric : Metric → Type 0
  CleanMetric m = CleanPoints m.type m.points

  abbrev pub CleanLog : LogRecord → Type 0
  CleanLog l = CleanAll re r l.attributes

  abbrev pub CleanGroup : {A : Type 0} → (A → Type 0) → Group A → Type 0
  CleanGroup Q g = CleanAll re r g.attributes × All Q g.members

  map-All :
      {A : Type 0} (Q : A → Type 0) (f : A → A)
      → ((a : A) → Q (f a))
      → (xs : List A) → All Q (map f xs)
  map-All Q f h [] = tt
  map-All Q f h (x ∷ xs) = (h x, map-All Q f h xs)

  group-CleanGroup :
      {A : Type 0} (Q : A → Type 0) (f : A → A)
      → ((a : A) → Q (f a))
      → (g : Group A) → CleanGroup Q (redact_group re r f g)
  group-CleanGroup Q f h g = (redact_attributes-CleanAll re r g.attributes, map-All Q f h g.members)

  groups_safe :
      {A : Type 0} (Q : A → Type 0) (f : A → A)
      → ((a : A) → Q (f a))
      → (gs : List (Group (Group A)))
      → All (CleanGroup (CleanGroup Q)) (redact_all_groups re r f gs)
  groups_safe Q f h gs =
      map-All (CleanGroup (CleanGroup Q)) (redact_group re r (redact_group re r f))
        (group-CleanGroup (CleanGroup Q) (redact_group re r f) (group-CleanGroup Q f h)) gs

  attributes_safe : (ms : List Attributes) → All (CleanAll re r) (map (redact_map re r) ms)
  attributes_safe ms =
      map-All (CleanAll re r) (redact_map re r) (redact_attributes-CleanAll re r) ms

  points_safe :
      (type : MetricType) (dps : List DataPoint) → CleanPoints type (process_by_type re r type dps)
  points_safe empty dps = tt
  points_safe gauge dps =
      map-All CleanPoint _ (λ dp. redact_attributes-CleanAll re r dp.attributes) dps
  points_safe sum dps =
      map-All CleanPoint _ (λ dp. redact_attributes-CleanAll re r dp.attributes) dps
  points_safe histogram dps =
      map-All CleanPoint _ (λ dp. redact_attributes-CleanAll re r dp.attributes) dps
  points_safe summary dps =
      map-All CleanPoint _ (λ dp. redact_attributes-CleanAll re r dp.attributes) dps
  points_safe exponential_histogram dps =
      map-All CleanPoint _ (λ dp. redact_attributes-CleanAll re r dp.attributes) dps

  enabled_safe :
      {A : Type 0} (Q : A → Type 0) (xs : List (Group A))
      → r.config.enabled ≡ true
      → (ys : List (Group A)) → All (CleanGroup Q) xs
      → All (CleanGroup Q) (if r.config.enabled then xs else ys)
  enabled_safe Q xs on ys h = subst (λ b. All (CleanGroup Q) (if b then xs else ys)) (sym on) h

  -- If the processor is enabled, the attributes of resources, scopes, spans, events, links, data points
  -- and log records that it passes on are clean: what is under a key of the allow list may be anything,
  -- all texts and bytes under a denied key are the replacement text, and a text under any other key is
  -- the replacement text or matches no pattern. This says nothing of the attributes of exemplars.
  pub process_telemetry_safe :
      (td : Traces) (md : Metrics) (ld : Logs)
      → r.config.enabled ≡ true
      → All (CleanGroup (CleanGroup CleanSpan)) (process_traces re r td)
        × All (CleanGroup (CleanGroup CleanMetric)) (process_metrics re r md)
        × All (CleanGroup (CleanGroup CleanLog)) (process_logs re r ld)
  unfolding process_traces process_metrics process_logs
  process_telemetry_safe td md ld on = (
    enabled_safe (CleanGroup CleanSpan) _ on td (
        groups_safe CleanSpan (redact_span re r)
          (λ s. (
            redact_attributes-CleanAll re r s.attributes,
            attributes_safe s.events,
            attributes_safe s.links,
          ))
          td),
    enabled_safe (CleanGroup CleanMetric) _ on md
        (groups_safe CleanMetric (redact_metric re r) (λ m. points_safe m.type m.points) md),
    enabled_safe (CleanGroup CleanLog) _ on ld (
        groups_safe CleanLog (redact_log re r) (λ l. redact_attributes-CleanAll re r l.attributes)
          ld),
  )

module _ {R : Type 0} (re : Regexp R) where
  -- One of the patterns does not compile.
  abbrev pub AnyFails : List PatternConfig → Type 0
  AnyFails [] = ⊥
  AnyFails (p ∷ ps) = (re.compile p.regex ≡ none) ⊎ AnyFails ps

  add_patterns-AnyFails :
      (ps : List PatternConfig) (pm : PatternManager R) → add_patterns re ps pm ≡ none → AnyFails ps
  unfolding add_patterns add_pattern
  add_patterns-AnyFails [] pm h = absurd (ground (arith, h))
  add_patterns-AnyFails (p ∷ ps) pm h = elim (Option-cases (re.compile p.regex)) [
    | inl e ↦ inl e
    | inr (c, e) ↦
        inr (add_patterns-AnyFails ps (append_compiled re p.name (some c) pm) (rw e at h))
  ]

  AnyFails-add_patterns :
      (ps : List PatternConfig) (pm : PatternManager R) → AnyFails ps → add_patterns re ps pm ≡ none
  unfolding add_patterns add_pattern
  AnyFails-add_patterns [] pm h = elim h [ ]
  AnyFails-add_patterns (p ∷ ps) pm h = elim (Option-cases (re.compile p.regex)) [
    | inl e ↦ rw e refl
    | inr (c, e) ↦
        rw e (AnyFails-add_patterns ps (append_compiled re p.name (some c) pm) (later c e h))
  ]
    where
      later : (c : R) → re.compile p.regex ≡ some c → AnyFails (p ∷ ps) → AnyFails ps
      later c e (inl q) = absurd (ground (arith, e, q))
      later c e (inr q) = q

  -- A redactor is refused exactly if one of the custom patterns does not compile.
  pub new_redactor_fails : (cfg : Config) → (new_redactor re cfg ≡ none) ↔ AnyFails cfg.patterns
  unfolding new_redactor
  new_redactor_fails cfg = (
    λ h. elim (Option-cases (add_patterns re cfg.patterns (new_pattern_manager re))) [
      | inl e ↦ add_patterns-AnyFails cfg.patterns (new_pattern_manager re) e
      | inr (pm, e) ↦ absurd (ground (arith, e, h))
    ],
    λ h. rw (AnyFails-add_patterns cfg.patterns (new_pattern_manager re) h) refl,
  )
