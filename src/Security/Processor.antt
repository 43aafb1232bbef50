-- ===== src/Security/Processor.antt =====
-- nrsecurity/processor.go: the attributes of traces, metrics and logs. Of the telemetry only what is
-- redacted, or decides what is, stands in the types; the rest is `content`.
use nrdot_host.Common.{ℕ, List, map, if◌then◌else◌}
use nrdot_host.Cap.Metric.{MetricType, empty, gauge, sum, histogram, summary, exponential_histogram}
use nrdot_host.Security.Value.{Value, Attributes, str}
use nrdot_host.Security.Patterns.{Regexp}
use nrdot_host.Security.Redactor.{Redactor, redact_attributes, redact_string}

pub record Span : Type 0 where
  pub content : ℕ
  pub attributes : Attributes
  pub events : List Attributes
  pub links : List Attributes

-- `exemplars` has the filtered attributes of each exemplar, which nothing redacts.
pub record DataPoint : Type 0 where
  pub content : ℕ
  pub attributes : Attributes
  pub exemplars : List Attributes

pub record Metric : Type 0 where
  pub type : MetricType
  pub points : List DataPoint

pub record LogRecord : Type 0 where
  pub content : ℕ
  pub attributes : Attributes
  pub body : Value

-- A scope or a resource, with its attributes and what belongs to it.
pub record Group (A : Type 0) : Type 0 where
  pub attributes : Attributes
  pub members : List A

abbrev pub Traces : Type 0
Traces = List (Group (Group Span))

abbrev pub Metrics : Type 0
Metrics = List (Group (Group Metric))

abbrev pub Logs : Type 0
Logs = List (Group (Group LogRecord))

module _ {R : Type 0} (re : Regexp R) (r : Redactor R) where
  abbrev pub redact_map : Attributes → Attributes
  redact_map m = redact_attributes re r m

  -- The loops over the resources and their scopes.
  abbrev pub redact_group : {A : Type 0} → (A → A) → Group A → Group A
  redact_group f g = record { attributes = redact_map g.attributes; members = map f g.members }

  abbrev pub redact_all_groups :
      {A : Type 0} → (A → A) → List (Group (Group A)) → List (Group (Group A))
  redact_all_groups f = map (redact_group (redact_group f))

  abbrev pub redact_span : Span → Span
  redact_span s = record s {
    attributes = redact_map s.attributes;
    events = map redact_map s.events;
    links = map redact_map s.links;
  }

  unfoldable pub process_traces : Traces → Traces
  process_traces td = if r.config.enabled then redact_all_groups redact_span td else td

  abbrev redact_points : List DataPoint → List DataPoint
  redact_points = map (λ (dp : DataPoint). record dp { attributes = redact_map dp.attributes })

  abbrev pub process_gauge_data_points : List DataPoint → List DataPoint
  process_gauge_data_points = redact_points

  abbrev pub process_number_data_points : List DataPoint → List DataPoint
  process_number_data_points = redact_points

  abbrev pub process_histogram_data_points : List DataPoint → List DataPoint
  process_histogram_data_points = redact_points

  abbrev pub process_exponential_histogram_data_points : List DataPoint → List DataPoint
  process_exponential_histogram_data_points = redact_points

  abbrev pub process_summary_data_points : List DataPoint → List DataPoint
  process_summary_data_points = redact_points

  abbrev pub process_by_type : MetricType → List DataPoint → List DataPoint
  process_by_type gauge dps = process_gauge_data_points dps
  process_by_type sum dps = process_number_data_points dps
  process_by_type histogram dps = process_histogram_data_points dps
  process_by_type exponential_histogram dps = process_exponential_histogram_data_points dps
  process_by_type summary dps = process_summary_data_points dps
  process_by_type empty dps = dps

  abbrev pub redact_metric : Metric → Metric
  redact_metric m = record m { points = process_by_type m.type m.points }

  unfoldable pub process_metrics : Metrics → Metrics
  process_metrics md = if r.config.enabled then redact_all_groups redact_metric md else md

  -- Only a body that is a string is changed.
  abbrev pub redact_body : Value → Value
  redact_body (str s) = str (redact_string re r s)
  redact_body v = v

  abbrev pub redact_log : LogRecord → LogRecord
  redact_log l = record l { attributes = redact_map l.attributes; body = redact_body l.body }

  unfoldable pub process_logs : Logs → Logs
  process_logs ld = if r.config.enabled then redact_all_groups redact_log ld else ld
