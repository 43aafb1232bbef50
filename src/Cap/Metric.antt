-- ===== src/Cap/Metric.antt =====
-- The telemetry that nrcap reads and writes: the parts of OpenTelemetry's pdata that it touches.
use nrdot_host.Common.{ℕ, List, [], Str}

-- A map of attributes, in its order. `V` stands for pcommon.Value.
abbrev pub Attributes : Type 0 → Type 0
Attributes V = List (Str × V)

-- What nrcap only copies of a data point is `content`.
pub record DataPoint (V : Type 0) : Type 0 where
  pub attributes : Attributes V
  pub timestamp : ℕ
  pub content : ℕ

-- pmetric.MetricType
pub data MetricType : Type 0 where
  empty gauge sum histogram summary exponential_histogram : MetricType

pub record Metric (V : Type 0) : Type 0 where
  pub name : Str
  pub type : MetricType
  pub points : List (DataPoint V)

pub record ScopeMetrics (V : Type 0) : Type 0 where
  pub scope : ℕ
  pub metrics : List (Metric V)

pub record ResourceMetrics (V : Type 0) : Type 0 where
  pub resource : ℕ
  pub scopes : List (ScopeMetrics V)

abbrev pub Metrics : Type 0 → Type 0
Metrics V = List (ResourceMetrics V)

-- The `switch` on the metric's type: a metric with no data has no points.
abbrev pub points_of : {V : Type 0} → MetricType → List (DataPoint V) → List (DataPoint V)
points_of empty dps = []
points_of _ dps = dps
