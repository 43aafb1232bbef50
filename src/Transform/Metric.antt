-- ===== src/Transform/Metric.antt =====
-- The telemetry that nrtransform reads and writes, and what it needs of floating-point numbers and of
-- attribute values. `F` is float64 and `V` is pcommon.Value.
use nrdot_host.Common.{ℕ, List, Option, Str, Bool}
use nrdot_host.Common.Int.{ℤ}

-- `ratio p q` is the constant p/q. `to_int` is the conversion to int64.
pub record Numbers (V F : Type 0) : Type 0 where
  pub as_string : V → Str
  pub zero_float : F
  pub one : F
  pub ratio : ℕ → ℕ → F
  pub of_nat : ℕ → F
  pub of_int : ℤ → F
  pub to_int : F → ℤ
  pub add : F → F → F
  pub sub : F → F → F
  pub mul : F → F → F
  pub div : F → F → F
  pub lt : F → F → Bool
  pub le : F → F → Bool

abbrev pub Attributes : Type 0 → Type 0
Attributes V = List (Str × V)

pub data NumberValue (F : Type 0) : Type 0 where
  no_value : NumberValue F
  int : ℤ → NumberValue F
  double : F → NumberValue F

pub record NumberDataPoint (V F : Type 0) : Type 0 where
  pub attributes : Attributes V
  pub timestamp : ℕ
  pub start_timestamp : ℕ
  pub value : NumberValue F

pub record HistogramDataPoint (V F : Type 0) : Type 0 where
  pub attributes : Attributes V
  pub timestamp : ℕ
  pub start_timestamp : ℕ
  pub count : ℕ
  pub sum_value : F
  pub min_value : Option F
  pub max_value : Option F
  pub bucket_counts : List ℕ
  pub explicit_bounds : List F
  pub exemplars : List (NumberValue F)

pub data Temporality : Type 0 where
  unspecified delta cumulative : Temporality

-- `other` is an exponential histogram or a summary.
pub data Body (V F : Type 0) : Type 0 where
  empty : Body V F
  gauge : List (NumberDataPoint V F) → Body V F
  sum : Bool → Temporality → List (NumberDataPoint V F) → Body V F
  histogram : Temporality → List (HistogramDataPoint V F) → Body V F
  other : ℕ → Body V F

pub record Metric (V F : Type 0) : Type 0 where
  pub name : Str
  pub description : Str
  pub unit : Str
  pub body : Body V F
