-- ===== src/Tests/TransformTests.antt =====
-- The transformations at concrete inputs.
use nrdot_host.Common.{
  ℕ, ◌+◌, ◌-◌, ◌*◌, ◌/◌, ◌≤◌, ◌≡◌, refl, ltb, leb, List, [], ◌∷◌, length, true, false, none, some,
  Str, codes, Str-discrete, ℕ_discrete,
}
use nrdot_host.Common.Int.{pos}
use mathlib.Core.List.{lookup}
use nrdot_host.Transform.Metric.{Numbers, NumberDataPoint, double, sum, cumulative, Metric}
use nrdot_host.Transform.Config.{TransformationConfig, filter, no_aggregation}
use nrdot_host.Transform.Calculator.{generate_data_point_key, calculate_delta}
use nrdot_host.Transform.Transformer.{Expressions}
use nrdot_host.Transform.Scope.{Transformer, transform_scope}
use nrdot_host.Transform.States.{sum_points, delta_point, calculate_delta_shared}
use nrdot_host.Transform.Slots.{length-transform_scope}

-- Natural numbers in the place of floating-point numbers.
abbrev numbers : Numbers Str ℕ
numbers = record {
  as_string = λ v. v;
  zero_float = 0;
  one = 1;
  ratio = λ p q. p / q;
  of_nat = λ n. n;
  of_int = λ i. elim i [ pos n ↦ n | _ ↦ 0 ];
  to_int = pos;
  add = λ a b. a + b;
  sub = λ a b. a - b;
  mul = λ a b. a * b;
  div = λ a b. a / b;
  lt = ltb;
  le = leb;
}

abbrev point : Str → ℕ → ℕ → NumberDataPoint Str ℕ
point host timestamp value = record {
  attributes = (codes "host", host) ∷ [];
  timestamp = timestamp;
  start_timestamp = 0;
  value = double value;
}

abbrev counter : Str → List (NumberDataPoint Str ℕ) → Metric Str ℕ
counter name dps = record {
  name = name;
  description = [];
  unit = codes "1";
  body = sum true cumulative dps;
}

-- The second metric has nothing to do with the first.
calculate_delta_shared_example :
    (others : List (NumberDataPoint Str ℕ)) × (sum_points numbers
        (calculate_delta numbers
          (counter (codes "out") (point (codes "a") 20 70 ∷ []))
          (codes "d2")
          (calculate_delta numbers
            (counter (codes "in") (point (codes "a") 10 50 ∷ []))
            (codes "d1")
            []).1).0
      ≡ delta_point numbers (point (codes "a") 20 70) (record { value = 50; timestamp = 10 })
        ∷ others)
unfolding generate_data_point_key lookup Str-discrete ℕ_discrete
calculate_delta_shared_example =
    calculate_delta_shared numbers (counter (codes "in") (point (codes "a") 10 50 ∷ []))
      (counter (codes "out") (point (codes "a") 20 70 ∷ [])) cumulative cumulative
      (point (codes "a") 10 50 ∷ []) [] (point (codes "a") 20 70)
      (record { value = 50; timestamp = 10 }) (codes "d1") (codes "d2") [] refl refl refl

abbrev points : List (NumberDataPoint Str ℕ)
points = point (codes "a") 1 5 ∷ point (codes "b") 2 6 ∷ point (codes "a") 3 7 ∷ []

abbrev by_host : List Str
by_host = codes "host" ∷ []

-- A condition that no metric meets.
abbrev expressions : Expressions Str ℕ
expressions = record {
  compile = λ text. some text;
  run = λ program values. none;
  test = λ program name type unit. some (some false);
}

abbrev drop_all : TransformationConfig
drop_all = record {
  type = filter;
  metric_name = [];
  output_metric = [];
  aggregation = no_aggregation;
  group_by = [];
  from_unit = [];
  to_unit = [];
  expression = [];
  metrics = [];
  condition = codes "false";
  label_key = [];
  label_value = [];
}

abbrev transformer : Transformer ℕ Str
transformer = record {
  config = record { transformations = drop_all ∷ [] };
  state_store = [];
  programs = [];
}

length-transform_scope_example :
    length (counter (codes "in") points ∷ [])
    ≤ length (transform_scope numbers expressions transformer (counter (codes "in") points ∷ [])).0
length-transform_scope_example =
    length-transform_scope numbers expressions transformer (counter (codes "in") points ∷ [])
