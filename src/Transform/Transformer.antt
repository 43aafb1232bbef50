-- ===== src/Transform/Transformer.antt =====
-- nrtransform/transformer.go: the transformations of the metrics of a scope. The expression language
-- (github.com/expr-lang/expr) is a parameter.
use nrdot_host.Common.{
  ℕ, List, [], ◌∷◌, ◌++◌, map, Bool, true, false, ◌==◌, Option, none, some, ◌>>=◌, if◌then◌else◌,
  ltb, Str, Str-discrete, str_eq, codes,
}
use nrdot_host.Common.Dict.{insert}
use mathlib.Core.List.{lookup}
use nrdot_host.Security.Config.{is_empty}
use nrdot_host.Transform.Metric.{
  Numbers, Attributes, double, NumberDataPoint, Body, empty, gauge, sum, histogram, other, Metric,
}
use nrdot_host.Transform.Config.{
  TransformationConfig, TransformationType, calculate_rate, calculate_delta, convert_unit, combine,
  rename, filter, extract_label, unsupported, Config,
}
use nrdot_host.Transform.Config as C
use nrdot_host.Transform.Calculator as Calc
use nrdot_host.Transform.Calculator.{StateStore, double_value}
use nrdot_host.Transform.Aggregation as Agg

-- `none` of `run` is an error, `some none` a result that is not a number, or not a Boolean.
pub record Expressions (P F : Type 0) : Type 0 where
  pub compile : Str → Option P
  pub run : P → List (Str × F) → Option (Option F)
  pub test : P → Str → Str → Str → Option (Option Bool)

pub record DataPointGroup (V F : Type 0) : Type 0 where
  pub attributes : Attributes V
  pub values : List (Str × F)
  pub timestamp : ℕ

abbrev pub MetricMap : Type 0 → Type 0 → Type 0
MetricMap V F = List (Str × Metric V F)

abbrev replace_byte : ℕ → ℕ
replace_byte c = if c == b'.' then b'_' else (if c == b'-' then b'_' else c)

abbrev pub var_name : Str → Str
var_name = map replace_byte

-- `strings.Join`, the order of strings, and `sort.Strings`.
abbrev pub join : Str → List Str → Str
join sep [] = []
join sep (s ∷ []) = s
join sep (s ∷ next ∷ rest) = s ++ sep ++ join sep (next ∷ rest)

unfoldable pub str_leb : Str → Str → Bool
str_leb [] t = true
str_leb (c ∷ s) [] = false
str_leb (c ∷ s) (d ∷ t) = let r = str_leb s t in if c == d then r else ltb c d

unfoldable pub insert_string : Str → List Str → List Str
unfolding str_leb
insert_string s [] = s ∷ []
insert_string s (t ∷ ts) = let r = insert_string s ts in if str_leb s t then s ∷ t ∷ ts else t ∷ r

unfoldable pub sort_strings : List Str → List Str
unfolding insert_string
sort_strings [] = []
sort_strings (s ∷ ss) = insert_string s (sort_strings ss)

module _ {V F P : Type 0} (num : Numbers V F) (ex : Expressions P F) where
  -- `attributeKey`
  unfoldable pub attribute_key : Attributes V → Str
  unfolding sort_strings
  attribute_key attrs =
      join (codes ",")
        (sort_strings (map (λ (a : Str × V). a.0 ++ codes "=" ++ num.as_string a.1) attrs))

  abbrev new_group : Option (DataPointGroup V F) → NumberDataPoint V F → DataPointGroup V F
  new_group none dp = record { attributes = dp.attributes; values = []; timestamp = dp.timestamp }
  new_group (some group) dp = group

  abbrev note_value : Str → NumberDataPoint V F → DataPointGroup V F → DataPointGroup V F
  note_value metric_name dp group = record group {
    values = insert Str-discrete (var_name metric_name) (double_value num dp.value) group.values;
    timestamp = if ltb group.timestamp dp.timestamp then dp.timestamp else group.timestamp;
  }

  unfoldable pub note_points :
      Str
      → List (NumberDataPoint V F)
      → List (Str × DataPointGroup V F)
      → List (Str × DataPointGroup V F)
  unfolding attribute_key
  note_points metric_name [] groups = groups
  note_points metric_name (dp ∷ dps) groups =
      let key = attribute_key dp.attributes in
      note_points metric_name dps (
        insert Str-discrete key
          (note_value metric_name dp (new_group (lookup Str-discrete key groups) dp)) groups)

  abbrev gauge_points : Option (Metric V F) → List (NumberDataPoint V F)
  gauge_points none = []
  gauge_points (some m) = elim m.body [ gauge dps ↦ dps | _ ↦ [] ]

  abbrev sum_points : Option (Metric V F) → List (NumberDataPoint V F)
  sum_points none = []
  sum_points (some m) = elim m.body [ sum _ _ dps ↦ dps | _ ↦ [] ]

  -- The loop over the names, for the points of one kind.
  unfoldable pub group_metrics :
      (Option (Metric V F) → List (NumberDataPoint V F))
      → List Str
      → MetricMap V F
      → List (Str × DataPointGroup V F)
      → List (Str × DataPointGroup V F)
  unfolding note_points
  group_metrics points [] metric_map groups = groups
  group_metrics points (name ∷ names) metric_map groups =
      group_metrics points names metric_map
        (note_points name (points (lookup Str-discrete name metric_map)) groups)

  abbrev evaluated : DataPointGroup V F → Option (Option F) → List (NumberDataPoint V F)
  evaluated group (some (some value)) =
      record {
        attributes = group.attributes;
        timestamp = group.timestamp;
        start_timestamp = 0;
        value = double value;
      }
      ∷ []
  evaluated group _ = []

  unfoldable pub evaluate_groups : P → List (Str × DataPointGroup V F) → List (NumberDataPoint V F)
  evaluate_groups program [] = []
  evaluate_groups program ((key, group) ∷ rest) =
      evaluated group (ex.run program group.values) ++ evaluate_groups program rest

  unfoldable pub combine_gauge_metrics : List Str → MetricMap V F → P → List (NumberDataPoint V F)
  unfolding group_metrics evaluate_groups
  combine_gauge_metrics names metric_map program =
      evaluate_groups program (group_metrics gauge_points names metric_map [])

  unfoldable pub combine_sum_metrics : List Str → MetricMap V F → P → List (NumberDataPoint V F)
  unfolding group_metrics evaluate_groups
  combine_sum_metrics names metric_map program =
      evaluate_groups program (group_metrics sum_points names metric_map [])

  -- The first metric, if all are there.
  unfoldable pub base_metric : List Str → MetricMap V F → Option (Metric V F)
  base_metric [] metric_map = none
  base_metric (name ∷ []) metric_map = lookup Str-discrete name metric_map
  base_metric (name ∷ next ∷ names) metric_map =
      let rest = base_metric (next ∷ names) metric_map in
      lookup Str-discrete name metric_map >>= λ m. rest >>= λ _. some m

  abbrev combined : TransformationConfig → Body V F → Metric V F
  combined transform body = record {
    name = transform.output_metric;
    description = codes "Combined metric from: " ++ join (codes ", ") transform.metrics;
    unit = [];
    body = body;
  }

  abbrev combine_program :
      TransformationConfig → MetricMap V F → Body V F → Option P → Option (List (Metric V F))
  combine_program transform metric_map base none = none
  combine_program transform metric_map (gauge _) (some program) =
      some (
        combined transform (gauge (combine_gauge_metrics transform.metrics metric_map program))
        ∷ [])
  combine_program transform metric_map (sum _ temporality _) (some program) = some (
      combined transform
        (sum false temporality (combine_sum_metrics transform.metrics metric_map program))
      ∷ [])
  combine_program transform metric_map _ (some program) = none

  abbrev combine_base :
      TransformationConfig
      → MetricMap V F
      → Option P
      → Option (Metric V F)
      → Option (List (Metric V F))
  combine_base transform metric_map program none = some []
  combine_base transform metric_map program (some base) =
      combine_program transform metric_map base.body program

  -- `none` is an error; no metric stands for one without a type.
  unfoldable pub combine_metrics :
      TransformationConfig → MetricMap V F → Option P → Option (List (Metric V F))
  unfolding combine_gauge_metrics combine_sum_metrics base_metric
  combine_metrics transform metric_map program =
      combine_base transform metric_map program (base_metric transform.metrics metric_map)

  abbrev pub type_name : Body V F → Str
  type_name empty = codes "Empty"
  type_name (gauge _) = codes "Gauge"
  type_name (sum _ _ _) = codes "Sum"
  type_name (histogram _ _) = codes "Histogram"
  type_name (other n) = if n == 0 then codes "ExponentialHistogram" else codes "Summary"

  abbrev name_unless_kept : Str → Option (Option Bool) → List Str → List Str
  name_unless_kept name (some (some false)) rest = name ∷ rest
  name_unless_kept name _ rest = rest

  abbrev removed_by : P → List (Metric V F) → List Str
  removed_by program [] = []
  removed_by program (m ∷ ms) =
      name_unless_kept m.name (ex.test program m.name (type_name m.body) m.unit)
        (removed_by program ms)

  unfoldable pub filter_metrics : TransformationConfig → List (Metric V F) → Option (List Str)
  filter_metrics transform metrics =
      ex.compile transform.condition >>= λ program. some (removed_by program metrics)

  abbrev has_value : Str → Option V → Bool
  has_value label_value none = false
  has_value label_value (some v) = str_eq (num.as_string v) label_value

  abbrev is_there : Option V → Bool
  is_there none = false
  is_there (some _) = true

  abbrev extract_point : Str → Str → NumberDataPoint V F → List (NumberDataPoint V F)
  extract_point label_key label_value dp =
      if is_empty label_value
      then (if is_there (lookup Str-discrete label_key dp.attributes)
          then record dp { value = double num.one } ∷ []
          else [])
      else (if has_value label_value (lookup Str-discrete label_key dp.attributes)
          then dp ∷ []
          else [])

  -- `extractLabelFromGauge` and `extractLabelFromSum`
  unfoldable pub extract_label_from :
      Str → Str → List (NumberDataPoint V F) → List (NumberDataPoint V F)
  unfolding str_eq
  extract_label_from label_key label_value [] = []
  extract_label_from label_key label_value (dp ∷ dps) =
      extract_point label_key label_value dp ++ extract_label_from label_key label_value dps

  abbrev extract_body : TransformationConfig → Body V F → Option (Body V F)
  extract_body transform (gauge dps) =
      some (gauge (extract_label_from transform.label_key transform.label_value dps))
  extract_body transform (sum monotonic temporality dps) =
      some (
        sum monotonic temporality
          (extract_label_from transform.label_key transform.label_value dps))
  extract_body transform _ = none

  abbrev extracted : TransformationConfig → Metric V F → Option (Body V F) → List (Metric V F)
  extracted transform metric none = []
  extracted transform metric (some body) =
      record {
        name = transform.output_metric;
        description =
            codes "Label " ++ transform.label_key ++ codes " extracted from " ++ metric.name;
        unit = [];
        body = body;
      }
      ∷ []

  unfoldable pub extract_label_metric : Metric V F → TransformationConfig → List (Metric V F)
  unfolding extract_label_from
  extract_label_metric metric transform =
      extracted transform metric (extract_body transform metric.body)

  -- What a transformation gives: the new metrics and the names to remove, or an error, and the states.
  abbrev pub Outcome : Type 0
  Outcome = Option (List (Metric V F) × List Str) × StateStore F

  abbrev of_metric : Option (Metric V F) × StateStore F → Outcome
  of_metric (none, store) = (none, store)
  of_metric (some m, store) = (some (m ∷ [], []), store)

  abbrev of_metrics : Option (List (Metric V F)) → StateStore F → Outcome
  of_metrics none store = (none, store)
  of_metrics (some ms) store = (some (ms, []), store)

  abbrev of_names : Option (List Str) → StateStore F → Outcome
  of_names none store = (none, store)
  of_names (some names) store = (some ([], names), store)

  -- A metric that is not there is no error.
  abbrev with_metric : Option (Metric V F) → StateStore F → (Metric V F → Outcome) → Outcome
  with_metric none store f = (some ([], []), store)
  with_metric (some m) store f = f m

  unfoldable pub rename_metrics :
      TransformationConfig → List (Metric V F) → List (Metric V F) × List Str
  rename_metrics transform [] = ([], [])
  rename_metrics transform (m ∷ ms) =
      let rest = rename_metrics transform ms in
      if str_eq m.name transform.metric_name
      then (record m { name = transform.output_metric } ∷ rest.0, transform.metric_name ∷ rest.1)
      else rest

  abbrev by_type :
      TransformationType
      → TransformationConfig
      → List (Metric V F)
      → MetricMap V F
      → Option P
      → StateStore F
      → Outcome
  by_type C.aggregate transform metrics metric_map program store =
      with_metric (lookup Str-discrete transform.metric_name metric_map) store (λ m. of_metric (
        Agg.aggregate num m transform.aggregation transform.group_by transform.output_metric,
        store,
      ))
  by_type calculate_rate transform metrics metric_map program store =
      with_metric (lookup Str-discrete transform.metric_name metric_map) store
        (λ m. of_metric (Calc.calculate_rate num m transform.output_metric store))
  by_type calculate_delta transform metrics metric_map program store =
      with_metric (lookup Str-discrete transform.metric_name metric_map) store
        (λ m. of_metric (Calc.calculate_delta num m transform.output_metric store))
  by_type convert_unit transform metrics metric_map program store =
      with_metric (lookup Str-discrete transform.metric_name metric_map) store (λ m. of_metric (
        Calc.convert_unit num m transform.from_unit transform.to_unit transform.output_metric,
        store,
      ))
  by_type combine transform metrics metric_map program store =
      of_metrics (combine_metrics transform metric_map program) store
  by_type rename transform metrics metric_map program store =
      (some (rename_metrics transform metrics), store)
  by_type filter transform metrics metric_map program store =
      of_names (filter_metrics transform metrics) store
  by_type extract_label transform metrics metric_map program store =
      with_metric (lookup Str-discrete transform.metric_name metric_map) store
        (λ m. of_metrics (some (extract_label_metric m transform)) store)
  by_type (unsupported _) transform metrics metric_map program store = (some ([], []), store)

  unfoldable pub apply_transformation :
      TransformationConfig → List (Metric V F) → MetricMap V F → Option P → StateStore F → Outcome
  unfolding combine_metrics rename_metrics filter_metrics extract_label_metric
  apply_transformation transform metrics metric_map program store =
      by_type transform.type transform metrics metric_map program store
