-- ===== src/Transform/Aggregation.antt =====
-- nrtransform/calculator.go: the aggregation of data points in groups. The map of the groups is in the
-- order of its range.
use nrdot_host.Common.{
  ℕ, List, [], ◌∷◌, ◌++◌, map, length, Option, none, some, if◌then◌else◌, ltb, Str, Str-discrete,
  codes,
}
use nrdot_host.Common.Dict.{insert}
use mathlib.Core.List.{lookup}
use nrdot_host.Transform.Metric.{
  Numbers, Attributes, NumberDataPoint, double, Body, gauge, sum, Metric,
}
use nrdot_host.Transform.Config.{
  AggregationType, agg_sum, agg_avg, agg_min, agg_max, agg_count, no_aggregation,
  invalid_aggregation,
}
use nrdot_host.Transform.Calculator.{double_value}

pub record AggregationGroup (V F : Type 0) : Type 0 where
  pub attributes : Attributes V
  pub values : List F
  pub timestamp : ℕ

abbrev pub Groups : Type 0 → Type 0 → Type 0
Groups V F = List (Str × AggregationGroup V F)

module _ {V F : Type 0} (num : Numbers V F) where
  abbrev key_part : Str → Option V → Str
  key_part attr none = []
  key_part attr (some v) = attr ++ codes "=" ++ num.as_string v ++ codes ","

  abbrev pub group_key_of : Attributes V → List Str → Str
  group_key_of attrs [] = []
  group_key_of attrs (attr ∷ rest) =
      key_part attr (lookup Str-discrete attr attrs) ++ group_key_of attrs rest

  unfoldable pub generate_group_key : Attributes V → List Str → Str
  generate_group_key attrs [] = codes "all"
  generate_group_key attrs (attr ∷ rest) = group_key_of attrs (attr ∷ rest)

  abbrev put_found : Str → Option V → Attributes V → Attributes V
  put_found attr none new_attrs = new_attrs
  put_found attr (some v) new_attrs = insert Str-discrete attr v new_attrs

  abbrev filter_from : Attributes V → List Str → Attributes V → Attributes V
  filter_from attrs [] new_attrs = new_attrs
  filter_from attrs (attr ∷ rest) new_attrs =
      filter_from attrs rest (put_found attr (lookup Str-discrete attr attrs) new_attrs)

  unfoldable pub filter_attributes : Attributes V → List Str → Attributes V
  filter_attributes attrs keep_attrs = filter_from attrs keep_attrs []

  abbrev new_group : NumberDataPoint V F → List Str → AggregationGroup V F
  new_group dp group_by = record {
    attributes = filter_attributes dp.attributes group_by;
    values = [];
    timestamp = dp.timestamp;
  }

  abbrev pub or_new :
      Option (AggregationGroup V F) → NumberDataPoint V F → List Str → AggregationGroup V F
  or_new none dp group_by = new_group dp group_by
  or_new (some group) dp group_by = group

  abbrev pub add_value : NumberDataPoint V F → AggregationGroup V F → AggregationGroup V F
  add_value dp group = record group {
    values = group.values ++ (double_value num dp.value ∷ []);
    timestamp = if ltb group.timestamp dp.timestamp then dp.timestamp else group.timestamp;
  }

  unfoldable pub group_point : List Str → NumberDataPoint V F → Groups V F → Groups V F
  group_point group_by dp groups =
      let key = generate_group_key dp.attributes group_by in
      insert Str-discrete key (add_value dp (or_new (lookup Str-discrete key groups) dp group_by))
        groups

  unfoldable pub group_points : List Str → List (NumberDataPoint V F) → Groups V F → Groups V F
  unfolding group_point
  group_points group_by [] groups = groups
  group_points group_by (dp ∷ dps) groups =
      group_points group_by dps (group_point group_by dp groups)

  abbrev fold : (F → F → F) → F → List F → F
  fold f acc [] = acc
  fold f acc (v ∷ vs) = fold f (f acc v) vs

  abbrev smallest : F → F → F
  smallest acc v = if num.lt v acc then v else acc

  abbrev largest : F → F → F
  largest acc v = if num.lt acc v then v else acc

  unfoldable pub calculate_aggregation_value : List F → AggregationType → F
  calculate_aggregation_value [] agg = num.zero_float
  calculate_aggregation_value (v ∷ vs) agg_sum = fold num.add num.zero_float (v ∷ vs)
  calculate_aggregation_value (v ∷ vs) agg_avg =
      num.div (fold num.add num.zero_float (v ∷ vs)) (num.of_nat (length (v ∷ vs)))
  calculate_aggregation_value (v ∷ vs) agg_min = fold smallest v vs
  calculate_aggregation_value (v ∷ vs) agg_max = fold largest v vs
  calculate_aggregation_value (v ∷ vs) agg_count = num.of_nat (length (v ∷ vs))
  calculate_aggregation_value (v ∷ vs) no_aggregation = num.zero_float
  calculate_aggregation_value (v ∷ vs) (invalid_aggregation _) = num.zero_float

  abbrev pub point_of_group : AggregationType → AggregationGroup V F → NumberDataPoint V F
  point_of_group agg group = record {
    attributes = group.attributes;
    timestamp = group.timestamp;
    start_timestamp = 0;
    value = double (calculate_aggregation_value group.values agg);
  }

  -- `aggregateGauge` and `aggregateSum`
  unfoldable pub aggregate_points :
      AggregationType → List Str → List (NumberDataPoint V F) → List (NumberDataPoint V F)
  unfolding group_points
  aggregate_points agg group_by dps =
      map (λ (e : Str × AggregationGroup V F). point_of_group agg e.1)
        (group_points group_by dps [])

  abbrev pub aggregation_name : AggregationType → Str
  aggregation_name agg_sum = codes "sum"
  aggregation_name agg_avg = codes "avg"
  aggregation_name agg_min = codes "min"
  aggregation_name agg_max = codes "max"
  aggregation_name agg_count = codes "count"
  aggregation_name no_aggregation = []
  aggregation_name (invalid_aggregation s) = s

  abbrev aggregate_body : AggregationType → List Str → Body V F → Option (Body V F)
  aggregate_body agg group_by (gauge dps) = some (gauge (aggregate_points agg group_by dps))
  aggregate_body agg group_by (sum monotonic temporality dps) =
      some (sum monotonic temporality (aggregate_points agg group_by dps))
  aggregate_body agg group_by _ = none

  abbrev aggregated : Metric V F → AggregationType → Str → Option (Body V F) → Option (Metric V F)
  aggregated metric agg output_name none = none
  aggregated metric agg output_name (some body) = some (record {
    name = output_name;
    description = aggregation_name agg ++ codes " of " ++ metric.description;
    unit = metric.unit;
    body = body;
  })

  unfoldable pub aggregate : Metric V F → AggregationType → List Str → Str → Option (Metric V F)
  unfolding aggregate_points
  aggregate metric agg group_by output_name =
      aggregated metric agg output_name (aggregate_body agg group_by metric.body)
