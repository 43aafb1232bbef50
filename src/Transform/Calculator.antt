-- ===== src/Transform/Calculator.antt =====
-- nrtransform/calculator.go: rates, deltas and units. The state store is passed on; its lock is held for
-- each call.
use nrdot_host.Common.{
  ℕ, ◌+◌, ◌-◌, ◌%◌, ◌^◌, List, [], ◌∷◌, ◌++◌, map, true, false, Option, none, some, ◌>>=◌,
  if◌then◌else◌, Str, Str-discrete, codes,
}
use nrdot_host.Common.Dict.{insert}
use mathlib.Core.List.{lookup}
use nrdot_host.Transform.Metric.{
  Numbers, Attributes, NumberValue, no_value, int, double, NumberDataPoint, HistogramDataPoint,
  delta, Body, gauge, sum, histogram, Metric,
}

pub record DataPointState (F : Type 0) : Type 0 where
  pub value : F
  pub timestamp : ℕ

abbrev pub StateStore : Type 0 → Type 0
StateStore F = List (Str × DataPointState F)

module _ {V F : Type 0} (num : Numbers V F) where
  -- `DoubleValue` of a data point that has an integer is 0.
  abbrev pub double_value : NumberValue F → F
  double_value no_value = num.zero_float
  double_value (int _) = num.zero_float
  double_value (double f) = f

  unfoldable pub generate_data_point_key : Attributes V → Str
  generate_data_point_key [] = []
  generate_data_point_key ((k, v) ∷ rest) =
      k ++ codes "=" ++ num.as_string v ++ codes "," ++ generate_data_point_key rest

  abbrev pub get : Str → StateStore F → Option (DataPointState F)
  get key store = lookup Str-discrete key store

  abbrev pub state_of : NumberDataPoint V F → DataPointState F
  state_of dp = record { value = double_value dp.value; timestamp = dp.timestamp }

  abbrev pub set : NumberDataPoint V F → StateStore F → StateStore F
  set dp store = insert Str-discrete (generate_data_point_key dp.attributes) (state_of dp) store

  -- The difference of the timestamps is taken on 64 bits.
  abbrev pub time_diff : NumberDataPoint V F → DataPointState F → F
  time_diff dp prev =
      num.div (num.of_nat ((dp.timestamp + 2 ^ 64 - prev.timestamp) % 2 ^ 64))
        (num.of_nat 1000000000)

  abbrev pub value_diff : NumberDataPoint V F → DataPointState F → F
  value_diff dp prev = num.sub (double_value dp.value) prev.value

  abbrev rate_from :
      NumberDataPoint V F
      → Option (DataPointState F)
      → StateStore F
      → List (NumberDataPoint V F) × StateStore F
  rate_from dp none store = ([], set dp store)
  rate_from dp (some prev) store =
      if num.le (time_diff dp prev) num.zero_float
      then ([], store)
      else (if num.lt (value_diff dp prev) num.zero_float then ([], set dp store) else (
        record {
          attributes = dp.attributes;
          timestamp = dp.timestamp;
          start_timestamp = 0;
          value = double (num.div (value_diff dp prev) (time_diff dp prev));
        }
            ∷ [],
        set dp store,
      ))

  unfoldable pub calculate_sum_rate :
      List (NumberDataPoint V F) → StateStore F → List (NumberDataPoint V F) × StateStore F
  calculate_sum_rate [] store = ([], store)
  calculate_sum_rate (dp ∷ dps) store =
      let first = rate_from dp (get (generate_data_point_key dp.attributes) store) store in
      let rest = calculate_sum_rate dps first.1 in (first.0 ++ rest.0, rest.1)

  abbrev pub delta_value : NumberDataPoint V F → DataPointState F → F
  delta_value dp prev =
      if num.lt (value_diff dp prev) num.zero_float
      then double_value dp.value
      else value_diff dp prev

  abbrev pub delta_from :
      NumberDataPoint V F
      → Option (DataPointState F)
      → StateStore F
      → List (NumberDataPoint V F) × StateStore F
  delta_from dp none store = ([], set dp store)
  delta_from dp (some prev) store = (
    record {
      attributes = dp.attributes;
      timestamp = dp.timestamp;
      start_timestamp = prev.timestamp;
      value = double (delta_value dp prev);
    }
        ∷ [],
    set dp store,
  )

  unfoldable pub calculate_sum_delta :
      List (NumberDataPoint V F) → StateStore F → List (NumberDataPoint V F) × StateStore F
  calculate_sum_delta [] store = ([], store)
  calculate_sum_delta (dp ∷ dps) store =
      let first = delta_from dp (get (generate_data_point_key dp.attributes) store) store in
      let rest = calculate_sum_delta dps first.1 in (first.0 ++ rest.0, rest.1)

  abbrev rate_metric :
      Metric V F → Str → Body V F → StateStore F → Option (Metric V F) × StateStore F
  rate_metric metric output_name (sum true temporality dps) store =
      let points = calculate_sum_rate dps store in
      (
        some (record {
          name = output_name;
          description = codes "Rate of " ++ metric.description;
          unit = metric.unit ++ codes "/s";
          body = gauge points.0;
        }),
        points.1,
      )
  rate_metric metric output_name _ store = (none, store)

  -- `none` is an error.
  unfoldable pub calculate_rate :
      Metric V F → Str → StateStore F → Option (Metric V F) × StateStore F
  unfolding calculate_sum_rate
  calculate_rate metric output_name store = rate_metric metric output_name metric.body store

  abbrev pub delta_metric :
      Metric V F → Str → Body V F → StateStore F → Option (Metric V F) × StateStore F
  delta_metric metric output_name (sum true temporality dps) store =
      let points = calculate_sum_delta dps store in
      (
        some (record {
          name = output_name;
          description = codes "Delta of " ++ metric.description;
          unit = metric.unit;
          body = sum false delta points.0;
        }),
        points.1,
      )
  delta_metric metric output_name _ store = (none, store)

  unfoldable pub calculate_delta :
      Metric V F → Str → StateStore F → Option (Metric V F) × StateStore F
  unfolding calculate_sum_delta
  calculate_delta metric output_name store = delta_metric metric output_name metric.body store

  abbrev pub conversions : List (Str × List (Str × F))
  conversions =
      (
        codes "bytes",
        (codes "kilobytes", num.ratio 1 1024)
            ∷ (codes "megabytes", num.ratio 1 1048576)
            ∷ (codes "gigabytes", num.ratio 1 1073741824)
            ∷ (codes "kb", num.ratio 1 1024)
            ∷ (codes "mb", num.ratio 1 1048576)
            ∷ (codes "gb", num.ratio 1 1073741824)
            ∷ [],
      )
      ∷ (
        codes "milliseconds",
        (codes "seconds", num.ratio 1 1000)
            ∷ (codes "minutes", num.ratio 1 60000)
            ∷ (codes "hours", num.ratio 1 3600000)
            ∷ (codes "ms", num.ratio 1 1)
            ∷ (codes "s", num.ratio 1 1000)
            ∷ (codes "m", num.ratio 1 60000)
            ∷ (codes "h", num.ratio 1 3600000)
            ∷ [],
      )
      ∷ (
        codes "seconds",
        (codes "milliseconds", num.ratio 1000 1)
            ∷ (codes "minutes", num.ratio 1 60)
            ∷ (codes "hours", num.ratio 1 3600)
            ∷ (codes "ms", num.ratio 1000 1)
            ∷ (codes "m", num.ratio 1 60)
            ∷ (codes "h", num.ratio 1 3600)
            ∷ [],
      )
      ∷ (codes "percent", (codes "ratio", num.ratio 1 100) ∷ [])
      ∷ (codes "ratio", (codes "percent", num.ratio 100 1) ∷ [])
      ∷ []

  abbrev pub find_factor : Str → Str → Option F
  find_factor from_unit to_unit =
      lookup Str-discrete from_unit conversions >>= λ factors. lookup Str-discrete to_unit factors

  abbrev pub forward_or : Option F → Option F → Option F
  forward_or (some factor) reverse = some factor
  forward_or none (some factor) = some (num.div num.one factor)
  forward_or none none = none

  unfoldable pub get_conversion_factor : Str → Str → Option F
  get_conversion_factor from_unit to_unit =
      forward_or (find_factor from_unit to_unit) (find_factor to_unit from_unit)

  abbrev pub convert_points : F → List (NumberDataPoint V F) → List (NumberDataPoint V F)
  convert_points factor = map (λ (dp : NumberDataPoint V F). record dp {
    value = double (num.mul (double_value dp.value) factor);
  })

  abbrev convert_optional : F → Option F → Option F
  convert_optional factor none = none
  convert_optional factor (some f) = some (num.mul f factor)

  abbrev convert_exemplar : F → NumberValue F → NumberValue F
  convert_exemplar factor no_value = no_value
  convert_exemplar factor (int i) = int (num.to_int (num.mul (num.of_int i) factor))
  convert_exemplar factor (double f) = double (num.mul f factor)

  abbrev pub convert_histogram_point : F → HistogramDataPoint V F → HistogramDataPoint V F
  convert_histogram_point factor dp = record dp {
    sum_value = num.mul dp.sum_value factor;
    min_value = convert_optional factor dp.min_value;
    max_value = convert_optional factor dp.max_value;
    explicit_bounds = map (λ b. num.mul b factor) dp.explicit_bounds;
    exemplars = map (convert_exemplar factor) dp.exemplars;
  }

  abbrev convert_body : F → Body V F → Option (Body V F)
  convert_body factor (gauge dps) = some (gauge (convert_points factor dps))
  convert_body factor (sum monotonic temporality dps) =
      some (sum monotonic temporality (convert_points factor dps))
  convert_body factor (histogram temporality dps) =
      some (histogram temporality (map (convert_histogram_point factor) dps))
  convert_body factor _ = none

  unfoldable pub convert_unit : Metric V F → Str → Str → Str → Option (Metric V F)
  unfolding get_conversion_factor
  convert_unit metric from_unit to_unit output_name =
      get_conversion_factor from_unit to_unit >>= λ factor.
      convert_body factor metric.body >>= λ body.
      some (record {
        name = output_name;
        description = metric.description;
        unit = to_unit;
        body = body;
      })
