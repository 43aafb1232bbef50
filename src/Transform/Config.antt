-- ===== src/Transform/Config.antt =====
-- nrtransform/config.go: the transformations and their check.
use nrdot_host.Common.{
  ℕ, suc, List, [], ◌∷◌, Bool, true, false, ◌||◌, Option, none, some, if◌then◌else◌, Str,
}
use nrdot_host.Security.Config.{is_empty}

pub data TransformationType : Type 0 where
  aggregate calculate_rate calculate_delta convert_unit combine rename filter extract_label :
      TransformationType
  unsupported : Str → TransformationType

pub data AggregationType : Type 0 where
  agg_sum agg_avg agg_min agg_max agg_count : AggregationType
  no_aggregation : AggregationType
  invalid_aggregation : Str → AggregationType

pub record TransformationConfig : Type 0 where
  pub type : TransformationType
  pub metric_name : Str
  pub output_metric : Str
  pub aggregation : AggregationType
  pub group_by : List Str
  pub from_unit : Str
  pub to_unit : Str
  pub expression : Str
  pub metrics : List Str
  pub condition : Str
  pub label_key : Str
  pub label_value : Str

pub record Config : Type 0 where
  pub transformations : List TransformationConfig

-- The field that is required, or what is wrong.
pub data ConfigError : Type 0 where
  no_metric_name no_output_metric no_aggregation_type wrong_aggregation no_units no_expression
        no_metrics no_condition no_label_key unsupported_type :
      ConfigError

abbrev pub is_valid_aggregation : AggregationType → Bool
is_valid_aggregation no_aggregation = false
is_valid_aggregation (invalid_aggregation _) = false
is_valid_aggregation _ = true

-- The first that fails.
abbrev require : Bool → ConfigError → Option ConfigError → Option ConfigError
require missing err rest = if missing then some err else rest

abbrev has_no_names : List Str → Bool
has_no_names [] = true
has_no_names (_ ∷ _) = false

abbrev is_missing : AggregationType → Bool
is_missing no_aggregation = true
is_missing _ = false

abbrev negate : Bool → Bool
negate true = false
negate false = true

abbrev names_required : TransformationConfig → Option ConfigError → Option ConfigError
names_required t rest =
    require (is_empty t.metric_name) no_metric_name
      (require (is_empty t.output_metric) no_output_metric rest)

abbrev by_type : TransformationType → TransformationConfig → Option ConfigError
by_type aggregate t = names_required t (
    require (is_missing t.aggregation) no_aggregation_type
      (require (negate (is_valid_aggregation t.aggregation)) wrong_aggregation none))
by_type calculate_rate t = names_required t none
by_type calculate_delta t = names_required t none
by_type convert_unit t =
    names_required t (require (is_empty t.from_unit || is_empty t.to_unit) no_units none)
by_type combine t = require (is_empty t.expression) no_expression (
    require (is_empty t.output_metric) no_output_metric
      (require (has_no_names t.metrics) no_metrics none))
by_type rename t = names_required t none
by_type filter t = require (is_empty t.condition) no_condition none
by_type extract_label t = require (is_empty t.metric_name) no_metric_name (
    require (is_empty t.label_key) no_label_key
      (require (is_empty t.output_metric) no_output_metric none))
by_type (unsupported _) t = some unsupported_type

unfoldable pub validate_transformation : TransformationConfig → Option ConfigError
validate_transformation t = by_type t.type t

abbrev at_index : ℕ → Option ConfigError → Option (ℕ × ConfigError) → Option (ℕ × ConfigError)
at_index i none rest = rest
at_index i (some err) rest = some (i, err)

unfoldable pub validate_all : ℕ → List TransformationConfig → Option (ℕ × ConfigError)
unfolding validate_transformation
validate_all i [] = none
validate_all i (t ∷ ts) = at_index i (validate_transformation t) (validate_all (suc i) ts)

-- `none` in `some` stands for no transformation at all.
unfoldable pub validate : Config → Option (Option (ℕ × ConfigError))
unfolding validate_all
validate cfg = elim cfg.transformations [
  | [] ↦ some none
  | t ∷ ts ↦ elim (validate_all 0 (t ∷ ts)) [ none ↦ none | some err ↦ some (some err) ]
]
