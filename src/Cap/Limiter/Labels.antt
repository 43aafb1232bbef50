-- ===== src/Cap/Limiter/Labels.antt =====
-- nrcap/limiter.go: which labels of a data point stay, and how many values each label has had.
use mathlib.Core.List.{lookup, flat_map}
use nrdot_host.Common.Dict.{or_else, insert, delete}
use nrdot_host.Common.{
  List, [], ◌∷◌, map, Bool, true, false, none, some, if◌then◌else◌, length, Str, Str-discrete,
  str_eq,
}
use nrdot_host.Cap.Metric.{
  Attributes, DataPoint, Metric, MetricType, ScopeMetrics, ResourceMetrics, Metrics, empty, gauge,
  sum, histogram, summary, exponential_histogram, points_of,
}
use nrdot_host.Cap.Config.{Config}
use nrdot_host.Cap.Env.{Env}
use nrdot_host.Cap.Tracker.{Tracker, track_label_cardinality}
use nrdot_host.Cap.Limiter.{Limiter}

-- The loop of `isDeniedLabel`.
unfoldable pub is_listed : List Str → Str → Bool
is_listed [] label = false
is_listed (denied ∷ rest) label = if str_eq label denied then true else is_listed rest label

unfoldable pub is_denied_label : Config → Str → Bool
unfolding is_listed
is_denied_label cfg label = is_listed cfg.deny_labels label

-- The values that each label has had so far, as text.
abbrev pub LabelValues : Type 0
LabelValues = List (Str × List (Str × Unit {0}))

-- The loop that hands the numbers to the tracker.
unfoldable pub report_labels : LabelValues → Tracker → Tracker
report_labels [] t = t
report_labels ((label, values) ∷ rest) t =
    report_labels rest (track_label_cardinality label (length values) t)

module _ {V : Type 0} where
  -- The three loops over all metrics.
  abbrev pub all_metrics : Metrics V → List (Metric V)
  all_metrics =
      flat_map
        (λ (rm : ResourceMetrics V). flat_map (λ (sm : ScopeMetrics V). sm.metrics) rm.scopes)

  -- A change of the attributes of every data point. A metric with no data has none.
  abbrev pub map_points : (Attributes V → Attributes V) → List (DataPoint V) → List (DataPoint V)
  map_points f = map (λ (dp : DataPoint V). record dp { attributes = f dp.attributes })

  abbrev pub map_attributes : (Attributes V → Attributes V) → MetricType → Metric V → Metric V
  map_attributes f empty metric = metric
  map_attributes f _ metric = record metric { points = map_points f metric.points }

  -- `removeDenyLabelsFromAttributes`: the loop over the deny list. A pcommon.Map has a key once. Its
  -- Remove puts the last entry in the place of the removed one; here the order is kept, which only the
  -- order of new keys in the tracker's maps depends on.
  unfoldable pub remove_labels : List Str → Attributes V → Attributes V
  remove_labels [] attrs = attrs
  remove_labels (label ∷ labels) attrs = remove_labels labels (delete Str-discrete label attrs)

  unfoldable pub remove_deny_labels_from_metric : Config → Metric V → Metric V
  unfolding remove_labels
  remove_deny_labels_from_metric cfg metric =
      map_attributes (remove_labels cfg.deny_labels) metric.type metric

  abbrev pub map_metrics : (Metric V → Metric V) → Metrics V → Metrics V
  map_metrics f = map (λ (rm : ResourceMetrics V). record rm {
    scopes = map (λ (sm : ScopeMetrics V). record sm { metrics = map f sm.metrics }) rm.scopes;
  })

  abbrev pub deny_from : List Str → Config → Metrics V → Metrics V
  deny_from [] cfg metrics = metrics
  deny_from (_ ∷ _) cfg metrics = map_metrics (remove_deny_labels_from_metric cfg) metrics

  -- With an empty deny list the method returns at once.
  unfoldable pub remove_deny_labels_from_metrics : Config → Metrics V → Metrics V
  unfolding remove_deny_labels_from_metric
  remove_deny_labels_from_metrics cfg metrics = deny_from cfg.deny_labels cfg metrics

module _ {V : Type 0} (env : Env V) where
  -- The loop over the aggregation labels: a label that the point has is stored as text.
  unfoldable pub keep_labels : List Str → Attributes V → Attributes V → Attributes V
  keep_labels [] attrs new_attrs = new_attrs
  keep_labels (label ∷ labels) attrs new_attrs =
      keep_labels labels attrs (elim (lookup Str-discrete label attrs) [
        | none ↦ new_attrs
        | some val ↦ insert Str-discrete label (env.of_string (env.as_string val)) new_attrs
      ])

  -- The `Range` that copies what is not denied.
  unfoldable pub copy_allowed : Config → Attributes V → Attributes V → Attributes V
  unfolding is_denied_label
  copy_allowed cfg [] new_attrs = new_attrs
  copy_allowed cfg ((k, v) ∷ attrs) new_attrs =
      copy_allowed cfg attrs
        (if is_denied_label cfg k then new_attrs else insert Str-discrete k v new_attrs)

  -- The body of the loop of `removeLabelsFromDataPoints`.
  abbrev pub aggregate_with : List Str → Config → Attributes V → Attributes V
  aggregate_with [] cfg attrs = copy_allowed cfg attrs []
  aggregate_with (l ∷ ls) cfg attrs = keep_labels (l ∷ ls) attrs []

  unfoldable pub aggregate_attributes : Config → Attributes V → Attributes V
  unfolding keep_labels copy_allowed
  aggregate_attributes cfg attrs = aggregate_with cfg.aggregation_labels cfg attrs

  module _ (cfg : Config) (dps : List (DataPoint V)) where
    unfoldable pub remove_labels_from_data_points : List (DataPoint V)
    unfolding aggregate_attributes
    remove_labels_from_data_points = map_points (aggregate_attributes cfg) dps

    unfoldable pub remove_labels_from_histogram_data_points : List (DataPoint V)
    unfolding aggregate_attributes
    remove_labels_from_histogram_data_points = map_points (aggregate_attributes cfg) dps

    unfoldable pub remove_labels_from_summary_data_points : List (DataPoint V)
    unfolding aggregate_attributes
    remove_labels_from_summary_data_points = map_points (aggregate_attributes cfg) dps

    unfoldable pub remove_labels_from_exponential_histogram_data_points : List (DataPoint V)
    unfolding aggregate_attributes
    remove_labels_from_exponential_histogram_data_points = map_points (aggregate_attributes cfg) dps

  -- The `switch` of `removeHighCardinalityLabels`.
  unfoldable pub aggregate_by_type : Config → MetricType → List (DataPoint V) → List (DataPoint V)
  unfolding remove_labels_from_data_points remove_labels_from_histogram_data_points
      remove_labels_from_summary_data_points remove_labels_from_exponential_histogram_data_points
  aggregate_by_type cfg gauge dps = remove_labels_from_data_points cfg dps
  aggregate_by_type cfg sum dps = remove_labels_from_data_points cfg dps
  aggregate_by_type cfg histogram dps = remove_labels_from_histogram_data_points cfg dps
  aggregate_by_type cfg summary dps = remove_labels_from_summary_data_points cfg dps
  aggregate_by_type cfg exponential_histogram dps =
      remove_labels_from_exponential_histogram_data_points cfg dps
  aggregate_by_type cfg empty dps = dps

  unfoldable pub remove_high_cardinality_labels : Config → Metric V → Metric V
  unfolding aggregate_by_type
  remove_high_cardinality_labels cfg metric = record metric {
    points = aggregate_by_type cfg metric.type metric.points;
  }

  unfoldable pub note_attributes : Attributes V → LabelValues → LabelValues
  note_attributes [] seen = seen
  note_attributes ((k, v) ∷ attrs) seen = note_attributes attrs (
      insert Str-discrete k
        (insert Str-discrete (env.as_string v) tt (or_else (lookup Str-discrete k seen) [])) seen)

  unfoldable pub note_points : List (DataPoint V) → LabelValues → LabelValues
  unfolding note_attributes
  note_points [] seen = seen
  note_points (dp ∷ dps) seen = note_points dps (note_attributes dp.attributes seen)

  unfoldable pub track_metric_labels : Metric V → LabelValues → LabelValues
  unfolding note_points
  track_metric_labels metric seen = note_points (points_of metric.type metric.points) seen

  unfoldable pub track_all_labels : List (Metric V) → LabelValues → LabelValues
  unfolding track_metric_labels
  track_all_labels [] seen = seen
  track_all_labels (metric ∷ metrics) seen =
      track_all_labels metrics (track_metric_labels metric seen)

  -- `trackLabelCardinality` of the limiter.
  unfoldable pub track_labels : Metrics V → Limiter → Limiter
  unfolding track_all_labels report_labels
  track_labels metrics l =
      let seen = track_all_labels (all_metrics metrics) l.label_cardinality in
      record l { label_cardinality = seen; tracker = report_labels seen l.tracker }
