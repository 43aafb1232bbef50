-- ===== src/Tests/CapTests.antt =====
-- nrcap: the theorems on the plain environment.
use mathlib.Core.List.{lookup, flat_map, Permᴰ}
use nrdot_host.Common.Dict.{or_else, insert, delete}
use nrdot_host.Common.{
  ℕ, ◌+◌, ◌-◌, ◌*◌, ◌≡◌, max, refl, List, [], ◌∷◌, map, take, some, arith, length, All, Str,
  Str-discrete, ℕ_discrete, codes, str_eq, remove_where,
}
use nrdot_host.Cap.Metric.{Metrics, Metric, DataPoint, gauge}
use nrdot_host.Cap.Limiter.Room.{handle_drop_room}
use nrdot_host.Common.Pointwise.{Pointwise}
use nrdot_host.Cap.Limiter.{with_tracker}
use nrdot_host.Cap.Config.{Config, oldest}
use nrdot_host.Cap.Metric.{Attributes, Metrics}
use nrdot_host.Cap.Hash.Order.{hash_data_point_labels-perm}
use nrdot_host.Cap.Config.{second, get_metric_limit}
use nrdot_host.Cap.Hash.{
  hash_data_point_labels, label_text, sort_keys, sort_from, sweep, str_lt, write_labels,
}
use nrdot_host.Cap.Tracker.{
  get_cardinality, labels_at, cleanup_old_entries, expire_all, expire, keep_metric, increment_stats,
  track_data_point, touch, track_label_cardinality,
}
use nrdot_host.Cap.Tracker.Oldest.{get_oldest_entries}
use nrdot_host.Cap.Tracker.Consistent.{IsValid}
use nrdot_host.Cap.Tracker.Cleanup.{
  recent, cleanup_old_entries-IsValid, labels_at-cleanup_old_entries,
}
use nrdot_host.Cap.Tracker.Sorting.{Sorted, get_oldest_entries_lem}
use nrdot_host.Cap.Limiter.{Limiter, mark_over, judge, filter_loops, remove_marked}
use nrdot_host.Cap.Limiter.Labels.{
  remove_labels, remove_deny_labels_from_metrics, remove_deny_labels_from_metric, track_labels,
  track_all_labels, track_metric_labels, note_points, note_attributes, report_labels,
}
use nrdot_host.Cap.Limiter.Strategies.{
  process_metric, dispatch, handle_drop, filter_by_type, filter_data_points, append_unless_empty,
  get_data_point_count,
}
use nrdot_host.Cap.Limiter.Process.{
  process_metrics, process_resources, process_scopes, process_scope, check_alerts, send_alert,
}
use nrdot_host.Cap.Limiter.Denied.{process_metrics-Allowed}
use nrdot_host.Cap.Limiter.Consistent.{IsSound, process_metrics-IsSound}
use nrdot_host.Cap.Limiter.Allowed.{AllowedResource}
use nrdot_host.Cap.Limiter.Marking.{mark_over_exact, mark_over_accounts, mark_over_resent}
use nrdot_host.Tests.Data.{
  plain, plain_remove-IsRemoveIf, plain-IsRange, cfg, host, two_points, batch, empty_tracker,
  empty_limiter, busy_tracker,
}

abbrev cpu : Str
cpu = codes "cpu"

empty_tracker-IsValid : IsValid empty_tracker
unfolding lookup
empty_tracker-IsValid = record {
  names = tt;
  labels = tt;
  counted = λ name. refl;
  global_counted = refl;
}

busy_tracker-IsValid : IsValid busy_tracker
unfolding lookup Str-discrete ℕ_discrete
busy_tracker-IsValid = record {
  names = (refl, tt);
  labels = ((refl, (refl, tt)), tt);
  counted = λ name. ground arith;
  global_counted = refl;
}

mark_over_exact_example :
    length (mark_over plain cfg cpu 1 0 two_points empty_tracker).0
    ≡ get_cardinality cpu (mark_over plain cfg cpu 1 0 two_points empty_tracker).1
      - max 1 (get_cardinality cpu empty_tracker)
mark_over_exact_example = mark_over_exact plain cfg cpu 1 0 two_points empty_tracker (omega arith)

mark_over_accounts_example :
    ((mark_over plain cfg cpu 1 0 two_points empty_tracker).1.stats.total_metrics ≡ 0 + 2)
    × ((mark_over plain cfg cpu 1 0 two_points empty_tracker).1.stats.dropped_metrics
        ≡ 0 + length (mark_over plain cfg cpu 1 0 two_points empty_tracker).0)
mark_over_accounts_example = mark_over_accounts plain cfg cpu 1 0 two_points empty_tracker

mark_over_resent_example :
    (mark_over plain cfg cpu 1 0 two_points
      (mark_over plain cfg cpu 1 0 two_points empty_tracker).1).0
    ≡ []
mark_over_resent_example = mark_over_resent plain cfg cpu 1 0 0 two_points empty_tracker

cleanup_old_entries-IsValid_example : IsValid (cleanup_old_entries plain busy_tracker)
cleanup_old_entries-IsValid_example =
    cleanup_old_entries-IsValid plain busy_tracker busy_tracker-IsValid

labels_at-cleanup_old_entries_example :
    labels_at cpu (cleanup_old_entries plain busy_tracker)
    ≡ recent (1 + 1000 * second) (300 * second) (labels_at cpu busy_tracker)
labels_at-cleanup_old_entries_example =
    labels_at-cleanup_old_entries plain busy_tracker busy_tracker-IsValid cpu

get_oldest_entries_lem_example :
    (sorted : List (ℕ × ℕ)) × (get_oldest_entries plain busy_tracker.metrics cpu 1
      ≡ map (λ e. e.0) (take 1 sorted))
    × Sorted sorted
    × Permᴰ sorted ((11, 5) ∷ (12, 900 * second) ∷ [])
unfolding lookup Str-discrete ℕ_discrete
get_oldest_entries_lem_example =
    get_oldest_entries_lem plain plain-IsRange busy_tracker.metrics cpu 1
      ((11, 5) ∷ (12, 900 * second) ∷ []) refl

-- What the batch of two points gives. The limit of their metric is one.
abbrev batch_result : Metrics Str × Limiter
batch_result = or_else (process_metrics plain cfg batch empty_limiter) ([], empty_limiter)

batch_runs : process_metrics plain cfg batch empty_limiter ≡ some batch_result
unfolding lookup Str-discrete ℕ_discrete process_metrics process_resources process_scopes
    process_scope process_metric dispatch handle_drop filter_by_type filter_data_points filter_loops
    mark_over judge increment_stats track_data_point touch hash_data_point_labels label_text
    sort_keys sort_from sweep str_lt write_labels remove_marked append_unless_empty
    get_data_point_count remove_deny_labels_from_metrics remove_deny_labels_from_metric
    remove_labels track_labels track_all_labels track_metric_labels note_points note_attributes
    report_labels track_label_cardinality check_alerts cleanup_old_entries expire_all expire
    keep_metric send_alert get_metric_limit insert delete str_eq remove_where flat_map
batch_runs = refl

process_metrics-Allowed_example : All (AllowedResource cfg) batch_result.0
process_metrics-Allowed_example =
    process_metrics-Allowed plain plain_remove-IsRemoveIf plain_remove-IsRemoveIf cfg batch
      batch_result.0 empty_limiter batch_result.1 batch_runs

process_metrics-IsSound_example : IsSound batch_result.1
process_metrics-IsSound_example =
    process_metrics-IsSound plain cfg batch batch_result.0 empty_limiter batch_result.1
      empty_tracker-IsValid batch_runs

-- One of the two points is dropped.
one_dropped : batch_result.1.tracker.stats.dropped_metrics ≡ 1
unfolding lookup Str-discrete ℕ_discrete process_metrics process_resources process_scopes
    process_scope process_metric dispatch handle_drop filter_by_type filter_data_points filter_loops
    mark_over judge increment_stats track_data_point touch hash_data_point_labels label_text
    sort_keys sort_from sweep str_lt write_labels remove_marked append_unless_empty
    get_data_point_count remove_deny_labels_from_metrics remove_deny_labels_from_metric
    remove_labels track_labels track_all_labels track_metric_labels note_points note_attributes
    report_labels track_label_cardinality check_alerts cleanup_old_entries expire_all expire
    keep_metric send_alert get_metric_limit insert delete str_eq remove_where flat_map
one_dropped = refl

abbrev cpu_metric : Metric Str
cpu_metric = record { name = cpu; type = gauge; points = two_points }

abbrev roomy : Limiter
roomy = with_tracker (mark_over plain cfg cpu 5 0 two_points empty_tracker).1 empty_limiter

handle_drop_room_example :
    handle_drop plain cfg cpu_metric [] 5 empty_limiter ≡ some (cpu_metric ∷ [], roomy)
unfolding lookup
handle_drop_room_example =
    handle_drop_room plain cfg cpu_metric [] 5 empty_limiter (λ e. ground (arith, e)) (omega arith)
      (omega arith) (omega arith)

-- What the limit zero leaves of the metric.
abbrev nothing_kept : List (DataPoint Str) × Limiter
nothing_kept =
    or_else (filter_by_type plain cfg cpu_metric two_points 0 empty_limiter gauge)
      (two_points, empty_limiter)

nothing_left :
    filter_by_type plain cfg cpu_metric two_points 0 empty_limiter gauge ≡ some ([], nothing_kept.1)
unfolding lookup Str-discrete ℕ_discrete process_metrics process_resources process_scopes
    process_scope process_metric dispatch handle_drop filter_by_type filter_data_points filter_loops
    mark_over judge increment_stats track_data_point touch hash_data_point_labels label_text
    sort_keys sort_from sweep str_lt write_labels remove_marked append_unless_empty
    get_data_point_count remove_deny_labels_from_metrics remove_deny_labels_from_metric
    remove_labels track_labels track_all_labels track_metric_labels note_points note_attributes
    report_labels track_label_cardinality check_alerts cleanup_old_entries expire_all expire
    keep_metric send_alert get_metric_limit insert delete str_eq remove_where flat_map
nothing_left = refl

abbrev oldest_cfg : Config
oldest_cfg = record cfg { strategy = oldest }

-- The attributes of a host in the other order.
abbrev turned : Attributes Str
turned = (codes "secret", codes "x") ∷ (codes "host", codes "a") ∷ []

hash_data_point_labels-perm_example :
    hash_data_point_labels plain cpu (host (codes "a")) ≡ hash_data_point_labels plain cpu turned
unfolding lookup
hash_data_point_labels-perm_example =
    hash_data_point_labels-perm plain cpu (host (codes "a")) turned (Permᴰ.swap refl refl)
      (λ k. ground (arith, k))

-- Two sets of labels that write the same text to the hash.
same_text :
    label_text plain cpu ((codes "a", codes "1|b=2") ∷ [])
    ≡ label_text plain cpu ((codes "a", codes "1") ∷ (codes "b", codes "2") ∷ [])
unfolding label_text sort_keys sort_from sweep str_lt write_labels lookup Str-discrete ℕ_discrete
same_text = refl
