-- ===== src/Cap/Tracker.antt =====
-- nrcap/tracker.go: how many label combinations each metric has. Every method takes the lock for
-- its whole length (`Track` for each data point), so a call is one step. `time.Now()` is the next
-- reading of the clock, and `ticks` counts the readings.
pub mod Oldest
pub mod Consistent
pub mod Entries
pub mod Cleanup
pub mod Sorting
use mathlib.Core.List.{lookup}
use nrdot_host.Common.Dict.{or_else, insert, delete}
use nrdot_host.Common.{
  ℕ, suc, ◌+◌, ◌-◌, List, [], ◌∷◌, ◌++◌, Bool, true, false, ◌||◌, Option, none, some, ltb, Str,
  Str-discrete, ℕ_discrete,
}
use nrdot_host.Cap.Metric.{Attributes, Metric}
use nrdot_host.Cap.Env.{Env}
use nrdot_host.Cap.Hash.{hash_data_point_labels, get_all_label_hashes}

-- Label hash -> timestamp
abbrev pub Labels : Type 0
Labels = List (ℕ × ℕ)

pub record CardinalityStats : Type 0 where
  pub total_metrics : ℕ
  pub dropped_metrics : ℕ
  pub aggregated_metrics : ℕ
  pub sampled_metrics : ℕ
  pub metric_cardinalities : List (Str × ℕ)
  pub high_cardinality_labels : List (Str × ℕ)
  pub last_reset : ℕ

pub record Tracker : Type 0 where
  pub metrics : List (Str × Labels)
  pub global_count : ℕ
  pub metric_counts : List (Str × ℕ)
  pub window_size : ℕ
  pub stats : CardinalityStats
  pub ticks : ℕ

pub data StatType : Type 0 where
  total dropped aggregated sampled : StatType

-- `ct.metricCounts[metricName]`, and a lookup of the labels that makes the map if needed.
abbrev pub get_cardinality : Str → Tracker → ℕ
get_cardinality metric_name t = or_else (lookup Str-discrete metric_name t.metric_counts) 0

abbrev pub get_global_cardinality : Tracker → ℕ
get_global_cardinality t = t.global_count

abbrev pub labels_at : Str → Tracker → Labels
labels_at metric_name t = or_else (lookup Str-discrete metric_name t.metrics) []

unfoldable pub increment_stats : StatType → Tracker → Tracker
increment_stats total t = record t {
  stats = record (t.stats) { total_metrics = t.stats.total_metrics + 1 };
}
increment_stats dropped t = record t {
  stats = record (t.stats) { dropped_metrics = t.stats.dropped_metrics + 1 };
}
increment_stats aggregated t = record t {
  stats = record (t.stats) { aggregated_metrics = t.stats.aggregated_metrics + 1 };
}
increment_stats sampled t = record t {
  stats = record (t.stats) { sampled_metrics = t.stats.sampled_metrics + 1 };
}

unfoldable pub track_label_cardinality : Str → ℕ → Tracker → Tracker
track_label_cardinality label_name unique_values t = record t {
  stats = record (t.stats) {
    high_cardinality_labels =
        insert Str-discrete label_name unique_values t.stats.high_cardinality_labels;
  };
}

-- The copy that the caller gets.
unfoldable pub get_stats : Tracker → CardinalityStats
get_stats t = t.stats

-- Forgets one label combination. The counts fall only where an entry was found.
unfoldable pub remove_entry : Str → ℕ → Tracker → Tracker
remove_entry metric_name label_hash t = elim (lookup Str-discrete metric_name t.metrics) [
  | none ↦ t
  | some label_map ↦ elim (lookup ℕ_discrete label_hash label_map) [
    | none ↦ t
    | some _ ↦ record t {
      metrics = insert Str-discrete metric_name (delete ℕ_discrete label_hash label_map) t.metrics;
      metric_counts =
          insert Str-discrete metric_name (get_cardinality metric_name t - 1) t.metric_counts;
      global_count = t.global_count - 1;
    }
  ]
]

-- The loop over one metric's labels: what is left of them, of the counts and of the global count.
unfoldable pub expire : Str → ℕ → ℕ → Labels → List (Str × ℕ) → ℕ → Labels × List (Str × ℕ) × ℕ
expire metric_name now window [] counts global = ([], counts, global)
expire metric_name now window ((hash, timestamp) ∷ rest) counts global =
    elim (ltb (timestamp + window) now) [
      | true ↦
          expire metric_name now window rest
            (insert Str-discrete metric_name
              (or_else (lookup Str-discrete metric_name counts) 0 - 1) counts)
            (global - 1)
      | false ↦
          let (kept, counts', global') = expire metric_name now window rest counts global in
          ((hash, timestamp) ∷ kept, counts', global')
    ]

-- What is left of a metric: an empty label map goes, and its count with it.
unfoldable pub keep_metric :
    Str → Labels × List (Str × ℕ) × ℕ → List (Str × Labels) × List (Str × ℕ) × ℕ
keep_metric metric_name ([], counts, global) = ([], delete Str-discrete metric_name counts, global)
keep_metric metric_name (kept, counts, global) = ((metric_name, kept) ∷ [], counts, global)

-- The loop over the metrics.
unfoldable pub expire_all :
    ℕ → ℕ → List (Str × Labels) → List (Str × ℕ) → ℕ → List (Str × Labels) × List (Str × ℕ) × ℕ
expire_all now window [] counts global = ([], counts, global)
expire_all now window ((metric_name, labels) ∷ rest) counts global =
    let (kept, counts', global') =
      keep_metric metric_name (expire metric_name now window labels counts global) in
    let (others, counts'', global'') = expire_all now window rest counts' global' in
    (kept ++ others, counts'', global'')

module _ {V : Type 0} (env : Env V) where
  unfoldable pub new_cardinality_tracker : ℕ → ℕ → Tracker
  new_cardinality_tracker window_size ticks = record {
    metrics = [];
    global_count = 0;
    metric_counts = [];
    window_size = window_size;
    stats = record {
      total_metrics = 0;
      dropped_metrics = 0;
      aggregated_metrics = 0;
      sampled_metrics = 0;
      metric_cardinalities = [];
      high_cardinality_labels = [];
      last_reset = env.now ticks;
    };
    ticks = suc ticks;
  }

  -- The locked block of `Track`: an old combination gets a new timestamp, a new one is counted.
  unfoldable pub touch : Str → ℕ → Tracker → Tracker × Bool
  touch metric_name label_hash t = elim (lookup ℕ_discrete label_hash (labels_at metric_name t)) [
    | some _ ↦ (touched, false)
    | none ↦ (
      record touched {
        metric_counts =
            insert Str-discrete metric_name (get_cardinality metric_name t + 1) t.metric_counts;
        global_count = t.global_count + 1;
      },
      true,
    )
  ]
    where
      touched : Tracker
      touched = record t {
        metrics =
            insert Str-discrete metric_name
              (insert ℕ_discrete label_hash (env.now t.ticks) (labels_at metric_name t)) t.metrics;
        ticks = suc t.ticks;
      }

  -- `ct.stats.MetricCardinalities[metricName] = ct.metricCounts[metricName]`
  abbrev pub note_cardinality : Str → Tracker → Tracker
  note_cardinality metric_name t = record t {
    stats = record (t.stats) {
      metric_cardinalities =
          insert Str-discrete metric_name (get_cardinality metric_name t)
            t.stats.metric_cardinalities;
    };
  }

  -- The loop of `Track`: whether any combination was new.
  unfoldable pub touch_all : Str → List ℕ → Tracker → Bool → Tracker × Bool
  touch_all metric_name [] t any_new = (t, any_new)
  touch_all metric_name (hash ∷ hashes) t any_new =
      let (t', is_new) = touch metric_name hash t in
      touch_all metric_name hashes t' (any_new || is_new)

  abbrev track_hashes : Str → List ℕ → Tracker → Tracker × Bool × ℕ
  track_hashes metric_name [] t = (t, false, 0)
  track_hashes metric_name (first ∷ hashes) t =
      let (t', any_new) = touch_all metric_name (first ∷ hashes) t false in
      (note_cardinality metric_name t', any_new, first)

  unfoldable pub track : Metric V → Tracker → Tracker × Bool × ℕ
  unfolding touch_all get_all_label_hashes
  track metric t = track_hashes metric.name (get_all_label_hashes env metric) t

  abbrev pub note_if_new : Str → Tracker × Bool → Tracker × Bool
  note_if_new metric_name (t, true) = (note_cardinality metric_name t, true)
  note_if_new metric_name (t, false) = (t, false)

  -- Tracks one data point: the new tracker, whether it was new, and its hash.
  unfoldable pub track_data_point : Str → Attributes V → Tracker → Tracker × Bool × ℕ
  track_data_point metric_name attrs t =
      let label_hash = hash_data_point_labels env metric_name attrs in
      let (t', is_new) = note_if_new metric_name (touch metric_name label_hash t) in
      (t', is_new, label_hash)

  -- Forgets the entries older than the window.
  unfoldable pub cleanup_old_entries : Tracker → Tracker
  unfolding expire_all
  cleanup_old_entries t =
      let (metrics, counts, global) =
        expire_all (env.now t.ticks) t.window_size t.metrics t.metric_counts t.global_count in
      record t {
        metrics = metrics;
        metric_counts = counts;
        global_count = global;
        ticks = suc t.ticks;
      }

  -- Clears the tracking, and keeps the statistics.
  unfoldable pub reset : Tracker → Tracker
  reset t = record t {
    metrics = [];
    metric_counts = [];
    global_count = 0;
    stats = record (t.stats) { last_reset = env.now t.ticks };
    ticks = suc t.ticks;
  }
