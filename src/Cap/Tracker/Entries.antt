-- ===== src/Cap/Tracker/Entries.antt =====
-- nrcap/tracker.go: tracking, forgetting and resetting keep the counts right, and change them by
-- exactly what they report.
use mathlib.Core.List.{lookup}
use nrdot_host.Common.Dict.{
  is_none, insert, delete, Distinct, AllValues-lookup, lookup-insert, lookup-insert_self,
  insert-Distinct, delete-Distinct, length-insert_new, length-insert_old, length-delete_old,
  size_at-le-total, lookup-delete_self, delete_absent,
}
use nrdot_host.Common.{
  ℕ, suc, ◌+◌, ◌-◌, ◌≡◌, refl, sym, ap, ◌∙◌, Bool, true, false, none, Option-cases, inl, inr,
  length, arith, Str, Str-discrete, ℕ_discrete,
}
use nrdot_host.Cap.Metric.{Attributes}
use nrdot_host.Cap.Env.{Env}
use nrdot_host.Cap.Hash.{hash_data_point_labels}
use nrdot_host.Cap.Tracker.{
  Labels, Tracker, get_cardinality, labels_at, note_if_new, remove_entry, touch, track_data_point,
}
use nrdot_host.Cap.Tracker.Consistent.{
  IsValid, IsConsistent-insert, IsConsistent-replace, labels_at-Distinct, length-labels_at,
}

abbrev pub bit : Bool → ℕ
bit true = 1
bit false = 0

-- Whether a combination is new to a metric.
abbrev pub not_tracked : Str → ℕ → Tracker → Bool
not_tracked name hash t = is_none (lookup ℕ_discrete hash (labels_at name t))

module _ {V : Type 0} (env : Env V) (name : Str) (hash : ℕ) (t : Tracker) where
  -- `touch` says whether the combination was new.
  pub touch_new : (touch env name hash t).1 ≡ not_tracked name hash t
  unfolding touch
  touch_new = ground arith

  pub touch-IsValid : IsValid t → IsValid (touch env name hash t).0
  unfolding touch
  touch-IsValid h = elim (Option-cases (lookup ℕ_discrete hash ls)) [
    | inl e ↦
        rw (e, touch)
          (IsConsistent-insert h name ls' d (get_cardinality name t + 1) (t.global_count + 1)
            (omega (arith, length-labels_at name t h, length-insert_new ℕ_discrete hash now ls e))
            (ground (
              arith,
              h.counted name,
              length-labels_at name t h,
              length-insert_new ℕ_discrete hash now ls e,
            )))
    | inr (w, e) ↦
        rw (e, touch)
          (IsConsistent-replace h name ls' d (
            ground (
              arith,
              h.counted name,
              length-labels_at name t h,
              length-insert_old ℕ_discrete hash now w ls e,
            )))
  ]
    where
      ls : Labels
      ls = labels_at name t

      now : ℕ
      now = env.now t.ticks

      ls' : Labels
      ls' = insert ℕ_discrete hash now ls

      d : Distinct ℕ_discrete ls'
      d = insert-Distinct ℕ_discrete hash now ls (labels_at-Distinct name t h)

  -- Both counts grow by one where the combination was new, and stay otherwise.
  pub touch_counts :
      (get_cardinality name (touch env name hash t).0
        ≡ get_cardinality name t + bit (touch env name hash t).1)
      × ((touch env name hash t).0.global_count ≡ t.global_count + bit (touch env name hash t).1)
  unfolding touch
  touch_counts =
      ground
        (arith, lookup-insert_self Str-discrete name (get_cardinality name t + 1) t.metric_counts)

  pub labels_at-touch :
      labels_at name (touch env name hash t).0
      ≡ insert ℕ_discrete hash (env.now t.ticks) (labels_at name t)
  unfolding touch
  labels_at-touch = ground (
    arith,
    lookup-insert_self Str-discrete name
        (insert ℕ_discrete hash (env.now t.ticks) (labels_at name t)) t.metrics,
  )

  -- The combination is tracked afterwards, and what was tracked stays so.
  pub touch_tracks : not_tracked name hash (touch env name hash t).0 ≡ false
  touch_tracks =
      rw labels_at-touch
        (ap is_none (lookup-insert_self ℕ_discrete hash (env.now t.ticks) (labels_at name t)))

  pub touch_keeps :
      (other : ℕ)
      → not_tracked name other t ≡ false
      → not_tracked name other (touch env name hash t).0 ≡ false
  touch_keeps other h =
      rw labels_at-touch
        (ground (arith, lookup-insert ℕ_discrete other hash (env.now t.ticks) (labels_at name t)))

-- The statistics do not count for the maps.
module _ {V : Type 0} (env : Env V) (name : Str) where
  note_same :
      (r : Tracker × Bool)
      → ((note_if_new env name r).1 ≡ r.1)
        × ((note_if_new env name r).0.metrics ≡ r.0.metrics)
        × ((note_if_new env name r).0.metric_counts ≡ r.0.metric_counts)
        × ((note_if_new env name r).0.global_count ≡ r.0.global_count)
  note_same (t, true) = (refl, refl, refl, refl)
  note_same (t, false) = (refl, refl, refl, refl)

  note-IsValid : (r : Tracker × Bool) → IsValid r.0 → IsValid (note_if_new env name r).0
  note-IsValid (t, true) h = h
  note-IsValid (t, false) h = h

  note_totals :
      (r : Tracker × Bool)
      → ((note_if_new env name r).0.stats.total_metrics ≡ r.0.stats.total_metrics)
        × ((note_if_new env name r).0.stats.dropped_metrics ≡ r.0.stats.dropped_metrics)
        × ((note_if_new env name r).0.stats.sampled_metrics ≡ r.0.stats.sampled_metrics)
        × ((note_if_new env name r).0.ticks ≡ r.0.ticks)
  note_totals (t, true) = (refl, refl, refl, refl)
  note_totals (t, false) = (refl, refl, refl, refl)

module _ {V : Type 0} (env : Env V) (name : Str) (attrs : Attributes V) (t : Tracker) where
  -- It leaves the totals alone, and reads the clock once.
  pub track_data_point_totals :
      ((track_data_point env name attrs t).0.stats.total_metrics ≡ t.stats.total_metrics)
      × ((track_data_point env name attrs t).0.stats.dropped_metrics ≡ t.stats.dropped_metrics)
      × ((track_data_point env name attrs t).0.stats.sampled_metrics ≡ t.stats.sampled_metrics)
      × ((track_data_point env name attrs t).0.ticks ≡ suc t.ticks)
  unfolding track_data_point touch
  track_data_point_totals =
      let hash = hash_data_point_labels env name attrs in
      let s = note_totals env name (touch env name hash t) in rw (s.0, s.1, s.2, s.3) (ground arith)

  pub labels_at-track_data_point :
      labels_at name (track_data_point env name attrs t).0
      ≡ insert ℕ_discrete
          (hash_data_point_labels env name attrs)
          (env.now t.ticks)
          (labels_at name t)
  unfolding track_data_point
  labels_at-track_data_point =
      let hash = hash_data_point_labels env name attrs in
      rw ((note_same env name (touch env name hash t)).1) (labels_at-touch env name hash t)

  pub track_data_point-IsValid : IsValid t → IsValid (track_data_point env name attrs t).0
  unfolding track_data_point
  track_data_point-IsValid h =
      note-IsValid env name _ (touch-IsValid env name (hash_data_point_labels env name attrs) t h)

  -- It says whether the combination was new.
  pub track_data_point_new :
      (track_data_point env name attrs t).1
      ≡ not_tracked name (hash_data_point_labels env name attrs) t
  unfolding track_data_point
  track_data_point_new =
      (note_same env name _).0 ∙ touch_new env name (hash_data_point_labels env name attrs) t

  -- Both counts grow by what it reports.
  pub track_data_point_counts :
      (get_cardinality name (track_data_point env name attrs t).0
        ≡ get_cardinality name t + bit (track_data_point env name attrs t).1)
      × ((track_data_point env name attrs t).0.global_count
          ≡ t.global_count + bit (track_data_point env name attrs t).1)
  unfolding track_data_point
  track_data_point_counts =
      let hash = hash_data_point_labels env name attrs in
      let s = note_same env name (touch env name hash t) in
      rw (s.0, s.2, s.3) (touch_counts env name hash t)

  pub track_data_point_tracks :
      not_tracked name (hash_data_point_labels env name attrs) (track_data_point env name attrs t).0
      ≡ false
  unfolding track_data_point
  track_data_point_tracks =
      let hash = hash_data_point_labels env name attrs in
      rw ((note_same env name (touch env name hash t)).1) (touch_tracks env name hash t)

  pub track_data_point_keeps :
      (other : ℕ)
      → not_tracked name other t ≡ false
      → not_tracked name other (track_data_point env name attrs t).0 ≡ false
  unfolding track_data_point
  track_data_point_keeps other h =
      let hash = hash_data_point_labels env name attrs in
      rw ((note_same env name (touch env name hash t)).1) (touch_keeps env name hash t other h)

not_tracked_absent :
    (name : Str) (hash : ℕ) (t : Tracker)
    → lookup Str-discrete name t.metrics ≡ none
    → not_tracked name hash t ≡ true
unfolding lookup
not_tracked_absent name hash t e = rw e

-- What is left of a metric's labels.
pub labels_at-remove_entry :
    (name : Str) (hash : ℕ) (t : Tracker)
    → labels_at name (remove_entry name hash t) ≡ delete ℕ_discrete hash (labels_at name t)
unfolding remove_entry delete
labels_at-remove_entry name hash t = elim (Option-cases (lookup Str-discrete name t.metrics)) [
  | inl e ↦ rw (e, remove_entry) (rw e)
  | inr (ls, e) ↦ elim (Option-cases (lookup ℕ_discrete hash ls)) [
    | inl f ↦
        rw (e, remove_entry)
          (rw (f, remove_entry) (rw e (sym (delete_absent ℕ_discrete hash ls f))))
    | inr (w, f) ↦ rw (e, remove_entry) (rw (f, remove_entry) (rw lookup-insert_self refl))
  ]
]

pub ticks-remove_entry :
    (name : Str) (hash : ℕ) (t : Tracker) → (remove_entry name hash t).ticks ≡ t.ticks
unfolding remove_entry
ticks-remove_entry name hash t = ground arith

module _ (name : Str) (hash : ℕ) (t : Tracker) (h : IsValid t) where
  pub remove_entry-IsValid : IsValid (remove_entry name hash t)
  unfolding remove_entry
  remove_entry-IsValid = elim (Option-cases (lookup Str-discrete name t.metrics)) [
    | inl e ↦ rw (e, remove_entry) h
    | inr (ls, e) ↦ elim (Option-cases (lookup ℕ_discrete hash ls)) [
      | inl f ↦ rw (e, remove_entry) (rw (f, remove_entry) h)
      | inr (w, f) ↦
          let d =
            AllValues-lookup Str-discrete (Distinct ℕ_discrete) name ls t.metrics h.labels e in
          let fewer = length-delete_old ℕ_discrete hash w ls d f in
          let here : get_cardinality name t ≡ length ls = ground (arith, h.counted name) in
          rw (e, remove_entry)
            (rw (f, remove_entry)
              (IsConsistent-insert h name (delete ℕ_discrete hash ls)
                (delete-Distinct ℕ_discrete hash ls d) (get_cardinality name t - 1)
                (t.global_count - 1) (omega (arith, fewer, here))
                (ground (
                  arith,
                  fewer,
                  h.global_counted,
                  size_at-le-total Str-discrete length name t.metrics,
                ))))
    ]
  ]

  -- Removing a tracked entry takes one off the metric's count and one off the global count, and the
  -- entry is tracked no more. The counts are right before.
  pub remove_entry_counts :
      not_tracked name hash t ≡ false
      → (get_cardinality name (remove_entry name hash t) + 1 ≡ get_cardinality name t)
        × ((remove_entry name hash t).global_count + 1 ≡ t.global_count)
        × (not_tracked name hash (remove_entry name hash t) ≡ true)
  unfolding remove_entry
  remove_entry_counts tracked = elim (Option-cases (lookup Str-discrete name t.metrics)) [
    | inl e ↦ absurd (ground (arith, not_tracked_absent name hash t e))
    | inr (ls, e) ↦ elim (Option-cases (lookup ℕ_discrete hash ls)) [
      | inl f ↦ absurd (ground arith)
      | inr (w, f) ↦
          let d =
            AllValues-lookup Str-discrete (Distinct ℕ_discrete) name ls t.metrics h.labels e in
          let ls' = delete ℕ_discrete hash ls in
          ground (
            arith,
            length-delete_old ℕ_discrete hash w ls d f,
            h.counted name,
            h.global_counted,
            size_at-le-total Str-discrete length name t.metrics,
            lookup-insert_self Str-discrete name (get_cardinality name t - 1) t.metric_counts,
            lookup-insert_self Str-discrete name ls' t.metrics,
            lookup-delete_self ℕ_discrete hash ls,
          )
    ]
  ]
