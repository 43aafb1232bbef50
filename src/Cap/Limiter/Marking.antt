-- ===== src/Cap/Limiter/Marking.antt =====
-- nrcap/limiter.go, the `filter` methods: how many data points are marked for removal.
use nrdot_host.Common.{
  ℕ, suc, ◌+◌, ◌-◌, ◌≡◌, ◌≤◌, max, refl, List, [], ◌∷◌, Bool, false, arith, length, if_both, Str,
  All,
}
use nrdot_host.Cap.Metric.{DataPoint}
use nrdot_host.Cap.Config.{Config}
use nrdot_host.Cap.Env.{Env}
use nrdot_host.Cap.Hash.{hash_data_point_labels}
use nrdot_host.Cap.Tracker.{Tracker, get_cardinality, increment_stats, track_data_point}
use nrdot_host.Cap.Tracker.Consistent.{IsValid}
use nrdot_host.Cap.Tracker.Entries.{
  bit, not_tracked, track_data_point-IsValid, track_data_point_new, track_data_point_counts,
  track_data_point_tracks, track_data_point_keeps, track_data_point_totals,
}
use nrdot_host.Cap.Limiter.{judge, mark_over, is_over}

module _ {V : Type 0} (env : Env V) (cfg : Config) (name : Str) (limit : ℕ) where
  abbrev pub judged : DataPoint V → Tracker → Tracker
  judged dp t = (judge env cfg name limit dp t).0

  abbrev goes : DataPoint V → Tracker → Bool
  goes dp t = (judge env cfg name limit dp t).1

  abbrev pub to_remove : ℕ → List (DataPoint V) → Tracker → List ℕ
  to_remove i dps t = (mark_over env cfg name limit i dps t).0

  abbrev pub after : ℕ → List (DataPoint V) → Tracker → Tracker
  after i dps t = (mark_over env cfg name limit i dps t).1

  module _ (dp : DataPoint V) (t : Tracker) where
    pub judge_goes :
        goes dp t
        ≡ is_over cfg limit t
            (not_tracked name (hash_data_point_labels env name dp.attributes) t)
            name
    unfolding judge increment_stats
    judge_goes = ground (arith, track_data_point_new env name dp.attributes t)

    pub judge_counts :
        (get_cardinality name (judged dp t)
          ≡ get_cardinality name t
            + bit (not_tracked name (hash_data_point_labels env name dp.attributes) t))
        × ((judged dp t).global_count
            ≡ t.global_count
              + bit (not_tracked name (hash_data_point_labels env name dp.attributes) t))
    unfolding judge increment_stats
    judge_counts = ground (
      arith,
      track_data_point_counts env name dp.attributes t,
      track_data_point_new env name dp.attributes t,
    )

    judge_totals :
        ((judged dp t).stats.total_metrics ≡ t.stats.total_metrics + 1)
        × ((judged dp t).stats.dropped_metrics ≡ t.stats.dropped_metrics + bit (goes dp t))
    unfolding judge increment_stats
    judge_totals = ground (arith, track_data_point_totals env name dp.attributes t)

    pub judge-IsValid : IsValid t → IsValid (judged dp t)
    unfolding judge increment_stats
    judge-IsValid h =
        let h' = track_data_point-IsValid env name dp.attributes t h in
        if_both {A = Tracker × Bool} (λ r. IsValid r.0)
          (is_over cfg limit t (track_data_point env name dp.attributes t).1 name) _ _ h' h'

    judge_keeps :
        (other : ℕ)
        → not_tracked name other t ≡ false
        → not_tracked name other (judged dp t) ≡ false
    unfolding judge increment_stats
    judge_keeps other h = ground (arith, track_data_point_keeps env name dp.attributes t other)

    judge_tracks :
        not_tracked name (hash_data_point_labels env name dp.attributes) (judged dp t) ≡ false
    unfolding judge increment_stats
    judge_tracks = ground (arith, track_data_point_tracks env name dp.attributes t)

  -- Every metric is left consistent.
  pub mark_over-IsValid :
      (i : ℕ) (dps : List (DataPoint V)) (t : Tracker) → IsValid t → IsValid (after i dps t)
  unfolding mark_over
  mark_over-IsValid i [] t h = h
  mark_over-IsValid i (dp ∷ dps) t h =
      mark_over-IsValid (suc i) dps (judged dp t) (judge-IsValid dp t h)

  -- The statistics account for every data point: the total grows by their number, and the dropped by
  -- the number of those that are marked.
  pub mark_over_accounts :
      (i : ℕ) (dps : List (DataPoint V)) (t : Tracker)
      → ((after i dps t).stats.total_metrics ≡ t.stats.total_metrics + length dps)
        × ((after i dps t).stats.dropped_metrics
            ≡ t.stats.dropped_metrics + length (to_remove i dps t))
  unfolding mark_over
  mark_over_accounts i [] t = (omega arith, omega arith)
  mark_over_accounts i (dp ∷ dps) t =
      ground (arith, mark_over_accounts (suc i) dps (judged dp t), judge_totals dp t)

  mark_over_grows :
      (i : ℕ) (dps : List (DataPoint V)) (t : Tracker)
      → get_cardinality name t ≤ get_cardinality name (after i dps t)
  unfolding mark_over
  mark_over_grows i [] t = omega arith
  mark_over_grows i (dp ∷ dps) t =
      omega (arith, mark_over_grows (suc i) dps (judged dp t), judge_counts dp t)

  -- Where the global limit has room for all points of the loop, as many are marked as the metric's
  -- cardinality ends beyond its limit, or beyond what it was before if that is more.
  pub mark_over_exact :
      (i : ℕ) (dps : List (DataPoint V)) (t : Tracker)
      → t.global_count + length dps ≤ cfg.global_limit
      → length (to_remove i dps t)
        ≡ get_cardinality name (after i dps t) - max limit (get_cardinality name t)
  unfolding mark_over
  mark_over_exact i [] t h = omega arith
  mark_over_exact i (dp ∷ dps) t h = ground (
    arith,
    mark_over_exact (suc i) dps (judged dp t),
    judge_goes dp t,
    judge_counts dp t,
    mark_over_grows (suc i) dps (judged dp t),
  )

  -- Whatever the load: less the marked points, the metric's cardinality ends within its limit and the
  -- global one within the global limit, or within what it was before if that is more.
  mark_over_admits :
      (i : ℕ) (dps : List (DataPoint V)) (t : Tracker)
      → (get_cardinality name (after i dps t)
          ≤ max limit (get_cardinality name t) + length (to_remove i dps t))
        × ((after i dps t).global_count
            ≤ max cfg.global_limit t.global_count + length (to_remove i dps t))
  unfolding mark_over
  mark_over_admits i [] t = (omega arith, omega arith)
  mark_over_admits i (dp ∷ dps) t =
      ground (arith, mark_over_admits (suc i) dps (judged dp t), judge_goes dp t, judge_counts dp t)

  -- Every point of the batch is tracked for the metric.
  abbrev AllTracked : List (DataPoint V) → Tracker → Type 0
  AllTracked dps t =
      All
        (λ (dp : DataPoint V).
          not_tracked name (hash_data_point_labels env name dp.attributes) t ≡ false)
        dps

  mark_over_keeps :
      (other : ℕ) (i : ℕ) (dps : List (DataPoint V)) (t : Tracker)
      → not_tracked name other t ≡ false
      → not_tracked name other (after i dps t) ≡ false
  unfolding mark_over
  mark_over_keeps other i [] t h = h
  mark_over_keeps other i (dp ∷ dps) t h =
      mark_over_keeps other (suc i) dps (judged dp t) (judge_keeps dp t other h)

  AllTracked-judge :
      (dp : DataPoint V) (dps : List (DataPoint V)) (t : Tracker)
      → AllTracked dps t
      → AllTracked dps (judged dp t)
  AllTracked-judge dp [] t h = tt
  AllTracked-judge dp (d ∷ dps) t h = (
    judge_keeps dp t (hash_data_point_labels env name d.attributes) h.0,
    AllTracked-judge dp dps t h.1,
  )

  mark_over_tracks :
      (i : ℕ) (dps : List (DataPoint V)) (t : Tracker) → AllTracked dps (after i dps t)
  unfolding mark_over
  mark_over_tracks i [] t = tt
  mark_over_tracks i (dp ∷ dps) t = (
    mark_over_keeps (hash_data_point_labels env name dp.attributes) (suc i) dps (judged dp t)
        (judge_tracks dp t),
    mark_over_tracks (suc i) dps (judged dp t),
  )

  -- Nothing that is tracked is marked.
  pub mark_over_tracked :
      (i : ℕ) (dps : List (DataPoint V)) (t : Tracker) → AllTracked dps t → to_remove i dps t ≡ []
  unfolding mark_over
  mark_over_tracked i [] t h = refl
  mark_over_tracked i (dp ∷ dps) t h = ground (
    arith,
    mark_over_tracked (suc i) dps (judged dp t) (AllTracked-judge dp dps t h.1),
    judge_goes dp t,
  )

  -- When the marking loop of a metric has run over data points, a run over the same points right after it
  -- marks none of them for removal, whatever the first run marked.
  pub mark_over_resent :
      (i j : ℕ) (dps : List (DataPoint V)) (t : Tracker) → to_remove j dps (after i dps t) ≡ []
  mark_over_resent i j dps t = mark_over_tracked j dps (after i dps t) (mark_over_tracks i dps t)
