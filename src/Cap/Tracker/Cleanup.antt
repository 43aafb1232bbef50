-- ===== src/Cap/Tracker/Cleanup.antt =====
-- nrcap/tracker.go, CleanupOldEntries: exactly the entries of the window survive, and the counts
-- stay right.
use mathlib.Core.List.{lookup}
use nrdot_host.Common.Dict.{
  or_else, insert, Distinct, AllValues, lookup-insert_self, lookup-insert_ne, lookup-delete_self,
  lookup-delete_ne, size_at,
}
use nrdot_host.Common.{
  ℕ, ◌+◌, ◌-◌, ◌≡◌, ◌≢◌, ◌≤◌, refl, ap, ◌∙◌, List, [], ◌∷◌, ◌++◌, none, inl, inr, length, arith,
  Str, Str-discrete, ℕ_discrete, if◌then◌else◌, Bool-cases, ltb,
}
use nrdot_host.Cap.Env.{Env}
use nrdot_host.Cap.Tracker.{
  Labels, Tracker, labels_at, expire, expire_all, keep_metric, cleanup_old_entries,
}
use nrdot_host.Cap.Tracker.Consistent.{IsValid, total_labels}

-- The entries whose timestamp lies in the window.
abbrev pub recent : ℕ → ℕ → Labels → Labels
recent now window [] = []
recent now window ((hash, timestamp) ∷ rest) =
    let r = recent now window rest in
    if ltb (timestamp + window) now then r else (hash, timestamp) ∷ r

abbrev count_at : Str → List (Str × ℕ) → ℕ
count_at name counts = or_else (lookup Str-discrete name counts) 0

module _ (name : Str) (now window : ℕ) where
  -- What the loop over a metric's labels keeps, counts and leaves alone.
  expire_kept :
      (ls : Labels) (c : List (Str × ℕ)) (g : ℕ)
      → (expire name now window ls c g).0 ≡ recent now window ls
  unfolding expire
  expire_kept [] c g = refl
  expire_kept ((k, w) ∷ ls) c g = elim (Bool-cases (ltb (w + window) now)) [
    | inl e ↦ rw (e, expire) (expire_kept ls _ _)
    | inr e ↦ rw (e, expire) (ap (◌∷◌ (k, w)) (expire_kept ls c g))
  ]

  recent-le : (ls : Labels) → length (recent now window ls) ≤ length ls
  recent-le [] = omega arith
  recent-le ((k, w) ∷ ls) = ground (arith, recent-le ls)

  expire_count :
      (ls : Labels) (c : List (Str × ℕ)) (g : ℕ)
      → length ls ≤ count_at name c
      → count_at name (expire name now window ls c g).1 + length ls
        ≡ count_at name c + length (recent now window ls)
  unfolding expire
  expire_count [] c g h = refl
  expire_count ((k, w) ∷ ls) c g h = elim (Bool-cases (ltb (w + window) now)) [
    | inl e ↦ ground (
      arith,
      expire_count ls (insert Str-discrete name (count_at name c - 1) c) (g - 1),
      lookup-insert_self Str-discrete name (count_at name c - 1) c,
    )
    | inr e ↦ ground (arith, expire_count ls c g)
  ]

  expire_global :
      (ls : Labels) (c : List (Str × ℕ)) (g : ℕ)
      → length ls ≤ g
      → (expire name now window ls c g).2 + length ls ≡ g + length (recent now window ls)
  unfolding expire
  expire_global [] c g h = refl
  expire_global ((k, w) ∷ ls) c g h = ground (
    arith,
    expire_global ls (insert Str-discrete name (count_at name c - 1) c) (g - 1),
    expire_global ls c g,
  )

  expire_others :
      (j : Str)
      → j ≢ name
      → (ls : Labels) (c : List (Str × ℕ)) (g : ℕ)
      → count_at j (expire name now window ls c g).1 ≡ count_at j c
  unfolding expire
  expire_others j ne [] c g = refl
  expire_others j ne ((k, w) ∷ ls) c g = elim (Bool-cases (ltb (w + window) now)) [
    | inl e ↦ ground (
      arith,
      expire_others j ne ls (insert Str-discrete name (count_at name c - 1) c) (g - 1),
      lookup-insert_ne Str-discrete j name (count_at name c - 1) c ne,
    )
    | inr e ↦ ground (arith, expire_others j ne ls c g)
  ]

-- The loop over the metrics, for metrics with distinct names whose counts are right.
module _ (now window : ℕ) where
  -- What should be left.
  abbrev pub survivors : List (Str × Labels) → List (Str × Labels)
  survivors [] = []
  survivors ((name, ls) ∷ rest) = elim (recent now window ls) [
    | [] ↦ survivors rest
    | e ∷ es ↦ (name, e ∷ es) ∷ survivors rest
  ]

  keep_kept :
      (name : Str) (r : Labels × List (Str × ℕ) × ℕ) (rest : List (Str × Labels))
      → (keep_metric name r).0 ++ rest ≡ elim r.0 [ [] ↦ rest | e ∷ es ↦ (name, e ∷ es) ∷ rest ]
  unfolding keep_metric
  keep_kept name ([], c, g) rest = refl
  keep_kept name (e ∷ es, c, g) rest = refl

  keep_global : (name : Str) (r : Labels × List (Str × ℕ) × ℕ) → (keep_metric name r).2 ≡ r.2
  unfolding keep_metric
  keep_global name ([], c, g) = refl
  keep_global name (e ∷ es, c, g) = refl

  keep_others :
      (j name : Str) (r : Labels × List (Str × ℕ) × ℕ)
      → j ≢ name
      → count_at j (keep_metric name r).1 ≡ count_at j r.1
  unfolding keep_metric
  keep_others j name ([], c, g) ne =
      ap (λ o. or_else o 0) (lookup-delete_ne Str-discrete j name c ne)
  keep_others j name (e ∷ es, c, g) ne = refl

  keep_own :
      (name : Str) (r : Labels × List (Str × ℕ) × ℕ)
      → count_at name r.1 ≡ length r.0
      → count_at name (keep_metric name r).1 ≡ length r.0
  unfolding keep_metric
  keep_own name ([], c, g) h = ap (λ o. or_else o 0) (lookup-delete_self Str-discrete name c)
  keep_own name (e ∷ es, c, g) h = h

  expire_all_kept :
      (m : List (Str × Labels)) (c : List (Str × ℕ)) (g : ℕ)
      → (expire_all now window m c g).0 ≡ survivors m
  unfolding expire_all
  expire_all_kept [] c g = refl
  expire_all_kept ((name, ls) ∷ rest) c g =
      let r = expire name now window ls c g in
      let k = keep_metric name r in
      rw (expire_all_kept rest k.1 k.2)
        (rw (keep_kept name r (survivors rest)) (rw (expire_kept name now window ls c g)))

  survivors_absent :
      (j : Str) (m : List (Str × Labels))
      → lookup Str-discrete j m ≡ none
      → lookup Str-discrete j (survivors m) ≡ none
  unfolding lookup
  survivors_absent j [] h = refl
  survivors_absent j ((name, ls) ∷ rest) h = ground (arith, survivors_absent j rest)

  -- What remains of a metric's labels.
  expire_all_others :
      (j : Str) (m : List (Str × Labels)) (c : List (Str × ℕ)) (g : ℕ)
      → lookup Str-discrete j m ≡ none
      → count_at j (expire_all now window m c g).1 ≡ count_at j c
  unfolding expire_all lookup
  expire_all_others j [] c g h = refl
  expire_all_others j ((name, ls) ∷ rest) c g h =
      let r = expire name now window ls c g in
      let k = keep_metric name r in
      let ne : j ≢ name = λ e. ground arith in
      expire_all_others j rest k.1 k.2 (ground arith)
      ∙ keep_others j name r ne
      ∙ expire_others name now window j ne ls c g

  lookup-survivors :
      (j : Str) (m : List (Str × Labels))
      → Distinct Str-discrete m
      → or_else (lookup Str-discrete j (survivors m)) []
        ≡ recent now window (or_else (lookup Str-discrete j m) [])
  unfolding lookup
  lookup-survivors j [] d = refl
  lookup-survivors j ((name, ls) ∷ rest) d =
      ground (arith, lookup-survivors j rest d.1, survivors_absent name rest d.0)

  expire_all_count :
      (j : Str) (m : List (Str × Labels)) (c : List (Str × ℕ)) (g : ℕ)
      → Distinct Str-discrete m
      → count_at j c ≡ size_at Str-discrete length (lookup Str-discrete j m)
      → count_at j (expire_all now window m c g).1
        ≡ size_at Str-discrete length (lookup Str-discrete j (survivors m))
  unfolding expire_all lookup
  expire_all_count j [] c g d h = h
  expire_all_count j ((name, ls) ∷ rest) c g d h = elim (Str-discrete j name) [
    | yes p ↦
        let own : count_at name c ≡ length ls = ground arith in
        let after : count_at name r.1 ≡ length r.0 =
          ground (arith, expire_count name now window ls c g, expire_kept name now window ls c g) in
        let absent : lookup Str-discrete j rest ≡ none = rw p d.0 in
        ground (
          arith,
          expire_all_others j rest k.1 k.2 absent,
          survivors_absent j rest absent,
          keep_own name r after,
          expire_kept name now window ls c g,
        )
    | no p ↦ ground (
      arith,
      expire_all_count j rest k.1 k.2 d.1,
      keep_others j name r p,
      expire_others name now window j p ls c g,
    )
  ]
    where
      r : Labels × List (Str × ℕ) × ℕ
      r = expire name now window ls c g

      k : List (Str × Labels) × List (Str × ℕ) × ℕ
      k = keep_metric name r

  expire_all_global :
      (m : List (Str × Labels)) (c : List (Str × ℕ)) (g : ℕ)
      → total_labels m ≤ g
      → (expire_all now window m c g).2 + total_labels m ≡ g + total_labels (survivors m)
  unfolding expire_all
  expire_all_global [] c g h = refl
  expire_all_global ((name, ls) ∷ rest) c g h =
      let r = expire name now window ls c g in
      let k = keep_metric name r in
      ground (
        arith,
        expire_all_global rest k.1 k.2,
        keep_global name r,
        expire_global name now window ls c g,
        recent-le name now window ls,
      )

  recent_absent :
      (hash : ℕ) (ls : Labels)
      → lookup ℕ_discrete hash ls ≡ none
      → lookup ℕ_discrete hash (recent now window ls) ≡ none
  unfolding lookup
  recent_absent hash [] h = refl
  recent_absent hash ((k, w) ∷ ls) h = ground (arith, recent_absent hash ls)

  recent-Distinct :
      (ls : Labels) → Distinct ℕ_discrete ls → Distinct ℕ_discrete (recent now window ls)
  recent-Distinct [] d = tt
  recent-Distinct ((k, w) ∷ ls) d = elim (Bool-cases (ltb (w + window) now)) [
    | inl e ↦ rw e (recent-Distinct ls d.1)
    | inr e ↦ rw e (recent_absent k ls d.0, recent-Distinct ls d.1)
  ]

  survivors-Distinct :
      (m : List (Str × Labels)) → Distinct Str-discrete m → Distinct Str-discrete (survivors m)
  survivors-Distinct [] d = tt
  survivors-Distinct ((name, ls) ∷ rest) d =
      elim (recent now window ls)
        as (λ l. Distinct Str-discrete (elim l as (λ x. List (Str × Labels)) [
          | [] ↦ survivors rest
          | e ∷ es ↦ (name, e ∷ es) ∷ survivors rest
        ])) [
          | [] ↦ survivors-Distinct rest d.1
          | e ∷ es ↦ (survivors_absent name rest d.0, survivors-Distinct rest d.1)
        ]

  survivors_labels :
      (m : List (Str × Labels))
      → AllValues Str-discrete (Distinct ℕ_discrete) m
      → AllValues Str-discrete (Distinct ℕ_discrete) (survivors m)
  survivors_labels [] d = tt
  survivors_labels ((name, ls) ∷ rest) d =
      go (recent now window ls) (recent-Distinct ls d.0) (survivors_labels rest d.1)
    where
      go :
          (l : Labels)
          → Distinct ℕ_discrete l
          → AllValues Str-discrete (Distinct ℕ_discrete) (survivors rest)
          → AllValues Str-discrete (Distinct ℕ_discrete) (elim l as (λ x. List (Str × Labels)) [
            | [] ↦ survivors rest
            | e ∷ es ↦ (name, e ∷ es) ∷ survivors rest
          ])
      go [] h k = k
      go (e ∷ es) h k = (h, k)

module _ {V : Type 0} (env : Env V) (t : Tracker) (h : IsValid t) where
  -- If the counts are right before a cleanup, they are right after it.
  pub cleanup_old_entries-IsValid : IsValid (cleanup_old_entries env t)
  unfolding cleanup_old_entries
  cleanup_old_entries-IsValid = record {
    names = rw (expire_all_kept now w m c g) (survivors-Distinct now w m h.names);
    labels = rw (expire_all_kept now w m c g) (survivors_labels now w m h.labels);
    counted = λ j.
        rw (expire_all_kept now w m c g) (expire_all_count now w j m c g h.names (h.counted j));
    global_counted = rw (expire_all_kept now w m c g) (
        omega (
          arith,
          expire_all_global now w m c g (omega (arith, h.global_counted)),
          h.global_counted,
        ));
  }
    where
      now : ℕ
      now = env.now t.ticks

      w : ℕ
      w = t.window_size

      m : List (Str × Labels)
      m = t.metrics

      c : List (Str × ℕ)
      c = t.metric_counts

      g : ℕ
      g = t.global_count

  -- After a cleanup a metric has exactly the labels it had whose timestamp is not older than the window,
  -- if the counts were right.
  pub labels_at-cleanup_old_entries :
      (name : Str)
      → labels_at name (cleanup_old_entries env t)
        ≡ recent (env.now t.ticks) t.window_size (labels_at name t)
  unfolding cleanup_old_entries
  labels_at-cleanup_old_entries name =
      rw (expire_all_kept (env.now t.ticks) t.window_size t.metrics t.metric_counts t.global_count)
        (lookup-survivors (env.now t.ticks) t.window_size name t.metrics h.names)
