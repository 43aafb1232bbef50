-- ===== src/Cap/Tracker/Oldest.antt =====
-- nrcap/tracker.go: the oldest entries of a metric.
use mathlib.Core.List.{lookup}
use nrdot_host.Common.{
  ℕ, zero, suc, ◌-◌, List, [], ◌∷◌, map, none, some, ltb, length, take, if◌then◌else◌, Str,
  Str-discrete,
}
use nrdot_host.Cap.Env.{Env}

-- The loop over `j`, with the number of neighbours that are still to be compared.
unfoldable pub bubble : ℕ → List (ℕ × ℕ) → List (ℕ × ℕ)
bubble zero entries = entries
bubble (suc n) [] = []
bubble (suc n) (a ∷ []) = a ∷ []
bubble (suc n) (a ∷ b ∷ rest) =
    let after = ltb b.1 a.1 in (if after then b else a) ∷ bubble n ((if after then a else b) ∷ rest)

-- The loop over `i`: `n - 1` rounds, each with one comparison less.
unfoldable pub bubble_sort : ℕ → List (ℕ × ℕ) → List (ℕ × ℕ)
bubble_sort zero entries = entries
bubble_sort (suc n) entries = bubble_sort n (bubble (suc n) entries)

module _ {V : Type 0} (env : Env V) where
  unfoldable pub get_oldest_entries : List (Str × List (ℕ × ℕ)) → Str → ℕ → List ℕ
  unfolding bubble bubble_sort
  get_oldest_entries metrics metric_name count = elim (lookup Str-discrete metric_name metrics) [
    | none ↦ []
    | some label_map ↦
        let entries = env.range label_map in
        map (λ (e : ℕ × ℕ). e.0) (take count (bubble_sort (length entries - 1) entries))
  ]
