-- ===== src/Cap/Tracker/Sorting.antt =====
-- nrcap/tracker.go, GetOldestEntries: the bubble sort sorts by timestamp, and the result is the
-- front of the sorted entries.
use mathlib.Core.List.Permᴰ
use mathlib.Core.List.{lookup, Permᴰ, append-nil}
use nrdot_host.Common.{
  ℕ, zero, suc, ◌-◌, ◌≡◌, ◌≤◌, refl, sym, ap, ◌∙◌, List, [], ◌∷◌, ◌++◌, map, true, false, some,
  arith, ltb, length, take, if◌then◌else◌, inl, inr, Bool-cases, Str, Str-discrete, All, All-both,
}
use nrdot_host.Cap.Env.{Env, IsRange}
use nrdot_host.Cap.Tracker.Oldest.{bubble, bubble_sort, get_oldest_entries}

abbrev pub Entry : Type 0
Entry = ℕ × ℕ

abbrev pub NotBefore : Entry → Entry → Type 0
NotBefore a b = a.1 ≤ b.1

-- Oldest first.
abbrev pub Sorted : List Entry → Type 0
Sorted [] = Unit {0}
Sorted (e ∷ es) = All (NotBefore e) es × Sorted es

bubble-perm : (n : ℕ) (es : List Entry) → Permᴰ (bubble n es) es
unfolding bubble
bubble-perm zero es = Permᴰ.refl es
bubble-perm (suc n) [] = Permᴰ.nil
bubble-perm (suc n) (a ∷ []) = Permᴰ.refl (a ∷ [])
bubble-perm (suc n) (a ∷ b ∷ rest) = elim (Bool-cases (ltb b.1 a.1)) [
  | inl e ↦ rw e (Permᴰ.trans (Permᴰ.cons refl (bubble-perm n (a ∷ rest))) (Permᴰ.swap refl refl))
  | inr e ↦ rw e (Permᴰ.cons refl (bubble-perm n (b ∷ rest)))
]

bubble_sort-perm : (n : ℕ) (es : List Entry) → Permᴰ (bubble_sort n es) es
unfolding bubble_sort
bubble_sort-perm zero es = Permᴰ.refl es
bubble_sort-perm (suc n) es =
    Permᴰ.trans (bubble_sort-perm n (bubble (suc n) es)) (bubble-perm (suc n) es)

earlier : Entry → Entry → Entry
earlier x y = if ltb y.1 x.1 then y else x

later : Entry → Entry → Entry
later x y = if ltb y.1 x.1 then x else y

later-le : (x y : Entry) → (x.1 ≤ (later x y).1) × ((earlier x y).1 ≤ (later x y).1)
unfolding earlier later
later-le x y = ground arith

-- One round along `xs` with `x` in hand: what is passed, and the latest entry.
passed : Entry → List Entry → List Entry
passed x [] = []
passed x (y ∷ ys) = earlier x y ∷ passed (later x y) ys

latest : Entry → List Entry → Entry
latest x [] = x
latest x (y ∷ ys) = latest (later x y) ys

bubble-passed :
    (x : Entry) (xs back : List Entry)
    → bubble (length xs) (x ∷ (xs ++ back)) ≡ passed x xs ++ (latest x xs ∷ back)
unfolding bubble passed latest earlier later
bubble-passed x [] back = refl
bubble-passed x (y ∷ ys) back = ap (◌∷◌ (earlier x y)) (bubble-passed (later x y) ys back)

length-passed : (x : Entry) (xs : List Entry) → length (passed x xs) ≡ length xs
unfolding passed
length-passed x [] = refl
length-passed x (y ∷ ys) = ap suc (length-passed (later x y) ys)

either : (P : Entry → Type 0) (x y : Entry) → P x → P y → P (earlier x y) × P (later x y)
unfolding earlier later
either P x y h k = elim (ltb y.1 x.1) as (λ b. P (if b then y else x) × P (if b then x else y)) [
  | true ↦ (k, h)
  | false ↦ (h, k)
]

-- What holds of all entries holds of those passed and of the latest.
passed-All :
    (P : Entry → Type 0) (x : Entry) (xs : List Entry)
    → P x
    → All P xs
    → All P (passed x xs) × P (latest x xs)
unfolding passed latest
passed-All P x [] h hs = (tt, h)
passed-All P x (y ∷ ys) h hs =
    let e = either P x y h hs.0 in let r = passed-All P (later x y) ys e.1 hs.1 in ((e.0, r.0), r.1)

latest-le :
    (x : Entry) (xs : List Entry)
    → (x.1 ≤ (latest x xs).1) × All (λ e. e.1 ≤ (latest x xs).1) (passed x xs)
unfolding passed latest
latest-le x [] = (omega arith, tt)
latest-le x (y ∷ ys) =
    let r = latest-le (later x y) ys in let l = later-le x y in (omega arith, (omega arith, r.1))

-- After the rounds, the front is sorted too.
bubble_sort-Sorted :
    (n : ℕ) (front back : List Entry)
    → length front ≡ suc n
    → Sorted back
    → All (λ a. All (NotBefore a) back) front
    → Sorted (bubble_sort n (front ++ back))
unfolding bubble_sort
bubble_sort-Sorted n [] back l s h = absurd (omega arith)
bubble_sort-Sorted zero (a ∷ []) back l s h = (h.0, s)
bubble_sort-Sorted zero (a ∷ b ∷ xs) back l s h = absurd (omega arith)
bubble_sort-Sorted (suc n) (x ∷ xs) back l s h =
    let k : length xs ≡ suc n = omega arith in
    let b = passed-All (λ a. All (NotBefore a) back) x xs h.0 h.1 in
    let q : bubble (suc n) (x ∷ (xs ++ back)) ≡ passed x xs ++ (latest x xs ∷ back) =
      ap (λ m. bubble m (x ∷ (xs ++ back))) (sym k) ∙ bubble-passed x xs back in
    rw q (
      bubble_sort-Sorted n (passed x xs) (latest x xs ∷ back) (length-passed x xs ∙ k) (b.1, s)
        (All-both (λ a. a.1 ≤ (latest x xs).1) (λ a. All (NotBefore a) back) (passed x xs)
          (latest-le x xs).1 b.0))

All-trivial : (es : List Entry) → All (λ a. All (NotBefore a) []) es
All-trivial [] = tt
All-trivial (e ∷ es) = (tt, All-trivial es)

bubble_sort_orders : (es : List Entry) → Sorted (bubble_sort (length es - 1) es)
unfolding bubble_sort
bubble_sort_orders [] = tt
bubble_sort_orders (e ∷ es) =
    let n : length es ≡ suc (length es) - 1 = omega arith in
    rw (← n) (
      rw (sym (append-nil (e ∷ es)))
        (bubble_sort-Sorted (length es) (e ∷ es) [] refl tt (All-trivial (e ∷ es))))

-- The oldest entries of a tracked metric are the front of all its entries in the order of their
-- timestamps. `range` visits every entry once.
pub get_oldest_entries_lem :
    {V : Type 0} (env : Env V) (range : IsRange env) (metrics : List (Str × List Entry))
    (name : Str) (count : ℕ) (labels : List Entry)
    → lookup Str-discrete name metrics ≡ some labels
    → (sorted : List Entry) × (get_oldest_entries env metrics name count
        ≡ map (λ e. e.0) (take count sorted))
      × Sorted sorted
      × Permᴰ sorted labels
unfolding get_oldest_entries
get_oldest_entries_lem env range metrics name count labels e =
    let es = env.range labels in
    (
      bubble_sort (length es - 1) es,
      rw (e, get_oldest_entries),
      bubble_sort_orders es,
      Permᴰ.trans (bubble_sort-perm (length es - 1) es) (range labels),
    )
