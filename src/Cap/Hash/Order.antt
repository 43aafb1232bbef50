-- ===== src/Cap/Hash/Order.antt =====
-- nrcap/tracker.go, hashDataPointLabels: the hash does not depend on the order of the labels.
use mathlib.Core.List.Permᴰ
use mathlib.Core.List.{lookup, Permᴰ}
use nrdot_host.Common.Perms.{All-perm, length-perm}
use nrdot_host.Common.{
  ℕ, zero, suc, ◌+◌, ◌≡◌, ◌≤◌, ◌<◌, refl, sym, ap, subst, ◌∙◌, ite, List, [], ◌∷◌, ◌++◌, Bool, true,
  false, arith, length, if◌then◌else◌, Bool-cases, inl, inr, All, Str, Str-discrete, codes,
}
use nrdot_host.Cap.Metric.{Attributes}
use nrdot_host.Cap.Env.{Env}
use nrdot_host.Cap.Hash.{
  str_lt, sweep, sort_from, sort_keys, keys, write_labels, label_text, hash_data_point_labels,
}

str_lt_irrefl : (a : Str) → str_lt a a ≡ false
unfolding str_lt
str_lt_irrefl [] = refl
str_lt_irrefl (x ∷ xs) = ground (arith, str_lt_irrefl xs)

str_lt_antisym : (a b : Str) → str_lt a b ≡ false → str_lt b a ≡ false → a ≡ b
unfolding str_lt
str_lt_antisym [] [] h k = refl
str_lt_antisym [] (y ∷ ys) h k = absurd (ground (arith, h))
str_lt_antisym (x ∷ xs) [] h k = absurd (ground (arith, k))
str_lt_antisym (x ∷ xs) (y ∷ ys) h k =
    let e : x ≡ y = ground (arith, h, k) in
    let es : xs ≡ ys = str_lt_antisym xs ys (ground (arith, h, k)) (ground (arith, h, k)) in cc

str_lt_asym : (a b : Str) → str_lt a b ≡ true → str_lt b a ≡ false
unfolding str_lt
str_lt_asym [] [] h = refl
str_lt_asym [] (y ∷ ys) h = refl
str_lt_asym (x ∷ xs) [] h = absurd (ground (arith, h))
str_lt_asym (x ∷ xs) (y ∷ ys) h = ground (arith, str_lt_asym xs ys)

-- `a` is not after `b`.
abbrev NotAfter : Str → Str → Type 0
NotAfter a b = str_lt b a ≡ false

NotAfter-trans : (a b c : Str) → NotAfter a b → NotAfter b c → NotAfter a c
unfolding str_lt
NotAfter-trans [] b c h k = refl
NotAfter-trans (x ∷ xs) [] c h k = absurd (ground (arith, h))
NotAfter-trans (x ∷ xs) (y ∷ ys) [] h k = absurd (ground (arith, k))
NotAfter-trans (x ∷ xs) (y ∷ ys) (z ∷ zs) h k = ground (arith, h, k, NotAfter-trans xs ys zs)

abbrev Sorted : List Str → Type 0
Sorted [] = Unit {0}
Sorted (k ∷ ks) = All (NotAfter k) ks × Sorted ks

-- The smaller key comes to the front.
sweep-perm : (key : Str) (ks : List Str) → Permᴰ ((sweep key ks).0 ∷ (sweep key ks).1) (key ∷ ks)
unfolding sweep
sweep-perm key [] = Permᴰ.refl (key ∷ [])
sweep-perm key (k ∷ ks) = elim (Bool-cases (str_lt k key)) [
  | inl e ↦ rw e (Permᴰ.trans (Permᴰ.swap refl refl) (Permᴰ.cons refl (sweep-perm k ks)))
  | inr e ↦ rw e (
      Permᴰ.trans (Permᴰ.swap refl refl)
        (Permᴰ.trans (Permᴰ.cons refl (sweep-perm key ks)) (Permᴰ.swap refl refl)))
]

sweep_least :
    (key : Str) (ks : List Str)
    → NotAfter (sweep key ks).0 key × All (NotAfter (sweep key ks).0) (sweep key ks).1
unfolding sweep
sweep_least key [] = (str_lt_irrefl key, tt)
sweep_least key (k ∷ ks) = go (str_lt k key) refl (λ x. sweep_least x ks)
  where
    go :
        (c : Bool)
        → str_lt k key ≡ c
        → ((x : Str) → NotAfter (sweep x ks).0 x × All (NotAfter (sweep x ks).0) (sweep x ks).1)
        → NotAfter (sweep (if c then k else key) ks).0 key
          × All
              (NotAfter (sweep (if c then k else key) ks).0)
              ((if c then key else k) ∷ (sweep (if c then k else key) ks).1)
    go true e least =
        let (a, b) = least k in
        let c = NotAfter-trans (sweep k ks).0 k key a (str_lt_asym k key e) in (c, (c, b))
    go false e least = let (a, b) = least key in (a, (NotAfter-trans (sweep key ks).0 key k a e, b))

sort_from-perm : (n : ℕ) (ks : List Str) → Permᴰ (sort_from n ks) ks
unfolding sort_from
sort_from-perm zero ks = Permᴰ.refl ks
sort_from-perm (suc n) [] = Permᴰ.nil
sort_from-perm (suc n) (key ∷ ks) =
    Permᴰ.trans (Permᴰ.cons refl (sort_from-perm n (sweep key ks).1)) (sweep-perm key ks)

sort_from-Sorted : (n : ℕ) (ks : List Str) → length ks ≤ n → Sorted (sort_from n ks)
unfolding sort_from
sort_from-Sorted zero [] h = tt
sort_from-Sorted zero (k ∷ ks) h = absurd (omega (arith, h))
sort_from-Sorted (suc n) [] h = tt
sort_from-Sorted (suc n) (key ∷ ks) h =
    let rest = (sweep key ks).1 in
    let same : suc (length rest) ≡ suc (length ks) = length-perm (sweep-perm key ks) in
    (
      All-perm (NotAfter (sweep key ks).0) (Permᴰ.symm (sort_from-perm n rest))
          (sweep_least key ks).1,
      sort_from-Sorted n rest (omega (arith, same, h)),
    )

-- How often a key occurs.
abbrev occurrences : Str → List Str → ℕ
occurrences k [] = 0
occurrences k (j ∷ js) = ite (Str-discrete k j) 1 0 + occurrences k js

occurrences-perm : (k : Str) {xs ys : List Str} → Permᴰ xs ys → occurrences k xs ≡ occurrences k ys
occurrences-perm k Permᴰ.nil = refl
occurrences-perm k (Permᴰ.cons e p) = rw (e, occurrences-perm k p) refl
occurrences-perm k (Permᴰ.swap e f) = rw (e, f) (omega arith)
occurrences-perm k (Permᴰ.trans p q) = occurrences-perm k p ∙ occurrences-perm k q

All-occurrences :
    (P : Str → Type 0) (k : Str) (ks : List Str) → 0 < occurrences k ks → All P ks → P k
All-occurrences P k [] h a = absurd (omega (arith, h))
All-occurrences P k (j ∷ js) h (p, a) = elim (Str-discrete k j) [
  | yes e ↦ subst P (sym e) p
  | no e ↦ All-occurrences P k js (ground (arith, h, e)) a
]

occurs : (k : Str) (ks : List Str) → 0 < occurrences k (k ∷ ks)
occurs k ks = ground arith

Sorted-unique :
    (xs ys : List Str)
    → Sorted xs
    → Sorted ys
    → ((k : Str) → occurrences k xs ≡ occurrences k ys)
    → xs ≡ ys
Sorted-unique [] [] s t h = refl
Sorted-unique [] (y ∷ ys) s t h = absurd (omega (arith, h y, occurs y ys))
Sorted-unique (x ∷ xs) [] s t h = absurd (omega (arith, h x, occurs x xs))
Sorted-unique (x ∷ xs) (y ∷ ys) (a, s) (b, t) h =
    let there : 0 < occurrences x (y ∷ ys) = subst (λ n. 0 < n) (h x) (occurs x xs) in
    let here : 0 < occurrences y (x ∷ xs) = subst (λ n. 0 < n) (sym (h y)) (occurs y ys) in
    let e : x ≡ y =
      str_lt_antisym x y (All-occurrences (NotAfter y) x (y ∷ ys) there (str_lt_irrefl y, b))
        (All-occurrences (NotAfter x) y (x ∷ xs) here (str_lt_irrefl x, a)) in
    let rest : xs ≡ ys = Sorted-unique xs ys s t (λ k. behind k e (h k)) in cc
  where
    behind :
        (k : Str)
        → x ≡ y
        → occurrences k (x ∷ xs) ≡ occurrences k (y ∷ ys)
        → occurrences k xs ≡ occurrences k ys
    behind k e q =
        let p =
          subst
            (λ z.
              ite (Str-discrete k z) 1 0 + occurrences k xs
              ≡ ite (Str-discrete k y) 1 0 + occurrences k ys)
            e q in
        omega (arith, p)

-- Two orders of the same keys are sorted alike.
sort_keys-perm : {xs ys : List Str} → Permᴰ xs ys → sort_keys xs ≡ sort_keys ys
unfolding sort_keys
sort_keys-perm {xs} {ys} p =
    Sorted-unique (sort_from (length xs) xs) (sort_from (length ys) ys)
      (sort_from-Sorted (length xs) xs (omega arith))
      (sort_from-Sorted (length ys) ys (omega arith))
      (λ k. occurrences-perm k (
        Permᴰ.trans (sort_from-perm (length xs) xs)
          (Permᴰ.trans p (Permᴰ.symm (sort_from-perm (length ys) ys)))))

module _ {V : Type 0} (env : Env V) where
  write_labels_same :
      (a b : Attributes V) (ks : List Str)
      → ((k : Str) → lookup Str-discrete k a ≡ lookup Str-discrete k b)
      → write_labels env a ks ≡ write_labels env b ks
  unfolding write_labels
  write_labels_same a b [] h = refl
  write_labels_same a b (k ∷ ks) h = rw (h k, write_labels_same a b ks h) refl

  -- Labels in another order give the same hash: attributes with the same keys, and the same value for
  -- each key.
  pub hash_data_point_labels-perm :
      (metric_name : Str) (a b : Attributes V)
      → Permᴰ (keys a) (keys b)
      → ((k : Str) → lookup Str-discrete k a ≡ lookup Str-discrete k b)
      → hash_data_point_labels env metric_name a ≡ hash_data_point_labels env metric_name b
  unfolding hash_data_point_labels label_text
  hash_data_point_labels-perm metric_name a b p h =
      ap (λ text. env.sum64 (metric_name ++ (codes "|" ++ text)))
        (ap (write_labels env a) (sort_keys-perm p) ∙ write_labels_same a b (sort_keys (keys b)) h)
