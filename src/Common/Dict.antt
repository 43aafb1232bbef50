-- ===== src/Common/Dict.antt =====
-- Go maps as association lists, over keys with a decidable equality.
use mathlib.Core.List.{List, [], ◌∷◌, ◌++◌, lookup}
use mathlib.Core.Logic.{ite, if_pos, if_neg, ◌≢◌}
use mathlib.Core.Bool.{Bool, true, false}
use mathlib.Core.Option.{Option, none, some}
use mathlib.Core.Path.{◌≡◌, refl, subst}
use Prim.Native.Nat.{ℕ, suc, ◌+◌, ◌≤◌}
use native.Mathlib.Omega.{arith}
use nrdot_host.Common.Lists.{length, All, All-map_lem}

abbrev pub is_none {ℓ} : {A : Type ℓ} → Option A → Bool
is_none none = true
is_none (some _) = false

-- `m[k]` of a missing key is the zero value.
abbrev pub or_else {ℓ} : {A : Type ℓ} → Option A → A → A
or_else none d = d
or_else (some a) d = a

module _ {ℓ} {K V : Type ℓ} (dec : Discrete K) where
  -- `m[k] = v`
  unfoldable pub insert : K → V → List (K × V) → List (K × V)
  insert k v [] = (k, v) ∷ []
  insert k v ((j, w) ∷ m) = ite (dec k j) ((k, v) ∷ m) ((j, w) ∷ insert k v m)

  -- `delete(m, k)`
  unfoldable pub delete : K → List (K × V) → List (K × V)
  delete k [] = []
  delete k ((j, w) ∷ m) = let r = delete k m in ite (dec k j) r ((j, w) ∷ r)

  -- A key occurs once.
  abbrev pub Distinct : List (K × V) → Type ℓ
  Distinct [] = Unit
  Distinct ((k, v) ∷ m) = (lookup dec k m ≡ none) × Distinct m

  -- What `lookup` finds after a write.
  pub lookup-insert :
      (j k : K) (v : V) (m : List (K × V))
      → lookup dec j (insert k v m) ≡ ite (dec j k) (some v) (lookup dec j m)
  unfolding lookup insert
  lookup-insert j k v [] = ground arith
  lookup-insert j k v ((i, w) ∷ m) = ground (arith, lookup-insert j k v m)

  pub lookup-insert_self : (k : K) (v : V) (m : List (K × V)) → lookup dec k (insert k v m) ≡ some v
  lookup-insert_self k v m = rw lookup-insert (if_pos (dec k k) refl _ _)

  pub lookup-insert_ne :
      (j k : K) (v : V) (m : List (K × V)) → j ≢ k → lookup dec j (insert k v m) ≡ lookup dec j m
  lookup-insert_ne j k v m h = rw lookup-insert (if_neg (dec j k) h _ _)

  -- What `lookup` finds after a deletion.
  pub lookup-delete :
      (j k : K) (m : List (K × V)) → lookup dec j (delete k m) ≡ ite (dec j k) none (lookup dec j m)
  unfolding lookup delete
  lookup-delete j k [] = ground arith
  lookup-delete j k ((i, w) ∷ m) = ground (arith, lookup-delete j k m)

  pub lookup-delete_self : (k : K) (m : List (K × V)) → lookup dec k (delete k m) ≡ none
  lookup-delete_self k m = rw lookup-delete (if_pos (dec k k) refl _ _)

  pub lookup-delete_ne :
      (j k : K) (m : List (K × V)) → j ≢ k → lookup dec j (delete k m) ≡ lookup dec j m
  lookup-delete_ne j k m h = rw lookup-delete (if_neg (dec j k) h _ _)

  pub delete_absent : (k : K) (m : List (K × V)) → lookup dec k m ≡ none → delete k m ≡ m
  unfolding lookup delete
  delete_absent k [] h = refl
  delete_absent k ((i, w) ∷ m) h = ground (arith, delete_absent k m)

  pub insert_new :
      (k : K) (v : V) (m : List (K × V)) → lookup dec k m ≡ none → insert k v m ≡ m ++ ((k, v) ∷ [])
  unfolding lookup insert
  insert_new k v [] h = refl
  insert_new k v ((i, w) ∷ m) h = ground (arith, insert_new k v m)

  pub insert-Distinct : (k : K) (v : V) (m : List (K × V)) → Distinct m → Distinct (insert k v m)
  unfolding lookup insert
  insert-Distinct k v [] h = (refl, tt)
  insert-Distinct k v ((i, w) ∷ m) h =
      elim (dec k i) as (λ d. Distinct (ite d ((k, v) ∷ m) ((i, w) ∷ insert k v m))) [
        | yes p ↦ (rw p h.0, h.1)
        | no p ↦ (ground (arith, lookup-insert i k v m), insert-Distinct k v m h.1)
      ]

  pub delete-Distinct : (k : K) (m : List (K × V)) → Distinct m → Distinct (delete k m)
  unfolding lookup delete
  delete-Distinct k [] h = tt
  delete-Distinct k ((i, w) ∷ m) h =
      elim (dec k i) as (λ d. Distinct (ite d (delete k m) ((i, w) ∷ delete k m))) [
        | yes p ↦ delete-Distinct k m h.1
        | no p ↦ (ground (arith, lookup-delete i k m), delete-Distinct k m h.1)
      ]

  -- How many keys there are after a write of a new key, of an old one, and after a deletion.
  pub length-insert_new :
      (k : K) (v : V) (m : List (K × V))
      → lookup dec k m ≡ none
      → length (insert k v m) ≡ suc (length m)
  unfolding lookup insert
  length-insert_new k v [] h = refl
  length-insert_new k v ((i, w) ∷ m) h = ground (arith, length-insert_new k v m)

  pub length-insert_old :
      (k : K) (v w : V) (m : List (K × V))
      → lookup dec k m ≡ some w
      → length (insert k v m) ≡ length m
  unfolding lookup insert
  length-insert_old k v w [] h = absurd (ground arith)
  length-insert_old k v w ((i, u) ∷ m) h = ground (arith, length-insert_old k v w m)

  pub length-delete_old :
      (k : K) (v : V) (m : List (K × V))
      → Distinct m
      → lookup dec k m ≡ some v
      → suc (length (delete k m)) ≡ length m
  unfolding lookup delete
  length-delete_old k v [] d h = absurd (ground arith)
  length-delete_old k v ((i, u) ∷ m) d h =
      ground (arith, length-delete_old k v m d.1, delete_absent k m)

  module _ (size : V → ℕ) where
    -- The sizes of all values together.
    abbrev pub total : List (K × V) → ℕ
    total [] = 0
    total ((k, v) ∷ m) = size v + total m

    -- The size of the value at a key, 0 where there is none.
    abbrev pub size_at : Option V → ℕ
    size_at none = 0
    size_at (some v) = size v

    pub total-insert :
        (k : K) (v : V) (m : List (K × V))
        → total (insert k v m) + size_at (lookup dec k m) ≡ total m + size v
    unfolding lookup insert
    total-insert k v [] = omega arith
    total-insert k v ((i, w) ∷ m) = ground (arith, total-insert k v m)

    pub size_at-le-total : (k : K) (m : List (K × V)) → size_at (lookup dec k m) ≤ total m
    unfolding lookup
    size_at-le-total k [] = omega arith
    size_at-le-total k ((i, w) ∷ m) = ground (arith, size_at-le-total k m)

    pub total-delete :
        (k : K) (m : List (K × V))
        → Distinct m
        → total (delete k m) + size_at (lookup dec k m) ≡ total m
    unfolding lookup delete
    total-delete k [] d = omega arith
    total-delete k ((i, w) ∷ m) d = ground (arith, total-delete k m d.1, delete_absent k m)

module _ {ℓ κ} {K V : Type ℓ} (dec : Discrete K) (P : V → Type κ) where
  -- Every value of the map has the property.
  abbrev pub AllValues : List (K × V) → Type κ
  AllValues [] = Unit
  AllValues ((k, v) ∷ m) = P v × AllValues m

  pub AllValues-lookup :
      (k : K) (v : V) (m : List (K × V)) → AllValues m → lookup dec k m ≡ some v → P v
  unfolding lookup
  AllValues-lookup k v [] h = λ e. cc
  AllValues-lookup k v ((i, w) ∷ m) h =
      elim (dec k i) as (λ d. ite d (some w) (lookup dec k m) ≡ some v → P v) [
        | yes p ↦ λ e. let q : w ≡ v = cc in subst P q h.0
        | no p ↦ AllValues-lookup k v m h.1
      ]

  pub AllValues-insert :
      (k : K) (v : V) (m : List (K × V)) → P v → AllValues m → AllValues (insert dec k v m)
  unfolding insert
  AllValues-insert k v [] h a = (h, tt)
  AllValues-insert k v ((i, w) ∷ m) h a =
      elim (dec k i) as (λ d. AllValues (ite d ((k, v) ∷ m) ((i, w) ∷ insert dec k v m))) [
        | yes p ↦ (h, a.1)
        | no p ↦ (a.0, AllValues-insert k v m h a.1)
      ]

  pub AllValues-delete : (k : K) (m : List (K × V)) → AllValues m → AllValues (delete dec k m)
  unfolding delete
  AllValues-delete k [] a = tt
  AllValues-delete k ((i, w) ∷ m) a =
      elim (dec k i) as (λ d. AllValues (ite d (delete dec k m) ((i, w) ∷ delete dec k m))) [
        | yes p ↦ AllValues-delete k m a.1
        | no p ↦ (a.0, AllValues-delete k m a.1)
      ]

  pub AllValues-weaken :
      (Q : V → Type κ) (f : (v : V) → P v → Q v) (m : List (K × V))
      → AllValues m
      → elim m as (λ _. Type κ) [ [] ↦ Unit | e ∷ (r → ih) ↦ Q e.1 × ih ]
  AllValues-weaken Q f [] a = tt
  AllValues-weaken Q f ((i, w) ∷ m) a = (f w a.0, AllValues-weaken Q f m a.1)

  pub AllValues-entries :
      (Q : V → Type κ) (f : (v : V) → P v → Q v) (m : List (K × V))
      → AllValues m
      → All (λ (e : K × V). Q e.1) m
  AllValues-entries Q f [] a = tt
  AllValues-entries Q f ((i, w) ∷ m) a = (f w a.0, AllValues-entries Q f m a.1)

module _ {ℓ} {K V : Type ℓ} (dec : Discrete K) where
  found_behind :
      (x : K × V) (m : List (K × V)) (k : K)
      → is_none (lookup dec k m) ≡ false
      → is_none (lookup dec k (x ∷ m)) ≡ false
  unfolding lookup
  found_behind (i, w) m k h = ground arith

  -- Every key of the map is found in it.
  pub keys_found : (m : List (K × V)) → All (λ (e : K × V). is_none (lookup dec e.0 m) ≡ false) m
  unfolding lookup
  keys_found [] = tt
  keys_found ((i, w) ∷ m) =
      (ground arith, All-map_lem _ _ (λ e. found_behind (i, w) m e.0) m (keys_found m))
