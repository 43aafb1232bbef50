-- ===== src/Common/Pointwise.antt =====
-- The elements of a list, and two lists whose elements are related one by one.
use mathlib.Core.Path.{◌≡◌}
use mathlib.Core.Logic.{◌⊎◌}
use mathlib.Core.List.{List, [], ◌∷◌, map}

-- An element of a list.
abbrev pub Member : {A : Type 0} → A → List A → Type 0
Member a [] = ⊥
Member a (x ∷ xs) = (a ≡ x) ⊎ Member a xs

module _ {ℓ} {A : Type ℓ} (R : A → A → Type 0) where
  abbrev pub Pointwise : List A → List A → Type 0
  Pointwise [] [] = Unit
  Pointwise [] (y ∷ ys) = ⊥
  Pointwise (x ∷ xs) [] = ⊥
  Pointwise (x ∷ xs) (y ∷ ys) = R x y × Pointwise xs ys

  pub Pointwise-map : (f : A → A) → ((x : A) → R x (f x)) → (xs : List A) → Pointwise xs (map f xs)
  Pointwise-map f h [] = tt
  Pointwise-map f h (x ∷ xs) = (h x, Pointwise-map f h xs)

  pub Pointwise-self : ((x : A) → R x x) → (xs : List A) → Pointwise xs xs
  Pointwise-self h [] = tt
  Pointwise-self h (x ∷ xs) = (h x, Pointwise-self h xs)
