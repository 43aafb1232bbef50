-- ===== src/Cap/Env.antt =====
-- What nrcap takes from outside: the clock, the random source, the hash, pdata and the runtime.
use mathlib.Core.List.{Permᴰ}
use nrdot_host.Common.{ℕ, ◌≡◌, List, Bool, Option, some, Str, All, remove_where}
use nrdot_host.Cap.Metric.{DataPoint, Metric}

-- `RemoveIf` of a pdata slice. The callback is shown the slice as it stands when it is called,
-- since the code reads the slice in there; `none` is a panic.
abbrev pub RemoveIf : Type 0 → Type 0
RemoveIf A = (List A → A → Option Bool) → List A → Option (List A)

pub record Env (V : Type 0) : Type 0 where
  -- pcommon.Value.AsString, and the value that PutStr stores
  pub as_string : V → Str
  pub of_string : Str → V
  -- xxhash's Sum64 of all that was written
  pub sum64 : Str → ℕ
  -- the readings of time.Now(), and of rand.Float64() in steps of 2^-53, in their order
  pub now : ℕ → ℕ
  pub rand : ℕ → ℕ
  -- the order in which `range` visits the entries of a map
  pub range : List (ℕ × ℕ) → List (ℕ × ℕ)
  pub remove_points : RemoveIf (DataPoint V)
  pub remove_metrics : RemoveIf (Metric V)

-- The documented behaviour of `RemoveIf`: it removes the elements for which the callback says so,
-- and whatever the callback says, it only removes.
pub record IsRemoveIf {A : Type 0} (remove_if : RemoveIf A) : Type 1 where
  pub removes :
      (f : List A → A → Option Bool) (p : A → Bool) (xs : List A)
      → ((s : List A) (x : A) → f s x ≡ some (p x))
      → remove_if f xs ≡ some (remove_where p xs)
  pub only_removes :
      (f : List A → A → Option Bool) (P : A → Type 0) (xs ys : List A)
      → remove_if f xs ≡ some ys
      → All P xs
      → All P ys

-- `range` visits every entry once.
abbrev pub IsRange : {V : Type 0} → Env V → Type 0
IsRange env = (m : List (ℕ × ℕ)) → Permᴰ (env.range m) m
