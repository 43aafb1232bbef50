-- ===== src/Manager/Suffix.antt =====
-- The ends of lists that trimming leaves (addVersion of nrdot-config-engine/manager.go).
use nrdot_host.Common.{
  ℕ, zero, suc, ◌+◌, ◌-◌, ◌≡◌, refl, sym, ap, ◌∙◌, List, [], ◌∷◌, ◌++◌, map, length, length-append,
  drop, ltb, ltb-false→le, if_split, Str, arith,
}
use nrdot_host.Engine.Log.{suffix, drop-append, drop_nil, length-drop, map-drop, length-map}
use nrdot_host.Manager.{Version, ConfigVersion, ChangeEvent, trim_versions}

drop-drop {ℓ} : {A : Type ℓ} (i j k : ℕ) (xs : List A) → i + j ≡ k → drop j (drop i xs) ≡ drop k xs
drop-drop zero j k xs h = ap (λ n. drop n xs) (let p : j ≡ k = omega (arith, h) in p)
drop-drop (suc i) j k [] h = drop_nil j ∙ sym (drop_nil k)
drop-drop (suc i) j zero (x ∷ xs) h = absurd (omega (arith, h))
drop-drop (suc i) j (suc k) (x ∷ xs) h = drop-drop i j k xs (omega (arith, h))

-- The last `n`, one more, and of these the last `n`: the last `n` of all.
pub suffix-suffix {ℓ} :
    {A : Type ℓ} (n : ℕ) (xs : List A) (x : A)
    → suffix n (suffix n xs ++ (x ∷ [])) ≡ suffix n (xs ++ (x ∷ []))
suffix-suffix n xs x =
    let i = length xs - n in
    let p : suffix n xs ++ (x ∷ []) ≡ drop i (xs ++ (x ∷ [])) =
      sym (drop-append i xs (x ∷ []) (omega arith)) in
    ap (suffix n) p
    ∙ drop-drop i (length (drop i (xs ++ (x ∷ []))) - n) (length (xs ++ (x ∷ [])) - n)
        (xs ++ (x ∷ [])) (omega (arith, length-drop i (xs ++ (x ∷ [])), length-append xs (x ∷ [])))

pub map-suffix {ℓ κ} :
    {A : Type ℓ} {B : Type κ} (f : A → B) (n : ℕ) (xs : List A)
    → map f (suffix n xs) ≡ suffix n (map f xs)
map-suffix f n xs =
    map-drop f (length xs - n) xs ∙ ap (λ l. drop (l - n) (map f xs)) (sym (length-map f xs))

pub trim_versions_lem : (n : ℕ) (vs : List ConfigVersion) → trim_versions n vs ≡ suffix n vs
unfolding trim_versions
trim_versions_lem n vs =
    if_split (λ r. r ≡ suffix n vs) (ltb n (length vs)) _ _ (λ b. refl)
      (λ b. let z : 0 ≡ length vs - n = omega (arith, ltb-false→le _ _ b) in ap (λ k. drop k vs) z)

-- A configuration that was generated: its path and its version.
abbrev pub of_version : ConfigVersion → Str × Version
of_version v = (v.config_path, v.version)

abbrev pub of_event : ChangeEvent → Str × Version
of_event e = (e.config_path, e.new_version)
