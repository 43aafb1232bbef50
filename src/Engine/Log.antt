-- ===== src/Engine/Log.antt =====
-- The engine's history against the log of all configurations that were ever applied.
use nrdot_host.Common.{
  ℕ, zero, suc, ◌+◌, ◌-◌, ◌≤◌, ◌<◌, ◌≡◌, refl, sym, ap, subst, ◌∙◌, List, [], ◌∷◌, ◌++◌, map,
  length, drop, get_elem?, length-append, ltb, ltb→lt, ltb-false→le, true, false, if_split, none,
  some, if◌then◌else◌, ℕ_discrete, arith,
}
use mathlib.Core.List.{lookup}
use nrdot_host.Common.Dict.{insert, delete, delete_absent, insert_new}
use nrdot_host.Engine.{
  EngineV2, ConfigVersion, VersionRecord, ConfigUpdate, GeneratedConfig, drop_oldest, trim,
  new_record, append_record, add_version,
}

abbrev pub suffix {ℓ} : {A : Type ℓ} → ℕ → List A → List A
suffix n xs = drop (length xs - n) xs

abbrev pub tail {ℓ} : {A : Type ℓ} → List A → List A
tail [] = []
tail (x ∷ xs) = xs

pub drop-append {ℓ} :
    {A : Type ℓ} (n : ℕ) (xs ys : List A) → n ≤ length xs → drop n (xs ++ ys) ≡ drop n xs ++ ys
drop-append zero xs ys h = refl
drop-append (suc n) [] ys h = absurd (omega (arith, h))
drop-append (suc n) (x ∷ xs) ys h = drop-append n xs ys (omega (arith, h))

pub tail-drop {ℓ} : {A : Type ℓ} (n : ℕ) (xs : List A) → tail (drop n xs) ≡ drop (suc n) xs
tail-drop zero [] = refl
tail-drop (suc n) [] = refl
tail-drop zero (x ∷ xs) = refl
tail-drop (suc n) (x ∷ xs) = tail-drop n xs

pub drop_nil {ℓ} : {A : Type ℓ} (n : ℕ) → drop {A = A} n [] ≡ []
drop_nil zero = refl
drop_nil (suc n) = refl

pub length-drop {ℓ} : {A : Type ℓ} (n : ℕ) (xs : List A) → length (drop n xs) ≡ length xs - n
length-drop zero xs = omega arith
length-drop (suc n) [] = omega arith
length-drop (suc n) (x ∷ xs) = omega (arith, length-drop n xs)

pub map-drop {ℓ κ} :
    {A : Type ℓ} {B : Type κ} (f : A → B) (n : ℕ) (xs : List A)
    → map f (drop n xs) ≡ drop n (map f xs)
map-drop f zero xs = refl
map-drop f (suc n) [] = refl
map-drop f (suc n) (x ∷ xs) = map-drop f n xs

pub length-map {ℓ κ} :
    {A : Type ℓ} {B : Type κ} (f : A → B) (xs : List A) → length (map f xs) ≡ length xs
length-map f [] = refl
length-map f (x ∷ xs) = ap suc (length-map f xs)

pub map-append {ℓ κ} :
    {A : Type ℓ} {B : Type κ} (f : A → B) (xs ys : List A) → map f (xs ++ ys) ≡ map f xs ++ map f ys
map-append f [] ys = refl
map-append f (x ∷ xs) ys = ap (λ r. f x ∷ r) (map-append f xs ys)

-- At most `n` of them, without the first where it is one too many.
abbrev pub trimmed {ℓ} : {A : Type ℓ} → ℕ → List A → List A
trimmed n xs = if ltb n (length xs) then tail xs else xs

suffix-append {ℓ} :
    {A : Type ℓ} (n : ℕ) (xs : List A) (x : A)
    → suffix n xs ++ (x ∷ []) ≡ drop (length xs - n) (xs ++ (x ∷ []))
suffix-append n xs x = sym (drop-append (length xs - n) xs (x ∷ []) (omega arith))

length-suffix {ℓ} :
    {A : Type ℓ} (n : ℕ) (xs : List A) (x : A)
    → length (suffix n xs ++ (x ∷ [])) ≡ suc (length xs - (length xs - n))
length-suffix n xs x =
    length-append (suffix n xs) (x ∷ []) ∙ omega (arith, length-drop (length xs - n) xs)

pub trimmed-suffix {ℓ} :
    {A : Type ℓ} (n : ℕ) (xs : List A) (x : A)
    → trimmed n (suffix n xs ++ (x ∷ [])) ≡ suffix n (xs ++ (x ∷ []))
trimmed-suffix n xs x =
    if_split (λ ys. ys ≡ suffix n (xs ++ (x ∷ []))) (ltb n (length (suffix n xs ++ (x ∷ [])))) _ _
      (λ e.
        let k : suc (length xs - n) ≡ length (xs ++ (x ∷ [])) - n =
          omega (arith, ltb→lt n _ e, length-suffix n xs x, length-append xs (x ∷ [])) in
        ap tail (suffix-append n xs x)
        ∙ tail-drop (length xs - n) (xs ++ (x ∷ []))
        ∙ ap (λ k. drop k (xs ++ (x ∷ []))) k)
      (λ e.
        let k : length xs - n ≡ length (xs ++ (x ∷ [])) - n =
          omega (arith, ltb-false→le n _ e, length-suffix n xs x, length-append xs (x ∷ [])) in
        suffix-append n xs x ∙ ap (λ k. drop k (xs ++ (x ∷ []))) k)

abbrev pub keyed : List VersionRecord → List (ℕ × VersionRecord)
keyed = map (λ (r : VersionRecord). (r.version.version, r))

abbrev pub versions_of : List VersionRecord → List ConfigVersion
versions_of = map (λ (r : VersionRecord). r.version)

-- The versions are numbered from `n + 1` on.
abbrev pub Numbered : ℕ → List VersionRecord → Type 0
Numbered n [] = Unit
Numbered n (r ∷ rs) = (r.version.version ≡ suc n) × Numbered (suc n) rs

pub lookup-keyed_low :
    (n : ℕ) (rs : List VersionRecord) (v : ℕ)
    → Numbered n rs
    → v ≤ n
    → lookup ℕ_discrete v (keyed rs) ≡ none
unfolding lookup
lookup-keyed_low n [] v h le = refl
lookup-keyed_low n (r ∷ rs) v h le = ground (arith, lookup-keyed_low (suc n) rs v h.1, h.0, le)

pub lookup-keyed_high :
    (n : ℕ) (rs : List VersionRecord) (v : ℕ)
    → Numbered n rs
    → n + length rs < v
    → lookup ℕ_discrete v (keyed rs) ≡ none
unfolding lookup
lookup-keyed_high n [] v h le = refl
lookup-keyed_high n (r ∷ rs) v h le = ground (arith, lookup-keyed_high (suc n) rs v h.1, h.0, le)

pub lookup-keyed :
    (n : ℕ) (rs : List VersionRecord) (i : ℕ)
    → Numbered n rs
    → lookup ℕ_discrete (suc (n + i)) (keyed rs) ≡ get_elem? rs i
unfolding lookup
lookup-keyed n [] i h = refl
lookup-keyed n (r ∷ rs) zero h = ground (arith, h.0)
lookup-keyed n (r ∷ rs) (suc i) h = ground (arith, lookup-keyed (suc n) rs i h.1, h.0)

pub drop-Numbered :
    (k n : ℕ) (rs : List VersionRecord)
    → Numbered n rs
    → k ≤ length rs
    → Numbered (n + k) (drop k rs)
drop-Numbered zero n rs h le = subst (λ m. Numbered m rs) (omega arith) h
drop-Numbered (suc k) n [] h le = absurd (omega (arith, le))
drop-Numbered (suc k) n (r ∷ rs) h le =
    subst (λ m. Numbered m (drop k rs)) (omega arith)
      (drop-Numbered k (suc n) rs h.1 (omega (arith, le)))

pub append-Numbered :
    (n : ℕ) (rs : List VersionRecord) (r : VersionRecord)
    → Numbered n rs
    → r.version.version ≡ suc (n + length rs)
    → Numbered n (rs ++ (r ∷ []))
append-Numbered n [] r h e = (omega (arith, e), tt)
append-Numbered n (q ∷ rs) r h e = (h.0, append-Numbered (suc n) rs r h.1 (omega (arith, e)))

get_elem?-snoc :
    (rs : List VersionRecord) (r : VersionRecord) → get_elem? (rs ++ (r ∷ [])) (length rs) ≡ some r
get_elem?-snoc [] r = refl
get_elem?-snoc (q ∷ rs) r = get_elem?-snoc rs r

delete_first :
    (k j : ℕ) (r : VersionRecord) (m : List (ℕ × VersionRecord))
    → k ≡ j
    → lookup ℕ_discrete k m ≡ none
    → delete ℕ_discrete k ((j, r) ∷ m) ≡ m
unfolding delete
delete_first k j r m e h = ground (arith, delete_absent ℕ_discrete k m h)

module _ {C : Type 0} where
  -- The engine shows the end of the log, in its list as in its map.
  abbrev pub Refines : EngineV2 C → List VersionRecord → Type 0
  Refines e log =
      (1 ≤ e.max_versions)
      × (e.current_version ≡ length log)
      × Numbered 0 log
      × (e.versions ≡ versions_of (suffix e.max_versions log))
      × (e.version_map ≡ keyed (suffix e.max_versions log))

  abbrev Shows : EngineV2 C → ℕ → ℕ → List VersionRecord → Type 0
  Shows e m c rs =
      (e.versions ≡ versions_of rs)
      × (e.version_map ≡ keyed rs)
      × (e.max_versions ≡ m)
      × (e.current_version ≡ c)

  -- With `m` versions at most.
  abbrev pub Implements : ℕ → EngineV2 C → List VersionRecord → Type 0
  Implements m e log = (e.max_versions ≡ m) × Refines e log

  drop_oldest-Shows :
      (vs : List ConfigVersion) (e : EngineV2 C) (m c n : ℕ) (rs : List VersionRecord)
      → Numbered n rs
      → vs ≡ e.versions
      → Shows e m c rs
      → Shows (drop_oldest vs e) m c (tail rs)
  unfolding delete
  drop_oldest-Shows [] e m c n [] h p s = s
  drop_oldest-Shows [] e m c n (r ∷ rs) h p s = absurd (ground (arith, p ∙ s.0))
  drop_oldest-Shows (v ∷ vs) e m c n [] h p s = absurd (ground (arith, p ∙ s.0))
  drop_oldest-Shows (v ∷ vs) e m c n (r ∷ rs) h p (q, k, i, j) =
      let key : v.version ≡ r.version.version = ground (arith, p ∙ q) in
      (
        ground (arith, p ∙ q),
        ap (delete ℕ_discrete v.version) k
            ∙ delete_first v.version r.version.version r (keyed rs) key
                (rw key (lookup-keyed_low (suc n) rs r.version.version h.1 (omega (arith, h.0)))),
        i,
        j,
      )

  trim-Shows :
      (e : EngineV2 C) (m c n : ℕ) (rs : List VersionRecord)
      → Numbered n rs
      → Shows e m c rs
      → Shows (trim e) m c (trimmed m rs)
  unfolding trim
  trim-Shows e m c n rs h s =
      let len : length e.versions ≡ length rs = ap length s.0 ∙ length-map _ rs in
      if_split (λ e'. Shows e' m c (trimmed m rs)) (ltb e.max_versions (length e.versions)) _ _
        (λ q.
          let b : true ≡ ltb m (length rs) = ground (arith, q, len, s) in
          subst (λ b. Shows (drop_oldest e.versions e) m c (if b then tail rs else rs)) b
            (drop_oldest-Shows e.versions e m c n rs h refl s))
        (λ q.
          let b : false ≡ ltb m (length rs) = ground (arith, q, len, s) in
          subst (λ b. Shows e m c (if b then tail rs else rs)) b s)

  append_record-Shows :
      (r : VersionRecord) (e : EngineV2 C) (k : ℕ) (rs : List VersionRecord)
      → Numbered k rs
      → r.version.version ≡ suc (k + length rs)
      → e.versions ≡ versions_of rs
      → e.version_map ≡ keyed rs
      → Shows (append_record r e) e.max_versions r.version.version (rs ++ (r ∷ []))
  append_record-Shows r e k rs old number vs m = (
    ap (λ vs. vs ++ (r.version ∷ [])) vs ∙ sym (map-append _ rs (r ∷ [])),
    ap (insert ℕ_discrete r.version.version r) m
        ∙ insert_new ℕ_discrete r.version.version r (keyed rs)
            (lookup-keyed_high k rs r.version.version old (omega (arith, number)))
        ∙ sym (map-append _ rs (r ∷ [])),
    refl,
    refl,
  )

  Shows-Implements :
      (e : EngineV2 C) (m c : ℕ) (log : List VersionRecord)
      → 1 ≤ m
      → c ≡ length log
      → Numbered 0 log
      → Shows e m c (suffix m log)
      → Implements m e log
  Shows-Implements e m c log pos cur num (vs, keys, max, now) = (
    max,
    (
      omega (arith, pos, max),
      now ∙ cur,
      num,
      vs ∙ ap (λ n. versions_of (suffix n log)) (sym max),
      keys ∙ ap (λ n. keyed (suffix n log)) (sym max),
    ),
  )

  pub add_version-Implements :
      (now : ℕ) (update : ConfigUpdate) (generated : GeneratedConfig) (m : ℕ) (e : EngineV2 C)
      (log : List VersionRecord)
      → Implements m e log
      → Implements m
          (add_version now update generated e)
          (log ++ (new_record now update generated.hash (suc (length log)) ∷ []))
  unfolding add_version
  add_version-Implements now update generated m e log (max, (pos, cur, num, vs, keys)) =
      let v : ℕ = e.current_version + 1 in
      let new : v ≡ suc (length log) = omega (arith, cur) in
      let r : VersionRecord = new_record now update generated.hash v in
      let k : ℕ = 0 + (length log - e.max_versions) in
      let shown : ℕ = length log - e.max_versions in
      let number : v ≡ suc (k + length (suffix e.max_versions log)) =
        omega (arith, cur, length-drop shown log) in
      let old : Numbered k (suffix e.max_versions log) =
        drop-Numbered shown 0 log num (omega arith) in
      let after : Shows (trim (append_record r e)) e.max_versions v
          (suffix e.max_versions (log ++ (r ∷ []))) =
        subst (Shows (trim (append_record r e)) e.max_versions v)
          (trimmed-suffix e.max_versions log r)
          (trim-Shows (append_record r e) e.max_versions v k _ (append-Numbered k _ r old number)
            (append_record-Shows r e k _ old number vs keys)) in
      subst
        (λ n.
          Implements m (add_version now update generated e)
            (log ++ (new_record now update generated.hash n ∷ [])))
        new
        (subst (λ m. Implements m (add_version now update generated e) (log ++ (r ∷ []))) max
          (Shows-Implements (add_version now update generated e) e.max_versions v (log ++ (r ∷ []))
            pos (new ∙ omega (arith, length-append log (r ∷ [])))
            (append-Numbered 0 log r num (omega (arith, new))) after))

  -- The record of the current version is the last of the log.
  pub lookup-current :
      (m : ℕ) (e : EngineV2 C) (log : List VersionRecord) (r : VersionRecord)
      → Implements m e (log ++ (r ∷ []))
      → lookup ℕ_discrete e.current_version e.version_map ≡ some r
  lookup-current m e log r (max, (pos, cur, num, vs, keys)) =
      let k : ℕ = length (log ++ (r ∷ [])) - e.max_versions in
      let len : length (log ++ (r ∷ [])) ≡ suc (length log) =
        omega (arith, length-append log (r ∷ [])) in
      let shown : suffix e.max_versions (log ++ (r ∷ [])) ≡ drop k log ++ (r ∷ []) =
        drop-append k log (r ∷ []) (omega (arith, len, pos)) in
      let number : e.current_version ≡ suc (0 + k + length (drop k log)) =
        omega (arith, cur, len, length-drop k log, pos) in
      ap (λ m. lookup ℕ_discrete e.current_version m) keys
      ∙ ap (λ v. lookup ℕ_discrete v (keyed (suffix e.max_versions (log ++ (r ∷ []))))) number
      ∙ lookup-keyed (0 + k) _ (length (drop k log)) (drop-Numbered k 0 _ num (omega arith))
      ∙ ap (λ rs. get_elem? rs (length (drop k log))) shown
      ∙ get_elem?-snoc (drop k log) r
