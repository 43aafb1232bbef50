-- ===== src/Cap/Hash.antt =====
-- nrcap/tracker.go: the hash of a data point's labels.
pub mod Order
use mathlib.Core.List.{lookup}
use nrdot_host.Common.{
  ℕ, zero, suc, List, [], ◌∷◌, ◌++◌, map, Bool, true, false, Option, none, some, ltb, length,
  if◌then◌else◌, Str, Str-discrete, codes,
}
use nrdot_host.Cap.Metric.{Attributes, DataPoint, Metric, points_of}
use nrdot_host.Cap.Env.{Env}

-- The order of Go strings, `a < b`.
unfoldable pub str_lt : Str → Str → Bool
str_lt a [] = false
str_lt [] (y ∷ ys) = true
str_lt (x ∷ xs) (y ∷ ys) = if ltb x y then true else if ltb y x then false else str_lt xs ys

-- The loop over `j`: `key` is what `keys[i]` holds; the keys behind it are handed back.
unfoldable pub sweep : Str → List Str → Str × List Str
sweep key [] = (key, [])
sweep key (k ∷ ks) =
    let (least, rest) = sweep (if str_lt k key then k else key) ks in
    (least, (if str_lt k key then key else k) ∷ rest)

-- The loop over `i`; the fuel is the number of keys.
unfoldable pub sort_from : ℕ → List Str → List Str
sort_from zero keys = keys
sort_from (suc n) [] = []
sort_from (suc n) (key ∷ keys) = let (least, rest) = sweep key keys in least ∷ sort_from n rest

unfoldable pub sort_keys : List Str → List Str
unfolding sweep sort_from
sort_keys keys = sort_from (length keys) keys

abbrev pub keys {ℓ} : {K V : Type ℓ} → List (K × V) → List K
keys = map (λ e. e.0)

module _ {V : Type 0} (env : Env V) where
  -- The value of a key as text; every key that is written stands in the map.
  abbrev pub value_text : Option V → Str
  value_text none = []
  value_text (some v) = env.as_string v

  -- What the loop over the sorted keys writes.
  unfoldable pub write_labels : Attributes V → List Str → Str
  write_labels attrs [] = []
  write_labels attrs (k ∷ ks) =
      k
      ++ (codes "="
          ++ (value_text (lookup Str-discrete k attrs) ++ (codes "|" ++ write_labels attrs ks)))

  -- All that is written to the hash.
  unfoldable pub label_text : Str → Attributes V → Str
  unfolding write_labels sort_keys
  label_text metric_name attrs =
      metric_name ++ (codes "|" ++ write_labels attrs (sort_keys (keys attrs)))

  unfoldable pub hash_data_point_labels : Str → Attributes V → ℕ
  unfolding label_text
  hash_data_point_labels metric_name attrs = env.sum64 (label_text metric_name attrs)

  unfoldable pub get_all_label_hashes : Metric V → List ℕ
  get_all_label_hashes metric =
      map (λ (dp : DataPoint V). hash_data_point_labels metric.name dp.attributes)
        (points_of metric.type metric.points)

  -- `hashes[0]`, or 0.
  abbrev first_or_zero : List ℕ → ℕ
  first_or_zero [] = 0
  first_or_zero (h ∷ hs) = h

  unfoldable pub hash_labels : Metric V → ℕ
  unfolding get_all_label_hashes
  hash_labels metric = first_or_zero (get_all_label_hashes metric)
