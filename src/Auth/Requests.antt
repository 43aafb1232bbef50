-- ===== src/Auth/Requests.antt =====
-- store.go: what the middleware lets through, new tokens, and the cleanup of the expired ones.
use mathlib.Core.List.{lookup}
use nrdot_host.Common.Dict.{lookup-insert_self, Distinct}
use nrdot_host.Common.Int.{ℤ}
use nrdot_host.Common.{
  ℕ, ◌+◌, ◌≡◌, ◌≢◌, ◌≤◌, inl, inr, refl, List, [], ◌∷◌, Option, none, some, Bool-cases, ltb, arith,
  if◌then◌else◌, length, Str, Str-discrete, sym, ap, ◌∙◌,
}
use nrdot_host.Auth.Roles.{Covers, has_required_role-Covers}
use nrdot_host.Auth.Access.{InForce}
use nrdot_host.Auth.{
  TokenInfo, TokenStore, info_of, time_add, new_token, create_token, validate_entry, validate_token,
  drop_expired, cleanup_expired, has_required_role, strip_bearer, authenticate, header_of,
  http_middleware, served, answer, Response,
}

-- A new token is accepted from its creation to its expiry, with the user and the role it was created
-- with. The random bytes are there.
pub validate_token-create_token :
    (encode : Str → Str) (bytes user role description : Str) (duration : ℤ) (created now used : ℕ)
    (s : TokenStore)
    → now ≤ time_add created duration
    → (validate_token
        (encode bytes)
        now
        used
        (create_token encode (some bytes) user role description duration created s).0).1
      ≡ info_of (record (new_token (encode bytes) user role description duration created) {
        last_used = some used;
      })
unfolding validate_token create_token
validate_token-create_token encode bytes user role description duration created now used s h =
    rw
      (lookup-insert_self Str-discrete (encode bytes)
        (new_token (encode bytes) user role description duration created) s.tokens)
      (ground (arith, h))

-- The token of a request, from its two headers.
abbrev pub token_of : Str → Str → Str
token_of authorization api_key = strip_bearer (header_of authorization api_key)

-- What the next handler may be given for a request: the store's data of the token, with the time of its
-- last use, where the token is in force and its role has the rights of the required one.
abbrev pub Served : Str → ℕ → ℕ → TokenInfo → TokenInfo → Type 0
Served required now used info given =
    (given ≡ record info { last_used = some used }) × InForce now info × Covers info.role required

served-same : (a b : TokenInfo) → served a ≡ served b → b ≡ a
served-same a b h = sym (ap (given_or a) h)
  where
    given_or : TokenInfo → Response → TokenInfo
    given_or d (served t) = t
    given_or d _ = d

served_entry :
    (c : ℕ) (rest token : Str) (now used : ℕ) (s : TokenStore) (info given : TokenInfo)
    → answer (c ∷ rest) (validate_entry token now used s (some info)).1 ≡ served given
    → Served (c ∷ rest) now used info given
served_entry c rest token now used s info given h = elim (Bool-cases info.revoked) [
  | inl r ↦ absurd (ground (arith, r, h))
  | inr r ↦ elim (Bool-cases (ltb info.expires_at now)) [
    | inl x ↦ absurd (ground (arith, r, x, h))
    | inr x ↦ elim (Bool-cases (has_required_role info.role (c ∷ rest))) [
      | inl y ↦
          let q : answer (c ∷ rest) (validate_entry token now used s (some info)).1
              ≡ served (record info { last_used = some used }) =
            ground (arith, r, x, y) in
          (
            served-same (record info { last_used = some used }) given (sym q ∙ h),
            (r, ground (arith, x)),
            has_required_role-Covers info.role (c ∷ rest) y,
          )
      | inr y ↦ absurd (ground (arith, r, x, y, h))
    ]
  ]
]

served_token :
    (c : ℕ) (rest token : Str) (now used : ℕ) (s : TokenStore) (given : TokenInfo)
    → answer (c ∷ rest) (validate_token token now used s).1 ≡ served given
    → (info : TokenInfo) × (lookup Str-discrete token s.tokens ≡ some info)
      × Served (c ∷ rest) now used info given
unfolding validate_token
served_token c rest token now used s given h = go (lookup Str-discrete token s.tokens) refl h
  where
    go :
        (o : Option TokenInfo)
        → lookup Str-discrete token s.tokens ≡ o
        → answer (c ∷ rest) (validate_entry token now used s o).1 ≡ served given
        → (info : TokenInfo) × (lookup Str-discrete token s.tokens ≡ some info)
          × Served (c ∷ rest) now used info given
    go none e k = absurd (ground (arith, k))
    go (some info) e k = (info, e, served_entry c rest token now used s info given k)

-- A request that a role is required for reaches the next handler only with the store's data of the
-- request's token, with nothing changed but the time of its last use, and only if that token is in
-- force at that time and its role has the rights of the required one: an admin has those of all three
-- roles, an operator those of an operator and a viewer, a viewer those of a viewer.
pub http_middleware_serves :
    (required authorization api_key : Str) (now used : ℕ) (s : TokenStore) (given : TokenInfo)
    → required ≢ []
    → (http_middleware required authorization api_key now used s).1 ≡ served given
    → (info : TokenInfo) × (lookup Str-discrete (token_of authorization api_key) s.tokens
        ≡ some info)
      × Served required now used info given
unfolding http_middleware authenticate
http_middleware_serves [] authorization api_key now used s given ne h = absurd (ne refl)
http_middleware_serves (c ∷ rest) [] [] now used s given ne h = absurd (ground (arith, h))
http_middleware_serves (c ∷ rest) [] (a ∷ api_key) now used s given ne h =
    served_token c rest (strip_bearer (a ∷ api_key)) now used s given h
http_middleware_serves (c ∷ rest) (a ∷ authorization) api_key now used s given ne h =
    served_token c rest (strip_bearer (a ∷ authorization)) now used s given h

-- What the cleanup leaves of a token: its entry, if the time is not after its expiry.
abbrev pub unexpired : ℕ → Option TokenInfo → Option TokenInfo
unexpired now none = none
unexpired now (some info) = if ltb info.expires_at now then none else some info

lookup-drop_expired_absent :
    (now : ℕ) (k : Str) (m : List (Str × TokenInfo))
    → lookup Str-discrete k m ≡ none
    → lookup Str-discrete k (drop_expired now m).0 ≡ none
unfolding lookup drop_expired
lookup-drop_expired_absent now k [] h = refl
lookup-drop_expired_absent now k ((j, b) ∷ m) h = ground (arith, lookup-drop_expired_absent now k m)

drop_expired_match :
    (now : ℕ) (key j : Str) (b : TokenInfo) (m : List (Str × TokenInfo))
    → key ≡ j
    → lookup Str-discrete key (drop_expired now m).0 ≡ none
    → lookup Str-discrete key (drop_expired now ((j, b) ∷ m)).0
      ≡ unexpired now (lookup Str-discrete key ((j, b) ∷ m))
unfolding lookup drop_expired
drop_expired_match now key j b m e gone = ground arith

drop_expired_other :
    (now : ℕ) (key j : Str) (b : TokenInfo) (m : List (Str × TokenInfo))
    → key ≢ j
    → lookup Str-discrete key (drop_expired now m).0 ≡ unexpired now (lookup Str-discrete key m)
    → lookup Str-discrete key (drop_expired now ((j, b) ∷ m)).0
      ≡ unexpired now (lookup Str-discrete key ((j, b) ∷ m))
unfolding lookup drop_expired
drop_expired_other now key j b m ne there = ground arith

lookup-drop_expired :
    (now : ℕ) (key : Str) (m : List (Str × TokenInfo))
    → Distinct Str-discrete m
    → lookup Str-discrete key (drop_expired now m).0 ≡ unexpired now (lookup Str-discrete key m)
unfolding lookup drop_expired
lookup-drop_expired now key [] d = refl
lookup-drop_expired now key ((j, b) ∷ m) (d, ds) = elim (Str-discrete key j) [
  | yes e ↦ drop_expired_match now key j b m e (lookup-drop_expired_absent now key m (rw e d))
  | no ne ↦ drop_expired_other now key j b m ne (lookup-drop_expired now key m ds)
]

drop_expired_counts :
    (now : ℕ) (m : List (Str × TokenInfo))
    → length (drop_expired now m).0 + (drop_expired now m).1 ≡ length m
unfolding drop_expired
drop_expired_counts now [] = omega arith
drop_expired_counts now ((k, info) ∷ m) = ground (arith, drop_expired_counts now m)

-- The cleanup takes the tokens whose expiry has passed and leaves every other as it was, and returns
-- how many it took. The keys of the store are distinct.
pub lookup-cleanup_expired :
    (token : Str) (now : ℕ) (s : TokenStore)
    → Distinct Str-discrete s.tokens
    → (lookup Str-discrete token (cleanup_expired now s).0.tokens
        ≡ unexpired now (lookup Str-discrete token s.tokens))
      × (length (cleanup_expired now s).0.tokens + (cleanup_expired now s).1 ≡ length s.tokens)
unfolding cleanup_expired
lookup-cleanup_expired token now s d =
    (lookup-drop_expired now token s.tokens d, drop_expired_counts now s.tokens)
