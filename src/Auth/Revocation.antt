-- ===== src/Auth/Revocation.antt =====
-- store.go: a token that is revoked stays refused, whatever requests follow.
use mathlib.Core.List.{lookup}
use nrdot_host.Common.Dict.{insert, Distinct}
use nrdot_host.Common.Int.{ℤ}
use nrdot_host.Common.{
  ℕ, ◌≡◌, ◌≢◌, ite, refl, sym, subst, List, [], ◌∷◌, true, false, Option, none, some, if_split, ltb,
  arith, All, Str, Str-discrete,
}
use nrdot_host.Auth.{
  TokenInfo, TokenStore, Reply, create_token, validate_entry, validate_token, revoke_entry,
  revoke_token, drop_expired, cleanup_expired, authenticate, http_middleware,
}
use nrdot_host.Auth.Access.{accepted}

-- What can be done with the store.
pub data Request : Type 0 where
  create : Option Str → Str → Str → Str → ℤ → ℕ → Request
  validate : Str → ℕ → ℕ → Request
  revoke : Str → Request
  clean : ℕ → Request
  serve : Str → Str → Str → ℕ → ℕ → Request

unfoldable pub perform : (Str → Str) → Request → TokenStore → TokenStore
perform encode (create bytes user role description duration now) s =
    (create_token encode bytes user role description duration now s).0
perform encode (validate token now used) s = (validate_token token now used s).0
perform encode (revoke token) s = (revoke_token token s).0
perform encode (clean now) s = (cleanup_expired now s).0
perform encode (serve required authorization api_key now used) s =
    (http_middleware required authorization api_key now used s).0

unfoldable pub perform_all : (Str → Str) → List Request → TokenStore → TokenStore
unfolding perform
perform_all encode [] s = s
perform_all encode (r ∷ rs) s = perform_all encode rs (perform encode r s)

-- The request does not create the token again.
abbrev pub IsOther : (Str → Str) → Str → Request → Type 0
IsOther encode token (create (some bytes) user role description duration now) = encode bytes ≢ token
IsOther encode token r = Unit

-- No entry of the token is in use: every one is revoked.
abbrev Barred : Str → List (Str × TokenInfo) → Type 0
Barred token [] = Unit
Barred token ((k, info) ∷ m) = (k ≡ token → info.revoked ≡ true) × Barred token m

absent-Barred :
    (token : Str) (m : List (Str × TokenInfo)) → lookup Str-discrete token m ≡ none → Barred token m
unfolding lookup
absent-Barred token [] h = tt
absent-Barred token ((k, info) ∷ m) h = (λ e. ground arith, absent-Barred token m (ground arith))

insert-Barred :
    (token k : Str) (info : TokenInfo) (m : List (Str × TokenInfo))
    → (k ≡ token → info.revoked ≡ true)
    → Barred token m
    → Barred token (insert Str-discrete k info m)
unfolding insert
insert-Barred token k info [] h b = (h, tt)
insert-Barred token k info ((i, w) ∷ m) h b =
    elim (Str-discrete k i)
      as (λ d. Barred token (ite d ((k, info) ∷ m) ((i, w) ∷ insert Str-discrete k info m))) [
        | yes p ↦ (h, b.1)
        | no p ↦ (b.0, insert-Barred token k info m h b.1)
      ]

lookup-Barred :
    (token : Str) (info : TokenInfo) (m : List (Str × TokenInfo))
    → Barred token m
    → lookup Str-discrete token m ≡ some info
    → info.revoked ≡ true
unfolding lookup
lookup-Barred token info [] b h = absurd (ground arith)
lookup-Barred token info ((k, i) ∷ m) b h = ground (arith, b.0, lookup-Barred token info m b.1)

drop_expired-Barred :
    (token : Str) (now : ℕ) (m : List (Str × TokenInfo))
    → Barred token m
    → Barred token (drop_expired now m).0
unfolding drop_expired
drop_expired-Barred token now [] b = tt
drop_expired-Barred token now ((k, info) ∷ m) b =
    if_split {A = List (Str × TokenInfo) × ℕ} (λ r. Barred token r.0) (ltb info.expires_at now) _ _
      (λ e. drop_expired-Barred token now m b.1) (λ e. (b.0, drop_expired-Barred token now m b.1))

revoked-Barred :
    (token : Str) (info : TokenInfo) (m : List (Str × TokenInfo))
    → info.revoked ≡ true
    → Distinct Str-discrete m
    → Barred token (insert Str-discrete token info m)
unfolding insert
revoked-Barred token info [] h d = (λ e. h, tt)
revoked-Barred token info ((i, w) ∷ m) h (d, ds) =
    elim (Str-discrete token i)
      as (λ c.
        Barred token (ite c ((token, info) ∷ m) ((i, w) ∷ insert Str-discrete token info m))) [
          | yes p ↦ (λ e. h, absent-Barred token m (rw p d))
          | no p ↦ (λ e. absurd (p (sym e)), revoked-Barred token info m h ds)
        ]

validate-Barred :
    (token k : Str) (now used : ℕ) (s : TokenStore)
    → Barred token s.tokens
    → Barred token (validate_token k now used s).0.tokens
unfolding validate_token
validate-Barred token k now used s b = go (lookup Str-discrete k s.tokens) refl
  where
    go :
        (o : Option TokenInfo)
        → lookup Str-discrete k s.tokens ≡ o
        → Barred token (validate_entry k now used s o).0.tokens
    go none e = b
    go (some info) e =
        if_split {A = TokenStore × Reply} (λ r. Barred token r.0.tokens) info.revoked _ _ (λ h. b)
          (λ h.
            if_split {A = TokenStore × Reply} (λ r. Barred token r.0.tokens)
              (ltb info.expires_at now) _ _ (λ h. b)
              (λ h.
                insert-Barred token k (record info { last_used = some used }) s.tokens
                  (λ q.
                    lookup-Barred token info s.tokens b
                      (subst (λ j. lookup Str-discrete j s.tokens ≡ some info) q e))
                  b))

serve-Barred :
    (token required authorization api_key : Str) (now used : ℕ) (s : TokenStore)
    → Barred token s.tokens
    → Barred token (http_middleware required authorization api_key now used s).0.tokens
unfolding http_middleware authenticate
serve-Barred token required [] [] now used s b = b
serve-Barred token required [] (c ∷ api_key) now used s b = validate-Barred token _ now used s b
serve-Barred token required (c ∷ authorization) api_key now used s b =
    validate-Barred token _ now used s b

revoke-Barred :
    (token k : Str) (s : TokenStore)
    → Barred token s.tokens
    → Barred token (revoke_token k s).0.tokens
unfolding revoke_token
revoke-Barred token k s b = go (lookup Str-discrete k s.tokens)
  where
    go : (o : Option TokenInfo) → Barred token (revoke_entry k s o).0.tokens
    go none = b
    go (some info) = insert-Barred token k (record info { revoked = true }) s.tokens (λ q. refl) b

perform-Barred :
    (encode : Str → Str) (token : Str) (r : Request) (s : TokenStore)
    → IsOther encode token r
    → Barred token s.tokens
    → Barred token (perform encode r s).tokens
unfolding perform create_token cleanup_expired
perform-Barred encode token (create none user role description duration now) s h b = b
perform-Barred encode token (create (some bytes) user role description duration now) s h b =
    insert-Barred token (encode bytes) _ s.tokens (λ q. absurd (h q)) b
perform-Barred encode token (validate k now used) s h b = validate-Barred token k now used s b
perform-Barred encode token (revoke k) s h b = revoke-Barred token k s b
perform-Barred encode token (clean now) s h b = drop_expired-Barred token now s.tokens b
perform-Barred encode token (serve required authorization api_key now used) s h b =
    serve-Barred token required authorization api_key now used s b

perform_all-Barred :
    (encode : Str → Str) (token : Str) (rs : List Request) (s : TokenStore)
    → All (IsOther encode token) rs
    → Barred token s.tokens
    → Barred token (perform_all encode rs s).tokens
unfolding perform_all
perform_all-Barred encode token [] s h b = b
perform_all-Barred encode token (r ∷ rs) s (h, hs) b =
    perform_all-Barred encode token rs (perform encode r s) hs (perform-Barred encode token r s h b)

refused-Barred :
    (token : Str) (now used : ℕ) (s : TokenStore)
    → Barred token s.tokens
    → accepted (validate_token token now used s).1 ≡ false
unfolding validate_token
refused-Barred token now used s b = go (lookup Str-discrete token s.tokens) refl
  where
    go :
        (o : Option TokenInfo)
        → lookup Str-discrete token s.tokens ≡ o
        → accepted (validate_entry token now used s o).1 ≡ false
    go none e = refl
    go (some info) e = rw (lookup-Barred token info s.tokens b e) refl

just_revoked :
    (token : Str) (s : TokenStore)
    → Distinct Str-discrete s.tokens
    → Barred token (revoke_token token s).0.tokens
unfolding revoke_token
just_revoked token s d = go (lookup Str-discrete token s.tokens) refl
  where
    go :
        (o : Option TokenInfo)
        → lookup Str-discrete token s.tokens ≡ o
        → Barred token (revoke_entry token s o).0.tokens
    go none e = absent-Barred token s.tokens e
    go (some info) e = revoked-Barred token (record info { revoked = true }) s.tokens refl d

-- After a token is revoked, it is refused at any time, whatever is done with the store in between
-- except to create the same token again. The keys of the store are distinct.
pub revoke_token_lasts :
    (encode : Str → Str) (token : Str) (rs : List Request) (now used : ℕ) (s : TokenStore)
    → Distinct Str-discrete s.tokens
    → All (IsOther encode token) rs
    → accepted (validate_token token now used (perform_all encode rs (revoke_token token s).0)).1
      ≡ false
revoke_token_lasts encode token rs now used s d h =
    refused-Barred token now used _
      (perform_all-Barred encode token rs _ h (just_revoked token s d))
