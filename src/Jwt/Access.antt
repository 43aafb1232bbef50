-- ===== src/Jwt/Access.antt =====
-- Who is served by the middleware for signed tokens.
use nrdot_host.Common.{
  ℕ, ◌+◌, ◌≤◌, ◌<◌, ◌≡◌, refl, sym, ap, subst, ◌∙◌, inl, inr, List, [], ◌∷◌, Bool, true, false, All,
  ltb-false→le, Bool-cases, if_true, if_false, Option, none, some, Str, Str-discrete, str_eq, codes,
  arith,
}
use nrdot_host.Common.Pointwise.{Member}
use nrdot_host.Security.Config.{is_empty}
use nrdot_host.Jwt.Plain.{IsAscii, Before, Plain, whole, permissions-IsAscii}
use nrdot_host.Jwt.{
  JwtClaims, JwtLibrary, JwtManager, Method, hmac, other_method, key_func, has_permission,
  has_permissions, is_expired, Outcome, done, failed, panic, claims_of, new_numeric_date,
  generate_token, judge, validate_token, served, answer, answer_parts, jwt_middleware, split_space,
  expired, invalid_issuer,
}

-- The token is in force.
abbrev pub Unexpired : Option ℕ → ℕ → Type 0
Unexpired none now = Unit
Unexpired (some at) now = now ≤ at

is_expired-Unexpired : (at : Option ℕ) (now : ℕ) → is_expired at now ≡ false → Unexpired at now
is_expired-Unexpired none now h = tt
is_expired-Unexpired (some at) now h = ltb-false→le at now h

Unexpired-is_expired : (at : Option ℕ) (now : ℕ) → Unexpired at now → is_expired at now ≡ false
Unexpired-is_expired none now h = refl
Unexpired-is_expired (some at) now h = ground (arith, h)

has_permission-Member : (user : List Str) (p : Str) → has_permission user p ≡ true → Member p user
unfolding has_permission str_eq
has_permission-Member [] p h = absurd (ground (arith, h))
has_permission-Member (u ∷ us) p h = elim (Str-discrete u p) [
  | yes e ↦ inl (sym e)
  | no ne ↦ inr (has_permission-Member us p (ground (arith, h, ne)))
]

has_permissions-All :
    (user required : List Str)
    → has_permissions user required ≡ true
    → All (λ p. Member p user) required
unfolding has_permissions
has_permissions-All user [] h = tt
has_permissions-All user (p ∷ ps) h = elim (Bool-cases (has_permission user p)) [
  | inl e ↦ (
    has_permission-Member user p e,
    has_permissions-All user ps (sym (if_true (has_permission user p) _ _ e) ∙ h),
  )
  | inr e ↦
      absurd (
        ground
          (arith, sym (if_false (has_permission user p) (has_permissions user ps) false e) ∙ h))
]

done_injective : {a b : JwtClaims} → ◌≡◌ {A = Outcome JwtClaims} (done a) (done b) → a ≡ b
done_injective h = cc

expired_fails : {a : JwtClaims} → ◌≡◌ {A = Outcome JwtClaims} (failed expired) (done a) → ⊥
expired_fails h = cc

issuer_fails : {a : JwtClaims} → ◌≡◌ {A = Outcome JwtClaims} (failed invalid_issuer) (done a) → ⊥
issuer_fails h = cc

served_injective : {a b : JwtClaims} → served a ≡ served b → a ≡ b
served_injective h = cc

module _ (lib : JwtLibrary) (m : JwtManager) where
  -- The library takes a token only if it was signed with the key that the function gave for its method.
  abbrev pub Verifies : (Str → Str → JwtClaims → Type 0) → Type 0
  Verifies Signed =
      (keys : Method → Option Str) (now : ℕ) (token : Str) (claims : JwtClaims)
      → lib.parse_with_claims keys now token ≡ some (claims, true)
      → (method : Method) × (key : Str) × (keys method ≡ some key) × Signed key token claims

  judge_done :
      (now : ℕ) (o : Option (JwtClaims × Bool)) (claims : JwtClaims)
      → judge lib m now o ≡ done claims
      → (o ≡ some (claims, true))
        × Unexpired claims.expires_at now
        × (str_eq claims.issuer m.issuer ≡ true)
  judge_done now none claims h = absurd (ground (arith, h))
  judge_done now (some (c, false)) claims h = absurd (ground (arith, h))
  judge_done now (some (c, true)) claims h = elim (Bool-cases (is_expired c.expires_at now)) [
    | inl e ↦ absurd (expired_fails (sym (if_true (is_expired c.expires_at now) _ _ e) ∙ h))
    | inr e ↦ elim (Bool-cases (str_eq c.issuer m.issuer)) [
      | inl i ↦
          let q : c ≡ claims = done_injective (
            sym (if_true (str_eq c.issuer m.issuer) _ _ i)
            ∙ sym (if_false (is_expired c.expires_at now) _ _ e)
            ∙ h) in
          (
            ap (λ c. some (c, true)) q,
            subst (λ c. Unexpired c.expires_at now) q (is_expired-Unexpired c.expires_at now e),
            subst (λ c. str_eq c.issuer m.issuer ≡ true) q i,
          )
      | inr i ↦ absurd (
          issuer_fails (
            sym (if_false (str_eq c.issuer m.issuer) _ _ i)
            ∙ sym (if_false (is_expired c.expires_at now) _ _ e)
            ∙ h))
    ]
  ]

  own_key :
      (method : Method) (key : Str) → key_func m.secret_key method ≡ some key → key ≡ m.secret_key
  own_key hmac key h = ground (arith, h)
  own_key other_method key h = absurd (ground (arith, h))

  -- What holds of the claims with which a request is served.
  abbrev pub Granted : (Str → Str → JwtClaims → Type 0) → List Str → ℕ → JwtClaims → Type 0
  Granted Signed required now claims =
      (token : Str) × Signed m.secret_key token claims
      × Unexpired claims.expires_at now
      × (str_eq claims.issuer m.issuer ≡ true)
      × All (λ p. Member p claims.permissions) required

  answer-served :
      (required : List Str) (o : Outcome JwtClaims) (claims : JwtClaims)
      → answer lib m required o ≡ served claims
      → (o ≡ done claims) × (has_permissions claims.permissions required ≡ true)
  answer-served required (done c) claims h =
      elim (Bool-cases (has_permissions c.permissions required)) [
        | inl e ↦
            let q : c ≡ claims =
              served_injective (sym (if_true (has_permissions c.permissions required) _ _ e) ∙ h) in
            (ap done q, subst (λ c. has_permissions c.permissions required ≡ true) q e)
        | inr e ↦
            absurd
              (ground (arith, sym (if_false (has_permissions c.permissions required) _ _ e) ∙ h))
      ]
  answer-served required (failed err) claims h = absurd (ground (arith, h))
  answer-served required panic claims h = absurd (ground (arith, h))

  answer_parts-Granted :
      (Signed : Str → Str → JwtClaims → Type 0) (required : List Str) (now : ℕ)
      (parts : Option (Str × Str)) (claims : JwtClaims)
      → Verifies Signed
      → answer_parts lib m required now parts ≡ served claims
      → Granted Signed required now claims
  unfolding validate_token
  answer_parts-Granted Signed required now none claims v h = absurd (ground (arith, h))
  answer_parts-Granted Signed required now (some (scheme, token)) claims v h =
      elim (Bool-cases (str_eq scheme (codes "Bearer"))) [
        | inl e ↦
            let (valid, allowed) =
              answer-served required (validate_token lib m now token) claims
                (sym (if_true (str_eq scheme (codes "Bearer")) _ _ e) ∙ h) in
            let (parsed, unexpired, issuer) =
              judge_done now (lib.parse_with_claims (key_func m.secret_key) now token) claims
                valid in
            let (method, key, found, signed) = v (key_func m.secret_key) now token claims parsed in
            (
              token,
              subst (λ k. Signed k token claims) (own_key method key found) signed,
              unexpired,
              issuer,
              has_permissions-All claims.permissions required allowed,
            )
        | inr e ↦ absurd (ground (arith, sym (if_false (str_eq scheme (codes "Bearer")) _ _ e) ∙ h))
      ]

  -- A request reaches the next handler only with the claims of a token that was signed with the manager's
  -- own key, is in force, has the manager's issuer and all permissions that are required. The library takes
  -- a token only if it was signed with the key that it gets for the token's method.
  pub jwt_middleware_serves :
      (Signed : Str → Str → JwtClaims → Type 0) (required : List Str) (now : ℕ) (header : Str)
      (claims : JwtClaims)
      → Verifies Signed
      → jwt_middleware lib m required now header ≡ served claims
      → Granted Signed required now claims
  unfolding jwt_middleware
  jwt_middleware_serves Signed required now header claims v h =
      elim (Bool-cases (is_empty header)) [
        | inl e ↦ absurd (ground (arith, sym (if_true (is_empty header) _ _ e) ∙ h))
        | inr e ↦
            answer_parts-Granted Signed required now (split_space header) claims v
              (sym (if_false (is_empty header) _ _ e) ∙ h)
      ]

  -- The library accepts what it has signed, with the same key, before the time to expire, where the
  -- times are whole seconds and the texts are ASCII: JSON keeps these.
  abbrev pub Reads : Type 0
  Reads =
      (key token : Str) (now : ℕ) (claims : JwtClaims)
      → lib.signed_string key claims ≡ some token
      → Plain claims
      → Before claims.expires_at now
      → lib.parse_with_claims (key_func key) now token ≡ some (claims, true)

  claims_of-Plain :
      (made : ℕ) (id user_id role : Str)
      → All IsAscii (m.issuer ∷ user_id ∷ id ∷ role ∷ [])
      → Plain (claims_of lib m made id user_id role)
  claims_of-Plain made id user_id role (i, (u, (d, (r, _)))) = (
    (i, (u, (d, (r, tt)))),
    permissions-IsAscii role,
    whole (made + m.token_duration),
    whole made,
  )

  -- A token that was generated is valid before its time to expire, which is the end of its duration cut
  -- to the second, with the user and the role it was generated for and the permissions of that role.
  -- The issuer, the user, the role and the token's id are ASCII. The library accepts what it has signed
  -- before it expires, if the times are whole seconds and the texts are ASCII.
  pub validate_token-generate_token :
      (made now : ℕ) (id user_id role token : Str)
      → Reads
      → All IsAscii (m.issuer ∷ user_id ∷ id ∷ role ∷ [])
      → generate_token lib m made id user_id role ≡ some token
      → now < new_numeric_date (made + m.token_duration)
      → validate_token lib m now token ≡ done (claims_of lib m made id user_id role)
  unfolding validate_token generate_token str_eq
  validate_token-generate_token made now id user_id role token reads ascii g lt =
      let claims : JwtClaims = claims_of lib m made id user_id role in
      let at = new_numeric_date (made + m.token_duration) in
      ap (judge lib m now)
        (reads m.secret_key token now claims g (claims_of-Plain made id user_id role ascii) lt)
      ∙ if_false (is_expired (some at) now) _ _
          (Unexpired-is_expired (some at) now (omega (arith, lt)))
      ∙ if_true (str_eq m.issuer m.issuer) _ _ (ground arith)
