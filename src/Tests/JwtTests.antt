-- ===== src/Tests/JwtTests.antt =====
-- Signed tokens at concrete inputs.
use nrdot_host.Common.{
  ◌≡◌, refl, sym, subst, [], ◌∷◌, Bool, true, Option, none, some, Str, Str-discrete, str_eq, codes,
  ite, ℕ_discrete, arith,
}
use nrdot_host.Jwt.{
  JwtClaims, JwtLibrary, JwtManager, Method, hmac, done, generate_token, validate_token,
  jwt_middleware, served, claims_of, get_permissions_for_role, has_permissions, split_space,
}
use nrdot_host.Jwt.Access.{
  Reads, Verifies, Granted, jwt_middleware_serves, validate_token-generate_token,
}

abbrev manager : JwtManager
manager = record { secret_key = codes "k"; token_duration = 100000000000; issuer = codes "nrdot" }

abbrev claims : JwtClaims
claims = record {
  issuer = codes "nrdot";
  subject = codes "ann";
  expires_at = some 110000000000;
  issued_at = 10000000000;
  id = codes "1";
  role = codes "operator";
  permissions = codes "read" ∷ codes "write" ∷ codes "reload" ∷ [];
}

unfoldable JwtClaims-discrete : Discrete JwtClaims
JwtClaims-discrete = hlevel ℕ_discrete

abbrev parsed : Str → Option Str → Option (JwtClaims × Bool)
parsed token none = none
parsed token (some key) =
    ite (Str-discrete key (codes "k"))
      (ite (Str-discrete token (codes "t")) (some (claims, true)) none) none

-- A library that knows one token.
abbrev library : JwtLibrary
library = record {
  parse_with_claims = λ keys now token. parsed token (keys hmac);
  signed_string = λ key c.
      ite (JwtClaims-discrete c claims) (ite (Str-discrete key (codes "k")) (some (codes "t")) none)
        none;
}

reads : Reads library manager
reads key token now c signed plain before =
    elim (JwtClaims-discrete c claims)
        as (λ d.
          ite d (ite (Str-discrete key (codes "k")) (some (codes "t")) none) none ≡ some token
          → parsed token (some key) ≡ some (c, true)) [
            | yes p ↦ λ e.
                subst (λ c. parsed token (some key) ≡ some (c, true)) (sym p) (ground (arith, e))
            | no p ↦ λ e. absurd (ground (arith, e))
          ]
      signed

abbrev Known : Str → Str → JwtClaims → Type 0
Known key token c = key ≡ codes "k"

verifies : Verifies library manager Known
verifies keys now token c h =
    elim (keys hmac)
        as (λ o.
          parsed token o ≡ some (c, true)
          → keys hmac ≡ o
          → (method : Method) × (key : Str) × (keys method ≡ some key) × Known key token c) [
            | none ↦ λ e q. absurd (ground (arith, e))
            | some key ↦ λ e q. (hmac, key, q, ground (arith, e))
          ]
      h refl

signs :
    generate_token library manager 10000000000 (codes "1") (codes "ann") (codes "operator")
    ≡ some (codes "t")
unfolding generate_token get_permissions_for_role str_eq JwtClaims-discrete Str-discrete ℕ_discrete
signs = refl

validate_token-generate_token_example :
    validate_token library manager 50 (codes "t")
    ≡ done (claims_of library manager 10000000000 (codes "1") (codes "ann") (codes "operator"))
validate_token-generate_token_example =
    validate_token-generate_token library manager 10000000000 50 (codes "1") (codes "ann")
      (codes "operator") (codes "t") reads
      (
        (refl, (refl, (refl, (refl, (refl, tt))))),
        (
          (refl, (refl, (refl, tt))),
          ((refl, tt), ((refl, (refl, (refl, (refl, (refl, (refl, (refl, (refl, tt)))))))), tt)),
        ),
      )
      signs (omega arith)

serves : jwt_middleware library manager (codes "write" ∷ []) 50 (codes "Bearer t") ≡ served claims
unfolding jwt_middleware has_permissions validate_token split_space str_eq Str-discrete ℕ_discrete
serves = refl

jwt_middleware_serves_example : Granted library manager Known (codes "write" ∷ []) 50 claims
jwt_middleware_serves_example =
    jwt_middleware_serves library manager Known (codes "write" ∷ []) 50 (codes "Bearer t") claims
      verifies serves
