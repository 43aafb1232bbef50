-- ===== src/Jwt.antt =====
-- nrdot-common/pkg/auth/jwt.go: tokens that are signed, with a role and its permissions. The library
-- golang-jwt, the random source and the clock are parameters.
pub mod Plain
pub mod Access
use nrdot_host.Common.{
  ℕ, ◌+◌, ◌-◌, ◌%◌, List, [], ◌∷◌, Bool, true, false, ltb, leb, not, ◌==◌, Option, none, some,
  ◌>>=◌, if◌then◌else◌, Str, str_eq, codes,
}
use nrdot_host.Security.Config.{is_empty}

-- No time to expire, or one.
pub record JwtClaims : Type 0 where
  pub issuer : Str
  pub subject : Str
  pub expires_at : Option ℕ
  pub issued_at : ℕ
  pub id : Str
  pub role : Str
  pub permissions : List Str

-- The methods of signing: the HMAC family, and all others.
pub data Method : Type 0 where
  hmac other_method : Method

-- `jwt.ParseWithClaims`, which takes the key from a function of the method, gives the claims and
-- whether the token is valid; `SignedString` signs claims with a key.
pub record JwtLibrary : Type 0 where
  pub parse_with_claims : (Method → Option Str) → ℕ → Str → Option (JwtClaims × Bool)
  pub signed_string : Str → JwtClaims → Option Str

pub record JwtManager : Type 0 where
  pub secret_key : Str
  pub token_duration : ℕ
  pub issuer : Str

-- `random` is the key from the random source, `none` its error.
unfoldable pub new_jwt_manager : Option Str → Str → ℕ → Str → Option JwtManager
new_jwt_manager random secret_key token_duration issuer =
    (if is_empty secret_key then random else some secret_key) >>= λ key.
    some (record { secret_key = key; token_duration = token_duration; issuer = issuer })

unfoldable pub get_permissions_for_role : Str → List Str
get_permissions_for_role role =
    if str_eq role (codes "admin")
    then codes "read" ∷ codes "write" ∷ codes "delete" ∷ codes "reload" ∷ []
    else (if str_eq role (codes "operator")
        then codes "read" ∷ codes "write" ∷ codes "reload" ∷ []
        else (if str_eq role (codes "viewer") then codes "read" ∷ [] else []))

abbrev pub key_func : Str → Method → Option Str
key_func secret_key hmac = some secret_key
key_func secret_key other_method = none

unfoldable pub has_permission : List Str → Str → Bool
unfolding str_eq
has_permission [] required = false
has_permission (p ∷ ps) required =
    let r = has_permission ps required in if str_eq p required then true else r

unfoldable pub has_permissions : List Str → List Str → Bool
unfolding has_permission
has_permissions user_perms [] = true
has_permissions user_perms (required ∷ rest) =
    let r = has_permissions user_perms rest in
    if has_permission user_perms required then r else false

-- `Before` and `After` are strict.
abbrev pub is_expired : Option ℕ → ℕ → Bool
is_expired none now = false
is_expired (some at) now = ltb at now

pub data JwtError : Type 0 where
  invalid_token invalid_claims expired invalid_issuer not_close_to_expiration not_signed : JwtError

pub data Outcome (A : Type 0) : Type 0 where
  done : A → Outcome A
  failed : JwtError → Outcome A
  panic : Outcome A

-- `jwt.NewNumericDate`: a time in nanoseconds, cut to the second.
abbrev pub new_numeric_date : ℕ → ℕ
new_numeric_date t = t - t % 1000000000

module _ (lib : JwtLibrary) (m : JwtManager) where
  abbrev pub claims_of : ℕ → Str → Str → Str → JwtClaims
  claims_of now id user_id role = record {
    issuer = m.issuer;
    subject = user_id;
    expires_at = some (new_numeric_date (now + m.token_duration));
    issued_at = new_numeric_date now;
    id = id;
    role = role;
    permissions = get_permissions_for_role role;
  }

  -- The clock is read once. `id` comes from the random source.
  unfoldable pub generate_token : ℕ → Str → Str → Str → Option Str
  unfolding get_permissions_for_role
  generate_token now id user_id role =
      lib.signed_string m.secret_key (claims_of now id user_id role)

  abbrev pub judge : ℕ → Option (JwtClaims × Bool) → Outcome JwtClaims
  judge now none = failed invalid_token
  judge now (some (claims, false)) = failed invalid_claims
  judge now (some (claims, true)) =
      if is_expired claims.expires_at now
      then failed expired
      else (if str_eq claims.issuer m.issuer then done claims else failed invalid_issuer)

  unfoldable pub validate_token : ℕ → Str → Outcome JwtClaims
  validate_token now token = judge now (lib.parse_with_claims (key_func m.secret_key) now token)

  abbrev signed_again : Option Str → Outcome Str
  signed_again none = failed not_signed
  signed_again (some token) = done token

  -- A token without a time to expire has a nil pointer there.
  abbrev pub refresh_until : ℕ → Str → JwtClaims → Option ℕ → Outcome Str
  refresh_until now id claims none = panic
  refresh_until now id claims (some at) =
      if ltb (now + 3600000000000) at
      then failed not_close_to_expiration
      else signed_again (generate_token now id claims.subject claims.role)

  abbrev pub refresh_valid : ℕ → Str → Outcome JwtClaims → Outcome Str
  refresh_valid now id (done claims) = refresh_until now id claims claims.expires_at
  refresh_valid now id (failed err) = failed err
  refresh_valid now id panic = panic

  unfoldable pub refresh_token : ℕ → Str → Str → Outcome Str
  unfolding validate_token generate_token
  refresh_token now id old_token = refresh_valid now id (validate_token now old_token)

-- `strings.SplitN(header, " ", 2)`: what is before and behind the first space.
unfoldable pub split_space : Str → Option (Str × Str)
split_space [] = none
split_space (c ∷ s) =
    let rest = split_space s in
    if c == b' ' then some ([], s) else (rest >>= λ parts. some (c ∷ parts.0, parts.1))

pub data Answer : Type 0 where
  header_required no_bearer unauthorized forbidden : Answer
  served : JwtClaims → Answer

module _ (lib : JwtLibrary) (m : JwtManager) where
  abbrev pub answer : List Str → Outcome JwtClaims → Answer
  answer required (done claims) =
      if has_permissions claims.permissions required then served claims else forbidden
  answer required (failed _) = unauthorized
  answer required panic = unauthorized

  abbrev pub answer_parts : List Str → ℕ → Option (Str × Str) → Answer
  answer_parts required now none = no_bearer
  answer_parts required now (some (scheme, token)) =
      if str_eq scheme (codes "Bearer")
      then answer required (validate_token lib m now token)
      else no_bearer

  -- `served` passes the claims on to the next handler.
  unfoldable pub jwt_middleware : List Str → ℕ → Str → Answer
  unfolding has_permissions validate_token split_space
  jwt_middleware required now header =
      if is_empty header then header_required else answer_parts required now (split_space header)
