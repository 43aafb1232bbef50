-- ===== src/Auth.antt =====
-- nrdot-common/pkg/auth/store.go: the store of API tokens and the middleware that asks it. A reading of
-- the clock is an argument, and so are the random bytes of a new token and their base64 text.
pub mod Access
pub mod Revocation
pub mod Roles
pub mod Requests
use mathlib.Core.List.{lookup}
use nrdot_host.Common.Dict.{insert}
use nrdot_host.Common.Int.{ℤ, pos, negsuc}
use nrdot_host.Common.{
  ℕ, suc, ◌+◌, ◌-◌, List, [], ◌∷◌, Bool, true, false, not, ◌&&◌, Option, none, some, ltb, leb,
  if◌then◌else◌, length, drop, take, Str, Str-discrete, str_eq, codes,
}

pub record TokenInfo : Type 0 where
  pub token : Str
  pub user_id : Str
  pub role : Str
  pub description : Str
  pub created_at : ℕ
  pub expires_at : ℕ
  pub last_used : Option ℕ
  pub revoked : Bool

pub record TokenStore : Type 0 where
  pub tokens : List (Str × TokenInfo)

abbrev pub new_token_store : TokenStore
new_token_store = record { tokens = [] }

-- What the lookups of a token report.
pub data TokenError : Type 0 where
  token_not_found : TokenError
  token_revoked : TokenError
  token_expired : TokenError
  generate_failed : TokenError

pub data Reply : Type 0 where
  info_of : TokenInfo → Reply
  error_of : TokenError → Reply

-- A time and a duration, which may be negative.
abbrev pub time_add : ℕ → ℤ → ℕ
time_add now (pos d) = now + d
time_add now (negsuc d) = now - suc d

abbrev pub new_token : Str → Str → Str → Str → ℤ → ℕ → TokenInfo
new_token token user_id role description duration now = record {
  token = token;
  user_id = user_id;
  role = role;
  description = description;
  created_at = now;
  expires_at = time_add now duration;
  last_used = none;
  revoked = false;
}

-- The random bytes are none where the source of randomness fails.
unfoldable pub create_token :
    (Str → Str) → Option Str → Str → Str → Str → ℤ → ℕ → TokenStore → TokenStore × Reply
create_token encode none user_id role description duration now s = (s, error_of generate_failed)
create_token encode (some token_bytes) user_id role description duration now s =
    let token = encode token_bytes in
    let info = new_token token user_id role description duration now in
    (record s { tokens = insert Str-discrete token info s.tokens }, info_of info)

-- `now` is the reading that the expiry is compared with, and `used` that of the last use.
abbrev pub validate_entry : Str → ℕ → ℕ → TokenStore → Option TokenInfo → TokenStore × Reply
validate_entry token now used s none = (s, error_of token_not_found)
validate_entry token now used s (some info) =
    if info.revoked
    then (s, error_of token_revoked)
    else (if ltb info.expires_at now
        then (s, error_of token_expired)
        else (let info' = record info { last_used = some used } in
            (record s { tokens = insert Str-discrete token info' s.tokens }, info_of info')))

unfoldable pub validate_token : Str → ℕ → ℕ → TokenStore → TokenStore × Reply
validate_token token now used s =
    validate_entry token now used s (lookup Str-discrete token s.tokens)

abbrev pub revoke_entry : Str → TokenStore → Option TokenInfo → TokenStore × Option TokenError
revoke_entry token s none = (s, some token_not_found)
revoke_entry token s (some info) = (
  record s { tokens = insert Str-discrete token (record info { revoked = true }) s.tokens },
  none,
)

unfoldable pub revoke_token : Str → TokenStore → TokenStore × Option TokenError
revoke_token token s = revoke_entry token s (lookup Str-discrete token s.tokens)

-- The tokens of a user, in the order in which the map is read.
unfoldable pub select_user : Str → List (Str × TokenInfo) → List TokenInfo
select_user user_id [] = []
select_user user_id ((token, info) ∷ rest) =
    let selected = select_user user_id rest in
    if str_eq info.user_id user_id then info ∷ selected else selected

unfoldable pub list_tokens : Str → TokenStore → List TokenInfo
unfolding select_user
list_tokens user_id s = select_user user_id s.tokens

unfoldable pub drop_expired : ℕ → List (Str × TokenInfo) → List (Str × TokenInfo) × ℕ
drop_expired now [] = ([], 0)
drop_expired now ((token, info) ∷ rest) =
    let (kept, removed) = drop_expired now rest in
    if ltb info.expires_at now then (kept, suc removed) else ((token, info) ∷ kept, removed)

unfoldable pub cleanup_expired : ℕ → TokenStore → TokenStore × ℕ
cleanup_expired now s =
    let (kept, removed) = drop_expired now s.tokens in (record s { tokens = kept }, removed)

abbrev info_or_missing : Option TokenInfo → Reply
info_or_missing none = error_of token_not_found
info_or_missing (some info) = info_of info

unfoldable pub get_token_info : Str → TokenStore → Reply
get_token_info token s = info_or_missing (lookup Str-discrete token s.tokens)

unfoldable pub count_active : ℕ → List (Str × TokenInfo) → ℕ
count_active now [] = 0
count_active now ((token, info) ∷ rest) =
    let counted = count_active now rest in
    if not info.revoked && ltb now info.expires_at then suc counted else counted

unfoldable pub count : ℕ → TokenStore → ℕ
unfolding count_active
count now s = count_active now s.tokens

-- The levels of the roles; a role that is none of the three has no level.
abbrev pub role_level : Str → Option ℕ
role_level role =
    if str_eq role (codes "viewer")
    then some 1
    else (if str_eq role (codes "operator")
        then some 2
        else (if str_eq role (codes "admin") then some 3 else none))

abbrev pub adequate : Option ℕ → Option ℕ → Bool
adequate none required = false
adequate (some user) none = false
adequate (some user) (some required) = leb required user

unfoldable pub has_required_role : Str → Str → Bool
has_required_role user_role required_role =
    adequate (role_level user_role) (role_level required_role)

-- What a request gets: the next handler with the token's data, or an error with its status.
pub data Response : Type 0 where
  served : TokenInfo → Response
  unauthorized : Option TokenError → Response
  forbidden : Response

-- The token of a header, without the prefix.
unfoldable pub strip_bearer : Str → Str
unfolding str_eq
strip_bearer header =
    if ltb 7 (length header) && str_eq (take 7 header) (codes "Bearer ")
    then drop 7 header
    else header

abbrev role_missing : Str → Str → Bool
role_missing [] role = false
role_missing required role = not (has_required_role role required)

abbrev pub answer : Str → Reply → Response
answer required (error_of e) = unauthorized (some e)
answer required (info_of info) = if role_missing required info.role then forbidden else served info

unfoldable pub authenticate : Str → Str → ℕ → ℕ → TokenStore → TokenStore × Response
authenticate required [] now used s = (s, unauthorized none)
authenticate required header now used s =
    let (s', reply) = validate_token (strip_bearer header) now used s in (s', answer required reply)

-- The first of the two headers that is not empty counts.
abbrev pub header_of : Str → Str → Str
header_of [] api_key = api_key
header_of authorization api_key = authorization

unfoldable pub http_middleware : Str → Str → Str → ℕ → ℕ → TokenStore → TokenStore × Response
unfolding authenticate
http_middleware required authorization api_key now used s =
    authenticate required (header_of authorization api_key) now used s
