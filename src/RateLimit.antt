-- ===== src/RateLimit.antt =====
-- nrdot-api-server/pkg/middleware/ratelimit.go: the token bucket rate limiter. Times and durations
-- are nanoseconds. A reading of the clock is an argument. The interval is meant to be
-- positive: the source divides by it.
pub mod Bounds
pub mod Cleanup
use mathlib.Core.List.{lookup}
use nrdot_host.Common.Dict.{insert}
use nrdot_host.Common.{
  ℕ, zero, suc, ◌+◌, ◌-◌, ◌*◌, ◌/◌, List, [], ◌∷◌, ◌++◌, Bool, true, false, Option, none, some, ltb,
  ◌==◌, if◌then◌else◌, length, get_elem?, take, Str, Str-discrete, codes,
}

pub record TokenBucket : Type 0 where
  pub tokens : ℕ
  pub last_refill : ℕ

pub record RateLimiter : Type 0 where
  pub buckets : List (Str × TokenBucket)
  pub rate : ℕ
  pub interval : ℕ
  pub bucket_size : ℕ

-- A bucket size of zero stands for the rate.
unfoldable pub new_rate_limiter : ℕ → ℕ → ℕ → RateLimiter
new_rate_limiter rate interval bucket_size = record {
  buckets = [];
  rate = rate;
  interval = interval;
  bucket_size = if bucket_size == 0 then rate else bucket_size;
}

unfoldable pub smaller : ℕ → ℕ → ℕ
smaller a b = if ltb a b then a else b

-- A clock that has gone back gives no interval, as the quotient of a negative duration does.
unfoldable pub refill_bucket : RateLimiter → ℕ → TokenBucket → TokenBucket
unfolding smaller
refill_bucket rl now bucket =
    let intervals = (now - bucket.last_refill) / rl.interval in
    if ltb 0 intervals
    then record bucket {
      tokens = smaller (bucket.tokens + intervals * rl.rate) rl.bucket_size;
      last_refill = bucket.last_refill + intervals * rl.interval;
    }
    else bucket

-- Takes a token, if there is one.
unfoldable pub take_token : TokenBucket → TokenBucket × Bool
take_token bucket =
    if ltb 0 bucket.tokens
    then (record bucket { tokens = bucket.tokens - 1 }, true)
    else (bucket, false)

abbrev pub bucket_or_new : RateLimiter → ℕ → Option TokenBucket → TokenBucket
bucket_or_new rl created none = record { tokens = rl.bucket_size; last_refill = created }
bucket_or_new rl created (some bucket) = bucket

-- `created` is the reading for a new bucket, and `now` that of the refill.
unfoldable pub allow : Str → ℕ → ℕ → RateLimiter → RateLimiter × Bool
unfolding refill_bucket take_token
allow key created now rl =
    let bucket = bucket_or_new rl created (lookup Str-discrete key rl.buckets) in
    let (bucket', allowed) = take_token (refill_bucket rl now bucket) in
    (record rl { buckets = insert Str-discrete key bucket' rl.buckets }, allowed)

abbrev pub ten_minutes : ℕ
ten_minutes = 600000000000

-- One round of the cleanup: the buckets that were not refilled for ten minutes go.
unfoldable pub drop_old : ℕ → List (Str × TokenBucket) → List (Str × TokenBucket)
drop_old now [] = []
drop_old now ((key, bucket) ∷ rest) =
    let kept = drop_old now rest in
    if ltb (bucket.last_refill + ten_minutes) now then kept else (key, bucket) ∷ kept

unfoldable pub cleanup : ℕ → RateLimiter → RateLimiter
unfolding drop_old
cleanup now rl = record rl { buckets = drop_old now rl.buckets }

-- What a request meets: the next handler, or status 429 with the seconds of `Retry-After`.
pub data Response : Type 0 where
  served : Response
  too_many_requests : ℕ → Response

abbrev or_default : Str → Str
or_default [] = codes "default"
or_default key = key

unfoldable pub rate_limit_middleware : Str → ℕ → ℕ → RateLimiter → RateLimiter × Response
unfolding allow
rate_limit_middleware key created now rl =
    let (rl', allowed) = allow (or_default key) created now rl in
    (rl', if allowed then served else too_many_requests (rl.interval / 1000000000))

-- The parts of a request that the key functions read. A missing header is the empty string.
pub record Request : Type 0 where
  pub x_real_ip : Str
  pub x_forwarded_for : Str
  pub x_api_key : Str
  pub api_key_query : Str
  pub remote_addr : Str
  pub method : Str
  pub path : Str

abbrev pub last_index : Str → ℕ
last_index ip = length ip - 1

-- The text without its last byte, if that is a comma and not the only byte.
unfoldable pub without_last_comma : Str → Str
without_last_comma ip =
    if ltb 0 (last_index ip)
    then elim (get_elem? ip (last_index ip)) [
      | none ↦ ip
      | some c ↦ if c == b',' then take (last_index ip) ip else ip
    ]
    else ip

abbrev forwarded_or : Str → Str → Str
forwarded_or [] remote = remote
forwarded_or ip remote = without_last_comma ip

abbrev real_or : Str → Str → Str → Str
real_or [] forwarded remote = forwarded_or forwarded remote
real_or ip forwarded remote = ip

unfoldable pub ip_key_func : Request → Str
unfolding without_last_comma
ip_key_func r = real_or r.x_real_ip r.x_forwarded_for r.remote_addr

abbrev header_or : Str → Str → Str
header_or [] query = query
header_or key query = key

unfoldable pub api_key_func : Request → Str
api_key_func r = header_or r.x_api_key r.api_key_query

abbrev pub user_key_func : Request → Str
user_key_func r = codes "user"

unfoldable pub endpoint_key_func : Request → Str
endpoint_key_func r = r.method ++ (codes ":" ++ r.path)
