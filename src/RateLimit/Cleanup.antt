-- ===== src/RateLimit/Cleanup.antt =====
-- ratelimit.go, cleanup and the key of a client: two places where the limit does not hold as meant.
use mathlib.Core.List.{lookup}
use nrdot_host.Common.{
  ℕ, ◌+◌, ◌-◌, ◌/◌, ◌≡◌, ◌≢◌, ◌<◌, refl, ap, ◌∙◌, List, [], ◌∷◌, true, false, Option, none, some,
  arith, ltb, if◌then◌else◌, Str, Str-discrete,
}
use nrdot_host.RateLimit.{
  TokenBucket, RateLimiter, refill_bucket, take_token, allow, drop_old, cleanup, ten_minutes,
}
use nrdot_host.Common.Dict.{Distinct, lookup-insert_self}

-- What the cleanup leaves of a key: its bucket, if that was refilled within ten minutes.
abbrev pub young : ℕ → Option TokenBucket → Option TokenBucket
young now none = none
young now (some b) = if ltb (b.last_refill + ten_minutes) now then none else some b

lookup-drop_old_absent :
    (now : ℕ) (k : Str) (m : List (Str × TokenBucket))
    → lookup Str-discrete k m ≡ none
    → lookup Str-discrete k (drop_old now m) ≡ none
unfolding lookup drop_old
lookup-drop_old_absent now k [] h = refl
lookup-drop_old_absent now k ((j, b) ∷ m) h = ground (arith, lookup-drop_old_absent now k m)

drop_old_match :
    (now : ℕ) (key j : Str) (b : TokenBucket) (m : List (Str × TokenBucket))
    → key ≡ j
    → lookup Str-discrete key (drop_old now m) ≡ none
    → lookup Str-discrete key (drop_old now ((j, b) ∷ m))
      ≡ young now (lookup Str-discrete key ((j, b) ∷ m))
unfolding lookup drop_old
drop_old_match now key j b m e gone = ground arith

drop_old_other :
    (now : ℕ) (key j : Str) (b : TokenBucket) (m : List (Str × TokenBucket))
    → key ≢ j
    → lookup Str-discrete key (drop_old now m) ≡ young now (lookup Str-discrete key m)
    → lookup Str-discrete key (drop_old now ((j, b) ∷ m))
      ≡ young now (lookup Str-discrete key ((j, b) ∷ m))
unfolding lookup drop_old
drop_old_other now key j b m ne there = ground arith

lookup-drop_old :
    (now : ℕ) (key : Str) (m : List (Str × TokenBucket))
    → Distinct Str-discrete m
    → lookup Str-discrete key (drop_old now m) ≡ young now (lookup Str-discrete key m)
unfolding lookup drop_old
lookup-drop_old now key [] d = refl
lookup-drop_old now key ((j, b) ∷ m) (d, ds) =
    let there = lookup-drop_old now key m ds in
    let gone = lookup-drop_old_absent now key m in
    elim (Str-discrete key j) [
      | yes e ↦
          let none_there : lookup Str-discrete key m ≡ none = rw e d in
          drop_old_match now key j b m e (gone none_there)
      | no ne ↦ drop_old_other now key j b m ne there
    ]

-- The cleanup takes the buckets that were last refilled more than ten minutes ago, and leaves every
-- other bucket as it was. The keys are distinct.
pub lookup-cleanup :
    (key : Str) (now : ℕ) (rl : RateLimiter)
    → Distinct Str-discrete rl.buckets
    → lookup Str-discrete key (cleanup now rl).buckets
      ≡ young now (lookup Str-discrete key rl.buckets)
unfolding cleanup
lookup-cleanup key now rl d = lookup-drop_old now key rl.buckets d

-- A request of a client without a token is refused until an interval has passed.
allow_empty :
    (key : Str) (now : ℕ) (rl : RateLimiter) (b : TokenBucket)
    → lookup Str-discrete key rl.buckets ≡ some b
    → b.tokens ≡ 0
    → (now - b.last_refill) / rl.interval ≡ 0
    → (allow key now now rl).1 ≡ false
unfolding allow take_token refill_bucket
allow_empty key now rl b e empty same = rw e (ground (arith, empty, same))

-- The first request of a client passes, and takes one token of a full bucket.
allow_unknown :
    (key : Str) (now : ℕ) (rl : RateLimiter)
    → lookup Str-discrete key rl.buckets ≡ none
    → 0 < rl.bucket_size
    → ((allow key now now rl).1 ≡ true)
      × (lookup Str-discrete key (allow key now now rl).0.buckets
          ≡ some (record { tokens = rl.bucket_size - 1; last_refill = now }))
unfolding allow take_token refill_bucket
allow_unknown key now rl e size = (
  rw e (ground arith),
  lookup-insert_self Str-discrete key _ rl.buckets ∙ ap some (rw e (ground arith)),
)

size_kept : (now : ℕ) (rl : RateLimiter) → 0 < rl.bucket_size → 0 < (cleanup now rl).bucket_size
unfolding cleanup
size_kept now rl h = h

-- A client whose bucket the cleanup has taken is served again at once, however long the interval, and
-- its bucket is then a new one with all tokens but the one that was taken. The bucket was last refilled
-- more than ten minutes before, has no token, and no interval has passed; without the cleanup the
-- client is refused.
pub allow-cleanup :
    (key : Str) (now : ℕ) (rl : RateLimiter) (b : TokenBucket)
    → Distinct Str-discrete rl.buckets
    → lookup Str-discrete key rl.buckets ≡ some b
    → b.tokens ≡ 0
    → b.last_refill + ten_minutes < now
    → (now - b.last_refill) / rl.interval ≡ 0
    → 0 < rl.bucket_size
    → 0 < rl.interval
    → ((allow key now now rl).1 ≡ false)
      × ((allow key now now (cleanup now rl)).1 ≡ true)
      × (lookup Str-discrete key (allow key now now (cleanup now rl)).0.buckets
          ≡ some (record { tokens = rl.bucket_size - 1; last_refill = now }))
unfolding cleanup
allow-cleanup key now rl b d e empty old same size pos =
    let gone : lookup Str-discrete key (cleanup now rl).buckets ≡ none =
      lookup-cleanup key now rl d ∙ rw e (ground (arith, old)) in
    let (passes, full) = allow_unknown key now (cleanup now rl) gone (size_kept now rl size) in
    (allow_empty key now rl b e empty same, passes, full)
