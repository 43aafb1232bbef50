-- ===== src/RateLimit/Bounds.antt =====
-- ratelimit.go: no more requests pass than the bucket and the elapsed time allow.
use native.Mathlib.Nat.{div-add-mod', div-eq-sub-div}
use mathlib.Core.List.{lookup}
use nrdot_host.Common.Dict.{
  AllValues, AllValues-insert, AllValues-lookup, insert, lookup-insert_self,
}
use nrdot_host.Common.{
  ℕ, zero, suc, ◌+◌, ◌-◌, ◌*◌, ◌/◌, ◌≡◌, ◌≤◌, ◌<◌, refl, ap, subst, List, [], ◌∷◌, Bool, Option,
  none, some, arith, if◌then◌else◌, if_split, All, Str, Str-discrete,
}
use nrdot_host.RateLimit.{TokenBucket, RateLimiter, refill_bucket, take_token, bucket_or_new, allow}

-- No bucket holds more tokens than fit.
abbrev pub IsWithin : RateLimiter → Type 0
IsWithin rl = AllValues Str-discrete (λ (b : TokenBucket). b.tokens ≤ rl.bucket_size) rl.buckets

step_within :
    (rl : RateLimiter) (now : ℕ) (b : TokenBucket)
    → b.tokens ≤ rl.bucket_size
    → (take_token (refill_bucket rl now b)).0.tokens ≤ rl.bucket_size
unfolding take_token refill_bucket
step_within rl now b h = ground arith

-- If no bucket holds more tokens than fit, none does after a request.
pub allow-IsWithin :
    (key : Str) (created now : ℕ) (rl : RateLimiter)
    → IsWithin rl
    → IsWithin (allow key created now rl).0
unfolding allow
allow-IsWithin key created now rl h =
    AllValues-insert Str-discrete (λ (b : TokenBucket). b.tokens ≤ rl.bucket_size) key _ rl.buckets
      (step_within rl now (bucket_or_new rl created (lookup Str-discrete key rl.buckets))
        (held (lookup Str-discrete key rl.buckets) refl))
      h
  where
    held :
        (o : Option TokenBucket)
        → lookup Str-discrete key rl.buckets ≡ o
        → (bucket_or_new rl created o).tokens ≤ rl.bucket_size
    held none e = omega arith
    held (some b) e =
        AllValues-lookup Str-discrete (λ (b : TokenBucket). b.tokens ≤ rl.bucket_size) key b
          rl.buckets h e

-- The requests of one key at the given times: how many pass.
unfoldable pub allow_all : Str → List ℕ → RateLimiter → ℕ
allow_all key [] rl = 0
allow_all key (now ∷ times) rl =
    let (rl', allowed) = allow key now now rl in
    let rest = allow_all key times rl' in if allowed then suc rest else rest

-- The tokens that a bucket has, or can still get until `until`.
abbrev pub worth : RateLimiter → ℕ → TokenBucket → ℕ
worth rl until b = b.tokens + rl.rate * ((until - b.last_refill) / rl.interval)

-- The bucket that a request leaves.
abbrev served_bucket : RateLimiter → ℕ → TokenBucket → TokenBucket
served_bucket rl now b = (take_token (refill_bucket rl now b)).0

div-mul-le : (a i : ℕ) → a / i * i ≤ a
div-mul-le a i = omega (arith, div-add-mod' a i)

div-sub-mul : (k i a : ℕ) → 0 < i → k * i ≤ a → (a - k * i) / i + k ≡ a / i
div-sub-mul zero i a pos h = rw (let q : a - zero * i ≡ a = omega arith in q) (omega arith)
div-sub-mul (suc k) i a pos h =
    let below : k * i ≤ a - i = grind arith in
    let first : a / i ≡ (a - i) / i + 1 = div-eq-sub-div pos (grind arith) in
    let same : a - suc k * i ≡ a - i - k * i = grind arith in
    rw same (omega (arith, div-sub-mul k i (a - i) pos below, first))

module _ (until : ℕ) (rl : RateLimiter) (pos : 0 < rl.interval) where
  -- Time that has passed is only turned into tokens.
  refill_worth :
      (now : ℕ) (b : TokenBucket)
      → now ≤ until
      → b.last_refill ≤ until
      → (worth rl until (refill_bucket rl now b) ≤ worth rl until b)
        × ((refill_bucket rl now b).last_refill ≤ until)
  unfolding refill_bucket
  refill_worth now b h k =
      let n = (now - b.last_refill) / rl.interval in
      let spent : n * rl.interval ≤ now - b.last_refill =
        div-mul-le (now - b.last_refill) rl.interval in
      let total = (until - b.last_refill) / rl.interval in
      let left = (until - b.last_refill - n * rl.interval) / rl.interval in
      let split : left + n ≡ total =
        div-sub-mul n rl.interval (until - b.last_refill) pos (omega arith) in
      let tokens : rl.rate * (left + n) ≡ rl.rate * total = ap (λ t. rl.rate * t) split in
      let shift : until - (b.last_refill + n * rl.interval)
          ≡ until - b.last_refill - n * rl.interval =
        omega arith in
      let later : (until - (b.last_refill + n * rl.interval)) / rl.interval ≡ left =
        ap (λ t. t / rl.interval) shift in
      ground (arith, tokens, later, spent)

  take_worth :
      (b : TokenBucket)
      → worth rl until (take_token b).0 + (if (take_token b).1 then 1 else 0) ≡ worth rl until b
  unfolding take_token
  take_worth b = ground arith

  take_refill : (b : TokenBucket) → (take_token b).0.last_refill ≡ b.last_refill
  unfolding take_token
  take_refill b = ground arith

-- The limiter after a request of a key with the bucket `b`.
abbrev limiter_after : Str → ℕ → RateLimiter → TokenBucket → RateLimiter
limiter_after key now rl b = record rl {
  buckets = insert Str-discrete key (served_bucket rl now b) rl.buckets;
}

allow_lem :
    (key : Str) (created now : ℕ) (rl : RateLimiter) (b : TokenBucket)
    → bucket_or_new rl created (lookup Str-discrete key rl.buckets) ≡ b
    → allow key created now rl
      ≡ (limiter_after key now rl b, (take_token (refill_bucket rl now b)).1)
unfolding allow
allow_lem key created now rl b e =
    ap (λ (x : TokenBucket). (limiter_after key now rl x, (take_token (refill_bucket rl now x)).1))
      e

-- A request adds to what passes no more than it takes from the bucket's worth.
allow_all_step :
    (key : Str) (now : ℕ) (times : List ℕ) (until : ℕ) (rl : RateLimiter) (b : TokenBucket)
    → 0 < rl.interval
    → now ≤ until
    → b.last_refill ≤ until
    → bucket_or_new rl now (lookup Str-discrete key rl.buckets) ≡ b
    → allow_all key times (limiter_after key now rl b) ≤ worth rl until (served_bucket rl now b)
    → allow_all key (now ∷ times) rl ≤ worth rl until b
unfolding allow_all
allow_all_step key now times until rl b pos h k e rest = rw (allow_lem key now now rl b e) (
    let less = (refill_worth until rl pos now b h k).0 in
    let owed = worth rl until (served_bucket rl now b) in
    let whole = worth rl until (refill_bucket rl now b) in
    let taken = take_worth until rl pos (refill_bucket rl now b) in
    if_split {A = ℕ} (λ n. n ≤ worth rl until b) (take_token (refill_bucket rl now b)).1 _ _
      (λ p.
        let q = subst (λ (c : Bool). owed + (if c then 1 else 0) ≡ whole) p taken in
        omega (arith, q, less, rest))
      (λ p.
        let q = subst (λ (c : Bool). owed + (if c then 1 else 0) ≡ whole) p taken in
        omega (arith, q, less, rest)))

-- Requests of a client that has a bucket, made in any order until a given time, pass at most as often
-- as the bucket has tokens and gets tokens by then: the rate times the number of whole intervals since
-- its last refill. The interval is not zero.
pub allow_all_bounded :
    (key : Str) (times : List ℕ) (until : ℕ) (rl : RateLimiter) (b : TokenBucket)
    → 0 < rl.interval
    → All (λ t. t ≤ until) times
    → lookup Str-discrete key rl.buckets ≡ some b
    → b.last_refill ≤ until
    → allow_all key times rl ≤ b.tokens + rl.rate * ((until - b.last_refill) / rl.interval)
unfolding allow_all
allow_all_bounded key [] until rl b pos h e k = omega arith
allow_all_bounded key (now ∷ times) until rl b pos (h, hs) e k =
    let after = served_bucket rl now b in
    let before : after.last_refill ≤ until =
      rw (take_refill until rl pos (refill_bucket rl now b))
        (refill_worth until rl pos now b h k).1 in
    allow_all_step key now times until rl b pos h k (rw e refl) (
      allow_all_bounded key times until (limiter_after key now rl b) after pos hs
        (lookup-insert_self Str-discrete key after rl.buckets) before)

-- Requests of a client that the limiter does not know, the first at the time `first` and no later one
-- after `until`, pass at most as often as the size of a bucket and the rate times the number of whole
-- intervals from `first` to `until`. The interval is not zero.
allow_all_new :
    (key : Str) (first : ℕ) (times : List ℕ) (until : ℕ) (rl : RateLimiter)
    → 0 < rl.interval
    → first ≤ until
    → All (λ t. t ≤ until) times
    → lookup Str-discrete key rl.buckets ≡ none
    → allow_all key (first ∷ times) rl ≤ rl.bucket_size + rl.rate * ((until - first) / rl.interval)
allow_all_new key first times until rl pos k hs e =
    let b = bucket_or_new rl first none in
    let after = served_bucket rl first b in
    let before : after.last_refill ≤ until =
      rw (take_refill until rl pos (refill_bucket rl first b))
        (refill_worth until rl pos first b k k).1 in
    allow_all_step key first times until rl b pos k k (rw e refl) (
      allow_all_bounded key times until (limiter_after key first rl b) after pos hs
        (lookup-insert_self Str-discrete key after rl.buckets) before)
