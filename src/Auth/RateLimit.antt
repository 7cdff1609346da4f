-- ===== src/Auth/RateLimit.antt =====
-- The token bucket per client address (internal/auth/ratelimit.go). Times and durations are in
-- nanoseconds, on one monotonic clock; `tokens` is signed as in the source, and the numbers of the
-- configuration are not negative. Mutual exclusion makes each call one step. Machine `int`s do not
-- wrap here: the source multiplies `elapsed / interval` by the rate in 64 bits.
pub mod Bound
pub mod Kept
pub mod Window
use hopssh.Base.{
  ℕ, zero, suc, ◌+◌, ◌-◌, ◌*◌, ◌/◌, ◌%◌, ◌≤◌, ◌<◌, ◌≡◌, refl, sym, ap, ◌∙◌, ◌≢◌, ◌↔◌, ◌⊎◌, inl, inr,
  Bool, true, false, not, ◌&&◌, ◌||◌, Option, none, some, List, [], ◌∷◌, ◌++◌, map, arith, ltb, leb,
  ◌==◌, if◌then◌else◌, ltb→lt, lt→ltb, leb→le, ==_iff, Bool-cases, Option-cases, length, get_or,
  take, drop, drop_last, replicate, All, length-append, drop_last-append,
}
use hopssh.Base.Text.{Bytes, codes, is_empty, bytes_eq, bytes_eq_iff, bytes_eq_refl, contains}
use hopssh.Base.Int.{ℤ, pos, negsuc, pos_part, neg_part, sub_ℕ, ◌+ℤ◌, ◌-ℤ◌, lebℤ}
use hopssh.Base.Dict.{lookup, insert, filter_entries}

pub record Bucket : Type 0 where
  pub tokens : ℤ
  pub last_seen : ℕ

pub record RateLimiter : Type 0 where
  pub visitors : List (Bytes × Bucket)
  pub rate : ℕ
  pub burst : ℕ
  pub interval : ℕ
  pub trusted_proxy : Bool

unfoldable pub new_rate_limiter : ℕ → ℕ → ℕ → Bool → RateLimiter
new_rate_limiter rate burst interval trusted = record {
  visitors = [];
  rate = rate;
  burst = burst;
  interval = interval;
  trusted_proxy = trusted;
}

-- The refill: `since` is the clock at `time.Since`, `now` at the `time.Now()` that follows.
pub refill : ℕ → ℕ → ℕ → ℕ → ℕ → Bucket → Bucket
unfolding ◌+ℤ◌
refill rate burst interval since now b =
    let added = (since - b.last_seen) / interval * rate in
    let filled = b.tokens +ℤ pos added in
    if ltb 0 added
    then record { tokens = if lebℤ filled (pos burst) then filled else pos burst; last_seen = now }
    else b

-- The bucket after the test, and whether the request passes.
pub take_token : Bucket → Bucket × Bool
unfolding ◌-ℤ◌
take_token b =
    if lebℤ b.tokens (pos 0) then (b, false) else (record b { tokens = b.tokens -ℤ pos 1 }, true)

-- `allow` on the bucket of one address.
pub allow_bucket : ℕ → ℕ → ℕ → ℕ → ℕ → Option Bucket → Bucket × Bool
unfolding refill take_token
allow_bucket rate burst interval since now none =
    (record { tokens = sub_ℕ burst 1; last_seen = now }, true)
allow_bucket rate burst interval since now (some b) =
    take_token (refill rate burst interval since now b)

unfoldable pub allow : RateLimiter → Bytes → ℕ → ℕ → RateLimiter × Bool
unfolding allow_bucket
allow rl ip since now =
    let r = allow_bucket rl.rate rl.burst rl.interval since now (lookup ip rl.visitors) in
    (record rl { visitors = insert ip r.0 rl.visitors }, r.1)

-- Ten minutes.
abbrev pub stale_after : ℕ
stale_after = 600000000000

-- One pass of `cleanup`.
unfoldable pub cleanup : RateLimiter → ℕ → RateLimiter
cleanup rl now = record rl {
  visitors = filter_entries (λ _ b. not (ltb stale_after (now - b.last_seen))) rl.visitors;
}

-- The part of a header before its first comma.
before_comma : Bytes → Bytes
before_comma [] = []
before_comma (c ∷ cs) = if c == b',' then [] else c ∷ before_comma cs

-- `clientIP`: `trim` is strings.TrimSpace, `host_of` the host of net.SplitHostPort.
unfoldable pub client_ip : (Bytes → Bytes) → (Bytes → Bytes) → Bytes → Bytes → Bool → Bytes
unfolding before_comma
client_ip trim host_of forwarded_for remote_addr trusted =
    if trusted && not (is_empty forwarded_for)
    then trim (before_comma forwarded_for)
    else host_of remote_addr

pub data Response : Type 0 where
  served too_many_requests : Response

-- The handler that `Limit` returns; `served` is the call of the next handler.
unfoldable limit :
    (Bytes → Bytes) → (Bytes → Bytes) → RateLimiter → Bytes → Bytes → ℕ → ℕ → RateLimiter × Response
limit trim host_of rl forwarded_for remote_addr since now =
    let (rl', passed) =
      allow rl (client_ip trim host_of forwarded_for remote_addr rl.trusted_proxy) since now in
    (rl', if passed then served else too_many_requests)
