-- ===== src/Auth/RateLimit/Bound.antt =====
-- The requests of one address that pass from a time on are at most its credit: its tokens and the
-- refills of the time that is left.
use mathlib.Core.Path.{subst}
use native.Mathlib.Nat.{
  le_trans, le_refl, add-mul, mul-le-mul_right, le-div_iff_mul-le, div-mul-le_self,
}
use hopssh.Base.{
  ℕ, ◌+◌, ◌-◌, ◌*◌, ◌/◌, ◌≤◌, ◌<◌, ◌≡◌, inl, inr, Bool, true, false, not, ◌&&◌, Option, none, some,
  List, [], ◌∷◌, arith, ltb, if◌then◌else◌, ltb→lt, Bool-cases, drop,
}
use hopssh.Base.Text.{Bytes, bytes_eq, bytes_eq_iff}
use hopssh.Base.Int.{pos_part, neg_part}
use hopssh.Base.Dict.{
  lookup, lookup-insert, KeysDistinct, insert-KeysDistinct, filter_option, lookup-filter_entries,
  filter_entries-KeysDistinct,
}
use hopssh.Auth.RateLimit.{
  Bucket, RateLimiter, refill, take_token, allow_bucket, allow, cleanup, stale_after,
}

div_super : (a b c i : ℕ) → 0 < i → a + b ≤ c → a / i + b / i ≤ c / i
div_super a b c i h k =
    (le-div_iff_mul-le h).1 (rw add-mul (omega (arith, div-mul-le_self a i, div-mul-le_self b i)))

mul_super : (a b c r : ℕ) → a + b ≤ c → a * r + b * r ≤ c * r
mul_super a b c r h = rw (← add-mul) (mul-le-mul_right r h)

-- Refills over two spans in a row are at most the refill over the whole.
pub refill_super : (a b c i r : ℕ) → 0 < i → a + b ≤ c → a / i * r + b / i * r ≤ c / i * r
refill_super a b c i r h k = mul_super (a / i) (b / i) (c / i) r (div_super a b c i h k)

-- One event at the limiter, with the clock readings that it takes.
pub data Event : Type 0 where
  request : Bytes → ℕ → ℕ → Event
  clean : ℕ → Event

-- The clock readings do not fall and end by `end`.
abbrev pub InOrder : ℕ → ℕ → List Event → Type 0
InOrder cur end [] = cur ≤ end
InOrder cur end (request ip since now ∷ es) = (cur ≤ since) × (since ≤ now) × InOrder now end es
InOrder cur end (clean now ∷ es) = (cur ≤ now) × InOrder now end es

-- How many requests of `ip` pass.
unfoldable pub passed : Bytes → RateLimiter → List Event → ℕ
passed ip rl [] = 0
passed ip rl (request j since now ∷ es) =
    (if bytes_eq j ip && (allow rl j since now).1 then 1 else 0)
    + passed ip (allow rl j since now).0 es
passed ip rl (clean now ∷ es) = passed ip (cleanup rl now) es

pub InOrder-le : (cur end : ℕ) (es : List Event) → InOrder cur end es → cur ≤ end
InOrder-le cur end [] h = h
InOrder-le cur end (request ip since now ∷ es) h =
    omega (arith, h.0, h.1, InOrder-le now end es h.2)
InOrder-le cur end (clean now ∷ es) h = omega (arith, h.0, InOrder-le now end es h.1)

module _ (rate burst interval end : ℕ) (positive : 0 < interval) (some_burst : 0 < burst) where
  -- An upper bound of what may still pass from the time `cur` on.
  abbrev pub credit : ℕ → Option Bucket → ℕ
  credit cur none = burst + (end - cur) / interval * rate
  credit cur (some b) = pos_part b.tokens + (end - b.last_seen) / interval * rate

  abbrev IsSound : ℕ → Option Bucket → Type 0
  IsSound cur none = Unit {0}
  IsSound cur (some b) = (neg_part b.tokens ≡ 0) × (b.last_seen ≤ cur)

  refill_lem :
      (cur since now : ℕ) (b : Bucket)
      → cur ≤ since
      → since ≤ now
      → now ≤ end
      → IsSound cur (some b)
      → IsSound now (some (refill rate burst interval since now b))
        × (credit now (some (refill rate burst interval since now b)) ≤ credit cur (some b))
  unfolding refill
  refill_lem cur since now b h k l s = ground (
    arith,
    refill_super (since - b.last_seen) (end - now) (end - b.last_seen) interval rate positive
        (omega arith),
  )

  pub take_token_lem :
      (now : ℕ) (b : Bucket)
      → IsSound now (some b)
      → IsSound now (some (take_token b).0)
        × ((if (take_token b).1 then 1 else 0) + credit now (some (take_token b).0)
            ≤ credit now (some b))
  unfolding take_token
  take_token_lem now b s = ground arith

  allow_bucket_lem :
      (cur since now : ℕ) (o : Option Bucket)
      → cur ≤ since
      → since ≤ now
      → now ≤ end
      → IsSound cur o
      → let r = allow_bucket rate burst interval since now o in
        IsSound now (some r.0) × ((if r.1 then 1 else 0) + credit now (some r.0) ≤ credit cur o)
  unfolding allow_bucket
  allow_bucket_lem cur since now none h k l s =
      ground (arith, refill_super 0 (end - now) (end - cur) interval rate positive (omega arith))
  allow_bucket_lem cur since now (some b) h k l s = ground (
    arith,
    refill_lem cur since now b h k l s,
    take_token_lem now (refill rate burst interval since now b),
  )

-- The configuration: a positive interval and burst, and a cleanup that drops only full buckets.
pub record IsConfigured (rl : RateLimiter) : Type 0 where
  pub interval_positive : 0 < rl.interval
  pub burst_positive : 0 < rl.burst
  pub refilled : rl.burst ≤ stale_after / rl.interval * rl.rate

abbrev pub not_stale : ℕ → Bytes → Bucket → Bool
not_stale now _ b = not (ltb stale_after (now - b.last_seen))

module _ (rl : RateLimiter) (end : ℕ) (c : IsConfigured rl) where
  abbrev pub credit_of : ℕ → Option Bucket → ℕ
  credit_of = credit rl.rate rl.burst rl.interval end c.interval_positive c.burst_positive

  abbrev pub IsSoundIn : ℕ → Option Bucket → Type 0
  IsSoundIn = IsSound rl.rate rl.burst rl.interval end c.interval_positive c.burst_positive

  filter_lem :
      (cur now : ℕ) (ip : Bytes) (o : Option Bucket)
      → cur ≤ now
      → now ≤ end
      → IsSoundIn cur o
      → IsSoundIn now (filter_option (not_stale now) ip o)
        × (credit_of now (filter_option (not_stale now) ip o) ≤ credit_of cur o)
  filter_lem cur now ip none h k s = (
    tt,
    omega (
      arith,
      refill_super 0 (end - now) (end - cur) rl.interval rl.rate c.interval_positive (omega arith),
    ),
  )
  filter_lem cur now ip (some b) h k s = elim (Bool-cases (ltb stale_after (now - b.last_seen))) [
    | inr keep ↦ rw keep ((s.0, omega (arith, s.1)), le_refl _)
    | inl drop ↦ rw drop (
      tt,
      omega (
        arith,
        c.refilled,
        ltb→lt stale_after (now - b.last_seen) drop,
        refill_super stale_after (end - now) (end - b.last_seen) rl.interval rl.rate
            c.interval_positive (omega (arith, ltb→lt stale_after (now - b.last_seen) drop)),
      ),
    )
  ]

  -- Time passes for a bucket that nothing touches.
  wait_lem :
      (cur now : ℕ) (o : Option Bucket)
      → cur ≤ now
      → now ≤ end
      → IsSoundIn cur o
      → IsSoundIn now o × (credit_of now o ≤ credit_of cur o)
  wait_lem cur now none h k s = (
    tt,
    omega (
      arith,
      refill_super 0 (end - now) (end - cur) rl.interval rl.rate c.interval_positive (omega arith),
    ),
  )
  wait_lem cur now (some b) h k s = ((s.0, omega (arith, s.1)), le_refl _)

pub own_step :
    (mine through : Bool) (later left right : ℕ)
    → mine ≡ true
    → (if through then 1 else 0) + left ≤ right
    → later ≤ left
    → (if mine && through then 1 else 0) + later ≤ right
own_step mine through later left right m h k = ground arith

pub other_step :
    (mine through : Bool) (later left right : ℕ)
    → mine ≡ false
    → left ≤ right
    → later ≤ left
    → (if mine && through then 1 else 0) + later ≤ right
other_step mine through later left right m h k = ground arith

pub passed-le :
    (ip : Bytes) (end : ℕ) (es : List Event) (rl : RateLimiter) (cur : ℕ) (c : IsConfigured rl)
    → KeysDistinct rl.visitors
    → IsSoundIn rl end c cur (lookup ip rl.visitors)
    → InOrder cur end es
    → passed ip rl es ≤ credit_of rl end c cur (lookup ip rl.visitors)
unfolding passed allow cleanup
passed-le ip end [] rl cur c d s o = omega arith
passed-le ip end (clean now ∷ es) rl cur c d s o =
    let e = lookup-filter_entries (not_stale now) ip rl.visitors d in
    let l = InOrder-le now end es o.1 in
    let f = filter_lem rl end c cur now ip (lookup ip rl.visitors) o.0 l s in
    let rl' = cleanup rl now in
    let ih =
      passed-le ip end es rl' now
        (record {
          interval_positive = c.interval_positive;
          burst_positive = c.burst_positive;
          refilled = c.refilled;
        })
        (filter_entries-KeysDistinct (not_stale now) rl.visitors d) (rw e f.0) o.1 in
    le_trans ih (rw e f.1)
passed-le ip end (request j since now ∷ es) rl cur c d s o =
    let r = allow_bucket rl.rate rl.burst rl.interval since now (lookup j rl.visitors) in
    let e = lookup-insert j ip r.0 rl.visitors in
    let l = InOrder-le now end es o.2 in
    let rl' = (allow rl j since now).0 in
    let c' : IsConfigured rl' = record {
      interval_positive = c.interval_positive;
      burst_positive = c.burst_positive;
      refilled = c.refilled;
    } in
    let d' = insert-KeysDistinct j r.0 rl.visitors d in
    elim (Bool-cases (bytes_eq j ip)) [
      | inl k ↦
          let same : j ≡ ip = (bytes_eq_iff j ip).0 k in
          let a =
            allow_bucket_lem rl.rate rl.burst rl.interval end c.interval_positive c.burst_positive
              cur since now (lookup j rl.visitors) o.0 o.1 l (rw same s) in
          let e' : lookup ip rl'.visitors ≡ some r.0 = rw k at e in
          let ih = passed-le ip end es rl' now c' d' (rw e' a.0) o.2 in
          own_step (bytes_eq j ip) r.1 _ _ _ k
            (subst
              (λ x.
                (if r.1 then 1 else 0) + credit_of rl end c now (some r.0)
                ≤ credit_of rl end c cur (lookup x rl.visitors))
              same a.1)
            (rw e' at ih)
      | inr k ↦
          let w = wait_lem rl end c cur now (lookup ip rl.visitors) (omega (arith, o.0, o.1)) l s in
          let e' : lookup ip rl'.visitors ≡ lookup ip rl.visitors = rw k at e in
          let ih = passed-le ip end es rl' now c' d' (rw e' w.0) o.2 in
          other_step (bytes_eq j ip) r.1 _ _ _ k w.1 (rw e' at ih)
    ]
