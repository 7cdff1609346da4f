-- ===== src/Auth/RateLimit/Window.antt =====
-- How many requests of one address pass within a window of time, after any traffic before it. Here
-- the cap of the refill matters: an address that was idle gets its burst once.
use mathlib.Core.Path.{subst}
use native.Mathlib.Nat.{le_trans, add-mul, mul-le-mul_right, div-lt_iff_lt-mul, lt-div-mul-add}
use hopssh.Base.{
  ℕ, zero, suc, ◌+◌, ◌-◌, ◌*◌, ◌/◌, ◌≤◌, ◌<◌, ◌≡◌, refl, ap, inl, inr, Bool, Option, none, some,
  List, [], ◌∷◌, arith, if◌then◌else◌, Bool-cases,
}
use hopssh.Base.Text.{Bytes, bytes_eq, bytes_eq_iff}
use hopssh.Base.Dict.{lookup, lookup-insert}
use hopssh.Auth.RateLimit.{
  Bucket, RateLimiter, new_rate_limiter, allow, allow_bucket, refill, cleanup,
}
use hopssh.Auth.RateLimit.Bound.{
  take_token_lem, refill_super, Event, request, clean, passed, InOrder, InOrder-le, IsConfigured,
  IsSoundIn, credit, credit_of, passed-le, own_step, other_step,
}
use hopssh.Auth.RateLimit.Kept.{
  IsKept, IsKept-refill, IsKept-wait, same_config, IsRunning, IsRunning-request, IsRunning-clean,
}

-- The limiter after some events.
pub after : RateLimiter → List Event → RateLimiter
after rl [] = rl
after rl (request j since now ∷ es) = after (allow rl j since now).0 es
after rl (clean now ∷ es) = after (cleanup rl now) es

no_factor : (a r : ℕ) → a * suc r ≡ 0 → a ≡ 0
no_factor zero r h = refl
no_factor (suc a) r h = absurd (ground (arith, h))

late_div : (x y i : ℕ) → 0 < i → x / i ≡ 0 → (x + y) / i ≤ y / i + 1
late_div x y i p h = omega (
  arith,
  (div-lt_iff_lt-mul {x = x + y} {y = y / i + 2} p).1
      (rw (add-mul (y / i) 2 i) (omega (arith, lt-div-mul-add {a = y} {b = i} p, within))),
)
  where
    within : x < 1 * i
    within = (div-lt_iff_lt-mul {x = x} {y = 1} p).0 (omega (arith, h))

-- A span that brings no refill delays the others by one at most.
late_refill : (x y i r : ℕ) → 0 < i → x / i * r ≡ 0 → (x + y) / i * r ≤ (y / i + 1) * r
late_refill x y i zero p h = omega arith
late_refill x y i (suc r) p h = mul-le-mul_right (suc r) (late_div x y i p (no_factor (x / i) r h))

module _ (rate burst interval end : ℕ) (positive : 0 < interval) (some_burst : 0 < burst) where
  refill_first :
      (cur since now : ℕ) (b : Bucket)
      → cur ≤ since
      → since ≤ now
      → now ≤ end
      → IsKept burst cur (some b)
      → credit rate burst interval end positive some_burst now
          (some (refill rate burst interval since now b))
        ≤ burst + ((end - cur) / interval + 1) * rate
  unfolding refill
  refill_first cur since now b h k l s = ground (
    arith,
    refill_super 0 (end - now) (end - cur) interval rate positive (omega arith),
    late_refill (since - b.last_seen) (end - since) interval rate positive,
    refill_super 0 (end - since) (end - cur) interval rate positive (omega arith),
  )

  allow_bucket_first :
      (cur since now : ℕ) (o : Option Bucket)
      → cur ≤ since
      → since ≤ now
      → now ≤ end
      → IsKept burst cur o
      → let r = allow_bucket rate burst interval since now o in
        (if r.1 then 1 else 0) + credit rate burst interval end positive some_burst now (some r.0)
        ≤ burst + ((end - cur) / interval + 1) * rate
  unfolding allow_bucket
  allow_bucket_first cur since now none h k l s =
      ground (arith, refill_super 0 (end - now) (end - cur) interval rate positive (omega arith))
  allow_bucket_first cur since now (some b) h k l s =
      let kept = IsKept-refill rate burst interval cur since now b h k s in
      omega (
        arith,
        (take_token_lem rate burst interval end positive some_burst now
            (refill rate burst interval since now b) (kept.0, kept.2)).1,
        refill_first cur since now b h k l s,
      )

-- The refills of a shorter rest of the window.
later_end :
    (burst rate interval end cur now : ℕ)
    → 0 < interval
    → cur ≤ now
    → burst + ((end - now) / interval + 1) * rate ≤ burst + ((end - cur) / interval + 1) * rate
later_end burst rate interval end cur now p h = omega (
  arith,
  add-mul ((end - now) / interval) 1 rate,
  add-mul ((end - cur) / interval) 1 rate,
  refill_super 0 (end - now) (end - cur) interval rate p (omega (arith, h)),
)

kept_sound :
    (rl : RateLimiter) (end : ℕ) (c : IsConfigured rl) (cur : ℕ) (o : Option Bucket)
    → IsKept rl.burst cur o
    → IsSoundIn rl end c cur o
kept_sound rl end c cur none k = tt
kept_sound rl end c cur (some b) k = (k.0, k.2)

passed-window :
    (ip : Bytes) (end : ℕ) (es : List Event) (rl : RateLimiter) (cur : ℕ)
    → IsConfigured rl
    → IsRunning rl ip cur
    → InOrder cur end es
    → passed ip rl es ≤ rl.burst + ((end - cur) / rl.interval + 1) * rl.rate
unfolding passed allow cleanup
passed-window ip end [] rl cur c s o = omega arith
passed-window ip end (clean now ∷ es) rl cur c s o =
    le_trans
      (passed-window ip end es (cleanup rl now) now (same_config rl c (cleanup rl now).visitors)
        (IsRunning-clean rl ip cur now o.0 s) o.1)
      (later_end rl.burst rl.rate rl.interval end cur now c.interval_positive o.0)
passed-window ip end (request j since now ∷ es) rl cur c s o =
    let r = allow_bucket rl.rate rl.burst rl.interval since now (lookup j rl.visitors) in
    let rl' = (allow rl j since now).0 in
    let c' : IsConfigured rl' = same_config rl c rl'.visitors in
    let s' = IsRunning-request rl ip j cur since now c.burst_positive o.0 o.1 s in
    elim (Bool-cases (bytes_eq j ip)) [
      | inl q ↦
          let same : j ≡ ip = (bytes_eq_iff j ip).0 q in
          let e' : lookup ip rl'.visitors ≡ some r.0 =
            rw q at (lookup-insert j ip r.0 rl.visitors) in
          let first =
            allow_bucket_first rl.rate rl.burst rl.interval end c.interval_positive c.burst_positive
              cur since now (lookup j rl.visitors) o.0 o.1 (InOrder-le now end es o.2)
              (rw same s.kept) in
          let rest : passed ip rl' es ≤ credit_of rl end c now (some r.0) = rw e' at (
            passed-le ip end es rl' now c' s'.distinct
              (kept_sound rl' end c' now (lookup ip rl'.visitors) s'.kept) o.2) in
          own_step (bytes_eq j ip) r.1 _ _ _ q first rest
      | inr q ↦
          other_step (bytes_eq j ip) r.1 _ _ _ q
            (later_end rl.burst rl.rate rl.interval end cur now c.interval_positive
              (le_trans o.0 o.1))
            (passed-window ip end es rl' now c' s' o.2)
    ]

IsRunning-after :
    (ip : Bytes) (es : List Event) (rl : RateLimiter) (cur end : ℕ)
    → 0 < rl.burst
    → IsRunning rl ip cur
    → InOrder cur end es
    → IsRunning (after rl es) ip end
unfolding after
IsRunning-after ip [] rl cur end p s o = record {
  distinct = s.distinct;
  kept = IsKept-wait rl.burst cur end (lookup ip rl.visitors) o s.kept;
}
IsRunning-after ip (request j since now ∷ es) rl cur end p s o =
    IsRunning-after ip es (allow rl j since now).0 now end (unfold allow in p)
      (IsRunning-request rl ip j cur since now p o.0 o.1 s) o.2
IsRunning-after ip (clean now ∷ es) rl cur end p s o =
    IsRunning-after ip es (cleanup rl now) now end (unfold cleanup in p)
      (IsRunning-clean rl ip cur now o.0 s) o.1

-- A run changes the buckets only.
after-config :
    (es : List Event) (rl : RateLimiter)
    → after rl es ≡ record rl { visitors = (after rl es).visitors }
unfolding after allow cleanup
after-config [] rl = refl
after-config (request j since now ∷ es) rl = after-config es (allow rl j since now).0
after-config (clean now ∷ es) rl = after-config es (cleanup rl now)

-- After any traffic from a new limiter up to a time `mid`, the requests of one address that pass
-- between `mid` and `end` number at most the burst plus one rate for each whole interval of that
-- window and one more, whatever other addresses send and whenever the cleanup runs; for events in
-- the order of time, a positive interval and burst, and a burst that the rate refills within the
-- ten minutes after which the cleanup drops a bucket.
pub window_bound :
    (ip : Bytes) (rate burst interval start mid end : ℕ) (trusted : Bool) (before es : List Event)
    → IsConfigured (new_rate_limiter rate burst interval trusted)
    → InOrder start mid before
    → InOrder mid end es
    → passed ip (after (new_rate_limiter rate burst interval trusted) before) es
      ≤ burst + ((end - mid) / interval + 1) * rate
unfolding new_rate_limiter lookup
window_bound ip rate burst interval start mid end trusted before es c o o' =
    let rl = new_rate_limiter rate burst interval trusted in
    let rl' = after rl before in
    let s =
      IsRunning-after ip before rl start mid c.burst_positive (record { distinct = tt; kept = tt })
        o in
    rw (after-config before rl) (
      passed-window ip end es (record rl { visitors = rl'.visitors }) mid
        (same_config rl c rl'.visitors)
        (record {
          distinct = s.distinct;
          kept =
              subst (λ n. IsKept n mid (lookup ip rl'.visitors))
                (ap (λ x. x.burst) (after-config before rl)) s.kept;
        })
        o')
