-- ===== src/Auth/RateLimit/Kept.antt =====
-- What the limiter keeps of the bucket of one address: no debt, and never more than the burst.
use native.Mathlib.Nat.{le_trans}
use hopssh.Base.{ℕ, ◌-◌, ◌≤◌, ◌<◌, ◌≡◌, inl, inr, Option, none, some, List, arith, ltb, Bool-cases}
use hopssh.Base.Text.{Bytes, bytes_eq, bytes_eq_iff}
use hopssh.Base.Int.{pos_part, neg_part}
use hopssh.Base.Dict.{
  lookup, insert, filter_option, KeysDistinct, lookup-insert, insert-KeysDistinct,
  lookup-filter_entries, filter_entries-KeysDistinct,
}
use hopssh.Auth.RateLimit.{
  Bucket, RateLimiter, allow, allow_bucket, refill, take_token, cleanup, stale_after,
}
use hopssh.Auth.RateLimit.Bound.{IsConfigured, not_stale}

-- A bucket as the limiter keeps it: no debt, at most the burst, last refilled in the past.
abbrev pub IsKept : ℕ → ℕ → Option Bucket → Type 0
IsKept burst cur none = Unit {0}
IsKept burst cur (some b) =
    (neg_part b.tokens ≡ 0) × (pos_part b.tokens ≤ burst) × (b.last_seen ≤ cur)

pub IsKept-refill :
    (rate burst interval cur since now : ℕ) (b : Bucket)
    → cur ≤ since
    → since ≤ now
    → IsKept burst cur (some b)
    → IsKept burst now (some (refill rate burst interval since now b))
unfolding refill
IsKept-refill rate burst interval cur since now b h k s = ground arith

IsKept-take_token :
    (burst now : ℕ) (b : Bucket)
    → IsKept burst now (some b)
    → IsKept burst now (some (take_token b).0)
unfolding take_token
IsKept-take_token burst now b s = ground arith

IsKept-allow_bucket :
    (rate burst interval cur since now : ℕ) (o : Option Bucket)
    → 0 < burst
    → cur ≤ since
    → since ≤ now
    → IsKept burst cur o
    → IsKept burst now (some (allow_bucket rate burst interval since now o).0)
unfolding allow_bucket
IsKept-allow_bucket rate burst interval cur since now none p h k s = ground arith
IsKept-allow_bucket rate burst interval cur since now (some b) p h k s =
    IsKept-take_token burst now (refill rate burst interval since now b)
      (IsKept-refill rate burst interval cur since now b h k s)

pub IsKept-wait :
    (burst cur now : ℕ) (o : Option Bucket) → cur ≤ now → IsKept burst cur o → IsKept burst now o
IsKept-wait burst cur now none h s = tt
IsKept-wait burst cur now (some b) h s = (s.0, s.1, omega (arith, s.2, h))

IsKept-filter :
    (burst cur now : ℕ) (ip : Bytes) (o : Option Bucket)
    → cur ≤ now
    → IsKept burst cur o
    → IsKept burst now (filter_option (not_stale now) ip o)
IsKept-filter burst cur now ip none h s = tt
IsKept-filter burst cur now ip (some b) h s =
    elim (Bool-cases (ltb stale_after (now - b.last_seen))) [
      | inl e ↦ rw e tt
      | inr e ↦ rw e (IsKept-wait burst cur now (some b) h s)
    ]

pub same_config :
    (rl : RateLimiter)
    → IsConfigured rl
    → (v : List (Bytes × Bucket)) → IsConfigured (record rl { visitors = v })
same_config rl c v = record {
  interval_positive = c.interval_positive;
  burst_positive = c.burst_positive;
  refilled = c.refilled;
}

-- What a run keeps: the configuration, the distinct keys, and the bucket of the address.
pub record IsRunning (rl : RateLimiter) (ip : Bytes) (cur : ℕ) : Type 0 where
  pub distinct : KeysDistinct rl.visitors
  pub kept : IsKept rl.burst cur (lookup ip rl.visitors)

pub IsRunning-request :
    (rl : RateLimiter) (ip j : Bytes) (cur since now : ℕ)
    → 0 < rl.burst
    → cur ≤ since
    → since ≤ now
    → IsRunning rl ip cur
    → IsRunning (allow rl j since now).0 ip now
unfolding allow
IsRunning-request rl ip j cur since now p h k s =
    let r = allow_bucket rl.rate rl.burst rl.interval since now (lookup j rl.visitors) in
    let e = lookup-insert j ip r.0 rl.visitors in
    record {
      distinct = insert-KeysDistinct j r.0 rl.visitors s.distinct;
      kept = elim (Bool-cases (bytes_eq j ip)) [
        | inl q ↦
            let same : j ≡ ip = (bytes_eq_iff j ip).0 q in
            let e' : lookup ip (insert j r.0 rl.visitors) ≡ some r.0 = rw q at e in
            rw e' (
              IsKept-allow_bucket rl.rate rl.burst rl.interval cur since now (lookup j rl.visitors)
                p h k (rw same s.kept))
        | inr q ↦
            let e' : lookup ip (insert j r.0 rl.visitors) ≡ lookup ip rl.visitors = rw q at e in
            rw e' (IsKept-wait rl.burst cur now (lookup ip rl.visitors) (le_trans h k) s.kept)
      ];
    }

pub IsRunning-clean :
    (rl : RateLimiter) (ip : Bytes) (cur now : ℕ)
    → cur ≤ now
    → IsRunning rl ip cur
    → IsRunning (cleanup rl now) ip now
unfolding cleanup
IsRunning-clean rl ip cur now h s = record {
  distinct = filter_entries-KeysDistinct (not_stale now) rl.visitors s.distinct;
  kept =
      rw (lookup-filter_entries (not_stale now) ip rl.visitors s.distinct)
        (IsKept-filter rl.burst cur now ip (lookup ip rl.visitors) h s.kept);
}
