-- ===== src/Portmap/NatPmp/Retry.antt =====
-- The attempts of `roundTrip` and the time that they take.
use hopssh.Base.{
  ℕ, zero, suc, ◌+◌, ◌*◌, ◌≤◌, ◌<◌, ◌≡◌, refl, ◌∙◌, ap, ◌⊎◌, inl, inr, true, false, Option, none,
  some, arith, leb, leb→le, if◌then◌else◌, Bool-cases, length, take,
}
use hopssh.Base.Text.{Bytes}
use hopssh.Portmap.NatPmp.{
  ok, err, Result, context_done, is_past, read_time, Attempt, cancelled, write_failed, timed_out,
  read_failed, datagram, no_response, attempt_loop, max_attempts,
}

-- The time of the attempt after `k` whose reads timed out, with the backoff doubled each time.
abbrev pub reach : ℕ → ℕ → ℕ
reach zero backoff = 0
reach (suc k) backoff = backoff + reach k (backoff * 2)

abbrev pub earlier : Option ℕ → ℕ → ℕ
earlier none t = t
earlier (some d) t = if leb d t then d else t

abbrev pub lesser : ℕ → ℕ → ℕ
lesser k l = if leb k l then k else l

-- What `left + 1` attempts from the time `waited` come to, if the answer comes at the attempt after
-- `k`.
abbrev pub outcome : Option ℕ → ℕ → ℕ → ℕ → ℕ → Bytes → Result Bytes × ℕ
outcome deadline k left backoff waited answer =
    if is_past deadline (waited + reach (lesser k left) backoff)
    then (err context_done, earlier deadline (waited + reach (lesser k left) backoff))
    else if leb k left
    then (ok answer, waited + reach k backoff)
    else (err no_response, earlier deadline (waited + reach (suc left) backoff))

past_start :
    (deadline : Option ℕ) (net : ℕ → Attempt) (resp_len left n backoff waited : ℕ)
    → is_past deadline waited ≡ true
    → attempt_loop deadline net resp_len (suc left) n backoff waited ≡ (err context_done, waited)
unfolding attempt_loop
past_start deadline net resp_len left n backoff waited h = rw h refl

answered :
    (deadline : Option ℕ) (net : ℕ → Attempt) (resp_len left n backoff waited : ℕ) (b : Bytes)
    → is_past deadline waited ≡ false
    → net n ≡ datagram b
    → resp_len ≤ length b
    → attempt_loop deadline net resp_len (suc left) n backoff waited
      ≡ (ok (take resp_len b), waited)
unfolding attempt_loop
answered deadline net resp_len left n backoff waited b p e l = ground (arith, p, e, l)

timed_out_step :
    (deadline : Option ℕ) (net : ℕ → Attempt) (resp_len left n backoff waited : ℕ)
    → is_past deadline waited ≡ false
    → net n ≡ timed_out
    → attempt_loop deadline net resp_len (suc left) n backoff waited
      ≡ attempt_loop deadline net resp_len left
          (n + 1)
          (backoff * 2)
          (waited + read_time deadline backoff waited)
unfolding attempt_loop
timed_out_step deadline net resp_len left n backoff waited p e = rw (p, e) refl

-- The next attempt after a read of `read_time` has the same outcome.
outcome-next :
    (deadline : Option ℕ) (k left backoff waited : ℕ) (answer : Bytes)
    → earlier deadline waited ≡ waited
    → is_past deadline waited ≡ false
    → outcome deadline k left (backoff * 2) (waited + read_time deadline backoff waited) answer
      ≡ outcome deadline (suc k) (suc left) backoff waited answer
outcome-next none k left backoff waited answer h p = ground arith
outcome-next (some d) k left backoff waited answer h p = ground arith

given_up :
    (deadline : Option ℕ) (net : ℕ → Attempt) (resp_len n backoff waited : ℕ)
    → attempt_loop deadline net resp_len 0 n backoff waited ≡ (err no_response, waited)
unfolding attempt_loop
given_up deadline net resp_len n backoff waited = refl

outcome-past :
    (deadline : Option ℕ) (k left backoff waited : ℕ) (answer : Bytes)
    → earlier deadline waited ≡ waited
    → is_past deadline waited ≡ true
    → (err context_done, waited) ≡ outcome deadline k left backoff waited answer
outcome-past none k left backoff waited answer h p = absurd (ground (arith, p))
outcome-past (some d) k left backoff waited answer h p = ground arith

outcome-now :
    (deadline : Option ℕ) (left backoff waited : ℕ) (answer : Bytes)
    → is_past deadline waited ≡ false
    → (ok answer, waited) ≡ outcome deadline 0 left backoff waited answer
outcome-now none left backoff waited answer p = ground arith
outcome-now (some d) left backoff waited answer p = ground arith

outcome-last :
    (deadline : Option ℕ) (k backoff waited : ℕ) (answer : Bytes)
    → is_past deadline waited ≡ false
    → (err no_response, waited + read_time deadline backoff waited)
      ≡ outcome deadline (suc k) 0 backoff waited answer
outcome-last none k backoff waited answer p = ground arith
outcome-last (some d) k backoff waited answer p = ground arith

earlier-read_time :
    (deadline : Option ℕ) (backoff waited : ℕ)
    → is_past deadline waited ≡ false
    → earlier deadline (waited + read_time deadline backoff waited)
      ≡ waited + read_time deadline backoff waited
earlier-read_time none backoff waited p = refl
earlier-read_time (some d) backoff waited p = ground arith

attempt_loop_outcome :
    (deadline : Option ℕ) (net : ℕ → Attempt) (resp_len k left n backoff waited : ℕ) (b : Bytes)
    → ((i : ℕ) → i < k → net (n + i) ≡ timed_out)
    → net (n + k) ≡ datagram b
    → resp_len ≤ length b
    → earlier deadline waited ≡ waited
    → attempt_loop deadline net resp_len (suc left) n backoff waited
      ≡ outcome deadline k left backoff waited (take resp_len b)
attempt_loop_outcome deadline net resp_len zero left n backoff waited b silent answer long h =
    elim (Bool-cases (is_past deadline waited)) [
      | inl e ↦
          past_start deadline net resp_len left n backoff waited e
          ∙ outcome-past deadline 0 left backoff waited (take resp_len b) h e
      | inr p ↦
          answered deadline net resp_len left n backoff waited b p (ap net (omega arith) ∙ answer)
            long
          ∙ outcome-now deadline left backoff waited (take resp_len b) p
    ]
attempt_loop_outcome deadline net resp_len (suc k) zero n backoff waited b silent answer long h =
    elim (Bool-cases (is_past deadline waited)) [
      | inl e ↦
          past_start deadline net resp_len 0 n backoff waited e
          ∙ outcome-past deadline (suc k) 0 backoff waited (take resp_len b) h e
      | inr p ↦
          timed_out_step deadline net resp_len 0 n backoff waited p
            (ap net (omega arith) ∙ silent 0 (omega arith))
          ∙ given_up deadline net resp_len (n + 1) (backoff * 2)
              (waited + read_time deadline backoff waited)
          ∙ outcome-last deadline k backoff waited (take resp_len b) p
    ]
attempt_loop_outcome deadline net resp_len (suc k) (suc left) n backoff waited b silent answer long
      h =
    elim (Bool-cases (is_past deadline waited)) [
      | inl e ↦
          past_start deadline net resp_len (suc left) n backoff waited e
          ∙ outcome-past deadline (suc k) (suc left) backoff waited (take resp_len b) h e
      | inr p ↦
          timed_out_step deadline net resp_len (suc left) n backoff waited p
            (ap net (omega arith) ∙ silent 0 (omega arith))
          ∙ attempt_loop_outcome deadline net resp_len k left (n + 1) (backoff * 2)
              (waited + read_time deadline backoff waited) b
              (λ i q. ap net (omega arith) ∙ silent (suc i) (omega (arith, q)))
              (ap net (omega arith) ∙ answer) long (earlier-read_time deadline backoff waited p)
          ∙ outcome-next deadline k left backoff waited (take resp_len b) h p
    ]

-- If the reads of the first `k` attempts time out and the answer to the next is long enough, and
-- time passes only in reads that time out: the exchange ends with the error of the context at the
-- deadline, if there is one no later than the last attempt up to the answer begins; else it returns
-- the answer when that attempt begins, if it is one of the nine; and else it gives up at the
-- earlier of the deadline and 127.75 seconds.
pub round_trip_outcome :
    (deadline : Option ℕ) (net : ℕ → Attempt) (resp_len k : ℕ) (b : Bytes)
    → ((i : ℕ) → i < k → net i ≡ timed_out)
    → net k ≡ datagram b
    → resp_len ≤ length b
    → attempt_loop deadline net resp_len max_attempts 0 250 0 ≡ (
        if is_past deadline (reach (lesser k 8) 250)
        then (err context_done, earlier deadline (reach (lesser k 8) 250))
        else if leb k 8
        then (ok (take resp_len b), reach k 250)
        else (err no_response, earlier deadline 127750))
round_trip_outcome deadline net resp_len k b silent answer long =
    attempt_loop_outcome deadline net resp_len k 8 0 250 0 b
      (λ i q. ap net (omega arith) ∙ silent i q) (ap net (omega arith) ∙ answer) long
      (from_start deadline)
    ∙ ground arith
  where
    from_start : (deadline : Option ℕ) → earlier deadline 0 ≡ 0
    from_start none = refl
    from_start (some d) = ground arith

-- Either the attempt at hand has the response, or a later one does.
attempt_step :
    (deadline : Option ℕ) (net : ℕ → Attempt) (resp_len left n backoff waited : ℕ) (b : Bytes)
    → (attempt_loop deadline net resp_len (suc left) n backoff waited).0 ≡ ok b
    → ((d : Bytes) × (net n ≡ datagram d) × (resp_len ≤ length d) × (b ≡ take resp_len d))
      ⊎ ((w : ℕ) × ((attempt_loop deadline net resp_len left (n + 1) (backoff * 2) w).0 ≡ ok b))
unfolding attempt_loop
attempt_step deadline net resp_len left n backoff waited b h =
    elim (Bool-cases (is_past deadline waited)) [
      | inl e ↦ absurd (ground (arith, e, h))
      | inr later ↦ go later (net n) refl h
    ]
  where
    go :
        is_past deadline waited ≡ false
        → (a : Attempt) → net n ≡ a
        → (attempt_loop deadline net resp_len (suc left) n backoff waited).0 ≡ ok b
        → ((d : Bytes) × (net n ≡ datagram d) × (resp_len ≤ length d) × (b ≡ take resp_len d))
          ⊎ ((w : ℕ) × ((attempt_loop deadline net resp_len left (n + 1) (backoff * 2) w).0 ≡ ok b))
    go p cancelled e k = absurd (ground (arith, p, e, k))
    go p write_failed e k = absurd (ground (arith, p, e, k))
    go p timed_out e k =
        inr (waited + read_time deadline backoff waited, rw (p, e, attempt_loop) at k)
    go p read_failed e k = inr (waited, rw (p, e, attempt_loop) at k)
    go p (datagram d) e k = elim (Bool-cases (leb resp_len (length d))) [
      | inl long ↦ inl (d, e, leb→le resp_len (length d) long, ground (arith, p, e, k, long))
      | inr short ↦ inr (waited, ground (arith, p, e, k, short))
    ]

-- A response that the attempts return is the first part of a datagram that one of them received,
-- and that was of the expected length at least.
attempt_loop-ok :
    (deadline : Option ℕ) (net : ℕ → Attempt) (resp_len left n backoff waited : ℕ) (b : Bytes)
    → (attempt_loop deadline net resp_len left n backoff waited).0 ≡ ok b
    → (k : ℕ) × (d : Bytes) × (n ≤ k)
      × (k < n + left)
      × (net k ≡ datagram d)
      × (resp_len ≤ length d)
      × (b ≡ take resp_len d)
attempt_loop-ok deadline net resp_len zero n backoff waited b h =
    absurd (unfold attempt_loop in ground (arith, h))
attempt_loop-ok deadline net resp_len (suc left) n backoff waited b h =
    elim (attempt_step deadline net resp_len left n backoff waited b h) [
      | inl (d, e, l, t) ↦ (n, d, omega arith, omega arith, e, l, t)
      | inr (w, later) ↦
          let (k, d, p, q, e, l, t) =
            attempt_loop-ok deadline net resp_len left (n + 1) (backoff * 2) w b later in
          (k, d, omega (arith, p), omega (arith, q), e, l, t)
    ]
