-- ===== src/Client/Heartbeat.antt =====
-- When the agent sends its next heartbeat (internal/client/renew.go: runHeartbeat). Times are in
-- seconds, before the jitter; a heartbeat that a wake triggers out of turn is a step as any other.
use hopssh.Base.{
  ◌^◌, ℕ, zero, suc, ◌*◌, ◌≡◌, refl, ap, ◌∙◌, Bool, true, false, List, [], ◌∷◌, arith, ltb,
  if◌then◌else◌,
}

abbrev normal_interval : ℕ
normal_interval = 60

abbrev initial_retry : ℕ
initial_retry = 5

abbrev max_retry : ℕ
max_retry = 120

-- The variables that the loop keeps, and the interval that the timer was last set to.
pub record Heartbeat : Type 0 where
  pub failing : Bool
  pub retry_interval : ℕ
  pub next : ℕ

-- The first heartbeat; `failed` says whether it returns an error.
pub first_heartbeat : Bool → Heartbeat
first_heartbeat failed = record {
  failing = failed;
  retry_interval = initial_retry;
  next = if failed then initial_retry else normal_interval;
}

abbrev doubled : ℕ → ℕ
doubled interval = if ltb max_retry (interval * 2) then max_retry else interval * 2

-- One call of `fire`.
fire : Bool → Heartbeat → Heartbeat
fire true h =
    let interval = if h.failing then doubled h.retry_interval else initial_retry in
    record { failing = true; retry_interval = interval; next = interval }
fire false h = record {
  failing = false;
  retry_interval = if h.failing then initial_retry else h.retry_interval;
  next = normal_interval;
}

pub run_heartbeat : List Bool → Heartbeat → Heartbeat
run_heartbeat [] h = h
run_heartbeat (failed ∷ rest) h = run_heartbeat rest (fire failed h)

-- How many heartbeats have failed since the last that did not, after `k` before these.
abbrev pub trailing_failures : ℕ → List Bool → ℕ
trailing_failures k [] = k
trailing_failures k (true ∷ rest) = trailing_failures (suc k) rest
trailing_failures k (false ∷ rest) = trailing_failures 0 rest

-- The interval after that many failures: 60 s, or 5 s doubled with each failure after the first,
-- and 120 s at most.
abbrev pub interval_after : ℕ → ℕ
interval_after zero = normal_interval
interval_after (suc k) =
    if ltb max_retry (initial_retry * 2 ^ k) then max_retry else initial_retry * 2 ^ k

abbrev Agrees : ℕ → Heartbeat → Type 0
Agrees zero h =
    (h.failing ≡ false) × (h.retry_interval ≡ initial_retry) × (h.next ≡ normal_interval)
Agrees (suc k) h =
    (h.failing ≡ true)
    × (h.retry_interval ≡ interval_after (suc k))
    × (h.next ≡ interval_after (suc k))

doubled-interval_after : (k : ℕ) → doubled (interval_after (suc k)) ≡ interval_after (suc (suc k))
doubled-interval_after k = ground (arith, power k)
  where
    power : (k : ℕ) → 2 ^ suc k ≡ 2 ^ k * 2
    power k = omega arith

fire-Agrees :
    (failed : Bool) (k : ℕ) (h : Heartbeat)
    → Agrees k h
    → Agrees (if failed then suc k else 0) (fire failed h)
unfolding fire
fire-Agrees true zero h a = ground (arith, a)
fire-Agrees true (suc k) h a =
    let e : doubled h.retry_interval ≡ interval_after (suc (suc k)) =
      ap doubled (a.1) ∙ doubled-interval_after k in
    rw (a.0) (refl, e, e)
fire-Agrees false zero h a = ground (arith, a)
fire-Agrees false (suc k) h a = ground (arith, a)

run_heartbeat-Agrees :
    (k : ℕ) (beats : List Bool) (h : Heartbeat)
    → Agrees k h
    → Agrees (trailing_failures k beats) (run_heartbeat beats h)
unfolding run_heartbeat
run_heartbeat-Agrees k [] h a = a
run_heartbeat-Agrees k (true ∷ rest) h a =
    run_heartbeat-Agrees (suc k) rest (fire true h) (fire-Agrees true k h a)
run_heartbeat-Agrees k (false ∷ rest) h a =
    run_heartbeat-Agrees 0 rest (fire false h) (fire-Agrees false k h a)

next-Agrees : (k : ℕ) (h : Heartbeat) → Agrees k h → h.next ≡ interval_after k
next-Agrees zero h a = a.2
next-Agrees (suc k) h a = a.2

-- Whatever heartbeats failed, the interval that the timer is set to, before its jitter of a tenth,
-- is 60 s after one that did not, and after the k-th failure in a row 5 s times 2 to the k - 1, or
-- 120 s if that is more.
pub next-interval_after :
    (first : Bool) (beats : List Bool)
    → (run_heartbeat beats (first_heartbeat first)).next
      ≡ interval_after (trailing_failures 0 (first ∷ beats))
next-interval_after true beats =
    next-Agrees (trailing_failures 1 beats) (run_heartbeat beats (first_heartbeat true)) (
      run_heartbeat-Agrees 1 beats (first_heartbeat true)
        (unfold first_heartbeat in (refl, refl, refl)))
next-interval_after false beats =
    next-Agrees (trailing_failures 0 beats) (run_heartbeat beats (first_heartbeat false)) (
      run_heartbeat-Agrees 0 beats (first_heartbeat false)
        (unfold first_heartbeat in (refl, refl, refl)))
