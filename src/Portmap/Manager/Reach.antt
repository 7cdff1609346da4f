-- ===== src/Portmap/Manager/Reach.antt =====
-- The states that the coordinator reaches, and when it refreshes and gives up a mapping.
use hopssh.Base.{
  ℕ, zero, suc, ◌+◌, ◌*◌, ◌/◌, ◌≤◌, ◌<◌, ◌≡◌, refl, inl, inr, true, false, Option, none, some,
  arith, ltb, leb, Bool-cases,
}
use hopssh.Base.Text.{Bytes}
use mathlib.Core.Option.{some-injective}
use hopssh.Portmap.Manager.{
  AddrPort, Manager, Phase, probing, sleeping, holding, refreshing, stopped, Event, requested, won,
  lost, woken, mapped, map_failed, done, elapsed, signaled, initial, step, step_in, minute,
  refresh_sleep, refresh_failure_limit, retry_attempt_delay, retry_backoff, on_probe_success,
  clear_winner, refreshed, refresh_failed, wake, probe_lost, re_probe,
}

-- The states of `run`.
pub data Reached : Manager → Type 0 where
  started : Reached initial
  steps : {m m' : Manager} (v : Event) → Reached m → step v m ≡ some m' → Reached m'

-- What the winner, the address and the lifetime are in each phase.
abbrev PhaseAgrees : Phase → Option Bytes → AddrPort → ℕ → Type 0
PhaseAgrees (probing n) winner current ttl = (winner ≡ none) × (current ≡ none) × (ttl ≡ 0)
PhaseAgrees (sleeping n d) winner current ttl =
    ((winner ≡ none) × (current ≡ none) × (ttl ≡ 0)) × (d ≡ retry_attempt_delay retry_backoff n)
PhaseAgrees (holding c k d) winner current ttl =
    (winner ≡ some c) × (k < refresh_failure_limit) × (d ≡ refresh_sleep ttl)
PhaseAgrees (refreshing c k) winner current ttl = (winner ≡ some c) × (k < refresh_failure_limit)
PhaseAgrees stopped winner current ttl = Unit

pub IsConsistent : Manager → Type 0
IsConsistent m = PhaseAgrees m.phase m.winner m.current m.ttl

on_signal :
    (m cleared m' : Manager)
    → wake signaled m stopped cleared ≡ some m'
    → some (record cleared { reprobe = false }) ≡ some m'
unfolding wake
on_signal m cleared m' h = elim (Bool-cases m.reprobe) [
  | inl e ↦ rw e at h
  | inr e ↦ absurd (ground (arith, h, e))
]

step-IsConsistent :
    (p : Phase) (v : Event) (m m' : Manager)
    → PhaseAgrees p m.winner m.current m.ttl
    → m.phase ≡ p
    → step_in p v m ≡ some m'
    → IsConsistent m'
unfolding IsConsistent step_in wake clear_winner re_probe on_probe_success refreshed refresh_failed
    probe_lost
step-IsConsistent p requested m m' a q e = rw (← some-injective _ _ e) (rw q a)
step-IsConsistent (probing n) (won c addr ttl control) m m' a q e =
    rw (← some-injective _ _ e) (refl, omega arith, refl)
step-IsConsistent (probing zero) (lost x) m m' a q e = rw (← some-injective _ _ e) (a, refl)
step-IsConsistent (probing (suc n)) (lost true) m m' a q e = rw (← some-injective _ _ e) tt
step-IsConsistent (probing (suc n)) (lost false) m m' a q e = rw (← some-injective _ _ e) (a, refl)
step-IsConsistent (sleeping n d) (woken done) m m' a q e = rw (← some-injective _ _ e) tt
step-IsConsistent (sleeping n d) (woken elapsed) m m' a q e = rw (← some-injective _ _ e) a.0
step-IsConsistent (sleeping n d) (woken signaled) m m' a q e =
    rw (← some-injective _ _ (on_signal m (record m { phase = probing (n + 1) }) m' e)) a.0
step-IsConsistent (holding c k d) (woken done) m m' a q e = rw (← some-injective _ _ e) tt
step-IsConsistent (holding c k d) (woken elapsed) m m' a q e =
    rw (← some-injective _ _ e) (a.0, a.1)
step-IsConsistent (holding c k d) (woken signaled) m m' a q e =
    rw (← some-injective _ _ (on_signal m (clear_winner m) m' e)) (refl, refl, refl)
step-IsConsistent (refreshing c k) (mapped addr ttl control) m m' a q e =
    rw (← some-injective _ _ e) (a.0, omega arith, refl)
step-IsConsistent (refreshing c k) map_failed m m' a q e =
    elim (Bool-cases (leb refresh_failure_limit (k + 1))) [
      | inl h ↦ rw (← some-injective _ _ (rw h at e)) (refl, refl, refl)
      | inr h ↦ rw (← some-injective _ _ (rw h at e)) (a.0, ground (arith, h), refl)
    ]
step-IsConsistent p v m m' a q e = absurd (ground (arith, e))

-- In every state that the goroutine of the port mapping reaches: while it probes or sleeps there is
-- no winner, no address and no lifetime, and the sleep is the backoff of the attempt; while it
-- holds or refreshes a mapping the winner is the client that it refreshes, fewer than three
-- refreshes have failed in a row, and the sleep is that of the lifetime.
pub Reached-IsConsistent : (m : Manager) → Reached m → IsConsistent m
unfolding IsConsistent step
Reached-IsConsistent _ started = (refl, refl, refl)
Reached-IsConsistent _ (steps {m} {m'} v r e) =
    step-IsConsistent m.phase v m m' (Reached-IsConsistent m r) refl e

-- In every reached state that holds a mapping of lifetime at least two minutes, the sleep before
-- the next refresh is at least a minute and at most half of the lifetime.
refresh_in_time :
    (m : Manager) (c : Bytes) (failures sleep : ℕ)
    → Reached m
    → m.phase ≡ holding c failures sleep
    → 2 * minute ≤ m.ttl
    → (minute ≤ sleep) × (sleep + sleep ≤ m.ttl)
unfolding IsConsistent refresh_sleep
refresh_in_time m c failures sleep r p h =
    let agrees : IsConsistent m = Reached-IsConsistent m r in
    let (_, _, d) = rw p at agrees in
    rw d (elim (Bool-cases (ltb (m.ttl / 2) minute)) [
      | inl e ↦ rw e ground (arith, e, h)
      | inr e ↦ rw e ground (arith, e, h)
    ])
