-- ===== src/Client/Watchdog.antt =====
-- The watcher watchdog (internal/client/watcher_watchdog.go, runWatcherWatchdog) and its
-- escalation to process exit (internal/client/watchdog_escalation.go). A duration is in
-- nanoseconds; the clock readings and the outcome of `restartFn` are arguments of a tick.
pub mod Escalate
use hopssh.Base.{
  ℕ, zero, suc, ◌+◌, ◌-◌, ◌*◌, ◌/◌, ◌%◌, ◌≤◌, ◌<◌, ◌≡◌, refl, sym, ap, ◌∙◌, ◌≢◌, ◌↔◌, ◌⊎◌, inl, inr,
  Bool, true, false, not, ◌&&◌, ◌||◌, Option, none, some, List, [], ◌∷◌, ◌++◌, map, arith, ltb, leb,
  ◌==◌, if◌then◌else◌, ltb→lt, lt→ltb, leb→le, ==_iff, Bool-cases, Option-cases, length, get_or,
  take, drop, drop_last, replicate, All, length-append, drop_last-append,
}

abbrev pub minute : ℕ
minute = 60000000000

abbrev pub watcher_silence_threshold : ℕ
watcher_silence_threshold = 3 * minute

abbrev pub cooldown : ℕ
cooldown = 30 * minute

-- 100*365*24*time.Hour
abbrev pub never_stamped_age : ℕ
never_stamped_age = 100 * 365 * 24 * 60 * minute

abbrev pub escalate_after_n : ℕ
escalate_after_n = 3

abbrev pub escalation_exit_code : ℕ
escalation_exit_code = 75

-- What one call of `restartFn` returns; `unwired` is a nil `restartFn`.
pub data Restart : Type 0 where
  unwired restarted restart_failed : Restart

-- The variables of the goroutine, and the exit code once it has called `osExitFn`.
pub record Watchdog : Type 0 where
  pub last_trip_at : Option ℕ
  pub consecutive_failures : ℕ
  pub exited : Option ℕ

pub record Tick : Type 0 where
  pub age : ℕ  -- inst.watcherActivityAge()
  pub now : ℕ  -- the clock at time.Since(lastTripAt)
  pub trip_now : ℕ  -- the clock at lastTripAt = time.Now()
  pub restart : Restart

abbrev pub start : Watchdog
start = record { last_trip_at = none; consecutive_failures = 0; exited = none }

-- `recordRestartFailure`: the counter, and the exit code if it escalates.
record_restart_failure : ℕ → ℕ × Option ℕ
record_restart_failure consecutive =
    let n = consecutive + 1 in
    if leb escalate_after_n n then (n, some escalation_exit_code) else (n, none)

record_restart_success : ℕ → ℕ
record_restart_success consecutive = 0

cooling_down : Option ℕ → ℕ → Bool
cooling_down none now = false
cooling_down (some at) now = ltb (now - at) cooldown

-- Whether a tick trips the watchdog: the three `continue`s.
trips : Watchdog → Tick → Bool
unfolding cooling_down
trips w t =
    not (ltb t.age watcher_silence_threshold)
    && (not (ltb never_stamped_age t.age) && not (cooling_down w.last_trip_at t.now))

after_restart : Restart → Watchdog → Watchdog
unfolding record_restart_failure record_restart_success
after_restart unwired w = w
after_restart restarted w = record w {
  consecutive_failures = record_restart_success w.consecutive_failures;
}
after_restart restart_failed w = record w {
  consecutive_failures = (record_restart_failure w.consecutive_failures).0;
  exited = (record_restart_failure w.consecutive_failures).1;
}

-- One round of the loop; a goroutine that has escalated returns and does no more.
pub tick : Watchdog → Tick → Watchdog
unfolding trips after_restart
tick w t = elim w.exited [
  | some _ ↦ w
  | none ↦
      if trips w t then after_restart t.restart (record w { last_trip_at = some t.trip_now }) else w
]

pub run : Watchdog → List Tick → Watchdog
unfolding tick
run w [] = w
run w (t ∷ ts) = run (tick w t) ts
