-- ===== src/Client/Watchdog/Escalate.antt =====
-- When the watchdog restarts and when it gives the process up.
use hopssh.Base.{
  ℕ, ◌+◌, ◌≤◌, ◌<◌, ◌≡◌, refl, ap, ◌∙◌, ◌⊎◌, inl, inr, none, some, List, [], ◌∷◌, ◌++◌, arith, leb,
  if◌then◌else◌, All,
}
use hopssh.Client.Watchdog.{
  Watchdog, Tick, Restart, unwired, restarted, restart_failed, start, tick, run, cooldown,
  watcher_silence_threshold, never_stamped_age, escalate_after_n, escalation_exit_code,
}

-- Below the threshold while it runs, and stopped with code 75 exactly at the threshold.
pub record Inv (w : Watchdog) : Type 0 where
  pub running : w.exited ≡ none → w.consecutive_failures < escalate_after_n
  pub stopped :
      (w.exited ≡ none)
      ⊎ ((w.exited ≡ some escalation_exit_code) × (w.consecutive_failures ≡ escalate_after_n))

tick-Inv : (w : Watchdog) (t : Tick) → Inv w → Inv (tick w t)
unfolding tick
tick-Inv w t h = ground arith

run-Inv_from : (w : Watchdog) (ts : List Tick) → Inv w → Inv (run w ts)
unfolding run
run-Inv_from w [] h = h
run-Inv_from w (t ∷ ts) h = run-Inv_from (tick w t) ts (tick-Inv w t h)

run-Inv : (ts : List Tick) → Inv (run start ts)
run-Inv ts = run-Inv_from start ts (record { running = λ _. omega arith; stopped = inl refl })

abbrev fails : Restart → ℕ
fails unwired = 0
fails restarted = 0
fails restart_failed = 1

-- How many of the ticks would have `restartFn` fail.
abbrev failing : List Tick → ℕ
failing [] = 0
failing (t ∷ ts) = fails t.restart + failing ts

tick-failures :
    (w : Watchdog) (t : Tick)
    → (tick w t).consecutive_failures ≤ w.consecutive_failures + fails t.restart
unfolding tick
tick-failures w t = ground arith

run-failures :
    (w : Watchdog) (ts : List Tick)
    → (run w ts).consecutive_failures ≤ w.consecutive_failures + failing ts
unfolding run
run-failures w [] = omega arith
run-failures w (t ∷ ts) = omega (arith, tick-failures w t, run-failures (tick w t) ts)

-- Whatever the ticks, the process is given up only with exit code 75 and only if at least three of
-- them have a failing restart.
exit_needs_failures :
    (ts : List Tick) (code : ℕ)
    → (run start ts).exited ≡ some code
    → (code ≡ escalation_exit_code) × (escalate_after_n ≤ failing ts)
exit_needs_failures ts code h = ground (arith, (run-Inv ts).stopped, run-failures start ts)

-- A tick at which the watcher has been silent for long enough and `restartFn` fails.
abbrev IsWedged : Tick → Type 0
IsWedged t =
    (watcher_silence_threshold ≤ t.age) × (t.age ≤ never_stamped_age) × (t.restart ≡ restart_failed)

tick_wedged :
    (w : Watchdog) (t : Tick)
    → IsWedged t
    → w.exited ≡ none
    → ((w.last_trip_at ≡ none) ⊎ ((at : ℕ) × (w.last_trip_at ≡ some at) × (at + cooldown ≤ t.now)))
    → ((tick w t).last_trip_at ≡ some t.trip_now)
      × ((tick w t).consecutive_failures ≡ w.consecutive_failures + 1)
      × ((tick w t).exited ≡ (
          if leb escalate_after_n (w.consecutive_failures + 1)
          then some escalation_exit_code
          else none))
unfolding tick
tick_wedged w t h e l = ground arith

-- A tick that finds the watcher active, or that comes within a cooldown of the trip at `at`.
abbrev IsQuiet : ℕ → Tick → Type 0
IsQuiet at t =
    (t.age < watcher_silence_threshold) ⊎ (never_stamped_age < t.age) ⊎ (t.now < at + cooldown)

tick-quiet :
    (w : Watchdog) (t : Tick) (at : ℕ) → w.last_trip_at ≡ some at → IsQuiet at t → tick w t ≡ w
unfolding tick
tick-quiet w t at l h = ground arith

run-quiet :
    (w : Watchdog) (ts : List Tick) (at : ℕ)
    → w.last_trip_at ≡ some at
    → All (IsQuiet at) ts
    → run w ts ≡ w
unfolding run
run-quiet w [] at l h = refl
run-quiet w (t ∷ ts) at l h = rw (tick-quiet w t at l h.0) (run-quiet w ts at l h.1)

run-append : (w : Watchdog) (ts us : List Tick) → run w (ts ++ us) ≡ run (run w ts) us
unfolding run
run-append w [] us = refl
run-append w (t ∷ ts) us = run-append (tick w t) ts us

-- From the start, three ticks that find the watcher silent and whose restarts fail, each at least a
-- cooldown after the trip before, with any ticks between them that find the watcher active or come
-- within the cooldown: the process is not ended before the third of them, and ends with code 75 at
-- it.
pub exits_after_three :
    (t₁ t₂ t₃ : Tick) (first second : List Tick)
    → IsWedged t₁
    → IsWedged t₂
    → IsWedged t₃
    → All (IsQuiet t₁.trip_now) first
    → All (IsQuiet t₂.trip_now) second
    → t₁.trip_now + cooldown ≤ t₂.now
    → t₂.trip_now + cooldown ≤ t₃.now
    → ((run start (t₁ ∷ (first ++ (t₂ ∷ second)))).exited ≡ none)
      × ((run start (t₁ ∷ (first ++ (t₂ ∷ (second ++ (t₃ ∷ [])))))).exited
          ≡ some escalation_exit_code)
unfolding run
exits_after_three t₁ t₂ t₃ first second h₁ h₂ h₃ f s p q =
    let w₁ = tick start t₁ in
    let w₂ = tick w₁ t₂ in
    let a = tick_wedged start t₁ h₁ refl (inl refl) in
    let b = tick_wedged w₁ t₂ h₂ (ground (arith, a)) (inr (t₁.trip_now, a.0, p)) in
    let c = tick_wedged w₂ t₃ h₃ (ground (arith, a, b)) (inr (t₂.trip_now, b.0, q)) in
    let to_second = (us : List Tick) → run start (t₁ ∷ (first ++ (t₂ ∷ us))) ≡ run w₂ us in
    let reaches : to_second = λ us.
      run-append w₁ first (t₂ ∷ us)
      ∙ ap (λ w. run w (t₂ ∷ us)) (run-quiet w₁ first t₁.trip_now a.0 f) in
    (
      ap (λ w. w.exited) (reaches second ∙ run-quiet w₂ second t₂.trip_now b.0 s)
          ∙ ground (arith, a, b),
      ap (λ w. w.exited)
            (reaches (second ++ (t₃ ∷ []))
              ∙ run-append w₂ second (t₃ ∷ [])
              ∙ ap (λ w. run w (t₃ ∷ [])) (run-quiet w₂ second t₂.trip_now b.0 s))
          ∙ ground (arith, a, b, c),
    )
