-- ===== src/Portmap/Manager/Change.antt =====
-- What the agent advertises when the mapping changes or is given up.
use hopssh.Base.{ℕ, zero, suc, ◌≡◌, refl, ◌≢◌, true, false, none, some, List, [], ◌∷◌, ◌++◌, arith}
use hopssh.Base.Text.{Bytes, bytes_eq, bytes_eq_iff}
use hopssh.Portmap.Manager.{
  Manager, probing, holding, Event, requested, won, woken, mapped, map_failed, elapsed, signaled,
  step, step_in, run, refresh_sleep, on_probe_success, clear_winner, refreshed, refresh_failed,
  wake, re_probe, on_change, advertised, withdrawn,
}

-- The events of refreshes that fail one after the other.
abbrev failed_refreshes : ℕ → List Event
failed_refreshes zero = []
failed_refreshes (suc n) = woken elapsed ∷ map_failed ∷ failed_refreshes n

-- From a mapping that was just established or refreshed, up to two refreshes that fail in a row
-- keep it; the third drops it, and the goroutine probes from the first attempt.
third_failure_drops :
    (m : Manager) (c : Bytes) (sleep : ℕ)
    → m.phase ≡ holding c 0 sleep
    → (run (failed_refreshes 1) m ≡ some (record m { phase = holding c 1 (refresh_sleep m.ttl) }))
      × (run (failed_refreshes 2) m ≡ some (record m { phase = holding c 2 (refresh_sleep m.ttl) }))
      × (run (failed_refreshes 3) m
          ≡ some (record m { phase = probing 0; winner = none; current = none; ttl = 0 }))
unfolding run step step_in wake refresh_failed clear_winner
third_failure_drops m c sleep p = rw p (refl, refl, refl)

-- While a mapping of one address is held and the agent has a control, a re-probe that is requested
-- and wins another address advertises the new address and withdraws nothing, while a refresh that
-- is answered with another address withdraws the old one and then advertises the new one.
pub reprobe_keeps_old :
    (m : Manager) (c c' old new : Bytes) (failures sleep ttl : ℕ)
    → m.phase ≡ holding c failures sleep
    → m.current ≡ some old
    → old ≢ new
    → ((m' : Manager) × (run (requested ∷ woken signaled ∷ won c' (some new) ttl true ∷ []) m
          ≡ some m')
        × (m'.current ≡ some new)
        × (m'.effects ≡ m.effects ++ advertised new ∷ []))
      × ((m' : Manager) × (run (woken elapsed ∷ mapped (some new) ttl true ∷ []) m ≡ some m')
          × (m'.current ≡ some new)
          × (m'.effects ≡ m.effects ++ withdrawn old ∷ advertised new ∷ []))
unfolding run step step_in wake re_probe clear_winner on_probe_success refreshed on_change
reprobe_keeps_old m c c' old new failures sleep ttl p h d =
    let other : bytes_eq old new ≡ false = ground (arith, bytes_eq_iff old new, d) in
    rw (p, h) ((_, refl, refl, refl), (_, refl, refl, rw other refl))
