-- ===== src/Tests/Coordinator.antt =====
-- The port-mapping coordinator, and the registry as a map.
use hopssh.Base.{◌*◌, ◌≡◌, refl, true, false, none, some, List, [], ◌∷◌, ◌++◌, arith}
use hopssh.Base.Text.{Bytes, codes}
use hopssh.Portmap.Manager
use hopssh.Portmap.Manager.{
  Manager, Event, Phase, probing, holding, initial, won, woken, lost, elapsed, mapped, map_failed,
  requested, signaled, advertised, withdrawn, minute, second, step, refresh_sleep,
}
use hopssh.Portmap.Manager.Reach.{Reached, started, steps, IsConsistent, Reached-IsConsistent}
use hopssh.Portmap.Manager.Change.{reprobe_keeps_old}
use hopssh.Registry.{Enrollment, State, saved, main_failed, absent, get}
use hopssh.Registry.Refine
use hopssh.Registry.Refine.{
  Operation, adding, removing, perform, replay, run_refines, perform_refused,
}
use hopssh.Registry.Unique.{IsWellFormed}

-- A mapping of two hours that the first probe won.
abbrev held : Manager
held = record initial {
  phase = holding (codes "natpmp") 0 (3600 * second);
  winner = some (codes "natpmp");
  current = some (codes "203.0.113.9:4242");
  ttl = 7200 * second;
  effects = advertised (codes "203.0.113.9:4242") ∷ [];
}

held-Reached : Reached held
unfolding step
held-Reached =
    steps (won (codes "natpmp") (some (codes "203.0.113.9:4242")) (7200 * second) true) started
      step_held
  where
    step_held :
        step (won (codes "natpmp") (some (codes "203.0.113.9:4242")) (7200 * second) true) initial
        ≡ some held
    step_held = refl

Reached-IsConsistent_example : IsConsistent held
Reached-IsConsistent_example = Reached-IsConsistent held held-Reached

reprobe_keeps_old_example :
    ((m' : Manager) × (Manager.run
          (requested
            ∷ (woken signaled
                ∷ (won (codes "pcp") (some (codes "198.51.100.7:4242")) (60 * second) true ∷ [])))
          held
        ≡ some m')
      × (m'.current ≡ some (codes "198.51.100.7:4242"))
      × (m'.effects ≡ held.effects ++ advertised (codes "198.51.100.7:4242") ∷ []))
    × ((m' : Manager) × (Manager.run
            (woken elapsed ∷ (mapped (some (codes "198.51.100.7:4242")) (60 * second) true ∷ []))
            held
          ≡ some m')
        × (m'.current ≡ some (codes "198.51.100.7:4242"))
        × (m'.effects
            ≡ held.effects
              ++ withdrawn (codes "203.0.113.9:4242")
                ∷ advertised (codes "198.51.100.7:4242")
                ∷ []))
reprobe_keeps_old_example =
    reprobe_keeps_old held (codes "natpmp") (codes "pcp") (codes "203.0.113.9:4242")
      (codes "198.51.100.7:4242") 0 (3600 * second) (60 * second) refl refl (λ h. ground (arith, h))

abbrev home : Enrollment
home = record {
  name = codes "home";
  node_id = codes "n1";
  network_id = codes "net";
  endpoint = codes "https://hop.example";
  tun_mode = codes "kernel";
  ca_fingerprint = codes "abc";
  dns_domain = codes "hop";
  listen_port = 4242;
  clipboard_sync = false;
  enrolled_at = 0;
}

abbrev empty_registry : State
empty_registry = record { enrollments = []; disk = record { main = absent; backup = absent } }

abbrev calls : List Operation
calls = adding saved home ∷ (adding saved home ∷ (removing main_failed (codes "home") ∷ []))

run_refines_example :
    ((Refine.run calls empty_registry).1 ≡ (replay calls (λ _. none)).1)
    × IsWellFormed (Refine.run calls empty_registry).0.enrollments
    × ((n : Bytes)
        → get n (Refine.run calls empty_registry).0.enrollments ≡ (replay calls (λ _. none)).0 n)
unfolding get
run_refines_example =
    run_refines calls empty_registry (λ _. none) (record { distinct = tt; valid = tt }) (λ n. refl)
