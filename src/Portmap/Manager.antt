-- ===== src/Portmap/Manager.antt =====
-- The port-mapping coordinator (internal/portmap/portmap.go) with the handler that the agent
-- registers (internal/client/instance.go). The goroutine `run` is a state machine: a phase for each
-- place where it blocks, and the event that ends the wait. Durations are in nanoseconds. The clients
-- (NAT-PMP, PCP, UPnP) are known by their names, and what their calls return comes with the events.
pub mod Reach
pub mod Change
use hopssh.Base.{
  ℕ, zero, suc, ◌+◌, ◌-◌, ◌*◌, ◌/◌, ◌%◌, ◌≤◌, ◌<◌, ◌≡◌, refl, sym, ap, ◌∙◌, ◌≢◌, ◌↔◌, ◌⊎◌, inl, inr,
  Bool, true, false, not, ◌&&◌, ◌||◌, Option, none, some, List, [], ◌∷◌, ◌++◌, map, arith, ltb, leb,
  ◌==◌, if◌then◌else◌, ltb→lt, lt→ltb, leb→le, ==_iff, Bool-cases, Option-cases, length, get_or,
  take, drop, drop_last, replicate, All, length-append, drop_last-append,
}
use hopssh.Base.Text.{Bytes, codes, is_empty, bytes_eq, bytes_eq_iff, bytes_eq_refl, contains}

-- `none` is the zero AddrPort, which is not valid.
abbrev pub AddrPort : Type 0
AddrPort = Option Bytes

abbrev pub same_addr : AddrPort → AddrPort → Bool
same_addr none none = true
same_addr none (some b) = false
same_addr (some a) none = false
same_addr (some a) (some b) = bytes_eq a b

abbrev pub second : ℕ
second = 1000000000

abbrev pub minute : ℕ
minute = 60 * second

-- What the handler asks of the control of the overlay.
pub data Effect : Type 0 where
  advertised withdrawn : Bytes → Effect

-- Where `run` waits: for a probe, in `sleepOrReprobe`, in the select of `refreshLoop`, for the
-- refresh of the winner. The attempts count from 0, and the sleeps are kept.
pub data Phase : Type 0 where
  probing : ℕ → Phase
  sleeping : ℕ → ℕ → Phase
  holding : Bytes → ℕ → ℕ → Phase
  refreshing : Bytes → ℕ → Phase
  stopped : Phase

pub record Manager : Type 0 where
  pub phase : Phase
  pub winner : Option Bytes
  pub current : AddrPort
  pub ttl : ℕ
  pub reprobe : Bool
  pub effects : List Effect

abbrev pub retry_backoff : List ℕ
retry_backoff = 30 * second ∷ minute ∷ 2 * minute ∷ 5 * minute ∷ []

nth_delay : List ℕ → ℕ → ℕ → ℕ
nth_delay [] attempt last = last
nth_delay (d ∷ ds) zero last = d
nth_delay (d ∷ ds) (suc attempt) last = nth_delay ds attempt d

-- `retryAttemptDelay`: past the end of the backoff its last value.
pub retry_attempt_delay : List ℕ → ℕ → ℕ
unfolding nth_delay
retry_attempt_delay [] attempt = 30 * second
retry_attempt_delay (d ∷ ds) attempt = nth_delay (d ∷ ds) attempt d

-- The sleep of `refreshLoop`.
pub refresh_sleep : ℕ → ℕ
refresh_sleep ttl = if ltb (ttl / 2) minute then minute else ttl / 2

abbrev pub refresh_failure_limit : ℕ
refresh_failure_limit = 3

abbrev pub initial : Manager
initial = record {
  phase = probing 0;
  winner = none;
  current = none;
  ttl = 0;
  reprobe = false;
  effects = [];
}

-- The handler of `startPortmap`; without a control it does nothing.
pub on_change : Bool → AddrPort → AddrPort → List Effect
on_change control old cur =
    if not control
    then []
    else elim old [ none ↦ [] | some a ↦ withdrawn a ∷ [] ]
      ++ elim cur [ none ↦ [] | some a ↦ advertised a ∷ [] ]

-- `ReProbe`
pub re_probe : Manager → Manager
re_probe m = record m { reprobe = true }

-- `onProbeSuccess`, and the start of `refreshLoop`.
pub on_probe_success : Bool → Bytes → AddrPort → ℕ → Manager → Manager
unfolding on_change refresh_sleep
on_probe_success control winner addr ttl m = record m {
  phase = holding winner 0 (refresh_sleep ttl);
  winner = some winner;
  current = addr;
  ttl = ttl;
  effects = m.effects ++ on_change control m.current addr;
}

-- `clearWinner`, and the probe after it.
pub clear_winner : Manager → Manager
clear_winner m = record m { phase = probing 0; winner = none; current = none; ttl = 0 }

-- A refresh that the router answered.
pub refreshed : Bool → Bytes → AddrPort → ℕ → Manager → Manager
unfolding on_change refresh_sleep
refreshed control winner addr ttl m = record m {
  phase = holding winner 0 (refresh_sleep ttl);
  current = addr;
  ttl = ttl;
  effects =
      if same_addr m.current addr then m.effects else m.effects ++ on_change control m.current addr;
}

pub refresh_failed : Bytes → ℕ → Manager → Manager
unfolding clear_winner refresh_sleep
refresh_failed winner failures m =
    if leb refresh_failure_limit (failures + 1)
    then clear_winner m
    else record m { phase = holding winner (failures + 1) (refresh_sleep m.ttl) }

-- The end of a select.
pub data Wake : Type 0 where
  done elapsed signaled : Wake

-- `won` has the client, its address and lifetime, and whether the agent has a control; `lost` and
-- `map_failed` say nothing of the context but whether it is cancelled.
pub data Event : Type 0 where
  requested : Event
  won : Bytes → AddrPort → ℕ → Bool → Event
  lost : Bool → Event
  woken : Wake → Event
  mapped : AddrPort → ℕ → Bool → Event
  map_failed : Event

-- A select: the signal of a re-probe needs one in the channel, which it takes.
pub wake : Wake → Manager → Phase → Manager → Option Manager
wake done m next cleared = some (record m { phase = stopped })
wake elapsed m next cleared = some (record m { phase = next })
wake signaled m next cleared = if m.reprobe then some (record cleared { reprobe = false }) else none

-- A failed probe; only behind the first attempt is the context looked at.
pub probe_lost : ℕ → Bool → Phase
unfolding retry_attempt_delay
probe_lost zero cancelled = sleeping 0 (retry_attempt_delay retry_backoff 0)
probe_lost (suc n) cancelled =
    if cancelled then stopped else sleeping (suc n) (retry_attempt_delay retry_backoff (suc n))

-- One event; `none` if `run` does not wait for it in this phase.
pub step_in : Phase → Event → Manager → Option Manager
unfolding re_probe on_probe_success refreshed refresh_failed wake probe_lost
step_in p requested m = some (re_probe m)
step_in (probing n) (won c addr ttl control) m = some (on_probe_success control c addr ttl m)
step_in (probing n) (lost cancelled) m = some (record m { phase = probe_lost n cancelled })
step_in (sleeping n d) (woken w) m =
    wake w m (probing (n + 1)) (record m { phase = probing (n + 1) })
step_in (holding c k d) (woken w) m = wake w m (refreshing c k) (clear_winner m)
step_in (refreshing c k) (mapped addr ttl control) m = some (refreshed control c addr ttl m)
step_in (refreshing c k) map_failed m = some (refresh_failed c k m)
step_in p v m = none

unfoldable pub step : Event → Manager → Option Manager
unfolding step_in
step v m = step_in m.phase v m

-- `run` on a list of events.
pub run : List Event → Manager → Option Manager
unfolding step
run [] m = some m
run (v ∷ vs) m = elim (step v m) [ none ↦ none | some m' ↦ run vs m' ]

-- `LifetimeSeconds`
unfoldable pub lifetime_seconds : Manager → ℕ
lifetime_seconds m = m.ttl / second
