-- ===== src/Tests/Agent.antt =====
-- The agent's summaries, caches and watchdog.
use hopssh.Base.{
  ◌+◌, inr, ℕ, ◌*◌, ◌≡◌, refl, Bool, true, false, Option, none, some, List, [], ◌∷◌, arith, length,
}
use hopssh.Base.Text.{insert_string, sort_strings, bytes_lt, Bytes, codes, bytes_eq, contains}
use hopssh.Base.Dict.{lookup, insert}
use hopssh.Base.StringSet.{dedup_loop, normalize}
use hopssh.Client.PeerState.{HostInfo, Merged, Summary, collect_peer_state}
use hopssh.Client.PeerState.Count.{IsCounted, collect_peer_state-IsCounted}
use hopssh.Client.RelayState.{normalize_relays}
use hopssh.Client.PeerCache.{Entry}
use hopssh.Client.Watchdog.{Tick, restart_failed, start, run, minute, escalation_exit_code}
use hopssh.Client.Watchdog.Escalate.{exits_after_three}

-- One peer by relay and then direct, another by relay.
abbrev peer_a : Bytes
peer_a = codes "10.42.1.7"

abbrev hosts : List HostInfo
hosts =
    (record { vpn_addr = peer_a; current_remote = none; relays_to_me = 1 })
    ∷ (record { vpn_addr = codes "10.42.1.8"; current_remote = none; relays_to_me = 2 })
    ∷ (record { vpn_addr = peer_a; current_remote = some (codes "1.2.3.4:4242"); relays_to_me = 0 })
    ∷ []

abbrev no_samples : Bytes → ℕ × ℕ
no_samples _ = (0, 0)

abbrev summary : Summary
summary = record {
  direct = 1;
  relayed = 1;
  peers =
      (record { vpn_addr = peer_a; direct = true; remote_addr = codes "1.2.3.4:4242"; rtt_ms = 0 })
      ∷ (record { vpn_addr = codes "10.42.1.8"; direct = false; remote_addr = []; rtt_ms = 0 })
      ∷ [];
}

summarised : collect_peer_state no_samples (some hosts) ≡ some summary
unfolding collect_peer_state lookup insert bytes_eq
summarised = refl

collect_peer_state-IsCounted_example : IsCounted summary
collect_peer_state-IsCounted_example =
    collect_peer_state-IsCounted no_samples hosts summary summarised

abbrev merged : List (Bytes × Merged)
merged =
    (peer_a, record { direct = true; has_relay = true; remote_addr = codes "1.2.3.4:4242" }) ∷ []

abbrev relay_b : Bytes
relay_b = codes "10.42.1.9"

relays_sorted : normalize_relays (relay_b ∷ peer_a ∷ relay_b ∷ []) ≡ peer_a ∷ relay_b ∷ []
unfolding normalize_relays normalize contains bytes_eq bytes_lt sort_strings insert_string
    dedup_loop
relays_sorted = refl

abbrev any_text : Bytes → Bool
any_text _ = true

abbrev cached : List (Bytes × Entry)
cached = (relay_b, record { endpoints = codes "9.9.9.9:4242" ∷ []; seen_at = 5 }) ∷ []

-- Addresses as their lengths, for a subnet of the texts longer than 3.
abbrev by_length : Bytes → Option ℕ
by_length a = some (length a)

-- Three wedged ticks, thirty minutes apart: the process is given up after an hour.
abbrev wedged_at : ℕ → Tick
wedged_at m = record {
  age = 4 * minute;
  now = m * minute;
  trip_now = m * minute;
  restart = restart_failed;
}

-- Ten minutes after a trip, in the cooldown; and a watcher that is active.
abbrev cooling : ℕ → Tick
cooling minutes = record {
  age = 5 * minute;
  now = (minutes + 10) * minute;
  trip_now = (minutes + 10) * minute;
  restart = restart_failed;
}

exits_after_three_example :
    ((run start (wedged_at 10 ∷ cooling 10 ∷ wedged_at 40 ∷ cooling 40 ∷ [])).exited ≡ none)
    × ((run start
          (wedged_at 10 ∷ cooling 10 ∷ wedged_at 40 ∷ cooling 40 ∷ wedged_at 70 ∷ [])).exited
        ≡ some escalation_exit_code)
exits_after_three_example =
    exits_after_three (wedged_at 10) (wedged_at 40) (wedged_at 70) (cooling 10 ∷ [])
      (cooling 40 ∷ []) (omega arith, omega arith, refl) (omega arith, omega arith, refl)
      (omega arith, omega arith, refl) (inr (inr (omega arith)), tt) (inr (inr (omega arith)), tt)
      (omega arith) (omega arith)
