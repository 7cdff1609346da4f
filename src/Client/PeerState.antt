-- ===== src/Client/PeerState.antt =====
-- The per-peer summary of the heartbeat (internal/client/peerstate.go, collectPeerState). Nebula's
-- host map is an argument: for each HostInfo the text of its first VPN address (empty if it has
-- none), the text of its current remote if that is valid, and the number of its relays.
pub mod Count
pub mod Merge
use hopssh.Base.{
  ℕ, zero, suc, ◌+◌, ◌-◌, ◌*◌, ◌/◌, ◌%◌, ◌≤◌, ◌<◌, ◌≡◌, refl, sym, ap, ◌∙◌, ◌≢◌, ◌↔◌, ◌⊎◌, inl, inr,
  Bool, true, false, not, ◌&&◌, ◌||◌, Option, none, some, List, [], ◌∷◌, ◌++◌, map, arith, ltb, leb,
  ◌==◌, if◌then◌else◌, ltb→lt, lt→ltb, leb→le, ==_iff, Bool-cases, Option-cases, length, get_or,
  take, drop, drop_last, replicate, All, length-append, drop_last-append,
}
use hopssh.Base.Text.{Bytes, codes, is_empty, bytes_eq, bytes_eq_iff, bytes_eq_refl, contains}
use hopssh.Base.Dict.{lookup, insert, lookup-insert}

pub record HostInfo : Type 0 where
  pub vpn_addr : Bytes
  pub current_remote : Option Bytes
  pub relays_to_me : ℕ

pub record PeerDetail : Type 0 where
  pub vpn_addr : Bytes
  pub direct : Bool
  pub remote_addr : Bytes
  pub rtt_ms : ℕ

pub record Merged : Type 0 where
  pub direct : Bool
  pub has_relay : Bool
  pub remote_addr : Bytes

abbrev pub max_peers_per_report : ℕ
max_peers_per_report = 100

abbrev fresh_entry : Merged
fresh_entry = record { direct = false; has_relay = false; remote_addr = [] }

abbrev pub entry_or_fresh : Option Merged → Merged
entry_or_fresh none = fresh_entry
entry_or_fresh (some e) = e

see_remote : Option Bytes → Merged → Merged
see_remote none e = e
see_remote (some a) e = if e.direct then e else record e { direct = true; remote_addr = a }

-- What one HostInfo adds to the entry of its peer.
pub see_host : HostInfo → Merged → Merged
unfolding see_remote
see_host h e =
    let e' = see_remote h.current_remote e in
    if ltb 0 h.relays_to_me then record e' { has_relay = true } else e'

-- The body of the first loop. The association list keeps the keys in the order in which they were
-- first seen, so it stands for `byPeer` and `order` together.
pub merge_host : HostInfo → List (Bytes × Merged) → List (Bytes × Merged)
unfolding see_host
merge_host h m =
    if is_empty h.vpn_addr
    then m
    else insert h.vpn_addr (see_host h (entry_or_fresh (lookup h.vpn_addr m))) m

pub merge_hosts : List HostInfo → List (Bytes × Merged) → List (Bytes × Merged)
unfolding merge_host
merge_hosts [] m = m
merge_hosts (h ∷ hs) m = merge_hosts hs (merge_host h m)

pub record Summary : Type 0 where
  pub direct : ℕ
  pub relayed : ℕ
  pub peers : List PeerDetail

direct_detail : (Bytes → ℕ × ℕ) → Bytes → Merged → PeerDetail
direct_detail snapshot a e = record {
  vpn_addr = a;
  direct = true;
  remote_addr = e.remote_addr;
  rtt_ms = if ltb 0 (snapshot a).1 then (snapshot a).0 else 0;
}

relayed_detail : Bytes → PeerDetail
relayed_detail a = record { vpn_addr = a; direct = false; remote_addr = []; rtt_ms = 0 }

-- The body of the `switch`; `snapshot` is the path-quality tracker's answer (RTT and samples).
pub classify : (Bytes → ℕ × ℕ) → Bytes → Merged → Summary → Summary
unfolding direct_detail relayed_detail
classify snapshot a e s =
    if e.direct
    then record s { direct = s.direct + 1; peers = s.peers ++ direct_detail snapshot a e ∷ [] }
    else if e.has_relay
    then record s { relayed = s.relayed + 1; peers = s.peers ++ relayed_detail a ∷ [] }
    else s

-- The second loop: a peer with neither path is skipped before the test of the cap.
pub report_loop : (Bytes → ℕ × ℕ) → List (Bytes × Merged) → Summary → Summary
unfolding classify
report_loop snapshot [] s = s
report_loop snapshot ((a, e) ∷ m) s =
    let s' = classify snapshot a e s in
    let rest = report_loop snapshot m s' in
    if (e.direct || e.has_relay) && leb max_peers_per_report (length s'.peers) then s' else rest

abbrev pub no_peers : Summary
no_peers = record { direct = 0; relayed = 0; peers = [] }

-- `collectPeerState`; `none` is `ok = false`, for a control that is nil.
unfoldable pub collect_peer_state : (Bytes → ℕ × ℕ) → Option (List HostInfo) → Option Summary
unfolding merge_hosts report_loop
collect_peer_state snapshot none = none
collect_peer_state snapshot (some hosts) =
    some (report_loop snapshot (merge_hosts hosts []) no_peers)
