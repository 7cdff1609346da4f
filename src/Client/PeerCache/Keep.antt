-- ===== src/Client/PeerCache/Keep.antt =====
-- What survives a save and a load of the cache.
use hopssh.Base.{
  ℕ, ◌<◌, ◌≡◌, refl, Bool, true, false, not, ◌&&◌, Option, none, some, List, [], ◌∷◌, ◌++◌, arith,
  if◌then◌else◌, length, All,
}
use hopssh.Base.Text.{Bytes, is_empty, bytes_eq}
use hopssh.Base.Dict.{lookup, lookup-insert}
use hopssh.Client.PeerCache.{
  Entry, merged_entry, merge_peer, merge_peers, normalize_endpoints, no_entries,
  accept_peer_endpoint, inject_one, inject_peers, parse_endpoints,
}
use hopssh.Client.RelayState.{string_slice_equal_iff}

-- The entry always carries the reported endpoints and the time of the report.
merged_entry_lem :
    (o : Option Entry) (eps : List Bytes) (now : ℕ)
    → merged_entry o eps now ≡ record { endpoints = eps; seen_at = now }
unfolding merged_entry
merged_entry_lem none eps now = refl
merged_entry_lem (some prev) eps now = ground (arith, string_slice_equal_iff prev.endpoints eps)

module _ (valid_addr valid_addr_port : Bytes → Bool) (now : ℕ) where
  -- The reported entry of a peer, if the report has a usable one; the last report of a name counts.
  abbrev reported : Bytes → List (Bytes × List Bytes) → Option Entry → Option Entry
  reported k [] o = o
  reported k ((ip, eps) ∷ rest) o = reported k rest (
      if bytes_eq ip k
        && (not (no_entries (normalize_endpoints valid_addr_port eps)) && valid_addr ip)
      then some (record { endpoints = normalize_endpoints valid_addr_port eps; seen_at = now })
      else o)

  lookup-merge_peer :
      (k ip : Bytes) (eps : List Bytes) (peers : List (Bytes × Entry)) (changed : Bool)
      → lookup k (merge_peer valid_addr valid_addr_port now ip eps (peers, changed)).0 ≡ (
          if bytes_eq ip k
            && (not (no_entries (normalize_endpoints valid_addr_port eps)) && valid_addr ip)
          then some (record { endpoints = normalize_endpoints valid_addr_port eps; seen_at = now })
          else lookup k peers)
  unfolding merge_peer
  lookup-merge_peer k ip eps peers changed =
      let eps' = normalize_endpoints valid_addr_port eps in
      ground (
        arith,
        lookup-insert ip k (merged_entry (lookup ip peers) eps' now) peers,
        merged_entry_lem (lookup ip peers) eps' now,
      )

  -- After the merge of a report into the cache, each peer has the entry that the report gives it,
  -- and keeps its old one if the report gives it none that is usable.
  lookup-merge_peers :
      (k : Bytes) (rs : List (Bytes × List Bytes)) (peers : List (Bytes × Entry)) (changed : Bool)
      → lookup k (merge_peers valid_addr valid_addr_port now rs (peers, changed)).0
        ≡ reported k rs (lookup k peers)
  unfolding merge_peers
  lookup-merge_peers k [] peers changed = refl
  lookup-merge_peers k ((ip, eps) ∷ rs) peers changed =
      let (peers', changed') = merge_peer valid_addr valid_addr_port now ip eps (peers, changed) in
      rw (← lookup-merge_peer k ip eps peers changed) (lookup-merge_peers k rs peers' changed')

-- A peer that is accepted is not this node's own address, parses, and lies in the mesh subnet.
accept_peer_endpoint_sound {ℓ} :
    {Addr : Type ℓ} (parse : Bytes → Option Addr) (ip self_ip : Bytes) (inside : Addr → Bool)
    (vpn : Addr)
    → accept_peer_endpoint parse ip self_ip (some inside) ≡ some vpn
    → is_empty self_ip ≡ false
    → (bytes_eq ip self_ip ≡ false) × (parse ip ≡ some vpn) × (inside vpn ≡ true)
unfolding accept_peer_endpoint
accept_peer_endpoint_sound parse ip self_ip inside vpn h n = ground arith

-- What holds of a peer that is handed to the host map.
abbrev IsInjectable {ℓ κ} :
    {Addr : Type ℓ} {AddrPort : Type κ}
    → (Bytes → Option Addr)
    → Bytes
    → (Addr → Bool)
    → Addr × List AddrPort
    → Type ℓ
IsInjectable parse self_ip inside (vpn, aps) =
    (inside vpn ≡ true)
    × (0 < length aps)
    × ((ip : Bytes) × (bytes_eq ip self_ip ≡ false) × (parse ip ≡ some vpn))

inject_one-All {ℓ κ} :
    {Addr : Type ℓ} {AddrPort : Type κ} (parse : Bytes → Option Addr)
    (parse_port : Bytes → Option AddrPort) (ip self_ip : Bytes) (inside : Addr → Bool)
    (o : Option Addr) (aps : List AddrPort) (rest : List (Addr × List AddrPort))
    → is_empty self_ip ≡ false
    → accept_peer_endpoint parse ip self_ip (some inside) ≡ o
    → All (IsInjectable parse self_ip inside) rest
    → All (IsInjectable parse self_ip inside) (inject_one parse parse_port o aps ++ rest)
inject_one-All parse parse_port ip self_ip inside none aps rest n e r = r
inject_one-All parse parse_port ip self_ip inside (some vpn) [] rest n e r = r
inject_one-All parse parse_port ip self_ip inside (some vpn) (ap' ∷ aps) rest n e r =
    let (other, parsed, within) = accept_peer_endpoint_sound parse ip self_ip inside vpn e n in
    ((within, omega arith, (ip, other, parsed)), r)

-- With a valid mesh subnet and an own address that is known, every peer handed to the host map lies
-- in the subnet, parses from a text other than the own address, and comes with at least one
-- endpoint.
inject_peers-All {ℓ κ} :
    {Addr : Type ℓ} {AddrPort : Type κ} (parse : Bytes → Option Addr)
    (parse_port : Bytes → Option AddrPort) (self_ip : Bytes) (inside : Addr → Bool)
    (ps : List (Bytes × Entry))
    → is_empty self_ip ≡ false
    → All
        (IsInjectable parse self_ip inside)
        (inject_peers parse parse_port self_ip (some inside) ps)
unfolding inject_peers
inject_peers-All parse parse_port self_ip inside [] n = tt
inject_peers-All parse parse_port self_ip inside ((ip, e) ∷ ps) n =
    inject_one-All parse parse_port ip self_ip inside
      (accept_peer_endpoint parse ip self_ip (some inside))
      (parse_endpoints parse parse_port e.endpoints)
      (inject_peers parse parse_port self_ip (some inside) ps) n refl
      (inject_peers-All parse parse_port self_ip inside ps n)
