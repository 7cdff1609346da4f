-- ===== src/Client/PeerState/Merge.antt =====
-- What the first loop makes of several HostInfos of one peer: a peer is direct if any of them has
-- a valid remote, in whatever order the host map lists them.
use hopssh.Base.{
  ◌≡◌, refl, inl, inr, Bool, true, false, ◌&&◌, ◌||◌, Option, none, some, List, [], ◌∷◌, arith, ltb,
  Bool-cases,
}
use hopssh.Base.Text.{Bytes, is_empty, bytes_eq, bytes_eq_iff}
use hopssh.Base.Dict.{lookup, lookup-insert}
use hopssh.Client.PeerState.{HostInfo, Merged, see_host, merge_host, merge_hosts, entry_or_fresh}

abbrev has_remote : Option Bytes → Bool
has_remote none = false
has_remote (some _) = true

-- Whether any HostInfo of the peer has a valid remote, and whether any has a relay.
any_remote : Bytes → List HostInfo → Bool
any_remote a [] = false
any_remote a (h ∷ hs) = (bytes_eq h.vpn_addr a && has_remote h.current_remote) || any_remote a hs

any_relay : Bytes → List HostInfo → Bool
any_relay a [] = false
any_relay a (h ∷ hs) = (bytes_eq h.vpn_addr a && ltb 0 h.relays_to_me) || any_relay a hs

see_host_flags :
    (h : HostInfo) (e : Merged)
    → ((see_host h e).direct ≡ (e.direct || has_remote h.current_remote))
      × ((see_host h e).has_relay ≡ (e.has_relay || ltb 0 h.relays_to_me))
unfolding see_host
see_host_flags h e = ground arith

not-empty_eq : (a b : Bytes) → is_empty a ≡ false → is_empty b ≡ true → bytes_eq b a ≡ false
unfolding bytes_eq
not-empty_eq [] b h k = ground arith
not-empty_eq (x ∷ a) [] h k = refl
not-empty_eq (x ∷ a) (y ∷ b) h k = ground arith

merge_host_flags :
    (a : Bytes) (h : HostInfo) (m : List (Bytes × Merged))
    → is_empty a ≡ false
    → let before = entry_or_fresh (lookup a m) in
      let after = entry_or_fresh (lookup a (merge_host h m)) in
      (after.direct ≡ (before.direct || (bytes_eq h.vpn_addr a && has_remote h.current_remote)))
      × (after.has_relay ≡ (before.has_relay || (bytes_eq h.vpn_addr a && ltb 0 h.relays_to_me)))
unfolding merge_host
merge_host_flags a h m n = elim (Bool-cases (bytes_eq h.vpn_addr a)) [
  | inl k ↦
      let same : h.vpn_addr ≡ a = (bytes_eq_iff h.vpn_addr a).0 k in
      ground (
        arith,
        k,
        same,
        n,
        lookup-insert h.vpn_addr a (see_host h (entry_or_fresh (lookup h.vpn_addr m))) m,
        see_host_flags h (entry_or_fresh (lookup h.vpn_addr m)),
      )
  | inr k ↦
      ground
        (arith, k, lookup-insert h.vpn_addr a (see_host h (entry_or_fresh (lookup h.vpn_addr m))) m)
]

merge_hosts_from :
    (a : Bytes) (hs : List HostInfo) (m : List (Bytes × Merged))
    → is_empty a ≡ false
    → let before = entry_or_fresh (lookup a m) in
      let after = entry_or_fresh (lookup a (merge_hosts hs m)) in
      (after.direct ≡ (before.direct || any_remote a hs))
      × (after.has_relay ≡ (before.has_relay || any_relay a hs))
unfolding merge_hosts any_remote any_relay
merge_hosts_from a [] m n = ground arith
merge_hosts_from a (h ∷ hs) m n =
    ground (arith, merge_host_flags a h m n, merge_hosts_from a hs (merge_host h m) n)

-- For an address that is not empty, the merged entry is direct exactly if one of its HostInfos has
-- a valid remote, and has a relay exactly if one of them lists a relay.
merge_hosts_flags :
    (a : Bytes) (hs : List HostInfo)
    → is_empty a ≡ false
    → let e = entry_or_fresh (lookup a (merge_hosts hs [])) in
      (e.direct ≡ any_remote a hs) × (e.has_relay ≡ any_relay a hs)
unfolding lookup
merge_hosts_flags a hs n = merge_hosts_from a hs [] n
