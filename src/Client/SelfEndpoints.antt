-- ===== src/Client/SelfEndpoints.antt =====
-- The addresses that an agent reports of itself in a heartbeat (internal/client/self_endpoints.go,
-- and their part of sendHeartbeat in internal/client/renew.go). `show` is the text of an address and
-- a port; the interfaces are what package net returns, with `none` for an error.
use hopssh.Base.{
  ℕ, ◌%◌, Bool, not, ◌&&◌, ◌||◌, Option, none, some, List, [], ◌∷◌, ◌++◌, map, leb, ◌==◌,
  if◌then◌else◌,
}
use hopssh.Base.Text.{Bytes, is_empty, bytes_eq, contains}
use hopssh.Portmap.Wire.{Ipv4, is_unspecified}
use hopssh.Portmap.Manager.{Manager, lifetime_seconds}

-- A net.Interface with its addresses; `none` in the list is an address that is not IPv4.
pub record Iface : Type 0 where
  pub name : Bytes
  pub up : Bool
  pub loopback : Bool
  pub addrs : Option (List (Option Ipv4))

-- Neither loopback, link-local, multicast nor unspecified, and outside 10.42.0.0/16.
abbrev is_reported : Ipv4 → Bool
is_reported ip =
    not (
      ip.a == 127
      || ((ip.a == 169 && ip.b == 254) || ((leb 224 ip.a && leb ip.a 239) || is_unspecified ip)))
    && not (ip.a == 10 && ip.b == 42)

reported_addrs : List (Option Ipv4) → List Ipv4
reported_addrs [] = []
reported_addrs (none ∷ ips) = reported_addrs ips
reported_addrs (some ip ∷ ips) =
    let rest = reported_addrs ips in if is_reported ip then ip ∷ rest else rest

abbrev is_walked : Bytes → Iface → Bool
is_walked only i = not (not i.up || i.loopback) && (is_empty only || bytes_eq i.name only)

iface_addrs : Option (List (Option Ipv4)) → List Ipv4
unfolding reported_addrs
iface_addrs none = []
iface_addrs (some ips) = reported_addrs ips

local_addrs_loop : Bytes → List Iface → List Ipv4
unfolding iface_addrs
local_addrs_loop only [] = []
local_addrs_loop only (i ∷ is) =
    let rest = local_addrs_loop only is in
    if is_walked only i then iface_addrs i.addrs ++ rest else rest

-- `localUnicastAddrsOnInterface`
unfoldable pub local_unicast_addrs_on_interface : Option (List Iface) → Bytes → List Ipv4
unfolding local_addrs_loop
local_unicast_addrs_on_interface none only = []
local_unicast_addrs_on_interface (some is) only = local_addrs_loop only is

-- `inst.portmap.Current()`, if there is a port mapping and it is valid.
abbrev public_addr : Option Manager → Option Bytes
public_addr none = none
public_addr (some m) = m.current

-- The loop over the interface addresses: `out` is what is listed, which is also what was seen.
unfoldable pub append_new : List Bytes → List Bytes → List Bytes
append_new out [] = out
append_new out (s ∷ ss) = append_new (if contains out s then out else out ++ s ∷ []) ss

abbrev public_first : Option Bytes → List Bytes
public_first none = []
public_first (some s) = s ∷ []

-- `selfEndpoints`; `phys_iface` is the detected interface or the empty string.
unfoldable pub self_endpoints :
    (Ipv4 → ℕ → Bytes) → Option Manager → ℕ → Option (List Iface) → Bytes → List Bytes
unfolding append_new
self_endpoints show portmap port ifaces phys_iface =
    if port == 0
    then []
    else append_new (public_first (public_addr portmap))
        (map (λ ip. show ip (port % 65536)) (local_unicast_addrs_on_interface ifaces phys_iface))

abbrev lifetimes_of : ℕ → Option Bytes → List Bytes → List ℕ
lifetimes_of l none addrs = map (λ _. 0) addrs
lifetimes_of l (some public) addrs = map (λ a. if bytes_eq a public then l else 0) addrs

-- `selfEndpointLifetimes`
unfoldable pub self_endpoint_lifetimes : Option Manager → List Bytes → List ℕ
self_endpoint_lifetimes none addrs = map (λ _. 0) addrs
self_endpoint_lifetimes (some m) addrs =
    if lifetime_seconds m == 0
    then map (λ _. 0) addrs
    else lifetimes_of (lifetime_seconds m) m.current addrs

-- The fields of the heartbeat: `none` if they are left out.
unfoldable pub report : Option Manager → List Bytes → Option (List Bytes) × List ℕ
report portmap [] = (none, [])
report portmap (e ∷ es) = (some (e ∷ es), self_endpoint_lifetimes portmap (e ∷ es))
