-- ===== src/Mesh/Manager.antt =====
-- The lighthouses of the networks (internal/mesh/network_manager.go) and their ports. The map of
-- instances has a nil entry while a start is in flight. An operation that releases the lock in
-- between is split there: StartNetwork and GetInstance begin under the lock, and finish after the
-- start; StopNetwork closes the instance after it has deleted the entry (Lifecycle). What Nebula, its service and the bind of the DNS port do is the argument `Startup`.
pub mod System
pub mod Lifecycle
pub mod Calls
pub mod Reap
pub mod Ports
use hopssh.Base.{
  ℕ, zero, suc, ◌+◌, ◌-◌, ◌*◌, ◌/◌, ◌%◌, ◌≤◌, ◌<◌, ◌≡◌, refl, sym, ap, ◌∙◌, ◌≢◌, ◌↔◌, ◌⊎◌, inl, inr,
  Bool, true, false, not, ◌&&◌, ◌||◌, Option, none, some, List, [], ◌∷◌, ◌++◌, map, arith, ltb, leb,
  ◌==◌, if◌then◌else◌, ltb→lt, lt→ltb, leb→le, ==_iff, Bool-cases, Option-cases, length, get_or,
  take, drop, drop_last, replicate, All, length-append, drop_last-append,
}
use hopssh.Base.Text.{Bytes, codes, is_empty, bytes_eq, bytes_eq_iff, bytes_eq_refl, contains}
use hopssh.Base.Int.{ℤ, pos, sub_ℕ, ◌+ℤ◌}
use hopssh.Base.Dict.{lookup, insert, delete_key}
use hopssh.Db.Nodes.{Row}
use hopssh.Mesh.Dns.{MeshDns, CustomRecord, new_mesh_dns, refresh_dns}

-- The columns of a network that a start reads.
pub record Network : Type 0 where
  pub id : Bytes
  pub lighthouse_port : Option ℕ
  pub dns_domain : Bytes

-- `service` is the identity of the running service.
pub record Instance : Type 0 where
  pub network_id : Bytes
  pub udp_port : ℕ
  pub dns_domain : Bytes
  pub service : ℕ
  pub dns : Option MeshDns

abbrev pub Manager : Type 0
Manager = List (Bytes × Option Instance)

abbrev pub base_lighthouse_port : ℕ
base_lighthouse_port = 42001

abbrev base_dns_port : ℕ
base_dns_port = 15300

abbrev dns_port : ℕ → ℤ
dns_port port = pos base_dns_port +ℤ sub_ℕ port base_lighthouse_port

-- How far a start gets; `up` says whether the DNS port is bound, and which service runs.
pub data Startup : Type 0 where
  config_fails nebula_fails service_fails : Startup
  up : Bool → ℕ → Startup

module _ (lower : Bytes → Bytes) where
  abbrev dns_of : Network → ℕ → Bool → Option MeshDns
  dns_of n port binds =
      if is_empty n.dns_domain
      then none
      else if binds
      then some (new_mesh_dns lower (dns_port port) n.dns_domain)
      else none

  abbrev instance_on : Option ℕ → Startup → Network → Option Instance
  instance_on none s n = none
  instance_on (some port) (up binds service) n = some (record {
    network_id = n.id;
    udp_port = port;
    dns_domain = n.dns_domain;
    service = service;
    dns = dns_of n port binds;
  })
  instance_on (some port) _ n = none

  -- The instance that `startInstance` makes, if it does not fail.
  unfoldable pub start_instance : Startup → Network → Option Instance
  start_instance s n = instance_on n.lighthouse_port s n

  -- The removal of the sentinel after a failed start: an entry that is nil, or none.
  abbrev clear_entry : Option (Option Instance) → Bytes → Manager → Manager
  clear_entry (some (some i)) id m = m
  clear_entry _ id m = delete_key id m

  abbrev finish : Option Instance → Bytes → Manager → Manager
  finish none id m = clear_entry (lookup id m) id m
  finish (some i) id m = insert id (some i) m

  -- The rest of StartNetwork and of the lazy restart: `startInstance` and what follows a failure.
  pub finish_start : Startup → Network → Manager → Manager
  finish_start s n m = finish (start_instance s n) n.id m

abbrev begin_entry : Option (Option Instance) → Bytes → Manager → Option Manager
begin_entry none id m = some (insert id none m)
begin_entry (some _) id m = none

-- StartNetwork until it releases the lock; none is the error that the lighthouse runs already.
pub begin_start : Network → Manager → Option Manager
begin_start n m = begin_entry (lookup n.id m) n.id m

pub data GetResult : Type 0 where
  running : Instance → GetResult
  starting no_lighthouse : GetResult
  restarts : Network → GetResult

abbrev has_port : Network → Bool
has_port n = elim n.lighthouse_port [ none ↦ false | some _ ↦ true ]

abbrev restart_of : Option Network → Bytes → Manager → GetResult × Manager
restart_of none id m = (no_lighthouse, m)
restart_of (some n) id m = if has_port n then (restarts n, insert id none m) else (no_lighthouse, m)

abbrev get_entry : Option (Option Instance) → Option Network → Bytes → Manager → GetResult × Manager
get_entry (some (some i)) row id m = (running i, m)
get_entry (some none) row id m = (starting, m)
get_entry none row id m = restart_of row id m

-- GetInstance until it releases the lock; `networks` is the store of the networks.
pub begin_get : (Bytes → Option Network) → Bytes → Manager → GetResult × Manager
begin_get networks id m = get_entry (lookup id m) (networks id) id m

abbrev instance_in : Option (Option Instance) → Option Instance
instance_in none = none
instance_in (some entry) = entry

-- The instance that a restarting GetInstance returns at the end, or that StopNetwork closes.
pub current : Bytes → Manager → Option Instance
current id m = instance_in (lookup id m)

-- StopNetwork until it releases the lock, with the instance that it closes afterwards.
pub stop_network : Bytes → Manager → Manager × Option Instance
stop_network id m = (delete_key id m, current id m)

abbrev prepend_some : Option Instance → List Instance → List Instance
prepend_some none rest = rest
prepend_some (some i) rest = i ∷ rest

-- What Stop closes; it leaves an empty map.
unfoldable stop : Manager → List Instance
stop [] = []
stop ((id, entry) ∷ m) = prepend_some entry (stop m)

pub data Refresh : Type 0 where
  unchanged panics : Refresh
  refreshed : Manager → Refresh

module _ (parse : Bytes → Option Bytes) (lower : Bytes → Bytes) (nodes : Option (List Row))
    (customs : Option (List CustomRecord)) where
  abbrev refresh_instance : Option MeshDns → Instance → Bytes → Manager → Refresh
  refresh_instance none i id m = unchanged
  refresh_instance (some d) i id m =
      refreshed
        (insert id (some (record i { dns = some (refresh_dns parse lower nodes customs d) })) m)

  -- `inst.dns` of a nil instance panics.
  abbrev refresh_entry : Option (Option Instance) → Bytes → Manager → Refresh
  refresh_entry none id m = unchanged
  refresh_entry (some none) id m = panics
  refresh_entry (some (some i)) id m = refresh_instance i.dns i id m

  -- RefreshDNS: the arguments of the section are what its two listings return.
  pub refresh_network : Bytes → Manager → Refresh
  refresh_network id m = refresh_entry (lookup id m) id m
