-- ===== src/Tests/Reports.antt =====
-- What heartbeats report, and the shown status of nodes.
use hopssh.Base.{
  ltb, ◌-◌, ◌+◌, ◌*◌, ◌/◌, ◌≡◌, refl, true, false, ◌&&◌, ◌||◌, none, some, [], ◌∷◌, map, arith, leb,
}
use hopssh.Base.Text.{Bytes, codes, bytes_eq, contains}
use hopssh.Base.Int.{pos}
use hopssh.Base.Dict.{lookup}
use hopssh.Portmap.Manager.{Manager, initial, holding, second}
use hopssh.Client.SelfEndpoints.{
  Iface, self_endpoints, report, local_unicast_addrs_on_interface, append_new,
}
use hopssh.Api.Endpoints.{or_empty, peer_ip, peer_endpoints, keep_endpoints, self_endpoint_hint_ttl}
use hopssh.Db.Nodes.{Row, online}
use hopssh.Db.Nodes.Sweep.{stale_online_nodes}
use hopssh.Mesh.Dns.{has_suffix, trim_suffix}
use hopssh.Api.Status.{node_stale_threshold}
use hopssh.Api.Status.Swept.{ids_where, shown_stale, sweep_finds_shown}
use hopssh.Api.Endpoints.Served.{known}
use hopssh.Api.Endpoints.Lease.{lease_served}

abbrev public : Bytes
public = codes "203.0.113.9:4242"

abbrev local : Bytes
local = codes "192.168.1.5:4242"

-- Twenty minutes.
abbrev mapped : Manager
mapped = record initial {
  phase = holding (codes "natpmp") 0 (600 * second);
  winner = some (codes "natpmp");
  current = some public;
  ttl = 1200 * second;
}

abbrev ethernet : Iface
ethernet = record {
  name = codes "en0";
  up = true;
  loopback = false;
  addrs = some (
      some (record { a = 192; b = 168; c = 1; d = 5 })
      ∷ (none ∷ (some (record { a = 10; b = 42; c = 1; d = 2 }) ∷ [])));
}

reported :
    self_endpoints (λ _ _. local) (some mapped) 4242 (some (ethernet ∷ [])) []
    ≡ public ∷ (local ∷ [])
unfolding self_endpoints append_new local_unicast_addrs_on_interface contains bytes_eq
reported = refl

abbrev fresh : Row
fresh = record {
  id = codes "n2";
  network_id = codes "net";
  hostname = [];
  os = [];
  arch = [];
  nebula_cert = [];
  nebula_key = [];
  nebula_ip = none;
  agent_token = [];
  enrollment_token = none;
  enrollment_expires_at = none;
  agent_real_ip = none;
  node_type = codes "node";
  dns_name = none;
  status = online;
  last_seen_at = some 900;
  peers_direct = none;
  peers_relayed = none;
  peers_reported_at = none;
  peer_state = none;
  agent_version = none;
  client_type = none;
}

-- The agent, seen 100 seconds ago, and the node that asks.
abbrev agent : Row
agent = record fresh {
  id = codes "n1";
  nebula_ip = some (codes "10.42.1.2/24");
  last_seen_at = some 900;
}

lease_served_example :
    contains
      (or_empty (
        lookup (peer_ip agent) (
          peer_endpoints some
            (λ _. [])
            (codes "n2")
            1000
            7
            (keep_endpoints 5
              (codes "n1")
              (
                (report (some mapped) (public ∷ (local ∷ []))).0,
                map pos (report (some mapped) (public ∷ (local ∷ []))).1,
              )
              [])
            (fresh ∷ agent ∷ [])
            [])))
      public
    ≡ (ltb 1000 (900 + 600)
        && (known [] public
            || (contains (public ∷ (local ∷ [])) public
                && (leb 7 (5 + 1200 * second / second / 2 * second)
                    && leb 7 (5 + self_endpoint_hint_ttl)))))
unfolding peer_ip trim_suffix has_suffix bytes_eq
lease_served_example =
    lease_served some mapped public public (local ∷ []) [] (λ _. []) (codes "n2") 1000 5 7 900 agent
      (fresh ∷ []) [] refl (omega arith) (refl, (refl, tt)) refl refl refl (refl, tt) tt

abbrev silent : Row
silent = record fresh { id = codes "n1"; last_seen_at = some 100 }

sweep_finds_shown_example :
    stale_online_nodes (1000 - node_stale_threshold) (silent ∷ (fresh ∷ []))
    ≡ ids_where (shown_stale 1000) (silent ∷ (fresh ∷ []))
sweep_finds_shown_example =
    sweep_finds_shown 1000 (silent ∷ (fresh ∷ [])) (omega arith)
      ((λ h. ground (arith, h)), ((λ h. ground (arith, h)), tt))
