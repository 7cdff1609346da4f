-- ===== src/Tests/Nodes.antt =====
-- The node store and the status sweeper.
use hopssh.Base.{
  ◌≢◌, ℕ, ◌+◌, ◌-◌, ◌*◌, ◌/◌, ◌%◌, ◌≡◌, refl, ap, true, false, Option, none, some, [], ◌∷◌, ◌++◌,
  arith,
}
use hopssh.Base.Text.{Bytes, codes, bytes_eq, contains}
use hopssh.Base.Int.{ℤ, pos}
use hopssh.Base.Dict.{lookup}
use hopssh.Portmap.Wire.{Ipv4}
use hopssh.Pki.Distinct.{node_address_lem}
use hopssh.Pki.{Prefix, v4_prefix, v6_prefix}
use hopssh.Db.Nodes.{Row, online, offline, find_node}
use hopssh.Db.DeviceCodes.{commits}
use hopssh.Db.Nodes.{find_token, update_where, ok}
use hopssh.Db.Nodes.Updates.{claim_enrollment_token, claimed}
use hopssh.Db.Nodes.Updates.Token.{claim_token_once}
use hopssh.Db.Nodes.Heartbeats.{
  Beat, Buffer, empty_beat, heartbeat_node, write_beat, flush_heartbeats, record_heartbeat,
  record_proxy_activity,
}
use hopssh.Db.Nodes.Flush.{record_all, flush_last_report, proxy_activity_discards}
use hopssh.Db.Nodes.Index.{
  node_ips, next_node_index, parse_last_octet, cut_slash, split_dots, index_after, max_octet,
}
use hopssh.Db.Nodes.Index.Fresh.{IsDotted, fresh_address}
use hopssh.Db.Nodes.Sweep.{sweep_loop, stale_online_nodes}
use hopssh.Db.Nodes.Sweep.Log.{sweep_overwrites}

abbrev node : Row
node = record {
  id = codes "n1";
  network_id = codes "net";
  hostname = codes "box";
  os = codes "linux";
  arch = codes "arm64";
  nebula_cert = [];
  nebula_key = [];
  nebula_ip = some (codes "010.042.001.002/024");
  agent_token = codes "t";
  enrollment_token = none;
  enrollment_expires_at = none;
  agent_real_ip = some (codes "203.0.113.9");
  node_type = codes "node";
  dns_name = none;
  status = online;
  last_seen_at = some 100;
  peers_direct = none;
  peers_relayed = none;
  peers_reported_at = none;
  peer_state = none;
  agent_version = none;
  client_type = none;
}

abbrev beat : Beat
beat = record empty_beat { ip = codes "198.51.100.7"; peers_direct = some 3 }

abbrev later : Beat
later = record empty_beat { ip = codes "198.51.100.8" }

abbrev buffer : Buffer
buffer = record { heartbeats = []; last_proxy = [] }

flush_last_report_example :
    find_node
      (codes "n1")
      (flush_heartbeats true 500
        (record_all ((codes "n1", beat) ∷ (codes "n1", later) ∷ []) buffer)
        (node ∷ [])).1
    ≡ some (heartbeat_node 500 later node)
unfolding find_node heartbeat_node bytes_eq
flush_last_report_example =
    flush_last_report 500 (codes "n1") ((codes "n1", beat) ∷ (codes "n1", later) ∷ []) buffer
      (node ∷ []) refl

proxy_activity_discards_example :
    find_node
      (codes "n1")
      (flush_heartbeats true 500
        (record_proxy_activity 1 (codes "n1") (record_heartbeat (codes "n1") beat buffer))
        (node ∷ [])).1
    ≡ some (heartbeat_node 500 empty_beat node)
unfolding find_node lookup bytes_eq
proxy_activity_discards_example =
    proxy_activity_discards 500 1 (codes "n1") beat buffer (node ∷ []) tt refl

-- Three decimal digits.
abbrev dec : ℕ → Bytes
dec n = (48 + n / 100) ∷ ((48 + n / 10 % 10) ∷ ((48 + n % 10) ∷ []))

abbrev atoi : Bytes → ℤ
atoi (a ∷ b ∷ c ∷ []) = pos ((a - 48) * 100 + ((b - 48) * 10 + (c - 48)))
atoi _ = pos 0

abbrev show : Prefix → Bytes
show (v4_prefix ip len) =
    (dec ip.a ++ (b'.' ∷ (dec ip.b ++ (b'.' ∷ (dec ip.c ++ (b'.' ∷ dec ip.d))))))
    ++ (b'/' ∷ dec len)
show v6_prefix = codes "::/0"

decimals : IsDotted atoi dec show
decimals = record {
  dotted = λ ip len. refl;
  no_dot = λ n h. ground (arith, h);
  no_slash = λ n h. ground (arith, h);
  reads_back = λ n h. ap pos (omega (arith, h));
}

abbrev subnet : Ipv4
subnet = record { a = 10; b = 42; c = 1; d = 0 }

abbrev parse : Bytes → Option Prefix
parse _ = some (v4_prefix subnet 24)

fresh_address_example :
    contains (node_ips (codes "net") (node ∷ [])) (show (v4_prefix (record subnet { d = 3 }) 24))
    ≡ false
unfolding bytes_eq next_node_index index_after max_octet parse_last_octet cut_slash split_dots
    node_ips
fresh_address_example =
    fresh_address atoi dec show parse (codes "10.42.1.0/24") subnet 24 (codes "net") (node ∷ []) 1
      (v4_prefix (record subnet { d = 3 }) 24) decimals refl (omega arith, omega arith, omega arith)
      refl (node_address_lem parse (codes "10.42.1.0/24") subnet 24 refl 1)

sweep_overwrites_example :
    find_node
      (codes "n1")
      (sweep_loop
        (λ _. true)
        (stale_online_nodes 400 (node ∷ []))
        (record { last_logged = []; events = [] }, write_beat 500 (codes "n1") beat (node ∷ []))).1
    ≡ some (record (heartbeat_node 500 beat node) { status = offline })
unfolding find_node stale_online_nodes bytes_eq contains
sweep_overwrites_example =
    sweep_overwrites (codes "n1") (λ _. true) 400 500 beat
      (record { last_logged = []; events = [] }) (node ∷ []) node refl refl refl

abbrev waiting : Row
waiting = record node { enrollment_token = some (1 ∷ codes "tok") }

token_claimed :
    (claim_enrollment_token (λ c. 1 ∷ c) some commits 10 (codes "tok") (waiting ∷ [])).1
    ≡ ok (some (claimed waiting (codes "t")))
unfolding claim_enrollment_token find_token update_where bytes_eq
token_claimed = refl

claim_token_once_example :
    (claim_enrollment_token
      (λ c. 1 ∷ c)
      some
      commits
      20
      (codes "tok")
      (claim_enrollment_token (λ c. 1 ∷ c) some commits 10 (codes "tok") (waiting ∷ [])).0).1
    ≢ ok (some (claimed waiting (codes "t")))
unfolding bytes_eq
claim_token_once_example =
    claim_token_once (λ c. 1 ∷ c) some commits commits 10 20 (codes "tok") (waiting ∷ [])
      (claimed waiting (codes "t")) (claimed waiting (codes "t")) (omega arith) token_claimed
