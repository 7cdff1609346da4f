-- ===== src/Api/Device.antt =====
-- The device flow (internal/api/device.go): RequestCode, Authorize and Poll as compositions of the
-- stores. What is drawn at random, the clock, the drivers and the certificates come with a request.
pub mod Authorize
pub mod Outcome
pub mod Keeps
pub mod Once
pub mod Members
use hopssh.Base.{
  ℕ, zero, suc, ◌+◌, ◌-◌, ◌*◌, ◌/◌, ◌%◌, ◌≤◌, ◌<◌, ◌≡◌, refl, sym, ap, ◌∙◌, ◌≢◌, ◌↔◌, ◌⊎◌, inl, inr,
  Bool, true, false, not, ◌&&◌, ◌||◌, Option, none, some, List, [], ◌∷◌, ◌++◌, map, arith, ltb, leb,
  ◌==◌, if◌then◌else◌, ltb→lt, lt→ltb, leb→le, ==_iff, Bool-cases, Option-cases, length, get_or,
  take, drop, drop_last, replicate, All, length-append, drop_last-append,
}
use hopssh.Base.Text.{Bytes, codes, is_empty, bytes_eq, bytes_eq_iff, bytes_eq_refl, contains}
use hopssh.Base.Int.{ℤ, pos}
use hopssh.Auth.Access.{UserProfile, Network, NetworkMember, can_enroll_node}
use hopssh.Registry.Name.{ca_fingerprint}
use hopssh.Pki
use hopssh.Pki.{Prefix, node_address}
use hopssh.Db.DeviceCodes
use hopssh.Db.DeviceCodes.{DeviceCode, Transaction, is_pending}
use hopssh.Db.Nodes
use hopssh.Db.Nodes.{Row, NewNode}
use hopssh.Db.Nodes.Index.{next_node_index}
use hopssh.Db.Nodes.Updates.{complete_enrollment, update_dns_name, update_agent_real_ip}
use hopssh.Api.DnsName.{sanitize_dns_name}

pub record NetworkRow : Type 0 where
  pub id : Bytes
  pub owner : Bytes
  pub nebula_subnet : Bytes
  pub nebula_ca_cert : Bytes

-- The libraries, and the tables that the device flow only reads.
pub record Services : Type 0 where
  pub hash : Bytes → Bytes
  pub sha256 : Bytes → Bytes
  pub upper : Bytes → Bytes
  pub lower : Bytes → Bytes
  pub encrypt : Bytes → Option Bytes
  pub atoi : Bytes → ℤ
  pub show : Prefix → Bytes
  pub parse : Bytes → Option Prefix
  pub networks : Bytes → Option NetworkRow
  pub membership : Bytes → Bytes → Option NetworkMember

pub record State : Type 0 where
  pub device_codes : List DeviceCode
  pub nodes : List Row

-- The body of a poll with what happens to it on the way: the clock at the first test and at the
-- claim, the outcomes of the drivers, the drawn node id and token, and the issued certificate.
pub record PollRequest : Type 0 where
  pub device_code : Bytes
  pub hostname : Bytes
  pub os : Bytes
  pub arch : Bytes
  pub existing_network_cas : List Bytes
  pub agent_ip : Bytes
  pub now : ℕ
  pub claim_now : ℕ
  pub code_read : Bool
  pub claim : Transaction
  pub index_read : Bool
  pub node_id : Bytes
  pub agent_token : Bytes
  pub node_write : Bool
  pub cert : Option (Bytes × Bytes)
  pub complete_write : Bool
  pub dns_write : Bool
  pub code_write : Bool
  pub ip_write : Bool

-- `enrolled` has the id of the node and of its network.
pub data Response : Type 0 where
  bad_request expired_token authorization_pending already_completed server_error conflict panics :
      Response
  enrolled : Bytes → Bytes → Response

-- The node that `Poll` creates.
abbrev pub polled_node : PollRequest → Bytes → Bytes → NewNode
polled_node q network ip = record {
  id = q.node_id;
  network_id = network;
  hostname = [];
  os = [];
  arch = [];
  nebula_cert = [];
  nebula_key = [];
  nebula_ip = ip;
  agent_token = q.agent_token;
  enrollment_token = none;
  enrollment_expires_at = none;
  node_type = codes "node";
  dns_name = none;
  status = Nodes.Status.pending;
}

-- The updates after the enrollment; their errors are dropped.
pub finish : Services → PollRequest → DeviceCode → State → State
finish e q dc s = record {
  device_codes =
      (DeviceCodes.set_node_id e.hash q.code_write dc.device_code q.node_id s.device_codes).0;
  nodes =
      (update_agent_real_ip q.ip_write q.node_id q.agent_ip
        (update_dns_name q.dns_write q.node_id (sanitize_dns_name e.lower q.hostname) s.nodes).0).0;
}

-- The certificate and the end of the enrollment, for a node that was created.
pub issue : Services → PollRequest → DeviceCode → Bytes → State → State × Response
unfolding finish
issue e q dc network s = elim q.cert [
  | none ↦ (s, server_error)
  | some (cert, key) ↦
      let (rows, failure) =
        complete_enrollment e.encrypt q.complete_write q.node_id cert key (q.hostname, q.os, q.arch)
          s.nodes in
      elim failure [
        | some _ ↦ (record s { nodes = rows }, server_error)
        | none ↦ (finish e q dc (record s { nodes = rows }), enrolled q.node_id network)
      ]
]

pub create_node : Services → PollRequest → DeviceCode → Bytes → Prefix → State → State × Response
unfolding issue
create_node e q dc network ip s =
    let (rows, failure) =
      Nodes.create e.hash e.encrypt q.node_write (polled_node q network (e.show ip)) s.nodes in
    elim failure [
      | some _ ↦ (record s { nodes = rows }, server_error)
      | none ↦ issue e q dc network (record s { nodes = rows })
    ]

pub allocate : Services → PollRequest → DeviceCode → NetworkRow → Bytes → State → State × Response
unfolding create_node
allocate e q dc n network s = elim (next_node_index e.atoi q.index_read network s.nodes) [
  | none ↦ (s, server_error)
  | some i ↦ elim (node_address e.parse n.nebula_subnet (pos i)) [
    | Pki.ok ip ↦ create_node e q dc network ip s
    | _ ↦ (s, server_error)
  ]
]

-- Behind the claim.
pub enroll : Services → PollRequest → DeviceCode → State → State × Response
unfolding allocate
enroll e q dc s = elim dc.network_id [
  | none ↦ (s, panics)
  | some network ↦ elim (e.networks network) [
    | none ↦ (s, server_error)
    | some n ↦
        if contains q.existing_network_cas (ca_fingerprint e.sha256 n.nebula_ca_cert)
        then (s, conflict)
        else allocate e q dc n network s
  ]
]

pub claim_and_enroll : Services → PollRequest → State → State × Response
unfolding enroll
claim_and_enroll e q s =
    let (rows, claimed) =
      DeviceCodes.claim_authorized e.hash q.claim q.claim_now q.device_code s.device_codes in
    elim claimed [
      | DeviceCodes.err _ ↦ (record s { device_codes = rows }, server_error)
      | DeviceCodes.ok none ↦ (record s { device_codes = rows }, authorization_pending)
      | DeviceCodes.ok (some dc) ↦ enroll e q dc (record s { device_codes = rows })
    ]

abbrev pub is_completed : DeviceCodes.Status → Bool
is_completed DeviceCodes.completed = true
is_completed _ = false

pub check_status : Services → PollRequest → DeviceCode → State → State × Response
unfolding claim_and_enroll
check_status e q dc s =
    if ltb dc.expires_at q.now
    then (s, expired_token)
    else if is_pending dc.status
    then (s, authorization_pending)
    else if is_completed dc.status
    then (s, already_completed)
    else claim_and_enroll e q s

-- `Poll`
unfoldable pub poll : Services → PollRequest → State → State × Response
unfolding check_status
poll e q s =
    if is_empty q.device_code
    then (s, bad_request)
    else elim (DeviceCodes.get_by_device_code e.hash q.code_read q.device_code s.device_codes) [
      | DeviceCodes.err _ ↦ (s, bad_request)
      | DeviceCodes.ok none ↦ (s, bad_request)
      | DeviceCodes.ok (some dc) ↦ check_status e q dc s
    ]
