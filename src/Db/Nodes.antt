-- ===== src/Db/Nodes.antt =====
-- The node store (internal/db/nodes.go). The table is a list of rows, each query is its SQL
-- (internal/db/queries/nodes.sql) with the UNIQUE columns of the schema. `hash` is the hex of
-- SHA-256, `encrypt` and `decrypt` are those of internal/crypto; times are in seconds. Capabilities,
-- routes and exposed ports are not kept.
pub mod Index
pub mod Updates
pub mod Heartbeats
pub mod Flush
pub mod Sweep
use hopssh.Base.{
  ℕ, zero, suc, ◌+◌, ◌-◌, ◌*◌, ◌/◌, ◌%◌, ◌≤◌, ◌<◌, ◌≡◌, refl, sym, ap, ◌∙◌, ◌≢◌, ◌↔◌, ◌⊎◌, inl, inr,
  Bool, true, false, not, ◌&&◌, ◌||◌, Option, none, some, List, [], ◌∷◌, ◌++◌, map, arith, ltb, leb,
  ◌==◌, if◌then◌else◌, ltb→lt, lt→ltb, leb→le, ==_iff, Bool-cases, Option-cases, length, get_or,
  take, drop, drop_last, replicate, All, length-append, drop_last-append,
}
use hopssh.Base.Text.{Bytes, codes, is_empty, bytes_eq, bytes_eq_iff, bytes_eq_refl, contains}
use hopssh.Base.Int.{ℤ, pos, negsuc, pos_part}
use hopssh.Db.DeviceCodes.{
  Transaction, begin_fails, select_fails, update_fails, commit_fails, commits,
}

pub data Status : Type 0 where
  pending enrolled online offline : Status

-- A row of the table.
pub record Row : Type 0 where
  pub id : Bytes
  pub network_id : Bytes
  pub hostname : Bytes
  pub os : Bytes
  pub arch : Bytes
  pub nebula_cert : Bytes
  pub nebula_key : Bytes
  pub nebula_ip : Option Bytes
  pub agent_token : Bytes
  pub enrollment_token : Option Bytes
  pub enrollment_expires_at : Option ℕ
  pub agent_real_ip : Option Bytes
  pub node_type : Bytes
  pub dns_name : Option Bytes
  pub status : Status
  pub last_seen_at : Option ℕ
  pub peers_direct : Option ℕ
  pub peers_relayed : Option ℕ
  pub peers_reported_at : Option ℕ
  pub peer_state : Option Bytes
  pub agent_version : Option Bytes
  pub client_type : Option Bytes

-- The fields of `Node` that `Create` reads, in plain text.
pub record NewNode : Type 0 where
  pub id : Bytes
  pub network_id : Bytes
  pub hostname : Bytes
  pub os : Bytes
  pub arch : Bytes
  pub nebula_cert : Bytes
  pub nebula_key : Bytes
  pub nebula_ip : Bytes
  pub agent_token : Bytes
  pub enrollment_token : Option Bytes
  pub enrollment_expires_at : Option ℕ
  pub node_type : Bytes
  pub dns_name : Option Bytes
  pub status : Status

pub data Error : Type 0 where
  sql_error unique_violation crypto_error : Error

pub data Result {ℓ} (A : Type ℓ) : Type ℓ where
  ok : A → Result A
  err : Error → Result A

-- An UPDATE of the rows that pass the test, with their number.
unfoldable pub update_where : (Row → Bool) → (Row → Row) → List Row → List Row × ℕ
update_where test change [] = ([], 0)
update_where test change (r ∷ rs) =
    let (rs', n) = update_where test change rs in
    if test r then (change r ∷ rs', n + 1) else (r ∷ rs', n)

abbrev pub same_option : Option Bytes → Option Bytes → Bool
same_option none _ = false
same_option (some a) none = false
same_option (some a) (some b) = bytes_eq a b

-- Whether a row takes a value that must be unique; NULL differs from NULL.
abbrev pub clashes : Row → Row → Bool
clashes r new =
    bytes_eq r.id new.id
    || (same_option r.enrollment_token new.enrollment_token
        || (bytes_eq r.network_id new.network_id && same_option r.nebula_ip new.nebula_ip))

unfoldable pub any_clash : Row → List Row → Bool
any_clash new [] = false
any_clash new (r ∷ rs) = clashes r new || any_clash new rs

abbrev pub null_if_empty : Bytes → Option Bytes
null_if_empty [] = none
null_if_empty (c ∷ cs) = some (c ∷ cs)

abbrev pub or_agent : Bytes → Bytes
or_agent [] = codes "agent"
or_agent (c ∷ cs) = c ∷ cs

abbrev pub hash_token : (Bytes → Bytes) → Option Bytes → Option Bytes
hash_token hash none = none
hash_token hash (some token) = some (hash token)

-- The row that `Create` inserts, with its encrypted key and token.
abbrev pub inserted : (Bytes → Bytes) → NewNode → Bytes → Bytes → Row
inserted hash n key token = record {
  id = n.id;
  network_id = n.network_id;
  hostname = n.hostname;
  os = n.os;
  arch = n.arch;
  nebula_cert = n.nebula_cert;
  nebula_key = key;
  nebula_ip = null_if_empty n.nebula_ip;
  agent_token = token;
  enrollment_token = hash_token hash n.enrollment_token;
  enrollment_expires_at = n.enrollment_expires_at;
  agent_real_ip = none;
  node_type = or_agent n.node_type;
  dns_name = n.dns_name;
  status = n.status;
  last_seen_at = none;
  peers_direct = none;
  peers_relayed = none;
  peers_reported_at = none;
  peer_state = none;
  agent_version = none;
  client_type = none;
}

abbrev pub encrypt_key : (Bytes → Option Bytes) → Bytes → Option Bytes
encrypt_key encrypt [] = some []
encrypt_key encrypt (c ∷ cs) = encrypt (c ∷ cs)

unfoldable pub create :
    (Bytes → Bytes) → (Bytes → Option Bytes) → Bool → NewNode → List Row → List Row × Option Error
create hash encrypt works n rows = elim (encrypt_key encrypt n.nebula_key) [
  | none ↦ (rows, some crypto_error)
  | some key ↦ elim (encrypt n.agent_token) [
    | none ↦ (rows, some crypto_error)
    | some token ↦
        if not works
        then (rows, some sql_error)
        else if any_clash (inserted hash n key token) rows
        then (rows, some unique_violation)
        else (rows ++ inserted hash n key token ∷ [], none)
  ]
]

unfoldable pub find_node : Bytes → List Row → Option Row
find_node id [] = none
find_node id (r ∷ rs) = if bytes_eq r.id id then some r else find_node id rs

-- `WHERE enrollment_token = ? AND (enrollment_expires_at IS NULL OR enrollment_expires_at > ?)`
abbrev pub claimable : Bytes → ℕ → Row → Bool
claimable h now r = same_option r.enrollment_token (some h) && unexpired r.enrollment_expires_at
  where
    unexpired : Option ℕ → Bool
    unexpired none = true
    unexpired (some t) = ltb now t

unfoldable pub find_token : Bytes → ℕ → List Row → Option Row
find_token h now [] = none
find_token h now (r ∷ rs) = if claimable h now r then some r else find_token h now rs
