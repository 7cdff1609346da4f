-- ===== src/Db/Nodes/Heartbeats.antt =====
-- Heartbeats are buffered in memory and written in batches (internal/db/nodes.go: RecordHeartbeat,
-- RecordProxyActivity, FlushHeartbeats). Times are in seconds but for the throttle of the proxy,
-- whose clock is in nanoseconds. A flush is one step: no heartbeat arrives while it drains.
use hopssh.Base.{
  ℕ, ◌-◌, Bool, true, false, ◌&&◌, Option, none, some, List, [], ◌∷◌, ltb, if◌then◌else◌,
}
use hopssh.Base.Text.{Bytes, bytes_eq}
use hopssh.Base.Dict.{lookup, insert}
use hopssh.Db.Nodes.{Row, online, update_where}

-- `heartbeatEntry`
pub record Beat : Type 0 where
  pub ip : Bytes
  pub peers_direct : Option ℕ
  pub peers_relayed : Option ℕ
  pub peer_state : Option Bytes
  pub agent_version : Option Bytes

-- `heartbeats` and `lastProxyHeartbeat`
pub record Buffer : Type 0 where
  pub heartbeats : List (Bytes × Beat)
  pub last_proxy : List (Bytes × ℕ)

unfoldable pub record_heartbeat : Bytes → Beat → Buffer → Buffer
record_heartbeat id beat s = record s { heartbeats = insert id beat s.heartbeats }

-- 30 seconds.
abbrev proxy_heartbeat_throttle : ℕ
proxy_heartbeat_throttle = 30000000000

abbrev pub empty_beat : Beat
empty_beat = record {
  ip = [];
  peers_direct = none;
  peers_relayed = none;
  peer_state = none;
  agent_version = none;
}

abbrev pub throttled : ℕ → Option ℕ → Bool
throttled now none = false
throttled now (some last) = ltb (now - last) proxy_heartbeat_throttle

unfoldable pub record_proxy_activity : ℕ → Bytes → Buffer → Buffer
unfolding record_heartbeat
record_proxy_activity now id s =
    if throttled now (lookup id s.last_proxy)
    then s
    else record_heartbeat id empty_beat (record s { last_proxy = insert id now s.last_proxy })

-- `COALESCE(new, old)`
abbrev coalesce {ℓ} : {A : Type ℓ} → Option A → Option A → Option A
coalesce none old = old
coalesce (some a) old = some a

abbrev coalesce_ip : Bytes → Option Bytes → Option Bytes
coalesce_ip [] old = old
coalesce_ip (c ∷ cs) old = some (c ∷ cs)

abbrev is_null {ℓ} : {A : Type ℓ} → Option A → Bool
is_null none = true
is_null (some a) = false

-- What HeartbeatNode makes of a row.
unfoldable pub heartbeat_node : ℕ → Beat → Row → Row
heartbeat_node now b r = record r {
  last_seen_at = some now;
  status = online;
  agent_real_ip = coalesce_ip b.ip r.agent_real_ip;
  peers_direct = coalesce b.peers_direct r.peers_direct;
  peers_relayed = coalesce b.peers_relayed r.peers_relayed;
  peer_state = coalesce b.peer_state r.peer_state;
  agent_version = coalesce b.agent_version r.agent_version;
  peers_reported_at =
      if is_null b.peers_direct && (is_null b.peers_relayed && is_null b.peer_state)
      then r.peers_reported_at
      else some now;
}

abbrev pub write_beat : ℕ → Bytes → Beat → List Row → List Row
write_beat now id b rows = (update_where (λ r. bytes_eq r.id id) (heartbeat_node now b) rows).0

unfoldable pub write_batch : ℕ → List (Bytes × Beat) → List Row → List Row
write_batch now [] rows = rows
write_batch now ((id, b) ∷ batch) rows = write_batch now batch (write_beat now id b rows)

-- `FlushHeartbeats`: the buffer is drained before the transaction; `works` is whether its begin,
-- all its updates and its commit do.
unfoldable pub flush_heartbeats : Bool → ℕ → Buffer → List Row → Buffer × List Row
unfolding write_batch
flush_heartbeats works now s rows =
    (record s { heartbeats = [] }, if works then write_batch now s.heartbeats rows else rows)

-- A batch, row by row: each row meets the one heartbeat that is buffered for it.
abbrev pub beaten : ℕ → Option Beat → Row → Row
beaten now none r = r
beaten now (some b) r = heartbeat_node now b r
