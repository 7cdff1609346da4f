-- ===== src/Api/Status.antt =====
-- The status of a node as it is shown (internal/api/types.go: effectiveStatus, isDegraded,
-- countPotentialPeers, deriveConnectivity). Times are in seconds.
pub mod Swept
use hopssh.Base.{
  ℕ, zero, suc, ◌+◌, ◌-◌, ◌*◌, ◌/◌, ◌%◌, ◌≤◌, ◌<◌, ◌≡◌, refl, sym, ap, ◌∙◌, ◌≢◌, ◌↔◌, ◌⊎◌, inl, inr,
  Bool, true, false, not, ◌&&◌, ◌||◌, Option, none, some, List, [], ◌∷◌, ◌++◌, map, arith, ltb, leb,
  ◌==◌, if◌then◌else◌, ltb→lt, lt→ltb, leb→le, ==_iff, Bool-cases, Option-cases, length, get_or,
  take, drop, drop_last, replicate, All, length-append, drop_last-append,
}
use hopssh.Base.Text.{Bytes, codes, is_empty, bytes_eq, bytes_eq_iff, bytes_eq_refl, contains}
use hopssh.Db.Nodes.{Row, Status, online, offline}
use hopssh.Db.Nodes.Sweep.{same_status}

-- 3 minutes.
abbrev pub node_stale_threshold : ℕ
node_stale_threshold = 180

-- 5 minutes.
abbrev node_degraded_grace_seconds : ℕ
node_degraded_grace_seconds = 300

-- 2 minutes.
abbrev node_degraded_peers_stale_seconds : ℕ
node_degraded_peers_stale_seconds = 120

abbrev pub is_lighthouse : Bytes → Bool
is_lighthouse node_type = bytes_eq node_type (codes "lighthouse")

pub effective_status : ℕ → Status → Option ℕ → Status
effective_status now status none = status
effective_status now status (some t) =
    if same_status status online && ltb (t + node_stale_threshold) now then offline else status

abbrev count_of : Option ℕ → ℕ
count_of none = 0
count_of (some n) = n

abbrev is_recent : ℕ → Option ℕ → Bool
is_recent now none = false
is_recent now (some t) = not (ltb (t + node_degraded_peers_stale_seconds) now)

-- `isDegraded` of a row, created at `created`, with the shown status and the number of its peers.
unfoldable is_degraded : ℕ → Status → ℕ → Row → ℕ → Bool
is_degraded now status created r peers_in_network =
    same_status status online
    && (not (is_lighthouse r.node_type)
        && (not (ltb peers_in_network 1)
            && (not (ltb now (created + node_degraded_grace_seconds))
                && (is_recent now r.peers_reported_at
                    && (count_of r.peers_direct == 0 && count_of r.peers_relayed == 0)))))

abbrev is_potential : ℕ → Bytes → Row → Bool
is_potential now exclude r =
    not (bytes_eq r.id exclude)
    && (not (is_lighthouse r.node_type)
        && same_status (effective_status now r.status r.last_seen_at) online)

unfoldable count_potential_peers : ℕ → List Row → Bytes → ℕ
unfolding effective_status
count_potential_peers now [] exclude = 0
count_potential_peers now (r ∷ rs) exclude =
    let count = count_potential_peers now rs exclude in
    if is_potential now exclude r then count + 1 else count

pub data Connectivity : Type 0 where
  unknown idle direct relayed mixed : Connectivity

abbrev both_missing : Option ℕ → Option ℕ → Bool
both_missing none none = true
both_missing _ _ = false

derive_connectivity : Option ℕ → Option ℕ → Bytes → Connectivity
derive_connectivity peers_direct peers_relayed node_type =
    if is_lighthouse node_type || both_missing peers_direct peers_relayed
    then unknown
    else if count_of peers_direct == 0 && count_of peers_relayed == 0
    then idle
    else if count_of peers_relayed == 0
    then direct
    else if count_of peers_direct == 0
    then relayed
    else mixed
