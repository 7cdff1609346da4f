-- ===== src/Db/Nodes/Sweep.antt =====
-- The transitions of a node between online and offline, and how they are logged
-- (internal/db/nodes.go: StatusTransition, MarkOfflineOnStale; internal/db/status_sweeper.go).
pub mod Log
use hopssh.Base.{
  ℕ, zero, suc, ◌+◌, ◌-◌, ◌*◌, ◌/◌, ◌%◌, ◌≤◌, ◌<◌, ◌≡◌, refl, sym, ap, ◌∙◌, ◌≢◌, ◌↔◌, ◌⊎◌, inl, inr,
  Bool, true, false, not, ◌&&◌, ◌||◌, Option, none, some, List, [], ◌∷◌, ◌++◌, map, arith, ltb, leb,
  ◌==◌, if◌then◌else◌, ltb→lt, lt→ltb, leb→le, ==_iff, Bool-cases, Option-cases, length, get_or,
  take, drop, drop_last, replicate, All, length-append, drop_last-append,
}
use hopssh.Base.Int.{ℤ, pos}
use hopssh.Base.Text.{Bytes, codes, is_empty, bytes_eq, bytes_eq_iff, bytes_eq_refl, contains}
use hopssh.Base.Dict.{lookup, insert}
use hopssh.Db.Nodes.{Row, Status, pending, enrolled, online, offline, update_where}

abbrev pub same_status : Status → Status → Bool
same_status pending pending = true
same_status enrolled enrolled = true
same_status online online = true
same_status offline offline = true
same_status _ _ = false

-- `lastLoggedStatus`, and the rows of network_events about a status, the newest first.
pub record Tracker : Type 0 where
  pub last_logged : List (Bytes × Status)
  pub events : List (Bytes × Status)

abbrev pub unchanged : Option Status → Status → Bool
unchanged none st = false
unchanged (some prev) st = same_status prev st

-- sync.Map.LoadOrStore: the map afterwards, and the value that was loaded.
abbrev pub load_or_store :
    Bytes → Status → List (Bytes × Status) → List (Bytes × Status) × Option Status
load_or_store id st m = elim (lookup id m) [
  | none ↦ (insert id st m, none)
  | some prev ↦ (m, some prev)
]

-- What `StatusTransition` does with what it loaded: the tracker afterwards, and whether it is a
-- change.
abbrev pub after_load : Bytes → Status → Option Status → Tracker → Tracker × Bool
after_load id st none t = (t, true)
after_load id st (some prev) t =
    if same_status prev st
    then (t, false)
    else (record t { last_logged = insert id st t.last_logged }, true)

-- `StatusTransition`, without another call between its load and its store.
status_transition : Bytes → Status → Tracker → Tracker × Bool
status_transition id st t =
    let (m, prev) = load_or_store id st t.last_logged in
    after_load id st prev (record t { last_logged = m })

-- A caller that records the transition in the event log, as the heartbeat and the sweep do, without
-- another call between the two.
pub observe : Bytes → Status → Tracker → Tracker
unfolding status_transition
observe id st t =
    let (t', changed) = status_transition id st t in
    if changed then record t' { events = (id, st) ∷ t'.events } else t'

-- `MarkOfflineOnStale` with its event; `works` is the update of the row.
pub mark_offline : Bool → Bytes → Tracker × List Row → Tracker × List Row
mark_offline works id (t, rows) =
    if works
    then (
      observe id offline t,
      (update_where (λ r. bytes_eq r.id id) (λ r. record r { status = offline }) rows).0,
    )
    else (t, rows)

abbrev seen_before : ℕ → Option ℕ → Bool
seen_before cutoff none = true
seen_before cutoff (some t) = ltb t cutoff

-- `status = 'online' AND node_type != 'lighthouse' AND (last_seen_at IS NULL OR last_seen_at < ?)`
abbrev pub is_stale : ℕ → Row → Bool
is_stale cutoff r =
    same_status r.status online
    && (not (bytes_eq r.node_type (codes "lighthouse")) && seen_before cutoff r.last_seen_at)

-- `StaleOnlineNodes`
unfoldable pub stale_online_nodes : ℕ → List Row → List Bytes
stale_online_nodes cutoff [] = []
stale_online_nodes cutoff (r ∷ rs) =
    let rest = stale_online_nodes cutoff rs in if is_stale cutoff r then r.id ∷ rest else rest

-- The loop of `runStatusSweep` over the nodes that the scan found; `works` is per node.
pub sweep_loop : (Bytes → Bool) → List Bytes → Tracker × List Row → Tracker × List Row
sweep_loop works [] s = s
sweep_loop works (id ∷ ids) s = sweep_loop works ids (mark_offline (works id) id s)

-- The conditions of the prune: `status = 'offline' AND last_seen_at < ?`.
abbrev is_prunable : ℕ → Row → Bool
is_prunable cutoff r = same_status r.status offline && seen r.last_seen_at
  where
    seen : Option ℕ → Bool
    seen none = false
    seen (some t) = ltb t cutoff

-- `PruneOfflineSinceAllNetworks`: the rows left and the number of those deleted.
unfoldable prune_offline_since_all : ℕ → List Row → List Row × ℕ
prune_offline_since_all cutoff [] = ([], 0)
prune_offline_since_all cutoff (r ∷ rs) =
    let (rest, n) = prune_offline_since_all cutoff rs in
    if is_prunable cutoff r then (rest, n + 1) else (r ∷ rest, n)

-- `pruneAgeDuration` in hours: the environment variable, if it is set, as strconv.Atoi reads it.
unfoldable prune_age_hours : Option (Option ℤ) → ℤ
prune_age_hours none = pos (24 * 7)
prune_age_hours (some none) = pos (24 * 7)
prune_age_hours (some (some n)) = n
