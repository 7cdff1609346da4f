-- ===== src/Db/Nodes/Sweep/Log.antt =====
-- What the event log says of a node.
use hopssh.Base.{
  ℕ, ◌≡◌, refl, ap, ◌∙◌, Bool, true, false, ◌&&◌, ◌||◌, Option, none, some, List, [], ◌∷◌, arith,
  if◌then◌else◌,
}
use hopssh.Base.Text.{Bytes, bytes_eq, bytes_eq_iff, bytes_eq_refl, contains}
use hopssh.Base.Dict.{lookup}
use hopssh.Db.Nodes.{Row, Status, online, offline, update_where, find_node}
use hopssh.Db.Nodes.Heartbeats.{Beat, heartbeat_node, write_beat, write_batch}
use hopssh.Db.Nodes.Flush.{find_node-write_beat}
use hopssh.Db.Nodes.Sweep.{
  Tracker, same_status, observe, mark_offline, stale_online_nodes, sweep_loop,
}

-- The statuses that the log has for a node, the newest first.
pub history : Bytes → List (Bytes × Status) → List Status
history id [] = []
history id ((j, st) ∷ es) = let rest = history id es in if bytes_eq j id then st ∷ rest else rest

-- No status follows itself.
abbrev pub Alternates : List Status → Type 0
Alternates [] = Unit
Alternates (a ∷ []) = Unit
Alternates (a ∷ (b ∷ more)) = (same_status b a ≡ false) × Alternates (b ∷ more)

abbrev newest : List Status → Option Status
newest [] = none
newest (a ∷ more) = some a

-- The tracker holds the newest status that the log has.
abbrev IsTracking : Bytes → Tracker → Type 0
IsTracking id t =
    (lookup id t.last_logged ≡ newest (history id t.events)) × Alternates (history id t.events)

-- What reaches the tracker or the table: a heartbeat that is handled, a flush of buffered
-- heartbeats with its time, or a sweep with its cutoff and the nodes whose update works.
pub data Change : Type 0 where
  heartbeat : Bytes → Change
  flush : ℕ → List (Bytes × Beat) → Change
  sweep : (Bytes → Bool) → ℕ → Change

pub run_changes : List Change → Tracker × List Row → Tracker × List Row
run_changes [] s = s
run_changes (heartbeat id ∷ cs) (t, rows) = run_changes cs (observe id online t, rows)
run_changes (flush now batch ∷ cs) (t, rows) = run_changes cs (t, write_batch now batch rows)
run_changes (sweep works cutoff ∷ cs) (t, rows) =
    run_changes cs (sweep_loop works (stale_online_nodes cutoff rows) (t, rows))

abbrev offline_if : Bool → Option Row → Option Row
offline_if b none = none
offline_if b (some r) = some (if b then record r { status = offline } else r)

find_node-mark_offline :
    (id j : Bytes) (works : Bool) (t : Tracker) (rows : List Row)
    → find_node id (mark_offline works j (t, rows)).1
      ≡ offline_if (works && bytes_eq j id) (find_node id rows)
unfolding mark_offline find_node update_where
find_node-mark_offline id j works t [] = ground arith
find_node-mark_offline id j works t (r ∷ rs) = ground (
  arith,
  find_node-mark_offline id j works t rs,
  bytes_eq_iff r.id j,
  bytes_eq_iff r.id id,
  bytes_eq_iff j id,
)

offline_twice :
    (a b : Bool) (o : Option Row) → offline_if a (offline_if b o) ≡ offline_if (b || a) o
offline_twice a b none = refl
offline_twice a b (some r) = ground arith

find_node-sweep_loop :
    (id : Bytes) (works : Bytes → Bool) (ids : List Bytes) (s : Tracker × List Row)
    → find_node id (sweep_loop works ids s).1
      ≡ offline_if (contains ids id && works id) (find_node id s.1)
unfolding sweep_loop contains
find_node-sweep_loop id works [] (t, rows) = same (find_node id rows)
  where
    same : (o : Option Row) → o ≡ offline_if false o
    same none = refl
    same (some r) = refl
find_node-sweep_loop id works (j ∷ ids) (t, rows) =
    find_node-sweep_loop id works ids (mark_offline (works j) j (t, rows))
    ∙ (rw (find_node-mark_offline id j (works j) t rows) (offline_twice _ _ (find_node id rows))
        ∙ ap (λ x. offline_if x (find_node id rows)) joined)
  where
    joined :
        ((works j && bytes_eq j id) || (contains ids id && works id))
        ≡ ((bytes_eq j id || contains ids id) && works id)
    joined = ground (arith, bytes_eq_iff j id)

-- If a node was stale in the scan of a sweep and its heartbeat is written before the update of the
-- sweep, which works, the node is offline afterwards, with the values and the time of the new
-- heartbeat.
pub sweep_overwrites :
    (id : Bytes) (works : Bytes → Bool) (cutoff now : ℕ) (b : Beat) (t : Tracker) (rows : List Row)
    (r : Row)
    → find_node id rows ≡ some r
    → contains (stale_online_nodes cutoff rows) id ≡ true
    → works id ≡ true
    → find_node id
        (sweep_loop works (stale_online_nodes cutoff rows) (t, write_beat now id b rows)).1
      ≡ some (record (heartbeat_node now b r) { status = offline })
sweep_overwrites id works cutoff now b t rows r f c w =
    find_node-sweep_loop id works (stale_online_nodes cutoff rows) (t, write_beat now id b rows)
    ∙ rw (c, w, find_node-write_beat now id id b rows, bytes_eq_refl id, f) refl
