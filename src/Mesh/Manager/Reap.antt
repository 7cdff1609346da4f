-- ===== src/Mesh/Manager/Reap.antt =====
-- Which lighthouses the idle reaper stops (internal/mesh/network_manager.go: reapIdleInstances) and
-- the counts that it asks the node store for (internal/db/nodes.go).
use hopssh.Base.{
  ℕ, suc, ◌-◌, ◌≡◌, refl, inl, inr, Bool, true, false, not, ◌&&◌, ◌||◌, Option, none, some, List,
  [], ◌∷◌, arith, ltb, ◌==◌, if◌then◌else◌, Bool-cases,
}
use hopssh.Base.Text.{Bytes, bytes_eq, bytes_eq_iff, contains}
use hopssh.Base.Dict.{lookup, delete_key, lookup-delete_key, KeysDistinct}
use hopssh.Db.Nodes.{Row}
use hopssh.Db.Nodes
use hopssh.Db.Nodes.Sweep.{same_status}
use hopssh.Mesh.Manager.{Instance, Manager, stop_network}

-- The answers of the store about a network; `none` is an error.
pub record Answers : Type 0 where
  pub non_pending : Option ℕ
  pub total : Option ℕ
  pub last_seen : Option (Option ℕ)

abbrev pub is_of : Bytes → Row → Bool
is_of id r = bytes_eq r.network_id id

abbrev pub is_pending : Row → Bool
is_pending r = same_status r.status Nodes.pending

count_for_network : Bytes → List Row → ℕ
count_for_network id [] = 0
count_for_network id (r ∷ rs) =
    let rest = count_for_network id rs in if is_of id r then suc rest else rest

count_non_pending_for_network : Bytes → List Row → ℕ
count_non_pending_for_network id [] = 0
count_non_pending_for_network id (r ∷ rs) =
    let rest = count_non_pending_for_network id rs in
    if is_of id r && not (is_pending r) then suc rest else rest

abbrev later : Option ℕ → Option ℕ → Option ℕ
later none t = t
later (some s) none = some s
later (some s) (some t) = some (if ltb s t then t else s)

max_last_seen_for_network : Bytes → List Row → Option ℕ
max_last_seen_for_network id [] = none
max_last_seen_for_network id (r ∷ rs) =
    let rest = max_last_seen_for_network id rs in
    if is_of id r && not (is_pending r) then later r.last_seen_at rest else rest

-- What the store answers from a table that it can read.
pub answers_of : List Row → Bytes → Answers
answers_of rows id = record {
  non_pending = some (count_non_pending_for_network id rows);
  total = some (count_for_network id rows);
  last_seen = some (max_last_seen_for_network id rows);
}

abbrev seen_before : ℕ → Option ℕ → Bool
seen_before cutoff none = true
seen_before cutoff (some t) = ltb t cutoff

abbrev without_nodes : Option ℕ → Bool
without_nodes none = false
without_nodes (some total) = total == 0

abbrev is_silent : ℕ → Option (Option ℕ) → Bool
is_silent cutoff none = false
is_silent cutoff (some seen) = seen_before cutoff seen

abbrev idle_by : Option ℕ → Answers → ℕ → Bool
idle_by none a cutoff = false
idle_by (some count) a cutoff =
    if count == 0 then without_nodes a.total else is_silent cutoff a.last_seen

-- Whether the body of the loop stops the network.
is_idle : Answers → ℕ → Bool
is_idle a cutoff = idle_by a.non_pending a cutoff

abbrev prepend_running : Option Instance → Bytes → List Bytes → List Bytes
prepend_running none id ids = ids
prepend_running (some i) id ids = id ∷ ids

candidates : Manager → List Bytes
candidates [] = []
candidates ((id, entry) ∷ m) = prepend_running entry id (candidates m)

reap_loop : (Bytes → Answers) → ℕ → List Bytes → Manager → Manager
reap_loop answers cutoff [] m = m
reap_loop answers cutoff (id ∷ ids) m =
    reap_loop answers cutoff ids (if is_idle (answers id) cutoff then (stop_network id m).0 else m)

-- The times are in seconds; a cutoff below 0 has no earlier time, as the cutoff 0 here.
pub reap_idle_instances : (Bytes → Answers) → ℕ → ℕ → Manager → Manager
reap_idle_instances answers now threshold m = reap_loop answers (now - threshold) (candidates m) m

lookup-reap_loop :
    (answers : Bytes → Answers) (cutoff : ℕ) (ids : List Bytes) (m : Manager) (j : Bytes)
    → lookup j (reap_loop answers cutoff ids m)
      ≡ (if contains ids j && is_idle (answers j) cutoff then none else lookup j m)
unfolding reap_loop contains stop_network
lookup-reap_loop answers cutoff [] m j = refl
lookup-reap_loop answers cutoff (id ∷ ids) m j = elim (Bool-cases (is_idle (answers id) cutoff)) [
  | inl e ↦ rw e (
      ground (
        arith,
        lookup-reap_loop answers cutoff ids (delete_key id m) j,
        lookup-delete_key id j m,
        bytes_eq_iff id j,
        e,
      ))
  | inr n ↦ rw n (ground (arith, lookup-reap_loop answers cutoff ids m j, bytes_eq_iff id j, n))
]

abbrev pub is_running : Option (Option Instance) → Bool
is_running (some (some i)) = true
is_running _ = false

contains-candidates :
    (m : Manager) (j : Bytes) → KeysDistinct m → contains (candidates m) j ≡ is_running (lookup j m)
unfolding candidates contains lookup
contains-candidates [] j d = refl
contains-candidates ((id, none) ∷ m) j d =
    ground (arith, contains-candidates m j d.1, d.0, bytes_eq_iff id j)
contains-candidates ((id, some i) ∷ m) j d =
    ground (arith, contains-candidates m j d.1, bytes_eq_iff id j)

-- Whether every node of the network but the pending ones was last seen before the cutoff, or never.
abbrev pub all_silent : Bytes → ℕ → List Row → Bool
all_silent id cutoff [] = true
all_silent id cutoff (r ∷ rs) =
    (not (is_of id r && not (is_pending r)) || seen_before cutoff r.last_seen_at)
    && all_silent id cutoff rs

abbrev pub any_row : (Row → Bool) → List Row → Bool
any_row p [] = false
any_row p (r ∷ rs) = p r || any_row p rs

seen_before-later :
    (cutoff : ℕ) (s t : Option ℕ)
    → seen_before cutoff (later s t) ≡ (seen_before cutoff s && seen_before cutoff t)
seen_before-later cutoff none t = refl
seen_before-later cutoff (some s) none = ground arith
seen_before-later cutoff (some s) (some t) = ground arith

seen_before-max :
    (id : Bytes) (cutoff : ℕ) (rows : List Row)
    → seen_before cutoff (max_last_seen_for_network id rows) ≡ all_silent id cutoff rows
unfolding max_last_seen_for_network
seen_before-max id cutoff [] = refl
seen_before-max id cutoff (r ∷ rs) = ground (
  arith,
  seen_before-max id cutoff rs,
  seen_before-later cutoff r.last_seen_at (max_last_seen_for_network id rs),
)

count-any :
    (id : Bytes) (rows : List Row)
    → (count_for_network id rows == 0) ≡ not (any_row (is_of id) rows)
unfolding count_for_network
count-any id [] = refl
count-any id (r ∷ rs) = ground (arith, count-any id rs)

count_non_pending-any :
    (id : Bytes) (rows : List Row)
    → (count_non_pending_for_network id rows == 0)
      ≡ not (any_row (λ r. is_of id r && not (is_pending r)) rows)
unfolding count_non_pending_for_network
count_non_pending-any id [] = refl
count_non_pending-any id (r ∷ rs) = ground (arith, count_non_pending-any id rs)

-- A run of the reaper on a table that can be read, over a map with distinct keys, stops a network
-- exactly if it has an instance and either no node at all, or a node that is not pending and none
-- of these was seen since the cutoff; every other entry stays as it was.
pub reap_stops_idle :
    (rows : List Row) (now threshold : ℕ) (m : Manager) (id : Bytes)
    → KeysDistinct m
    → lookup id (reap_idle_instances (answers_of rows) now threshold m) ≡ (
        if is_running (lookup id m)
          && (if any_row (λ r. is_of id r && not (is_pending r)) rows
              then all_silent id (now - threshold) rows
              else not (any_row (is_of id) rows))
        then none
        else lookup id m)
unfolding reap_idle_instances answers_of is_idle
reap_stops_idle rows now threshold m id d = ground (
  arith,
  lookup-reap_loop (answers_of rows) (now - threshold) (candidates m) m id,
  contains-candidates m id d,
  count-any id rows,
  count_non_pending-any id rows,
  seen_before-max id (now - threshold) rows,
)
