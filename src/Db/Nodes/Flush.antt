-- ===== src/Db/Nodes/Flush.antt =====
-- What a flush leaves of the heartbeats that were buffered since the last one.
use hopssh.Base.{
  ℕ, ◌≡◌, refl, ◌∙◌, inl, inr, true, false, Option, none, some, List, [], ◌∷◌, arith, if◌then◌else◌,
  Bool-cases,
}
use hopssh.Base.Text.{Bytes, bytes_eq, bytes_eq_iff, bytes_eq_refl}
use hopssh.Base.Dict.{lookup, insert, KeysDistinct, lookup-insert, insert-KeysDistinct}
use hopssh.Db.Nodes.{Row, update_where, find_node}
use hopssh.Db.Nodes.Heartbeats.{
  Beat, Buffer, record_heartbeat, record_proxy_activity, throttled, empty_beat, heartbeat_node,
  write_batch, write_beat, flush_heartbeats, beaten,
}

abbrev beaten_option : ℕ → Option Beat → Option Row → Option Row
beaten_option now o none = none
beaten_option now o (some r) = some (beaten now o r)

pub find_node-write_beat :
    (now : ℕ) (id j : Bytes) (b : Beat) (rows : List Row)
    → find_node id (write_beat now j b rows) ≡ (
        if bytes_eq j id then beaten_option now (some b) (find_node id rows) else find_node id rows)
unfolding find_node update_where heartbeat_node
find_node-write_beat now id j b [] = ground arith
find_node-write_beat now id j b (r ∷ rs) = ground (
  arith,
  find_node-write_beat now id j b rs,
  bytes_eq_iff r.id j,
  bytes_eq_iff r.id id,
  bytes_eq_iff j id,
)

find_node-write_batch :
    (now : ℕ) (id : Bytes) (batch : List (Bytes × Beat)) (rows : List Row)
    → KeysDistinct batch
    → find_node id (write_batch now batch rows)
      ≡ beaten_option now (lookup id batch) (find_node id rows)
unfolding write_batch lookup
find_node-write_batch now id [] rows d = unchanged (find_node id rows)
  where
    unchanged : (o : Option Row) → o ≡ beaten_option now none o
    unchanged none = refl
    unchanged (some r) = refl
find_node-write_batch now id ((j, b) ∷ batch) rows d = elim (Bool-cases (bytes_eq j id)) [
  | inl e ↦
      let same : j ≡ id = (bytes_eq_iff j id).0 e in
      let later : lookup id batch ≡ none = rw same at (d.0) in
      find_node-write_batch now id batch (write_beat now j b rows) d.1
      ∙ rw (later, find_node-write_beat now id j b rows, e)
          (settled (beaten_option now (some b) (find_node id rows)))
  | inr n ↦
      find_node-write_batch now id batch (write_beat now j b rows) d.1
      ∙ rw (find_node-write_beat now id j b rows, n) refl
]
  where
    settled : (o : Option Row) → beaten_option now none o ≡ o
    settled none = refl
    settled (some r) = refl

-- The last heartbeat that was reported for a node, after those that stand in `before`.
abbrev last_report : Bytes → Option Beat → List (Bytes × Beat) → Option Beat
last_report id before [] = before
last_report id before ((j, b) ∷ more) =
    last_report id (if bytes_eq j id then some b else before) more

pub record_all : List (Bytes × Beat) → Buffer → Buffer
record_all [] s = s
record_all ((id, b) ∷ more) s = record_all more (record_heartbeat id b s)

lookup-record_all :
    (id : Bytes) (reports : List (Bytes × Beat)) (s : Buffer)
    → KeysDistinct s.heartbeats
    → (lookup id (record_all reports s).heartbeats
        ≡ last_report id (lookup id s.heartbeats) reports)
      × KeysDistinct (record_all reports s).heartbeats
unfolding record_all record_heartbeat
lookup-record_all id [] s d = (refl, d)
lookup-record_all id ((j, b) ∷ more) s d = rw (← lookup-insert j id b s.heartbeats) (
    lookup-record_all id more (record_heartbeat j b s)
      (unfold record_heartbeat in insert-KeysDistinct j b s.heartbeats d))

-- After any reports into an empty buffer, a flush that works leaves each node as if the last report
-- of it alone had been applied, and a node without a report as it was.
pub flush_last_report :
    (now : ℕ) (id : Bytes) (reports : List (Bytes × Beat)) (s : Buffer) (rows : List Row)
    → s.heartbeats ≡ []
    → find_node id (flush_heartbeats true now (record_all reports s) rows).1
      ≡ beaten_option now (last_report id none reports) (find_node id rows)
unfolding flush_heartbeats lookup
flush_last_report now id reports s rows e =
    let (l, d) = lookup-record_all id reports s (rw e tt) in
    find_node-write_batch now id (record_all reports s).heartbeats rows d ∙ rw (l, e, lookup) refl

-- If proxy activity of a node that is not throttled comes between a heartbeat of it and the flush,
-- and the flush works, the node is updated with an empty heartbeat: the values of the buffered one
-- are lost.
pub proxy_activity_discards :
    (now t : ℕ) (id : Bytes) (b : Beat) (s : Buffer) (rows : List Row)
    → KeysDistinct s.heartbeats
    → throttled t (lookup id s.last_proxy) ≡ false
    → find_node id
        (flush_heartbeats true now (record_proxy_activity t id (record_heartbeat id b s)) rows).1
      ≡ beaten_option now (some empty_beat) (find_node id rows)
unfolding flush_heartbeats record_proxy_activity record_heartbeat
proxy_activity_discards now t id b s rows d h =
    let first = insert-KeysDistinct id b s.heartbeats d in
    let both = insert id empty_beat (insert id b s.heartbeats) in
    let found : lookup id both ≡ some empty_beat =
      lookup-insert id id empty_beat (insert id b s.heartbeats) ∙ rw (bytes_eq_refl id) refl in
    rw h (
      find_node-write_batch now id both rows
        (insert-KeysDistinct id empty_beat (insert id b s.heartbeats) first)
      ∙ rw found refl)
