-- ===== src/Api/Status/Swept.antt =====
-- The shown status and the status sweep.
use hopssh.Base.{
  ℕ, ◌-◌, ◌≤◌, ◌≡◌, refl, ◌≢◌, inl, inr, Bool, not, ◌&&◌, none, List, [], ◌∷◌, arith, if◌then◌else◌,
  Option-cases, All,
}
use hopssh.Base.Text.{Bytes}
use hopssh.Db.Nodes.{Row, online, offline}
use hopssh.Db.Nodes.Sweep.{same_status, is_stale, stale_online_nodes}
use hopssh.Api.Status.{node_stale_threshold, is_lighthouse, effective_status}

-- A row that the page shows as offline while the table has it as online.
abbrev pub shown_stale : ℕ → Row → Bool
shown_stale now r =
    not (is_lighthouse r.node_type)
    && (same_status r.status online
        && same_status (effective_status now r.status r.last_seen_at) offline)

-- The ids of the rows that pass a test.
abbrev pub ids_where : (Row → Bool) → List Row → List Bytes
ids_where test [] = []
ids_where test (r ∷ rs) = let rest = ids_where test rs in if test r then r.id ∷ rest else rest

-- Every row has been seen.
abbrev IsSeen : Row → Type 0
IsSeen r = r.last_seen_at ≢ none

is_stale-shown :
    (now : ℕ) (r : Row)
    → node_stale_threshold ≤ now
    → IsSeen r
    → is_stale (now - node_stale_threshold) r ≡ shown_stale now r
unfolding effective_status
is_stale-shown now r h s = elim (Option-cases r.last_seen_at) [
  | inl e ↦ absurd (s e)
  | inr (t, e) ↦ ground (arith, h, e)
]

-- At a time of three minutes or more, if every node has been seen, a status sweep with the
-- threshold of the page finds exactly the nodes, save lighthouses, that the table has as online and
-- the page shows as offline.
pub sweep_finds_shown :
    (now : ℕ) (rows : List Row)
    → node_stale_threshold ≤ now
    → All IsSeen rows
    → stale_online_nodes (now - node_stale_threshold) rows ≡ ids_where (shown_stale now) rows
unfolding stale_online_nodes
sweep_finds_shown now [] h s = refl
sweep_finds_shown now (r ∷ rs) h s =
    rw (is_stale-shown now r h s.0, sweep_finds_shown now rs h s.1) refl
