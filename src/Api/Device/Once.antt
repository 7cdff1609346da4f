-- ===== src/Api/Device/Once.antt =====
-- A device code enrolls at most one node.
use hopssh.Base.{ℕ, ◌≤◌, ◌≡◌, refl, ◌∙◌, ◌≢◌, inl, inr, Bool, List, [], arith, Bool-cases, All}
use hopssh.Base.Text.{Bytes, bytes_eq, bytes_eq_iff}
use hopssh.Db.DeviceCodes
use hopssh.Db.DeviceCodes.{
  DeviceCode, completed, new_row, set_node_id, claim_authorized, update_where, claimable,
}
use hopssh.Db.DeviceCodes.Count.{
  count, count-create, count-authorize, count-set_node_id, count-claim_authorized,
  claimed_completed, create_taken, count-update_where,
}
use hopssh.Db.DeviceCodes.Claim.{claim_ok, find_authorized_sound}
use hopssh.Db.DeviceCodes.Rows.{
  All-create, All-authorize, All-set_node_id, All-claim_authorized, All-find_authorized,
}
use hopssh.Api.Device.{◌∷◌, Services, State, PollRequest, poll, enrolled}
use hopssh.Api.Device.Authorize.{polled, code_requested, Event, run, authorization}
use hopssh.Api.Device.Outcome.{IsPolled, poll-IsPolled}
use hopssh.Api.Device.Keeps.{IsKnown, Keeps-run}
use hopssh.Db.Nodes.{Row}

nothing-IsKnown : (vs : List Event) → All (IsKnown (λ _. Unit)) vs
nothing-IsKnown [] = tt
nothing-IsKnown (code_requested q ∷ vs) = (tt, nothing-IsKnown vs)
nothing-IsKnown (authorization q ∷ vs) = (tt, nothing-IsKnown vs)
nothing-IsKnown (polled q ∷ vs) = (tt, nothing-IsKnown vs)

-- The one row of the code is completed.
IsSpent : Bytes → List DeviceCode → Type 0
IsSpent code rows =
    (count code rows ≡ 1) × All (λ r. r.device_code ≡ code → r.status ≡ completed) rows

bounded_run :
    (e : Services) (code : Bytes) (vs : List Event) (s : State)
    → count code s.device_codes ≤ 1
    → count code (run e vs s).device_codes ≤ 1
bounded_run e code vs s =
    Keeps-run (λ rows. count code rows ≤ 1) (λ _. Unit) e
      (λ rows now c x y z h. ground (arith, h, count-create e.hash now c code x y z rows))
      (λ rows q n g m known h. ground (
        arith,
        h,
        count-authorize code e.upper q.write q.now q.user_code q.user.id q.network_id rows,
      ))
      (λ rows q h.
        ground
          (arith, h, count-claim_authorized code e.hash q.claim q.claim_now q.device_code rows))
      (λ rows works c node h. ground (arith, h, count-set_node_id code e.hash works c node rows)) vs
      s (nothing-IsKnown vs)

IsSpent-create :
    (hash : Bytes → Bytes) (code : Bytes) (rows : List DeviceCode) (now : ℕ) (drawn : Bytes)
    (a b c : Bytes × Bool)
    → IsSpent code rows
    → IsSpent code (DeviceCodes.create hash now drawn a b c rows).0
unfolding IsSpent new_row
IsSpent-create hash code rows now drawn a b c (one, all) =
    elim (Bool-cases (bytes_eq (hash drawn) code)) [
      | inl e ↦
          let same : hash drawn ≡ code = (bytes_eq_iff (hash drawn) code).0 e in
          rw (create_taken hash now drawn a b c rows (rw same one)) (one, all)
      | inr n ↦ (
        ground (arith, one, count-create hash now drawn code a b c rows),
        All-create (λ r. r.device_code ≡ code → r.status ≡ completed) hash now drawn a b c rows
            (λ u same. absurd (ground (arith, n, (bytes_eq_iff (hash drawn) code).1 same))) all,
      )
    ]

IsSpent-run :
    (e : Services) (code : Bytes) (vs : List Event) (s : State)
    → IsSpent code s.device_codes
    → IsSpent code (run e vs s).device_codes
unfolding IsSpent
IsSpent-run e code vs s =
    Keeps-run (IsSpent code) (λ _. Unit) e
      (λ rows now drawn x y z h. IsSpent-create e.hash code rows now drawn x y z h)
      (λ rows q n g m known (one, all). (
        count-authorize code e.upper q.write q.now q.user_code q.user.id q.network_id rows ∙ one,
        All-authorize (λ r. r.device_code ≡ code → r.status ≡ completed) e.upper q.write q.now
            q.user_code q.user.id q.network_id rows
            (λ r done waits same. ground (arith, done same, waits)) all,
      ))
      (λ rows q (one, all). (
        count-claim_authorized code e.hash q.claim q.claim_now q.device_code rows ∙ one,
        All-claim_authorized (λ r. r.device_code ≡ code → r.status ≡ completed) e.hash q.claim
            q.claim_now q.device_code rows (λ r done same. refl) all,
      ))
      (λ rows works c node (one, all). (
        count-set_node_id code e.hash works c node rows ∙ one,
        All-set_node_id (λ r. r.device_code ≡ code → r.status ≡ completed) e.hash works c node rows
            (λ r done. done) all,
      ))
      vs s (nothing-IsKnown vs)

poll-IsSpent :
    (e : Services) (q : PollRequest) (s : State) (id n : Bytes)
    → count (e.hash q.device_code) s.device_codes ≤ 1
    → (poll e q s).1 ≡ enrolled id n
    → IsSpent (e.hash q.device_code) (poll e q s).0.device_codes
unfolding IsSpent IsPolled
poll-IsSpent e q s id n h r = elim (poll-IsPolled e q s) [
  | inl (_, other) ↦ absurd (other id n r)
  | inr (inl (_, other)) ↦ absurd (other id n r)
  | inr (inr (dc, _, claimed, _, set, _)) ↦
      let (row, found, _, after) =
        claim_ok e.hash q.claim q.claim_now q.device_code s.device_codes dc claimed in
      let (one, all) =
        claimed_completed (e.hash q.device_code) q.claim_now s.device_codes row h found in
      rw (set, after)
        (
          count-set_node_id (e.hash q.device_code) e.hash q.code_write dc.device_code q.node_id _
              ∙ count-update_where (e.hash q.device_code) (claimable (e.hash q.device_code)) _
                  s.device_codes (λ r. refl)
              ∙ one,
          All-set_node_id (λ r. r.device_code ≡ e.hash q.device_code → r.status ≡ completed) e.hash
              q.code_write dc.device_code q.node_id _ (λ r done. done) all,
        )
]

spent-poll :
    (e : Services) (q : PollRequest) (s : State) (id n : Bytes)
    → IsSpent (e.hash q.device_code) s.device_codes
    → (poll e q s).1 ≢ enrolled id n
unfolding IsSpent IsPolled
spent-poll e q s id n (_, all) r = elim (poll-IsPolled e q s) [
  | inl (_, other) ↦ other id n r
  | inr (inl (_, other)) ↦ other id n r
  | inr (inr (dc, _, claimed, _, _, _)) ↦
      let (row, found, _, _) =
        claim_ok e.hash q.claim q.claim_now q.device_code s.device_codes dc claimed in
      let (same, auth, _) =
        find_authorized_sound (e.hash q.device_code) q.claim_now s.device_codes row found in
      let done : row.status ≡ completed =
        All-find_authorized (λ r. r.device_code ≡ e.hash q.device_code → r.status ≡ completed)
          (e.hash q.device_code) q.claim_now s.device_codes row all found same in
      ground (arith, auth, done)
]

-- From a table without device codes, with any requests before and between: once a poll with a
-- device code has enrolled a node, no later poll with that code enrolls one.
pub poll_once :
    (e : Services) (before between : List Event) (nodes : List Row) (q q' : PollRequest)
    (id n id' n' : Bytes)
    → q'.device_code ≡ q.device_code
    → (poll e q (run e before (record { device_codes = []; nodes = nodes }))).1 ≡ enrolled id n
    → (poll e q'
        (run e between (poll e q (run e before (record { device_codes = []; nodes = nodes }))).0)).1
      ≢ enrolled id' n'
poll_once e before between nodes q q' id n id' n' same r = spent-poll e q' _ id' n' (
    rw same (
      IsSpent-run e (e.hash q.device_code) between _ (
        poll-IsSpent e q _ id n
          (bounded_run e (e.hash q.device_code) before (record { device_codes = []; nodes = nodes })
            (omega arith))
          r)))
