-- ===== src/Db/DeviceCodes/Count.antt =====
-- The device code is the key of its table: a code has at most one row, which the queries keep.
use hopssh.Base.{
  ℕ, ◌+◌, ◌≤◌, ◌≡◌, refl, ◌⊎◌, inl, inr, Bool, true, false, none, some, List, [], ◌∷◌, ◌++◌, arith,
  if◌then◌else◌, Bool-cases, Option-cases, All,
}
use hopssh.Base.Text.{Bytes, codes, bytes_eq, bytes_eq_iff, bytes_eq_refl}
use hopssh.Db.DeviceCodes.{
  DeviceCode, completed, Transaction, begin_fails, select_fails, update_fails, commit_fails,
  commits, new_row, create_loop, create, is_taken, find_authorized, update_where, authorizable,
  authorize, claimable, claim_update, claim_authorized, set_node_id,
}

-- The number of rows of a hashed code.
abbrev pub count : Bytes → List DeviceCode → ℕ
count code [] = 0
count code (r ∷ rs) = if bytes_eq r.device_code code then count code rs + 1 else count code rs

pub count-update_where :
    (code : Bytes) (test : DeviceCode → Bool) (change : DeviceCode → DeviceCode)
    (rows : List DeviceCode)
    → ((r : DeviceCode) → (change r).device_code ≡ r.device_code)
    → count code (update_where test change rows).0 ≡ count code rows
unfolding update_where
count-update_where code test change [] same = refl
count-update_where code test change (r ∷ rs) same =
    ground (arith, same r, count-update_where code test change rs same)

count-snoc :
    (code : Bytes) (rows : List DeviceCode) (r : DeviceCode)
    → count code (rows ++ r ∷ []) ≡ count code rows + count code (r ∷ [])
count-snoc code [] r = omega arith
count-snoc code (x ∷ rows) r = ground (arith, count-snoc code rows r)

is_taken-count :
    (code user_code : Bytes) (rows : List DeviceCode)
    → is_taken code user_code rows ≡ false
    → count code rows ≡ 0
unfolding is_taken
is_taken-count code user_code [] h = refl
is_taken-count code user_code (r ∷ rs) h = ground (arith, is_taken-count code user_code rs, h)

count-create_loop :
    (hash : Bytes → Bytes) (now : ℕ) (code other : Bytes) (draws : List (Bytes × Bool))
    (rows : List DeviceCode)
    → (count other (create_loop hash now code draws rows).0 ≡ count other rows)
      ⊎ ((count other rows ≡ 0) × (count other (create_loop hash now code draws rows).0 ≡ 1))
unfolding create_loop
count-create_loop hash now code other [] rows = inl refl
count-create_loop hash now code other ((drawn, false) ∷ more) rows = inl refl
count-create_loop hash now code other ((drawn, true) ∷ more) rows =
    elim (Bool-cases (is_taken (hash code) (codes "HOP-" ++ drawn) rows)) [
      | inl e ↦ rw e (count-create_loop hash now code other more rows)
      | inr n ↦ rw n (elim (Bool-cases (bytes_eq (hash code) other)) [
        | inl b ↦ ground (
          arith,
          bytes_eq_iff (hash code) other,
          is_taken-count (hash code) (codes "HOP-" ++ drawn) rows n,
          count-snoc other rows (new_row now (hash code) (codes "HOP-" ++ drawn)),
        )
        | inr b ↦
            ground
              (arith, b, count-snoc other rows (new_row now (hash code) (codes "HOP-" ++ drawn)))
      ])
    ]

pub count-create :
    (hash : Bytes → Bytes) (now : ℕ) (code other : Bytes) (a b c : Bytes × Bool)
    (rows : List DeviceCode)
    → (count other (create hash now code a b c rows).0 ≡ count other rows)
      ⊎ ((count other rows ≡ 0) × (count other (create hash now code a b c rows).0 ≡ 1))
unfolding create
count-create hash now code other a b c rows =
    count-create_loop hash now code other (a ∷ b ∷ c ∷ []) rows

pub count-authorize :
    (code : Bytes) (upper : Bytes → Bytes) (works : Bool) (now : ℕ)
    (user_code user_id network_id : Bytes) (rows : List DeviceCode)
    → count code (authorize upper works now user_code user_id network_id rows).0 ≡ count code rows
unfolding authorize
count-authorize code upper false now user_code user_id network_id rows = refl
count-authorize code upper true now user_code user_id network_id rows =
    count-update_where code (authorizable (upper user_code) now) _ rows (λ r. refl)

pub count-set_node_id :
    (code : Bytes) (hash : Bytes → Bytes) (works : Bool) (of node : Bytes) (rows : List DeviceCode)
    → count code (set_node_id hash works of node rows).0 ≡ count code rows
unfolding set_node_id
count-set_node_id code hash false of node rows = refl
count-set_node_id code hash true of node rows =
    count-update_where code (λ r. bytes_eq r.device_code (hash of)) _ rows (λ r. refl)

-- A claim updates the rows of its code or none.
claim_rows :
    (hash : Bytes → Bytes) (t : Transaction) (now : ℕ) (of : Bytes) (rows : List DeviceCode)
    → ((claim_authorized hash t now of rows).0 ≡ rows)
      ⊎ ((claim_authorized hash t now of rows).0
          ≡ (update_where (claimable (hash of)) (λ r. record r { status = completed }) rows).0)
unfolding claim_authorized claim_update
claim_rows hash begin_fails now of rows = inl refl
claim_rows hash select_fails now of rows = inl refl
claim_rows hash update_fails now of rows =
    elim (Option-cases (find_authorized (hash of) now rows)) [
      | inl e ↦ inl (rw (e, claim_authorized) refl)
      | inr (r, e) ↦ inl (rw (e, claim_authorized) refl)
    ]
claim_rows hash commit_fails now of rows =
    elim (Option-cases (find_authorized (hash of) now rows)) [
      | inl e ↦ inl (rw (e, claim_authorized) refl)
      | inr (r, e) ↦ inl (ground (arith, e))
    ]
claim_rows hash commits now of rows = elim (Option-cases (find_authorized (hash of) now rows)) [
  | inl e ↦ inl (rw (e, claim_authorized) refl)
  | inr (r, e) ↦ ground (arith, e)
]

pub count-claim_authorized :
    (code : Bytes) (hash : Bytes → Bytes) (t : Transaction) (now : ℕ) (of : Bytes)
    (rows : List DeviceCode)
    → count code (claim_authorized hash t now of rows).0 ≡ count code rows
count-claim_authorized code hash t now of rows = elim (claim_rows hash t now of rows) [
  | inl e ↦ rw e refl
  | inr e ↦ rw e (count-update_where code (claimable (hash of)) _ rows (λ r. refl))
]

count_none :
    (code : Bytes) (test : DeviceCode → Bool) (rows : List DeviceCode)
    → count code rows ≡ 0
    → All
        (λ r. r.device_code ≡ code → r.status ≡ completed)
        (update_where test (λ r. record r { status = completed }) rows).0
unfolding update_where
count_none code test [] h = tt
count_none code test (r ∷ rs) h = elim (Bool-cases (test r)) [
  | inl e ↦ rw e (λ same. refl, count_none code test rs (ground (arith, h)))
  | inr e ↦ rw e (
    λ same. ground (arith, h, same, bytes_eq_refl code),
    count_none code test rs (ground (arith, h)),
  )
]

find_none :
    (code : Bytes) (now : ℕ) (rows : List DeviceCode)
    → count code rows ≡ 0
    → find_authorized code now rows ≡ none
unfolding find_authorized
find_none code now [] h = refl
find_none code now (r ∷ rs) h = ground (arith, h, find_none code now rs)

-- The one row of a claimed code is completed.
pub claimed_completed :
    (code : Bytes) (now : ℕ) (rows : List DeviceCode) (row : DeviceCode)
    → count code rows ≤ 1
    → find_authorized code now rows ≡ some row
    → (count code rows ≡ 1)
      × All
          (λ r. r.device_code ≡ code → r.status ≡ completed)
          (update_where (claimable code) (λ r. record r { status = completed }) rows).0
unfolding find_authorized update_where
claimed_completed code now [] row h e = absurd (ground (arith, e))
claimed_completed code now (r ∷ rs) row h e = elim (Bool-cases (bytes_eq r.device_code code)) [
  | inl b ↦
      let rest : count code rs ≡ 0 = ground (arith, h, b) in
      let test : claimable code r ≡ true = ground (arith, b, e, find_none code now rs rest) in
      (ground (arith, b, rest), rw test (λ same. refl, count_none code (claimable code) rs rest))
  | inr b ↦
      let (one, all) =
        claimed_completed code now rs row (ground (arith, h, b)) (ground (arith, b, e)) in
      (
        ground (arith, b, one),
        rw b (λ same. absurd (ground (arith, b, same, bytes_eq_refl code)), all),
      )
]

count-is_taken :
    (code user_code : Bytes) (rows : List DeviceCode)
    → count code rows ≡ 1
    → is_taken code user_code rows ≡ true
count-is_taken code user_code rows h = elim (Bool-cases (is_taken code user_code rows)) [
  | inl e ↦ e
  | inr n ↦ absurd (ground (arith, h, is_taken-count code user_code rows n))
]

create_loop_taken :
    (hash : Bytes → Bytes) (now : ℕ) (code : Bytes) (draws : List (Bytes × Bool))
    (rows : List DeviceCode)
    → count (hash code) rows ≡ 1
    → (create_loop hash now code draws rows).0 ≡ rows
unfolding create_loop
create_loop_taken hash now code [] rows h = refl
create_loop_taken hash now code ((drawn, false) ∷ more) rows h = refl
create_loop_taken hash now code ((drawn, true) ∷ more) rows h =
    rw (count-is_taken (hash code) (codes "HOP-" ++ drawn) rows h)
      (create_loop_taken hash now code more rows h)

-- A code that has a row is not inserted again.
pub create_taken :
    (hash : Bytes → Bytes) (now : ℕ) (code : Bytes) (a b c : Bytes × Bool) (rows : List DeviceCode)
    → count (hash code) rows ≡ 1
    → (create hash now code a b c rows).0 ≡ rows
unfolding create
create_taken hash now code a b c rows h = create_loop_taken hash now code (a ∷ b ∷ c ∷ []) rows h

update_none :
    (code : Bytes) (change : DeviceCode → DeviceCode) (rows : List DeviceCode)
    → count code rows ≡ 0
    → (update_where (λ r. bytes_eq r.device_code code) change rows).0 ≡ rows
unfolding update_where
update_none code change [] h = refl
update_none code change (r ∷ rs) h = ground (arith, h, update_none code change rs)

-- The node of a code without a row is recorded nowhere.
pub set_node_id_absent :
    (hash : Bytes → Bytes) (works : Bool) (code node : Bytes) (rows : List DeviceCode)
    → count (hash code) rows ≡ 0
    → (set_node_id hash works code node rows).0 ≡ rows
unfolding set_node_id
set_node_id_absent hash false code node rows h = refl
set_node_id_absent hash true code node rows h = update_none (hash code) _ rows h
