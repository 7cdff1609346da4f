-- ===== src/Db/DeviceCodes/Rows.antt =====
-- What every row of the table satisfies stays true under the queries.
use hopssh.Base.{
  ℕ, ◌≡◌, inl, inr, Bool, true, false, ◌&&◌, Option, none, some, List, [], ◌∷◌, ◌++◌, arith, ltb,
  ◌==◌, Bool-cases, Option-cases, All,
}
use hopssh.Base.Text.{Bytes, codes, bytes_eq}
use mathlib.Core.Option.{some-injective}
use hopssh.Db.DeviceCodes.{
  sql_error, DeviceCode, pending, authorized, completed, is_authorized, Result, ok, err,
  Transaction, begin_fails, select_fails, update_fails, commit_fails, commits, new_row, create_loop,
  create, is_taken, find_authorized, update_where, authorizable, authorize, claimable, claim_update,
  claim_authorized, set_node_id,
}

module _ {ℓ} (P : DeviceCode → Type ℓ) where
  All-update_where :
      (test : DeviceCode → Bool) (change : DeviceCode → DeviceCode) (rows : List DeviceCode)
      → ((r : DeviceCode) → P r → test r ≡ true → P (change r))
      → All P rows
      → All P (update_where test change rows).0
  unfolding update_where
  All-update_where test change [] keep a = tt
  All-update_where test change (r ∷ rs) keep a = elim (Bool-cases (test r)) [
    | inl e ↦ rw e (keep r a.0 e, All-update_where test change rs keep a.1)
    | inr n ↦ rw n (a.0, All-update_where test change rs keep a.1)
  ]

  All-snoc : (rows : List DeviceCode) (r : DeviceCode) → All P rows → P r → All P (rows ++ r ∷ [])
  All-snoc [] r a p = (p, tt)
  All-snoc (x ∷ rows) r a p = (a.0, All-snoc rows r a.1 p)

  All-create_loop :
      (hash : Bytes → Bytes) (now : ℕ) (code : Bytes) (draws : List (Bytes × Bool))
      (rows : List DeviceCode)
      → ((user_code : Bytes) → P (new_row now (hash code) user_code))
      → All P rows
      → All P (create_loop hash now code draws rows).0
  unfolding create_loop
  All-create_loop hash now code [] rows p a = a
  All-create_loop hash now code ((drawn, false) ∷ more) rows p a = a
  All-create_loop hash now code ((drawn, true) ∷ more) rows p a =
      elim (Bool-cases (is_taken (hash code) (codes "HOP-" ++ drawn) rows)) [
        | inl e ↦ rw e (All-create_loop hash now code more rows p a)
        | inr n ↦ rw n (All-snoc rows (new_row now (hash code) (codes "HOP-" ++ drawn)) a (p _))
      ]

  pub All-create :
      (hash : Bytes → Bytes) (now : ℕ) (code : Bytes) (a b c : Bytes × Bool)
      (rows : List DeviceCode)
      → ((user_code : Bytes) → P (new_row now (hash code) user_code))
      → All P rows
      → All P (create hash now code a b c rows).0
  unfolding create
  All-create hash now code a b c rows = All-create_loop hash now code (a ∷ b ∷ c ∷ []) rows

  pub All-authorize :
      (upper : Bytes → Bytes) (works : Bool) (now : ℕ) (user_code user_id network_id : Bytes)
      (rows : List DeviceCode)
      → ((r : DeviceCode)
          → P r
          → r.status ≡ pending
          → P (record r {
            user_id = some user_id;
            network_id = some network_id;
            status = authorized;
          }))
      → All P rows
      → All P (authorize upper works now user_code user_id network_id rows).0
  unfolding authorize
  All-authorize upper false now user_code user_id network_id rows keep a = a
  All-authorize upper true now user_code user_id network_id rows keep a =
      All-update_where (authorizable (upper user_code) now)
        (λ r. record r {
          user_id = some user_id;
          network_id = some network_id;
          status = authorized;
        })
        rows (λ r p e. keep r p (pending_of r e)) a
    where
      pending_of :
          (r : DeviceCode) → authorizable (upper user_code) now r ≡ true → r.status ≡ pending
      pending_of r e = ground (arith, e)

  All-claim_update :
      (t : Transaction) (code : Bytes) (row : DeviceCode) (rows : List DeviceCode)
      → ((r : DeviceCode) → P r → P (record r { status = completed }))
      → All P rows
      → All P (claim_update t code row rows).0
  unfolding claim_update
  All-claim_update t code row rows keep a =
      elim (Bool-cases
        ((update_where (claimable code) (λ r. record r { status = completed }) rows).1 == 0)) [
          | inl e ↦ rw e a
          | inr n ↦ rw n (settled t)
        ]
    where
      changed : All P (update_where (claimable code) (λ r. record r { status = completed }) rows).0
      changed =
          All-update_where (claimable code) (λ r. record r { status = completed }) rows
            (λ r p _. keep r p) a

      settled :
          (t : Transaction)
          → All P
              (elim t as (λ _. List DeviceCode × Result (Option DeviceCode)) [
                | commits ↦ (
                  (update_where (claimable code) (λ r. record r { status = completed }) rows).0,
                  ok (some (record row { node_id = none; created_at = 0 })),
                )
                | _ ↦ (rows, err sql_error)
              ]).0
      settled commits = changed
      settled begin_fails = a
      settled select_fails = a
      settled update_fails = a
      settled commit_fails = a

  pub All-claim_authorized :
      (hash : Bytes → Bytes) (t : Transaction) (now : ℕ) (code : Bytes) (rows : List DeviceCode)
      → ((r : DeviceCode) → P r → P (record r { status = completed }))
      → All P rows
      → All P (claim_authorized hash t now code rows).0
  unfolding claim_authorized
  All-claim_authorized hash begin_fails now code rows keep a = a
  All-claim_authorized hash select_fails now code rows keep a = a
  All-claim_authorized hash update_fails now code rows keep a =
      elim (Option-cases (find_authorized (hash code) now rows)) [
        | inl e ↦ rw (e, claim_authorized) a
        | inr (r, e) ↦ rw (e, claim_authorized) a
      ]
  All-claim_authorized hash commit_fails now code rows keep a =
      elim (Option-cases (find_authorized (hash code) now rows)) [
        | inl e ↦ rw (e, claim_authorized) a
        | inr (r, e) ↦
            rw (e, claim_authorized) (All-claim_update commit_fails (hash code) r rows keep a)
      ]
  All-claim_authorized hash commits now code rows keep a =
      elim (Option-cases (find_authorized (hash code) now rows)) [
        | inl e ↦ rw (e, claim_authorized) a
        | inr (r, e) ↦ rw (e, claim_authorized) (All-claim_update commits (hash code) r rows keep a)
      ]

  pub All-set_node_id :
      (hash : Bytes → Bytes) (works : Bool) (code node : Bytes) (rows : List DeviceCode)
      → ((r : DeviceCode) → P r → P (record r { node_id = some node }))
      → All P rows
      → All P (set_node_id hash works code node rows).0
  unfolding set_node_id
  All-set_node_id hash false code node rows keep a = a
  All-set_node_id hash true code node rows keep a =
      All-update_where (λ r. bytes_eq r.device_code (hash code))
        (λ r. record r { node_id = some node }) rows (λ r p _. keep r p) a

  pub All-find_authorized :
      (code : Bytes) (now : ℕ) (rows : List DeviceCode) (row : DeviceCode)
      → All P rows
      → find_authorized code now rows ≡ some row
      → P row
  unfolding find_authorized
  All-find_authorized code now [] row a h = absurd (ground (arith, h))
  All-find_authorized code now (r ∷ rs) row a h =
      elim (Bool-cases
        (bytes_eq r.device_code code && (is_authorized r.status && ltb now r.expires_at))) [
          | inl e ↦ rw (← some-injective _ _ (rw e at h)) a.0
          | inr e ↦ All-find_authorized code now rs row a.1 (rw e at h)
        ]
