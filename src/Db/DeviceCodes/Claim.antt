-- ===== src/Db/DeviceCodes/Claim.antt =====
-- A device code is claimed once, after it was authorized and before it expires.
use hopssh.Base.{
  ℕ, ◌<◌, ◌≡◌, refl, ap, ◌∙◌, ◌≢◌, inl, inr, false, ◌&&◌, none, some, List, [], ◌∷◌, arith, ltb,
  Bool-cases, Option-cases,
}
use hopssh.Base.Text.{Bytes, bytes_eq, bytes_eq_iff}
use mathlib.Core.Option.{some-injective}
use hopssh.Db.DeviceCodes.{
  authorized, completed, is_authorized, DeviceCode, ok, update_where, find_authorized, claimable,
  claim_update, claim_authorized, Transaction, begin_fails, select_fails, update_fails,
  commit_fails, commits,
}

-- After the claim no row of the code is authorized.
find_authorized-claimed :
    (code : Bytes) (now : ℕ) (rows : List DeviceCode)
    → find_authorized code now
        (update_where (claimable code) (λ r. record r { status = completed }) rows).0
      ≡ none
unfolding find_authorized update_where
find_authorized-claimed code now [] = refl
find_authorized-claimed code now (r ∷ rs) = ground (arith, find_authorized-claimed code now rs)

-- Claiming does not make another code claimable, nor take it away.
find_authorized-other :
    (code other : Bytes) (now : ℕ) (rows : List DeviceCode)
    → bytes_eq code other ≡ false
    → find_authorized other now
        (update_where (claimable code) (λ r. record r { status = completed }) rows).0
      ≡ find_authorized other now rows
unfolding find_authorized update_where
find_authorized-other code other now [] h = refl
find_authorized-other code other now (r ∷ rs) h = ground (
  arith,
  find_authorized-other code other now rs h,
  bytes_eq_iff r.device_code code,
  bytes_eq_iff r.device_code other,
  bytes_eq_iff code other,
)

-- What a claim that returns a code tells: it was authorized, unexpired, and is now completed.
pub claim_ok :
    (hash : Bytes → Bytes) (t : Transaction) (now : ℕ) (code : Bytes) (rows : List DeviceCode)
    (dc : DeviceCode)
    → (claim_authorized hash t now code rows).1 ≡ ok (some dc)
    → (row : DeviceCode) × (find_authorized (hash code) now rows ≡ some row)
      × (dc ≡ record row { node_id = none; created_at = 0 })
      × ((claim_authorized hash t now code rows).0
          ≡ (update_where (claimable (hash code)) (λ r. record r { status = completed }) rows).0)
unfolding claim_authorized claim_update
claim_ok hash begin_fails now code rows dc h = absurd (ground (arith, h))
claim_ok hash select_fails now code rows dc h = absurd (ground (arith, h))
claim_ok hash update_fails now code rows dc h = absurd (ground (arith, h))
claim_ok hash commit_fails now code rows dc h = absurd (ground (arith, h))
claim_ok hash commits now code rows dc h =
    elim (Option-cases (find_authorized (hash code) now rows)) [
      | inl e ↦ absurd (ground (arith, h, e))
      | inr (row, e) ↦ (row, e, ground (arith, h, e), ground (arith, h, e))
    ]

pub find_authorized_sound :
    (code : Bytes) (now : ℕ) (rows : List DeviceCode) (row : DeviceCode)
    → find_authorized code now rows ≡ some row
    → (row.device_code ≡ code) × (row.status ≡ authorized) × (now < row.expires_at)
unfolding find_authorized
find_authorized_sound code now [] row h = absurd (ground (arith, h))
find_authorized_sound code now (r ∷ rs) row h =
    elim (Bool-cases
      (bytes_eq r.device_code code && (is_authorized r.status && ltb now r.expires_at))) [
        | inl e ↦
            let here : r ≡ row = some-injective _ _ (rw e at h) in
            rw (← here) (ground (arith, e, bytes_eq_iff r.device_code code))
        | inr e ↦ find_authorized_sound code now rs row (rw e at h)
      ]

-- A claim that returns a device code found it under the hash of the code, authorized and unexpired,
-- and leaves no row of it that could be claimed at that time.
pub claim_needs_authorized :
    (hash : Bytes → Bytes) (t : Transaction) (now : ℕ) (code : Bytes) (rows : List DeviceCode)
    (dc : DeviceCode)
    → (claim_authorized hash t now code rows).1 ≡ ok (some dc)
    → (dc.device_code ≡ hash code)
      × (dc.status ≡ authorized)
      × (now < dc.expires_at)
      × (find_authorized (hash code) now (claim_authorized hash t now code rows).0 ≡ none)
claim_needs_authorized hash t now code rows dc h =
    let (row, found, same, after) = claim_ok hash t now code rows dc h in
    let (d, s, e) = find_authorized_sound (hash code) now rows row found in
    (
      ap (λ x. x.device_code) same ∙ d,
      ap (λ x. x.status) same ∙ s,
      rw same e,
      rw after (find_authorized-claimed (hash code) now rows),
    )

claim_none :
    (hash : Bytes → Bytes) (t : Transaction) (now : ℕ) (code : Bytes) (rows : List DeviceCode)
    (dc : DeviceCode)
    → find_authorized (hash code) now rows ≡ none
    → (claim_authorized hash t now code rows).1 ≢ ok (some dc)
claim_none hash t now code rows dc n h =
    let (row, found, _, _) = claim_ok hash t now code rows dc h in ground (arith, n, found)

-- After a claim that returned a device code, every later claim of the same code on the rows that it
-- left returns none, at any time and however far its transaction gets.
claim_once :
    (hash : Bytes → Bytes) (t t' : Transaction) (now now' : ℕ) (code : Bytes)
    (rows : List DeviceCode) (dc dc' : DeviceCode)
    → (claim_authorized hash t now code rows).1 ≡ ok (some dc)
    → (claim_authorized hash t' now' code (claim_authorized hash t now code rows).0).1
      ≢ ok (some dc')
claim_once hash t t' now now' code rows dc dc' h =
    let (row, found, same, after) = claim_ok hash t now code rows dc h in
    rw after (
      claim_none hash t' now' code
        (update_where (claimable (hash code)) (λ r. record r { status = completed }) rows).0 dc'
        (find_authorized-claimed (hash code) now' rows))
