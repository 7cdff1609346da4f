-- ===== src/Db/DeviceCodes.antt =====
-- The device-code store of the device flow (internal/db/device_codes.go). The table is a list of
-- rows, and each query is its SQL (internal/db/queries/device_codes.sql). `hash` is the hex of
-- SHA-256, `upper` is strings.ToUpper; times are in seconds. A statement that the driver refuses is
-- the argument `works = false` of the operation.
pub mod Claim
pub mod Count
pub mod Rows
use hopssh.Base.{
  ℕ, zero, suc, ◌+◌, ◌-◌, ◌*◌, ◌/◌, ◌%◌, ◌≤◌, ◌<◌, ◌≡◌, refl, sym, ap, ◌∙◌, ◌≢◌, ◌↔◌, ◌⊎◌, inl, inr,
  Bool, true, false, not, ◌&&◌, ◌||◌, Option, none, some, List, [], ◌∷◌, ◌++◌, map, arith, ltb, leb,
  ◌==◌, if◌then◌else◌, ltb→lt, lt→ltb, leb→le, ==_iff, Bool-cases, Option-cases, length, get_or,
  take, drop, drop_last, replicate, All, length-append, drop_last-append,
}
use hopssh.Base.Text.{Bytes, codes, is_empty, bytes_eq, bytes_eq_iff, bytes_eq_refl, contains}

pub data Status : Type 0 where
  pending authorized completed : Status

pub record DeviceCode : Type 0 where
  pub device_code : Bytes
  pub user_code : Bytes
  pub user_id : Option Bytes
  pub network_id : Option Bytes
  pub node_id : Option Bytes
  pub status : Status
  pub expires_at : ℕ
  pub created_at : ℕ

-- 10 minutes.
abbrev device_code_ttl : ℕ
device_code_ttl = 600

abbrev pub is_pending : Status → Bool
is_pending pending = true
is_pending _ = false

abbrev pub is_authorized : Status → Bool
is_authorized authorized = true
is_authorized _ = false

pub data Error : Type 0 where
  sql_error no_unique_code not_authorizable : Error

pub data Result {ℓ} (A : Type ℓ) : Type ℓ where
  ok : A → Result A
  err : Error → Result A

-- The UNIQUE columns of the table: the primary key and the user code.
unfoldable pub is_taken : Bytes → Bytes → List DeviceCode → Bool
is_taken code user_code [] = false
is_taken code user_code (r ∷ rs) =
    (bytes_eq r.device_code code || bytes_eq r.user_code user_code) || is_taken code user_code rs

-- The row that `Create` inserts; the table fills in the time of creation.
unfoldable pub new_row : ℕ → Bytes → Bytes → DeviceCode
new_row now code user_code = record {
  device_code = code;
  user_code = user_code;
  user_id = none;
  network_id = none;
  node_id = none;
  status = pending;
  expires_at = now + device_code_ttl;
  created_at = now;
}

-- The attempts of `Create`: each has the user code that it draws and whether the driver works. The
-- code that is returned is the plain one, the row holds its hash.
create_loop :
    (Bytes → Bytes)
    → ℕ
    → Bytes
    → List (Bytes × Bool)
    → List DeviceCode
    → List DeviceCode × Result DeviceCode
unfolding new_row
create_loop hash now code [] rows = (rows, err no_unique_code)
create_loop hash now code ((drawn, works) ∷ more) rows =
    let user_code = codes "HOP-" ++ drawn in
    let retry = create_loop hash now code more rows in
    if not works
    then (rows, err sql_error)
    else if is_taken (hash code) user_code rows
    then retry
    else (
      rows ++ new_row now (hash code) user_code ∷ [],
      ok (record (new_row now code user_code) { created_at = 0 }),
    )

-- `Create`, with three drawn user codes.
unfoldable pub create :
    (Bytes → Bytes)
    → ℕ
    → Bytes
    → Bytes × Bool
    → Bytes × Bool
    → Bytes × Bool
    → List DeviceCode
    → List DeviceCode × Result DeviceCode
unfolding create_loop
create hash now code a b c rows = create_loop hash now code (a ∷ b ∷ c ∷ []) rows

-- `SELECT … WHERE device_code = ?`
unfoldable pub find_code : Bytes → List DeviceCode → Option DeviceCode
find_code code [] = none
find_code code (r ∷ rs) = if bytes_eq r.device_code code then some r else find_code code rs

unfoldable pub get_by_device_code :
    (Bytes → Bytes) → Bool → Bytes → List DeviceCode → Result (Option DeviceCode)
get_by_device_code hash works code rows =
    if works then ok (find_code (hash code) rows) else err sql_error

-- `SELECT … WHERE user_code = ? AND expires_at > ?`
unfoldable pub find_user_code : Bytes → ℕ → List DeviceCode → Option DeviceCode
find_user_code user_code now [] = none
find_user_code user_code now (r ∷ rs) =
    if bytes_eq r.user_code user_code && ltb now r.expires_at
    then some r
    else find_user_code user_code now rs

unfoldable pub get_by_user_code :
    (Bytes → Bytes) → Bool → ℕ → Bytes → List DeviceCode → Result (Option DeviceCode)
get_by_user_code upper works now user_code rows =
    if works then ok (find_user_code (upper user_code) now rows) else err sql_error

-- An UPDATE: the rows that satisfy the test are changed; the second result counts them.
unfoldable pub update_where :
    (DeviceCode → Bool) → (DeviceCode → DeviceCode) → List DeviceCode → List DeviceCode × ℕ
update_where test change [] = ([], 0)
update_where test change (r ∷ rs) =
    let (rs', n) = update_where test change rs in
    if test r then (change r ∷ rs', n + 1) else (r ∷ rs', n)

abbrev authorizable : Bytes → ℕ → DeviceCode → Bool
authorizable user_code now r =
    bytes_eq r.user_code user_code && (is_pending r.status && ltb now r.expires_at)

unfoldable pub authorize :
    (Bytes → Bytes)
    → Bool
    → ℕ
    → Bytes
    → Bytes
    → Bytes
    → List DeviceCode
    → List DeviceCode × Option Error
authorize upper works now user_code user_id network_id rows =
    if not works
    then (rows, some sql_error)
    else (let (rows', affected) =
          update_where (authorizable (upper user_code) now)
            (λ r. record r {
              user_id = some user_id;
              network_id = some network_id;
              status = authorized;
            })
            rows in
        (rows', if affected == 0 then some not_authorizable else none))

-- `SELECT … WHERE device_code = ? AND status = 'authorized' AND expires_at > ?`
unfoldable pub find_authorized : Bytes → ℕ → List DeviceCode → Option DeviceCode
find_authorized code now [] = none
find_authorized code now (r ∷ rs) =
    if bytes_eq r.device_code code && (is_authorized r.status && ltb now r.expires_at)
    then some r
    else find_authorized code now rs

-- How far the transaction of `ClaimAuthorized` gets.
pub data Transaction : Type 0 where
  begin_fails select_fails update_fails commit_fails commits : Transaction

abbrev pub claimable : Bytes → DeviceCode → Bool
claimable code r = bytes_eq r.device_code code && is_authorized r.status

-- The row is returned as it was selected, without its node and creation time.
pub claim_update :
    Transaction
    → Bytes
    → DeviceCode
    → List DeviceCode
    → List DeviceCode × Result (Option DeviceCode)
claim_update t code row rows =
    let (rows', affected) =
      update_where (claimable code) (λ r. record r { status = completed }) rows in
    if affected == 0 then (rows, ok none) else elim t [
      | commits ↦ (rows', ok (some (record row { node_id = none; created_at = 0 })))
      | _ ↦ (rows, err sql_error)
    ]

unfoldable pub claim_authorized :
    (Bytes → Bytes)
    → Transaction
    → ℕ
    → Bytes
    → List DeviceCode
    → List DeviceCode × Result (Option DeviceCode)
unfolding claim_update
claim_authorized hash begin_fails now code rows = (rows, err sql_error)
claim_authorized hash select_fails now code rows = (rows, err sql_error)
claim_authorized hash t now code rows = elim (find_authorized (hash code) now rows) [
  | none ↦ (rows, ok none)
  | some row ↦ elim t [
    | update_fails ↦ (rows, err sql_error)
    | other ↦ claim_update other (hash code) row rows
  ]
]

unfoldable pub set_node_id :
    (Bytes → Bytes) → Bool → Bytes → Bytes → List DeviceCode → List DeviceCode × Option Error
set_node_id hash works code node_id rows =
    if works
    then (
      (update_where (λ r. bytes_eq r.device_code (hash code))
          (λ r. record r { node_id = some node_id }) rows).0,
      none,
    )
    else (rows, some sql_error)

-- `DELETE FROM device_codes WHERE expires_at < ?`
delete_expired : Bool → ℕ → List DeviceCode → List DeviceCode × Option Error
delete_expired works now rows = if works then (unexpired rows, none) else (rows, some sql_error)
  where
    unexpired : List DeviceCode → List DeviceCode
    unexpired = elim [ [] ↦ [] | r ∷ (rs → ih) ↦ if ltb r.expires_at now then ih else r ∷ ih ]
