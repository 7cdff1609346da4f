-- ===== src/Db/Invites.antt =====
-- The network invites (internal/db/network_invites.go). The table is a list of rows and each query
-- is its SQL (internal/db/queries/network_invites.sql). Counts and times (in seconds) are not
-- negative. `now` is both unixepoch() and time.Now(). A statement that the driver refuses is a flag.
use hopssh.Base.{
  ℕ, zero, suc, ◌+◌, ◌-◌, ◌*◌, ◌/◌, ◌%◌, ◌≤◌, ◌<◌, ◌≡◌, refl, sym, ap, ◌∙◌, ◌≢◌, ◌↔◌, ◌⊎◌, inl, inr,
  Bool, true, false, not, ◌&&◌, ◌||◌, Option, none, some, List, [], ◌∷◌, ◌++◌, map, arith, ltb, leb,
  ◌==◌, if◌then◌else◌, ltb→lt, lt→ltb, leb→le, ==_iff, Bool-cases, Option-cases, length, get_or,
  take, drop, drop_last, replicate, All, length-append, drop_last-append,
}
use hopssh.Base.Text.{Bytes, codes, is_empty, bytes_eq, bytes_eq_iff, bytes_eq_refl, contains}
pub mod Uses

pub record NetworkInvite : Type 0 where
  pub id : Bytes
  pub network_id : Bytes
  pub created_by : Bytes
  pub code : Bytes
  pub role : Bytes
  pub max_uses : Option ℕ
  pub use_count : ℕ
  pub expires_at : Option ℕ
  pub created_at : ℕ

pub data Error : Type 0 where
  claim_failed not_found has_expired maximum_uses : Error

pub data Result {ℓ} (A : Type ℓ) : Type ℓ where
  ok : A → Result A
  err : Error → Result A

unfoldable pub get_by_code : Bytes → List NetworkInvite → Option NetworkInvite
get_by_code code [] = none
get_by_code code (r ∷ rs) = if bytes_eq r.code code then some r else get_by_code code rs

-- `expires_at IS NULL OR expires_at > unixepoch()`
abbrev not_expired : ℕ → Option ℕ → Bool
not_expired now none = true
not_expired now (some t) = ltb now t

-- `max_uses IS NULL OR use_count < max_uses`
abbrev pub below_maximum : ℕ → Option ℕ → Bool
below_maximum uses none = true
below_maximum uses (some m) = ltb uses m

abbrev claimable : ℕ → Bytes → NetworkInvite → Bool
claimable now code r =
    bytes_eq r.code code && (not_expired now r.expires_at && below_maximum r.use_count r.max_uses)

-- AtomicClaimInvite: the rows afterwards and the number of them that changed.
unfoldable pub atomic_claim_invite : ℕ → Bytes → List NetworkInvite → List NetworkInvite × ℕ
atomic_claim_invite now code [] = ([], 0)
atomic_claim_invite now code (r ∷ rs) =
    let (rs', n) = atomic_claim_invite now code rs in
    if claimable now code r
    then ((record r { use_count = r.use_count + 1 }) ∷ rs', n + 1)
    else (r ∷ rs', n)

abbrev is_past : ℕ → Option ℕ → Bool
is_past now none = false
is_past now (some t) = ltb t now

abbrev is_used_up : ℕ → Option ℕ → Bool
is_used_up uses none = false
is_used_up uses (some m) = leb m uses

-- Why no row changed.
unfoldable pub explain : ℕ → Option NetworkInvite → Error
explain now none = not_found
explain now (some r) =
    if is_past now r.expires_at
    then has_expired
    else if is_used_up r.use_count r.max_uses
    then maximum_uses
    else not_found

abbrev read_back : Option NetworkInvite → Result NetworkInvite
read_back none = err not_found
read_back (some r) = ok r

abbrev when_read : Bool → Option NetworkInvite → Option NetworkInvite
when_read reads r = if reads then r else none

-- `Claim`: `writes` and `reads` are whether the driver takes the update and the query.
unfoldable pub claim :
    Bool → Bool → ℕ → Bytes → List NetworkInvite → List NetworkInvite × Result NetworkInvite
claim writes reads now code rows =
    let (rows', affected) = atomic_claim_invite now code rows in
    if not writes
    then (rows, err claim_failed)
    else if affected == 0
    then (rows, err (explain now (when_read reads (get_by_code code rows))))
    else (rows', read_back (when_read reads (get_by_code code rows')))

-- `Delete`
pub delete : Bytes → List NetworkInvite → List NetworkInvite
delete id [] = []
delete id (r ∷ rs) = let rest = delete id rs in if bytes_eq r.id id then rest else r ∷ rest

-- `DeleteExpired`
pub delete_expired : ℕ → List NetworkInvite → List NetworkInvite
delete_expired now [] = []
delete_expired now (r ∷ rs) =
    let rest = delete_expired now rs in if is_past now r.expires_at then rest else r ∷ rest
