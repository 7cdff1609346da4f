-- ===== src/Db/Invites/Uses.antt =====
-- How often an invite with a maximum is claimed.
use hopssh.Base.{
  ℕ, ◌+◌, ◌-◌, ◌≤◌, ◌≡◌, refl, inl, inr, Bool, true, false, not, ◌&&◌, ◌||◌, Option, none, some,
  List, [], ◌∷◌, arith, if◌then◌else◌, ltb→lt, Bool-cases, Option-cases,
}
use hopssh.Base.Text.{Bytes, bytes_eq, bytes_eq_iff}
use hopssh.Db.Invites.{
  NetworkInvite, Error, Result, ok, err, get_by_code, below_maximum, atomic_claim_invite, claim,
  delete, delete_expired,
}

-- What other handlers and the sweep do to the table between claims.
pub data Event : Type 0 where
  claims : Bool → Bool → ℕ → Bytes → Event
  deletes : Bytes → Event
  sweeps : ℕ → Event

unfoldable pub after : Event → List NetworkInvite → List NetworkInvite
after (claims w r now code) rows = (claim w r now code rows).0
after (deletes id) rows = delete id rows
after (sweeps now) rows = delete_expired now rows

abbrev is_ok : Result NetworkInvite → Bool
is_ok (ok r) = true
is_ok (err e) = false

-- Whether an event is a claim of the code that returns an invite.
unfoldable pub admits : Bytes → Event → List NetworkInvite → Bool
admits code (claims w r now other) rows = bytes_eq other code && is_ok (claim w r now other rows).1
admits code (deletes id) rows = false
admits code (sweeps now) rows = false

-- The claims of the code that return an invite.
unfoldable pub admitted : Bytes → List Event → List NetworkInvite → ℕ
admitted code [] rows = 0
admitted code (e ∷ es) rows =
    (if admits code e rows then 1 else 0) + admitted code es (after e rows)

abbrev left : ℕ → Option ℕ → ℕ
left uses none = 0
left uses (some m) = m - uses

abbrev has_maximum : Option ℕ → Bool
has_maximum none = false
has_maximum (some m) = true

-- The uses that the rows of a code have left.
unfoldable pub uses_left : Bytes → List NetworkInvite → ℕ
uses_left code [] = 0
uses_left code (r ∷ rs) =
    (if bytes_eq r.code code then left r.use_count r.max_uses else 0) + uses_left code rs

-- Whether each row of a code has a maximum.
unfoldable pub is_limited : Bytes → List NetworkInvite → Bool
is_limited code [] = true
is_limited code (r ∷ rs) =
    (not (bytes_eq r.code code) || has_maximum r.max_uses) && is_limited code rs

one_use :
    (now uses : ℕ) (m : Option ℕ)
    → has_maximum m ≡ true
    → below_maximum uses m ≡ true
    → left (uses + 1) m + 1 ≡ left uses m
one_use now uses none h b = absurd (ground (arith, h))
one_use now uses (some m) h b = ground (arith, ltb→lt uses m b)

uses_left-claim :
    (now : ℕ) (code : Bytes) (rows : List NetworkInvite)
    → is_limited code rows ≡ true
    → uses_left code (atomic_claim_invite now code rows).0 + (atomic_claim_invite now code rows).1
      ≡ uses_left code rows
unfolding uses_left is_limited atomic_claim_invite
uses_left-claim now code [] l = refl
uses_left-claim now code (r ∷ rs) l =
    ground (arith, l, uses_left-claim now code rs, one_use now r.use_count r.max_uses)

uses_left-claim_other :
    (now : ℕ) (code other : Bytes) (rows : List NetworkInvite)
    → bytes_eq other code ≡ false
    → uses_left code (atomic_claim_invite now other rows).0 ≡ uses_left code rows
unfolding uses_left atomic_claim_invite
uses_left-claim_other now code other [] n = refl
uses_left-claim_other now code other (r ∷ rs) n = ground (
  arith,
  n,
  uses_left-claim_other now code other rs n,
  bytes_eq_iff r.code other,
  bytes_eq_iff r.code code,
  bytes_eq_iff other code,
)

is_limited-claim :
    (now : ℕ) (code other : Bytes) (rows : List NetworkInvite)
    → is_limited code (atomic_claim_invite now other rows).0 ≡ is_limited code rows
unfolding is_limited atomic_claim_invite
is_limited-claim now code other [] = refl
is_limited-claim now code other (r ∷ rs) = ground (arith, is_limited-claim now code other rs)

uses_left-delete :
    (code id : Bytes) (rows : List NetworkInvite)
    → (uses_left code (delete id rows) ≤ uses_left code rows)
      × (is_limited code rows ≡ true → is_limited code (delete id rows) ≡ true)
unfolding uses_left is_limited delete
uses_left-delete code id [] = (omega arith, λ l. l)
uses_left-delete code id (r ∷ rs) = ground (arith, uses_left-delete code id rs)

uses_left-sweep :
    (code : Bytes) (now : ℕ) (rows : List NetworkInvite)
    → (uses_left code (delete_expired now rows) ≤ uses_left code rows)
      × (is_limited code rows ≡ true → is_limited code (delete_expired now rows) ≡ true)
unfolding uses_left is_limited delete_expired
uses_left-sweep code now [] = (omega arith, λ l. l)
uses_left-sweep code now (r ∷ rs) = ground (arith, uses_left-sweep code now rs)

-- Each event takes the uses it admits off those that are left.
one_event :
    (code : Bytes) (e : Event) (rows : List NetworkInvite)
    → is_limited code rows ≡ true
    → ((if admits code e rows then 1 else 0) + uses_left code (after e rows) ≤ uses_left code rows)
      × (is_limited code (after e rows) ≡ true)
unfolding admits after claim
one_event code (claims true rd now other) rows l = elim (Bool-cases (bytes_eq other code)) [
  | inl e ↦
      let same : other ≡ code = (bytes_eq_iff other code).0 e in
      let taken : uses_left code (atomic_claim_invite now other rows).0
            + (atomic_claim_invite now other rows).1
          ≡ uses_left code rows =
        rw same (uses_left-claim now code rows l) in
      ground (arith, e, l, taken, is_limited-claim now code other rows)
  | inr n ↦ ground (
    arith,
    n,
    l,
    uses_left-claim_other now code other rows n,
    is_limited-claim now code other rows,
  )
]
one_event code (claims false rd now other) rows l = ground (arith, l)
one_event code (deletes id) rows l = ground (arith, l, uses_left-delete code id rows)
one_event code (sweeps now) rows l = ground (arith, l, uses_left-sweep code now rows)

-- While every row of an invite code has a maximum, the claims of the code that return an invite are
-- at most the uses that its rows have left at the start, whatever claims, deletions and sweeps are
-- mixed in, at whatever times they run and whether or not the driver takes their statements.
pub admitted_bound :
    (code : Bytes) (es : List Event) (rows : List NetworkInvite)
    → is_limited code rows ≡ true
    → admitted code es rows ≤ uses_left code rows
unfolding admitted
admitted_bound code [] rows l = omega arith
admitted_bound code (e ∷ es) rows l =
    let (used, limited) = one_event code e rows l in
    let rest = admitted_bound code es (after e rows) limited in omega (arith, used, rest)

found-claim :
    (now : ℕ) (code : Bytes) (rows : List NetworkInvite)
    → (get_by_code code (atomic_claim_invite now code rows).0 ≡ none)
    → (atomic_claim_invite now code rows).1 ≡ 0
unfolding get_by_code atomic_claim_invite
found-claim now code [] h = refl
found-claim now code (r ∷ rs) h = ground (arith, h, found-claim now code rs)

-- When its queries work, a claim of an invite that returns an error leaves the table as it was.
claim_error_unchanged :
    (writes : Bool) (now : ℕ) (code : Bytes) (rows : List NetworkInvite) (e : Error)
    → (claim writes true now code rows).1 ≡ err e
    → (claim writes true now code rows).0 ≡ rows
unfolding claim
claim_error_unchanged writes now code rows e h =
    elim (Option-cases (get_by_code code (atomic_claim_invite now code rows).0)) [
      | inl n ↦ ground (arith, found-claim now code rows n)
      | inr (r, f) ↦ ground (arith, f, h)
    ]
