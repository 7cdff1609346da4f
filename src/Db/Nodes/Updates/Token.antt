-- ===== src/Db/Nodes/Updates/Token.antt =====
-- An enrollment token is claimed once.
use hopssh.Base.{
  ℕ, ◌+◌, ◌≤◌, ◌≡◌, refl, ◌≢◌, inl, inr, Bool, true, false, not, Option, none, some, List, [], ◌∷◌,
  ◌++◌, arith, if◌then◌else◌, Bool-cases, Option-cases,
}
use hopssh.Base.Text.{Bytes, bytes_eq_iff, bytes_eq_refl}
use mathlib.Core.Option.{some-injective}
use hopssh.Db.DeviceCodes.{
  Transaction, begin_fails, select_fails, update_fails, commit_fails, commits,
}
use hopssh.Db.Nodes.{
  NewNode, create, any_clash, encrypt_key, hash_token, inserted, Row, ok, update_where, same_option,
  claimable, find_token,
}
use hopssh.Db.Nodes.Updates.{ClaimedNode, consumes, consume, consume_token, claim_enrollment_token}

-- The number of rows of a hashed token; the schema allows one.
abbrev token_count : Bytes → List Row → ℕ
token_count h [] = 0
token_count h (r ∷ rs) =
    if same_option r.enrollment_token (some h) then token_count h rs + 1 else token_count h rs

consume_none :
    (h : Bytes) (row : Row) (rows : List Row)
    → token_count h rows ≡ 0
    → token_count h (update_where (consumes h row) consume rows).0 ≡ 0
unfolding update_where
consume_none h row [] c = refl
consume_none h row (r ∷ rs) c = ground (arith, c, consume_none h row rs)

claimable_token :
    (h : Bytes) (now : ℕ) (r : Row)
    → claimable h now r ≡ true
    → same_option r.enrollment_token (some h) ≡ true
claimable_token h now r c = elim (Bool-cases (same_option r.enrollment_token (some h))) [
  | inl e ↦ e
  | inr n ↦ absurd (ground (arith, n, c))
]

find_token-none :
    (h : Bytes) (now : ℕ) (rows : List Row) → token_count h rows ≡ 0 → find_token h now rows ≡ none
unfolding find_token
find_token-none h now [] c = refl
find_token-none h now (r ∷ rs) c = elim (Bool-cases (claimable h now r)) [
  | inl e ↦ absurd (ground (arith, c, claimable_token h now r e))
  | inr n ↦ rw n (find_token-none h now rs (ground (arith, c)))
]

consume_count :
    (h : Bytes) (now : ℕ) (rows : List Row) (row : Row)
    → token_count h rows ≤ 1
    → find_token h now rows ≡ some row
    → token_count h (update_where (consumes h row) consume rows).0 ≡ 0
unfolding find_token update_where
consume_count h now [] row c f = absurd (ground (arith, f))
consume_count h now (r ∷ rs) row c f = elim (Bool-cases (claimable h now r)) [
  | inl e ↦
      let same : r ≡ row = some-injective _ _ (rw e at f) in
      let token = claimable_token h now r e in
      let test : consumes h row r ≡ true =
        rw (← same) (ground (arith, token, bytes_eq_refl r.id)) in
      rw test (consume_none h row rs (ground (arith, c, token)))
  | inr n ↦ elim (Bool-cases (same_option r.enrollment_token (some h))) [
    | inl token ↦
        absurd (ground (arith, find_token-none h now rs (ground (arith, c, token)), rw n at f))
    | inr other ↦
        ground (arith, other, consume_count h now rs row (ground (arith, c, other)) (rw n at f))
  ]
]

-- A claim that returns a node found its row and consumed the token.
token_ok :
    (hash : Bytes → Bytes) (decrypt : Bytes → Option Bytes) (t : Transaction) (now : ℕ)
    (token : Bytes) (rows : List Row) (n : ClaimedNode)
    → (claim_enrollment_token hash decrypt t now token rows).1 ≡ ok (some n)
    → (row : Row) × (find_token (hash token) now rows ≡ some row)
      × ((claim_enrollment_token hash decrypt t now token rows).0
          ≡ (update_where (consumes (hash token) row) consume rows).0)
unfolding claim_enrollment_token consume_token
token_ok hash decrypt begin_fails now token rows n h = absurd (ground (arith, h))
token_ok hash decrypt select_fails now token rows n h = absurd (ground (arith, h))
token_ok hash decrypt update_fails now token rows n h = absurd (ground (arith, h))
token_ok hash decrypt commit_fails now token rows n h = absurd (ground (arith, h))
token_ok hash decrypt commits now token rows n h =
    elim (Option-cases (find_token (hash token) now rows)) [
      | inl e ↦ absurd (ground (arith, h, e))
      | inr (row, e) ↦ (row, e, ground (arith, h, e))
    ]

-- If at most one row has an enrollment token, as the UNIQUE column has it, then after a claim of
-- the token that returned a node no later claim of it returns one, at any time and however far its
-- transaction gets.
pub claim_token_once :
    (hash : Bytes → Bytes) (decrypt : Bytes → Option Bytes) (t t' : Transaction) (now now' : ℕ)
    (token : Bytes) (rows : List Row) (n n' : ClaimedNode)
    → token_count (hash token) rows ≤ 1
    → (claim_enrollment_token hash decrypt t now token rows).1 ≡ ok (some n)
    → (claim_enrollment_token hash decrypt t' now' token
        (claim_enrollment_token hash decrypt t now token rows).0).1
      ≢ ok (some n')
claim_token_once hash decrypt t t' now now' token rows n n' c h k =
    let (row, found, after) = token_ok hash decrypt t now token rows n h in
    let (row', again, _) =
      token_ok hash decrypt t' now' token (claim_enrollment_token hash decrypt t now token rows).0
        n' k in
    let gone : find_token (hash token) now' (claim_enrollment_token hash decrypt t now token rows).0
        ≡ none =
      rw after
        (find_token-none (hash token) now' _ (consume_count (hash token) now rows row c found)) in
    ground (arith, gone, again)

clash_token :
    (h : Bytes) (new : Row) (rows : List Row)
    → any_clash new rows ≡ false
    → same_option new.enrollment_token (some h) ≡ true
    → token_count h rows ≡ 0
unfolding any_clash
clash_token h new [] c s = refl
clash_token h new (r ∷ rs) c s = elim (Option-cases new.enrollment_token) [
  | inl e ↦ absurd (ground (arith, s, e))
  | inr (x, e) ↦ elim (Option-cases r.enrollment_token) [
    | inl f ↦ ground (arith, c, s, f, clash_token h new rs)
    | inr (y, f) ↦ ground (
      arith,
      c,
      s,
      e,
      f,
      clash_token h new rs,
      bytes_eq_iff x h,
      bytes_eq_iff y h,
      bytes_eq_iff y x,
    )
  ]
]

count-snoc :
    (h : Bytes) (rows : List Row) (r : Row)
    → token_count h (rows ++ r ∷ []) ≡ token_count h rows + token_count h (r ∷ [])
count-snoc h [] r = omega arith
count-snoc h (x ∷ rows) r = ground (arith, count-snoc h rows r)

-- `Create` keeps the token column unique.
create-token_count :
    (hash : Bytes → Bytes) (encrypt : Bytes → Option Bytes) (works : Bool) (n : NewNode)
    (rows : List Row) (h : Bytes)
    → token_count h rows ≤ 1
    → token_count h (create hash encrypt works n rows).0 ≤ 1
unfolding create
create-token_count hash encrypt works n rows h c =
    elim (Option-cases (encrypt_key encrypt n.nebula_key)) [
      | inl e ↦ rw (e, create) c
      | inr (key, e) ↦ elim (Option-cases (encrypt n.agent_token)) [
        | inl f ↦ rw (e, f, create) c
        | inr (token, f) ↦ elim (Bool-cases (not works)) [
          | inl w ↦ rw (e, f, w, create) c
          | inr w ↦ elim (Bool-cases (any_clash (inserted hash n key token) rows)) [
            | inl g ↦ rw (e, f, w, g, create) c
            | inr g ↦ rw (e, f, w, g, create) (snoc_count key token g)
          ]
        ]
      ]
    ]
  where
    snoc_count :
        (key token : Bytes)
        → any_clash (inserted hash n key token) rows ≡ false
        → token_count h (rows ++ inserted hash n key token ∷ []) ≤ 1
    snoc_count key token g =
        elim (Bool-cases (same_option (hash_token hash n.enrollment_token) (some h))) [
          | inl s ↦ ground (
            arith,
            s,
            c,
            clash_token h (inserted hash n key token) rows g s,
            count-snoc h rows (inserted hash n key token),
          )
          | inr s ↦ ground (arith, s, c, count-snoc h rows (inserted hash n key token))
        ]
