-- ===== src/Mesh/Manager/Ports.antt =====
-- The lighthouse port of a new network (internal/db/networks.go, internal/db/queries/networks.sql,
-- internal/mesh/network_manager.go). The rows are the `lighthouse_port` column.
use hopssh.Base.{
  ℕ, zero, suc, ◌+◌, ◌-◌, ◌≤◌, ◌<◌, ◌≡◌, refl, ◌⊎◌, inl, inr, Bool, true, false, ◌||◌, Option, none,
  some, List, [], ◌∷◌, arith, ltb, ◌==◌, if◌then◌else◌, Bool-cases, Option-cases,
}
use hopssh.Mesh.Manager.{base_lighthouse_port}

unfoldable pub uses : ℕ → List (Option ℕ) → Bool
uses p [] = false
uses p (none ∷ rs) = uses p rs
uses p (some q ∷ rs) = q == p || uses p rs

abbrev least : ℕ → Option ℕ → ℕ
least p none = p
least p (some q) = if ltb q p then q else p

-- The subquery: the least `lighthouse_port + 1` that no row has, over the rows `rs` of the table.
unfoldable pub next_port : List (Option ℕ) → List (Option ℕ) → Option ℕ
next_port table [] = none
next_port table (none ∷ rs) = next_port table rs
next_port table (some p ∷ rs) =
    let rest = next_port table rs in if uses (suc p) table then rest else some (least (suc p) rest)

abbrev or_base : Option ℕ → ℕ
or_base none = base_lighthouse_port
or_base (some p) = p

unfoldable pub first_available_lighthouse_port : List (Option ℕ) → ℕ
first_available_lighthouse_port table = or_base (next_port table table)

pub data Error : Type 0 where
  query_fails no_port : Error

pub data Allocation : Type 0 where
  allocated : ℕ → Allocation
  refused : Error → Allocation

-- `none` is a table that cannot be read.
unfoldable pub allocate_port : Option (List (Option ℕ)) → Allocation
allocate_port none = refused query_fails
allocate_port (some table) =
    let port = first_available_lighthouse_port table in
    if ltb 65535 port then refused no_port else allocated port

-- The result is free and the successor of a used port.
next_port-uses :
    (table rs : List (Option ℕ)) (q : ℕ)
    → next_port table rs ≡ some q
    → (uses q table ≡ false) × (0 < q) × (uses (q - 1) rs ≡ true)
unfolding next_port uses
next_port-uses table [] q h = absurd (ground arith)
next_port-uses table (none ∷ rs) q h = next_port-uses table rs q h
next_port-uses table (some p ∷ rs) q h = elim (Bool-cases (uses (suc p) table)) [
  | inl e ↦ ground (arith, e, h, next_port-uses table rs q)
  | inr n ↦ elim (Option-cases (next_port table rs)) [
    | inl e ↦ let same : q ≡ suc p = ground (arith, n, e, h) in rw same ground (arith, n)
    | inr (r, e) ↦
        let it = next_port-uses table rs r e in
        elim (Bool-cases (ltb r (suc p))) [
          | inl l ↦ let same : q ≡ r = ground (arith, n, e, h, l) in ground (arith, it, l, same)
          | inr l ↦ let same : q ≡ suc p = ground (arith, n, e, h, l) in rw same ground (arith, n)
        ]
  ]
]

next_port-none :
    (table rs : List (Option ℕ)) (p : ℕ)
    → next_port table rs ≡ none
    → uses p rs ≡ true
    → uses (suc p) table ≡ true
unfolding next_port uses
next_port-none table [] p e h = absurd (ground arith)
next_port-none table (none ∷ rs) p e h = next_port-none table rs p e h
next_port-none table (some r ∷ rs) p e h = ground (arith, next_port-none table rs p, e, h)

-- No free successor of a used port is less.
next_port-least :
    (table rs : List (Option ℕ)) (p q : ℕ)
    → next_port table rs ≡ some q
    → uses p rs ≡ true
    → uses (suc p) table ≡ false
    → q ≤ suc p
unfolding next_port uses
next_port-least table [] p q e h k = absurd (ground arith)
next_port-least table (none ∷ rs) p q e h k = next_port-least table rs p q e h k
next_port-least table (some r ∷ rs) p q e h k = elim (Option-cases (next_port table rs)) [
  | inl n ↦ ground (arith, next_port-none table rs p n, e, n, h, k)
  | inr (o, n) ↦ ground (arith, next_port-least table rs p o n, e, n, h, k)
]

above : List (Option ℕ) → ℕ
above [] = 0
above (none ∷ rs) = above rs
above (some p ∷ rs) = suc p + above rs

uses-above : (rs : List (Option ℕ)) (p : ℕ) → uses p rs ≡ true → p < above rs
unfolding uses above
uses-above [] p h = ground arith
uses-above (none ∷ rs) p h = uses-above rs p h
uses-above (some q ∷ rs) p h = ground (arith, uses-above rs p)

-- Upwards from a used port there is one whose successor is free.
climb :
    (table : List (Option ℕ)) (fuel p : ℕ)
    → uses p table ≡ true
    → above table ≤ p + fuel
    → (q : ℕ) × (uses q table ≡ true) × (uses (suc q) table ≡ false)
climb table zero p h k = ground (arith, uses-above table p h)
climb table (suc fuel) p h k = elim (Bool-cases (uses (suc p) table)) [
  | inl e ↦ climb table fuel (suc p) e (ground (arith, k))
  | inr n ↦ (p, h, n)
]

-- A port that is allocated is no more than 65535 and no row has it; it is 42001 if no row has a
-- port, and else follows a port that a row has, the least port with a free successor.
abbrev pub IsNext : List (Option ℕ) → ℕ → Type 0
IsNext table port =
    (uses (port - 1) table ≡ true)
    × ((p : ℕ) → uses p table ≡ true → uses (suc p) table ≡ false → port ≤ suc p)

-- A port that is allocated is no more than 65535 and no row has it; it is 42001 if no row has a
-- port, and else it follows a port that a row has, the least port with a free successor.
pub allocate_port-IsNext :
    (table : List (Option ℕ)) (port : ℕ)
    → allocate_port (some table) ≡ allocated port
    → (port ≤ 65535)
      × (uses port table ≡ false)
      × ((((p : ℕ) → uses p table ≡ false) × (port ≡ base_lighthouse_port)) ⊎ IsNext table port)
unfolding allocate_port first_available_lighthouse_port
allocate_port-IsNext table port h = elim (Option-cases (next_port table table)) [
  | inl e ↦
      let same : port ≡ base_lighthouse_port = ground (arith, h, e) in
      rw same (ground (arith), unused e base_lighthouse_port, inl (unused e, refl))
  | inr (q, e) ↦
      let same : port ≡ q = ground (arith, h, e) in
      let it = next_port-uses table table q e in
      rw same
        (ground (arith, h, e), it.0, inr (it.2, λ p u f. next_port-least table table p q e u f))
]
  where
    unused : next_port table table ≡ none → (p : ℕ) → uses p table ≡ false
    unused e p = elim (Bool-cases (uses p table)) [
      | inr n ↦ n
      | inl u ↦
          let top = climb table (above table) p u (omega arith) in
          ground (arith, next_port-none table table top.0 e top.1, top.2)
    ]
