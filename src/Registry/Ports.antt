-- ===== src/Registry/Ports.antt =====
-- The allocation of listen ports: `NextAvailableListenPort` and `AssignMissingListenPorts`.
use hopssh.Base.{
  ℕ, zero, suc, ◌+◌, ◌-◌, ◌≤◌, ◌<◌, ◌≡◌, refl, ◌⊎◌, inl, inr, Bool, true, false, ◌&&◌, ◌||◌, List,
  [], ◌∷◌, ◌++◌, arith, ltb, ◌==◌, ==_iff, Bool-cases,
}
use mathlib.Core.List.{append-nil, append_assoc}
use hopssh.Registry.{
  assign_port, Enrollment, State, SaveOutcome, port_used, next_port_loop,
  next_available_listen_port, assign_loop, assign_missing_listen_ports,
}

-- No two enrollments hold the same port; 0 stands for none.
abbrev pub PortsDistinct : List Enrollment → Type 0
PortsDistinct [] = Unit
PortsDistinct (e ∷ es) = (port_used e.listen_port es ≡ false) × PortsDistinct es

-- A port that the search may return: unused, bindable and in range.
abbrev IsFree : (ℕ → Bool) → List Enrollment → ℕ → ℕ → Type 0
IsFree free es base p = (base ≤ p) × (p < 65535) × (port_used p es ≡ false) × (free p ≡ true)

next_port_loop-IsFree :
    (free : ℕ → Bool) (es : List Enrollment) (left p : ℕ)
    → let r = next_port_loop free es left p in
      (r ≡ 0) ⊎ ((p ≤ r) × (r < p + left) × (port_used r es ≡ false) × (free r ≡ true))
unfolding next_port_loop
next_port_loop-IsFree free es zero p = inl refl
next_port_loop-IsFree free es (suc left) p =
    ground (arith, next_port_loop-IsFree free es left (p + 1))

next_available-IsFree :
    (free : ℕ → Bool) (es : List Enrollment) (base : ℕ)
    → let r = next_available_listen_port free es base in (r ≡ 0) ⊎ IsFree free es base r
unfolding next_available_listen_port
next_available-IsFree free es base =
    ground (arith, next_port_loop-IsFree free es (65535 - base) base)

next_port_loop-le :
    (free : ℕ → Bool) (es : List Enrollment) (left p q : ℕ)
    → p ≤ q
    → q < p + left
    → port_used q es ≡ false
    → free q ≡ true
    → 0 < p
    → (next_port_loop free es left p ≤ q) × (0 < next_port_loop free es left p)
unfolding next_port_loop
next_port_loop-le free es zero p q h k u f z = absurd (omega arith)
next_port_loop-le free es (suc left) p q h k u f z = elim (Bool-cases (p == q)) [
  | inl e ↦ let e' : p ≡ q = (==_iff p q).0 e in rw e' (ground (arith, u, f))
  | inr n ↦ ground (arith, n, next_port_loop-le free es left (p + 1) q)
]

-- For a positive base, if some port from the base up and below 65535 is unused and bindable, the
-- search returns a port that is not 0 and not above it.
next_available-least :
    (free : ℕ → Bool) (es : List Enrollment) (base q : ℕ)
    → 0 < base
    → IsFree free es base q
    → (next_available_listen_port free es base ≤ q) × (0 < next_available_listen_port free es base)
unfolding next_available_listen_port
next_available-least free es base q z (h, k, u, f) =
    next_port_loop-le free es (65535 - base) base q h (omega arith) u f z

-- `AssignMissingListenPorts`.
port_used-replace :
    (p q : ℕ) (before rest : List Enrollment) (e : Enrollment)
    → e.listen_port ≡ 0
    → port_used q (before ++ record e { listen_port = p } ∷ rest)
      ≡ (port_used q (before ++ e ∷ rest) || (ltb 0 p && p == q))
unfolding port_used
port_used-replace p q [] rest e z = ground arith
port_used-replace p q (b ∷ before) rest e z = ground (arith, port_used-replace p q before rest e z)

PortsDistinct-replace :
    (p : ℕ) (before rest : List Enrollment) (e : Enrollment)
    → e.listen_port ≡ 0
    → port_used p (before ++ e ∷ rest) ≡ false
    → PortsDistinct (before ++ e ∷ rest)
    → PortsDistinct (before ++ record e { listen_port = p } ∷ rest)
unfolding port_used
PortsDistinct-replace p [] rest e z u d = ground arith
PortsDistinct-replace p (b ∷ before) rest e z u d = (
  ground (arith, port_used-replace p b.listen_port before rest e z, d.0),
  PortsDistinct-replace p before rest e z (ground arith) d.1,
)

port_used-zero : (es : List Enrollment) → port_used 0 es ≡ false
unfolding port_used
port_used-zero [] = refl
port_used-zero (e ∷ es) = ground (arith, port_used-zero es)

next_available-unused :
    (free : ℕ → Bool) (es : List Enrollment) (base : ℕ)
    → port_used (next_available_listen_port free es base) es ≡ false
next_available-unused free es base = elim (next_available-IsFree free es base) [
  | inl e ↦ rw e (port_used-zero es)
  | inr k ↦ k.2
]

assign_port-PortsDistinct :
    (free : ℕ → Bool) (base : ℕ) (before : List Enrollment) (e : Enrollment)
    (rest : List Enrollment)
    → PortsDistinct (before ++ e ∷ rest)
    → PortsDistinct (before ++ assign_port free base before e rest ∷ rest)
unfolding assign_port
assign_port-PortsDistinct free base before e rest d = elim (Bool-cases (ltb 0 e.listen_port)) [
  | inl k ↦ rw k d
  | inr k ↦ rw k (
      PortsDistinct-replace (next_available_listen_port free (before ++ e ∷ rest) base) before rest
        e (ground arith) (next_available-unused free (before ++ e ∷ rest) base) d)
]

assign_loop-PortsDistinct :
    (free : ℕ → Bool) (base : ℕ) (before rest : List Enrollment) (n : ℕ)
    → PortsDistinct (before ++ rest)
    → PortsDistinct (assign_loop free base before rest n).0
unfolding assign_loop
assign_loop-PortsDistinct free base before [] n d = rw append-nil at d
assign_loop-PortsDistinct free base before (e ∷ rest) n d =
    assign_loop-PortsDistinct free base (before ++ assign_port free base before e rest ∷ []) rest _
      (rw append_assoc (assign_port-PortsDistinct free base before e rest d))

-- Only the port of an enrollment that had none differs.
abbrev pub SameButMissing : List Enrollment → List Enrollment → Type 0
SameButMissing [] [] = Unit
SameButMissing [] (y ∷ ys) = ⊥
SameButMissing (x ∷ xs) [] = ⊥
SameButMissing (x ∷ xs) (y ∷ ys) =
    (((x.listen_port ≡ 0) ⊎ (y ≡ x)) × (y ≡ record x { listen_port = y.listen_port }))
    × SameButMissing xs ys

SameButMissing-refl : (es : List Enrollment) → SameButMissing es es
SameButMissing-refl [] = tt
SameButMissing-refl (e ∷ es) = ((inr refl, refl), SameButMissing-refl es)

SameButMissing-snoc :
    (xs ys : List Enrollment) (x y : Enrollment)
    → SameButMissing xs ys
    → ((x.listen_port ≡ 0) ⊎ (y ≡ x))
    → y ≡ record x { listen_port = y.listen_port }
    → SameButMissing (xs ++ x ∷ []) (ys ++ y ∷ [])
SameButMissing-snoc [] [] x y h k l = ((k, l), tt)
SameButMissing-snoc [] (b ∷ ys) x y h k l = absurd h
SameButMissing-snoc (a ∷ xs) [] x y h k l = absurd h
SameButMissing-snoc (a ∷ xs) (b ∷ ys) x y h k l = (h.0, SameButMissing-snoc xs ys x y h.1 k l)

assign_loop-SameButMissing :
    (free : ℕ → Bool) (base : ℕ) (start before rest : List Enrollment) (n : ℕ)
    → SameButMissing start before
    → SameButMissing (start ++ rest) (assign_loop free base before rest n).0
unfolding assign_loop
assign_loop-SameButMissing free base start before [] n h = rw append-nil h
assign_loop-SameButMissing free base start before (e ∷ rest) n h =
    rw (← append_assoc start (e ∷ []) rest) (
      assign_loop-SameButMissing free base (start ++ e ∷ [])
        (before ++ assign_port free base before e rest ∷ []) rest _
        (SameButMissing-snoc start before e (assign_port free base before e rest) h kept shape))
  where
    kept : (e.listen_port ≡ 0) ⊎ (assign_port free base before e rest ≡ e)
    kept = unfold assign_port in ground arith

    shape :
        assign_port free base before e rest
        ≡ record e { listen_port = (assign_port free base before e rest).listen_port }
    shape = unfold assign_port in ground arith

-- If no two enrollments share a port that is not 0, `AssignMissingListenPorts` keeps it so,
-- whatever its save does; each enrollment either had port 0 or is unchanged, and at most its port
-- differs.
pub assign_missing_distinct :
    (o : SaveOutcome) (free : ℕ → Bool) (base : ℕ) (s : State)
    → PortsDistinct s.enrollments
    → let s' = (assign_missing_listen_ports o free base s).0 in
      PortsDistinct s'.enrollments × SameButMissing s.enrollments s'.enrollments
unfolding assign_missing_listen_ports
assign_missing_distinct o free base s d = ground (
  arith,
  assign_loop-PortsDistinct free base [] s.enrollments 0 d,
  assign_loop-SameButMissing free base [] [] s.enrollments 0 tt,
  SameButMissing-refl s.enrollments,
)
