-- ===== src/Registry/Unique.antt =====
-- The registry as a map from names to enrollments: names stay distinct and valid, and each
-- operation acts on `Get` as the operation on the map does.
use hopssh.Base.{
  ℕ, zero, suc, ◌+◌, ◌≡◌, refl, ◌∙◌, ◌≢◌, inl, inr, none, some, List, [], ◌∷◌, ◌++◌, arith,
  if◌then◌else◌, Bool-cases, Option-cases, take, drop, drop_last, All, drop_last-append,
}
use hopssh.Base.Text.{Bytes, bytes_eq, bytes_eq_iff}
use hopssh.Registry.{
  Enrollment, State, SaveOutcome, saved, main_failed, backup_failed, save_locked, get, add, remove,
  index_of, if_saved,
}
use hopssh.Registry.Rollback.{remove_error_unchanged}
use hopssh.Registry.Name.{validate_enrollment_name}

abbrev NamesDistinct : List Enrollment → Type 0
NamesDistinct [] = Unit
NamesDistinct (e ∷ es) = (get e.name es ≡ none) × NamesDistinct es

abbrev NamesValid : List Enrollment → Type 0
NamesValid = All (λ e. validate_enrollment_name e.name ≡ none)

get-append :
    (n : Bytes) (es : List Enrollment) (e : Enrollment)
    → get n es ≡ none
    → get n (es ++ e ∷ []) ≡ (if bytes_eq e.name n then some e else none)
unfolding get
get-append n [] e h = refl
get-append n (x ∷ es) e h = ground (arith, get-append n es e)

get-append_some :
    (n : Bytes) (es : List Enrollment) (e x : Enrollment)
    → get n es ≡ some x
    → get n (es ++ e ∷ []) ≡ some x
unfolding get
get-append_some n [] e x h = cc
get-append_some n (y ∷ es) e x h = ground (arith, get-append_some n es e x)

NamesDistinct-append :
    (es : List Enrollment) (e : Enrollment)
    → get e.name es ≡ none
    → NamesDistinct es
    → NamesDistinct (es ++ e ∷ [])
unfolding get
NamesDistinct-append [] e h d = (refl, tt)
NamesDistinct-append (x ∷ es) e h d = (
  get-append x.name es e d.0
      ∙ ground (arith, bytes_eq_iff e.name x.name, bytes_eq_iff x.name e.name),
  NamesDistinct-append es e (ground arith) d.1,
)

NamesValid-append :
    (es : List Enrollment) (e : Enrollment)
    → validate_enrollment_name e.name ≡ none
    → NamesValid es
    → NamesValid (es ++ e ∷ [])
NamesValid-append [] e h v = (h, tt)
NamesValid-append (x ∷ es) e h v = (v.0, NamesValid-append es e h v.1)

pub record IsWellFormed (es : List Enrollment) : Type 0 where
  pub distinct : NamesDistinct es
  pub valid : NamesValid es

-- Every outcome of `Add`, with the save working or not, keeps the names of a well-formed registry
-- distinct and valid.
pub add-IsWellFormed :
    (o : SaveOutcome) (e : Enrollment) (s : State)
    → IsWellFormed s.enrollments
    → IsWellFormed (add o e s).0.enrollments
unfolding add save_locked
add-IsWellFormed o e s w = elim (Option-cases (validate_enrollment_name e.name)) [
  | inr (err, k) ↦ rw (k, add) w
  | inl k ↦ elim (Option-cases (get e.name s.enrollments)) [
    | inr (x, g) ↦ rw (k, g, add) w
    | inl g ↦
        rw (k, g, add)
          (saved_or_not o (record {
            distinct = NamesDistinct-append s.enrollments e g w.distinct;
            valid = NamesValid-append s.enrollments e k w.valid;
          }))
  ]
]
  where
    saved_or_not :
        (o : SaveOutcome)
        → IsWellFormed (s.enrollments ++ e ∷ [])
        → IsWellFormed (
            if_saved
              (save_locked o (s.enrollments ++ e ∷ []) s.disk).1
              (s.enrollments ++ e ∷ [])
              (drop_last (s.enrollments ++ e ∷ [])))
    saved_or_not saved a = a
    saved_or_not main_failed a = rw (drop_last-append s.enrollments e) w
    saved_or_not backup_failed a = a

-- After an `Add` that returns nil, `Get` finds the new enrollment under its name, and under every
-- other name what it found before.
pub get-add :
    (o : SaveOutcome) (e : Enrollment) (s : State) (n : Bytes)
    → (add o e s).1 ≡ none
    → get n (add o e s).0.enrollments ≡ (if bytes_eq e.name n then some e else get n s.enrollments)
unfolding add
get-add o e s n h = elim (Option-cases (get n s.enrollments)) [
  | inl g ↦ ground (arith, get-append n s.enrollments e g, g)
  | inr (x, g) ↦ ground (arith, get-append_some n s.enrollments e x g, g, bytes_eq_iff e.name n)
]

-- The slice without its entry at `i`.
abbrev without : ℕ → List Enrollment → List Enrollment
without i es = take i es ++ drop (suc i) es

index_of-suc :
    (n : Bytes) (es : List Enrollment) (i j : ℕ)
    → index_of n es (suc i) ≡ some j
    → (k : ℕ) × (j ≡ suc k) × (index_of n es i ≡ some k)
unfolding index_of
index_of-suc n [] i j h = cc
index_of-suc n (e ∷ es) i j h = elim (Bool-cases (bytes_eq e.name n)) [
  | inl k ↦ (i, ground arith, ground arith)
  | inr k ↦ rw k (index_of-suc n es (i + 1) j (rw (k, suc_add) at h))
]
  where
    suc_add : suc i + 1 ≡ suc (i + 1)
    suc_add = omega arith

get-without :
    (n m : Bytes) (es : List Enrollment) (j : ℕ)
    → NamesDistinct es
    → index_of n es 0 ≡ some j
    → get m (without j es) ≡ (if bytes_eq n m then none else get m es)
unfolding get index_of
get-without n m [] j d h = cc
get-without n m (e ∷ es) j d h = elim (Bool-cases (bytes_eq e.name n)) [
  | inl k ↦
      let z : j ≡ 0 = ground arith in
      rw z (ground (arith, k, d.0, bytes_eq_iff e.name n, bytes_eq_iff n m, bytes_eq_iff e.name m))
  | inr k ↦
      let (i, z, at) = index_of-suc n es 0 j (ground (arith, h, k)) in
      rw z (
        ground (
          arith,
          k,
          get-without n m es i d.1 at,
          bytes_eq_iff e.name n,
          bytes_eq_iff n m,
          bytes_eq_iff e.name m,
        ))
]

NamesDistinct-without :
    (n : Bytes) (es : List Enrollment) (j : ℕ)
    → NamesDistinct es
    → index_of n es 0 ≡ some j
    → NamesDistinct (without j es)
unfolding index_of
NamesDistinct-without n [] j d h = cc
NamesDistinct-without n (e ∷ es) j d h = elim (Bool-cases (bytes_eq e.name n)) [
  | inl k ↦ let z : j ≡ 0 = ground arith in rw z d.1
  | inr k ↦
      let (i, z, at) = index_of-suc n es 0 j (ground (arith, h, k)) in
      rw z
        (ground (arith, get-without n e.name es i d.1 at, d.0), NamesDistinct-without n es i d.1 at)
]

NamesValid-without : (j : ℕ) (es : List Enrollment) → NamesValid es → NamesValid (without j es)
NamesValid-without j [] v = rw (without-nil j) tt
  where
    without-nil : (i : ℕ) → without i [] ≡ []
    without-nil zero = refl
    without-nil (suc i) = refl
NamesValid-without zero (e ∷ es) v = v.1
NamesValid-without (suc j) (e ∷ es) v = (v.0, NamesValid-without j es v.1)

-- What a successful `Remove` leaves.
removed_entries :
    (o : SaveOutcome) (n : Bytes) (s : State) (j : ℕ)
    → (remove o n s).1 ≡ none
    → index_of n s.enrollments 0 ≡ some j
    → (remove o n s).0.enrollments ≡ without j s.enrollments
unfolding remove save_locked
removed_entries saved n s j e k = rw (k, remove) refl
removed_entries main_failed n s j e k = ground arith
removed_entries backup_failed n s j e k = rw (k, remove) refl

remove_missing :
    (o : SaveOutcome) (n : Bytes) (s : State)
    → index_of n s.enrollments 0 ≡ none
    → (remove o n s).1 ≢ none
unfolding remove
remove_missing o n s k e = ground arith

-- Every outcome of `Remove`, with the save working or not, keeps the names of a well-formed
-- registry distinct and valid.
pub remove-IsWellFormed :
    (o : SaveOutcome) (n : Bytes) (s : State)
    → IsWellFormed s.enrollments
    → IsWellFormed (remove o n s).0.enrollments
unfolding remove
remove-IsWellFormed o n s w = elim (Option-cases (remove o n s).1) [
  | inr (err, e) ↦ rw (remove_error_unchanged o n s e) w
  | inl e ↦ elim (Option-cases (index_of n s.enrollments 0)) [
    | inl k ↦ rw (k, remove) w
    | inr (j, k) ↦ rw (removed_entries o n s j e k) (record {
      distinct = NamesDistinct-without n s.enrollments j w.distinct k;
      valid = NamesValid-without j s.enrollments w.valid;
    })
  ]
]

-- In a well-formed registry, after a `Remove` that returns nil the name is gone, and every other
-- name is found as before.
pub get-remove :
    (o : SaveOutcome) (n m : Bytes) (s : State)
    → IsWellFormed s.enrollments
    → (remove o n s).1 ≡ none
    → get m (remove o n s).0.enrollments ≡ (if bytes_eq n m then none else get m s.enrollments)
get-remove o n m s w e = elim (Option-cases (index_of n s.enrollments 0)) [
  | inl k ↦ absurd (remove_missing o n s k e)
  | inr (j, k) ↦ rw (removed_entries o n s j e k) (get-without n m s.enrollments j w.distinct k)
]
