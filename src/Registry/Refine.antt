-- ===== src/Registry/Refine.antt =====
-- The registry and the map from names to enrollments that it stands for.
use hopssh.Base.{
  ℕ, suc, ◌+◌, ◌≡◌, refl, sym, ap, ◌∙◌, ◌⊎◌, inl, inr, Option, none, some, List, [], ◌∷◌, ◌++◌,
  if◌then◌else◌, Bool-cases, Option-cases, take, drop,
}
use hopssh.Base.Text.{Bytes, bytes_eq}
use hopssh.Registry.{
  Enrollment, State, SaveOutcome, saved, main_failed, backup_failed, Error, bad_name,
  already_exists, not_found, save_failed, save_locked, Disk, get, add, remove, remove_at, index_of,
}
use hopssh.Registry.Name.{validate_enrollment_name}
use hopssh.Registry.Rollback.{add_error_unchanged, remove_error_unchanged}
use hopssh.Registry.Unique.{
  IsWellFormed, add-IsWellFormed, remove-IsWellFormed, get-add, get-remove,
}

pub data Operation : Type 0 where
  adding : SaveOutcome → Enrollment → Operation
  removing : SaveOutcome → Bytes → Operation

pub perform : Operation → State → State × Option Error
perform (adding o e) s = add o e s
perform (removing o n) s = remove o n s

-- The operations in turn, with their answers.
pub run : List Operation → State → State × List (Option Error)
unfolding perform
run [] s = (s, [])
run (v ∷ vs) s =
    let (s', answer) = perform v s in let (end, answers) = run vs s' in (end, answer ∷ answers)

-- The abstract view: a map from names to enrollments.
abbrev pub NameMap : Type 0
NameMap = Bytes → Option Enrollment

save_answer : SaveOutcome → Option Error
save_answer saved = none
save_answer main_failed = some save_failed
save_answer backup_failed = none

-- Which operations the map refuses, and why.
answer_of : Operation → NameMap → Option Error
unfolding save_answer
answer_of (adding o e) m = elim (validate_enrollment_name e.name) [
  | some err ↦ some (bad_name err)
  | none ↦ elim (m e.name) [ some _ ↦ some already_exists | none ↦ save_answer o ]
]
answer_of (removing o n) m = elim (m n) [ none ↦ some not_found | some _ ↦ save_answer o ]

-- An operation that is not refused sets or clears its name.
accepted : Operation → NameMap → NameMap
accepted (adding o e) m n = if bytes_eq e.name n then some e else m n
accepted (removing o n) m k = if bytes_eq n k then none else m k

abbrev kept_if : Option Error → NameMap → NameMap → NameMap
kept_if none new old = new
kept_if (some _) new old = old

pub replay : List Operation → NameMap → NameMap × List (Option Error)
unfolding answer_of accepted
replay [] m = (m, [])
replay (v ∷ vs) m =
    let (end, answers) = replay vs (kept_if (answer_of v m) (accepted v m) m) in
    (end, answer_of v m ∷ answers)

-- The names that have an entry have an index.
index_of-get :
    (n : Bytes) (es : List Enrollment) (i : ℕ)
    → ((get n es ≡ none) × (index_of n es i ≡ none))
      ⊎ ((e : Enrollment) × (j : ℕ) × (get n es ≡ some e) × (index_of n es i ≡ some j))
unfolding get index_of
index_of-get n [] i = inl (refl, refl)
index_of-get n (e ∷ es) i = elim (Bool-cases (bytes_eq e.name n)) [
  | inl h ↦ inr (e, i, rw h refl, rw h refl)
  | inr h ↦ rw h (index_of-get n es (i + 1))
]

save_locked_answer :
    (o : SaveOutcome) (es : List Enrollment) (d : Disk) → (save_locked o es d).1 ≡ save_answer o
unfolding save_locked save_answer
save_locked_answer saved es d = refl
save_locked_answer main_failed es d = refl
save_locked_answer backup_failed es d = refl

perform_answer :
    (v : Operation) (s : State) (m : NameMap)
    → ((n : Bytes) → get n s.enrollments ≡ m n)
    → (perform v s).1 ≡ answer_of v m
unfolding perform answer_of add remove remove_at
perform_answer (adding o e) s m h = elim (Option-cases (validate_enrollment_name e.name)) [
  | inr (err, k) ↦ rw (k, add, answer_of) refl
  | inl k ↦ elim (Option-cases (get e.name s.enrollments)) [
    | inr (x, g) ↦ rw (k, g, sym (h e.name) ∙ g, add, answer_of) refl
    | inl g ↦
        rw (k, g, sym (h e.name) ∙ g, add, answer_of)
          (save_locked_answer o (s.enrollments ++ e ∷ []) s.disk)
  ]
]
perform_answer (removing o n) s m h = elim (index_of-get n s.enrollments 0) [
  | inl (g, k) ↦ rw (k, sym (h n) ∙ g, remove, answer_of) refl
  | inr (e, j, g, k) ↦
      rw (k, sym (h n) ∙ g, remove, answer_of)
        (save_locked_answer o (take j s.enrollments ++ drop (suc j) s.enrollments) s.disk)
]

perform-IsWellFormed :
    (v : Operation) (s : State)
    → IsWellFormed s.enrollments
    → IsWellFormed (perform v s).0.enrollments
unfolding perform
perform-IsWellFormed (adding o e) s w = add-IsWellFormed o e s w
perform-IsWellFormed (removing o n) s w = remove-IsWellFormed o n s w

perform-accepted :
    (v : Operation) (s : State) (n : Bytes)
    → IsWellFormed s.enrollments
    → (perform v s).1 ≡ none
    → get n (perform v s).0.enrollments ≡ accepted v (λ k. get k s.enrollments) n
unfolding perform accepted
perform-accepted (adding o e) s n w h = get-add o e s n h
perform-accepted (removing o k) s n w h = get-remove o k n s w h

-- An `Add` or a `Remove` that returns an error leaves the registry in memory and its files as they
-- were.
pub perform_refused :
    (v : Operation) (s : State) (err : Error) → (perform v s).1 ≡ some err → (perform v s).0 ≡ s
unfolding perform
perform_refused (adding o e) s err h = add_error_unchanged o e s h
perform_refused (removing o k) s err h = remove_error_unchanged o k s h

accepted_same :
    (v : Operation) (m m' : NameMap) (n : Bytes)
    → ((k : Bytes) → m k ≡ m' k)
    → accepted v m n ≡ accepted v m' n
unfolding accepted
accepted_same (adding o e) m m' n h = rw (h n) refl
accepted_same (removing o k) m m' n h = rw (h n) refl

perform_refines :
    (v : Operation) (s : State) (m : NameMap)
    → IsWellFormed s.enrollments
    → ((n : Bytes) → get n s.enrollments ≡ m n)
    → (n : Bytes) → get n (perform v s).0.enrollments ≡ kept_if (answer_of v m) (accepted v m) m n
perform_refines v s m w h n = elim (Option-cases (perform v s).1) [
  | inl a ↦
      rw (sym (perform_answer v s m h) ∙ a)
        (perform-accepted v s n w a ∙ accepted_same v (λ k. get k s.enrollments) m n h)
  | inr (err, a) ↦
      rw (sym (perform_answer v s m h) ∙ a)
        (ap (λ x. get n x.enrollments) (perform_refused v s err a) ∙ h n)
]

-- Any list of `Add` and `Remove` calls, each with its outcome of the save, on a well-formed
-- registry, against a map from names to enrollments that agrees with `Get`: every call returns the
-- error that the specification on the map gives, and afterwards the registry is well-formed (its
-- names are valid and distinct) and `Get` agrees with the map.
pub run_refines :
    (vs : List Operation) (s : State) (m : NameMap)
    → IsWellFormed s.enrollments
    → ((n : Bytes) → get n s.enrollments ≡ m n)
    → ((run vs s).1 ≡ (replay vs m).1)
      × IsWellFormed (run vs s).0.enrollments
      × ((n : Bytes) → get n (run vs s).0.enrollments ≡ (replay vs m).0 n)
unfolding run replay
run_refines [] s m w h = (refl, w, h)
run_refines (v ∷ vs) s m w h =
    let (answers, well, same) =
      run_refines vs (perform v s).0 (kept_if (answer_of v m) (accepted v m) m)
        (perform-IsWellFormed v s w) (perform_refines v s m w h) in
    (rw (perform_answer v s m h, answers) refl, well, same)
