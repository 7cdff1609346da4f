-- ===== src/Registry/Rollback.antt =====
-- Failed operations on the registry: what they leave in memory and on disk.
use hopssh.Base.{
  ℕ, zero, suc, ◌≡◌, refl, ap, inl, inr, Bool, true, false, none, some, List, [], ◌∷◌, ◌++◌, arith,
  Bool-cases, Option-cases, take, drop, drop_last-append,
}
use hopssh.Base.Text.{Bytes, bytes_eq}
use hopssh.Registry.{
  Enrollment, State, SaveOutcome, saved, main_failed, backup_failed, Error, save_failed,
  save_locked, get, add, remove_at, remove, index_of, update_first, same_bool, set_clipboard_sync,
}

-- An `Add` that returns an error leaves the registry in memory and its files as they were.
pub add_error_unchanged :
    (o : SaveOutcome) (e : Enrollment) (s : State) {err : Error}
    → (add o e s).1 ≡ some err
    → (add o e s).0 ≡ s
unfolding add save_locked
add_error_unchanged saved e s h = ground arith
add_error_unchanged main_failed e s h = ground (arith, drop_last-append s.enrollments e)
add_error_unchanged backup_failed e s h = ground arith

-- Taking out the entry at `i` and putting it back.
undo_remove {ℓ} :
    {A : Type ℓ} (i : ℕ) (xs : List A)
    → let kept = take i xs ++ drop (suc i) xs in
      take i kept ++ (take 1 (drop i xs) ++ drop i kept) ≡ xs
undo_remove zero [] = refl
undo_remove zero (x ∷ xs) = refl
undo_remove (suc i) [] = refl
undo_remove (suc i) (x ∷ xs) = ap (◌∷◌ x) (undo_remove i xs)

remove_at_error_unchanged :
    (o : SaveOutcome) (i : ℕ) (s : State) {err : Error}
    → (remove_at o i s).1 ≡ some err
    → (remove_at o i s).0 ≡ s
unfolding remove_at save_locked
remove_at_error_unchanged saved i s h = ground arith
remove_at_error_unchanged main_failed i s h =
    ap (λ es. record s { enrollments = es }) (undo_remove i s.enrollments)
remove_at_error_unchanged backup_failed i s h = ground arith

-- A `Remove` that returns an error leaves the registry in memory and its files as they were.
pub remove_error_unchanged :
    (o : SaveOutcome) (n : Bytes) (s : State) {err : Error}
    → (remove o n s).1 ≡ some err
    → (remove o n s).0 ≡ s
unfolding remove
remove_error_unchanged o n s h = elim (Option-cases (index_of n s.enrollments 0)) [
  | inl e ↦ rw (e, remove) refl
  | inr (i, e) ↦ rw (e, remove) (remove_at_error_unchanged o i s (rw (e, remove) at h))
]

get-update_first :
    (n : Bytes) (f : Enrollment → Enrollment) (es : List Enrollment) (e : Enrollment)
    → ((x : Enrollment) → (f x).name ≡ x.name)
    → get n es ≡ some e
    → get n (update_first n f es) ≡ some (f e)
unfolding get update_first
get-update_first n f [] e same h = cc
get-update_first n f (x ∷ es) e same h = elim (Bool-cases (bytes_eq x.name n)) [
  | inl k ↦ ground (arith, k, same x)
  | inr k ↦ ground (arith, k, get-update_first n f es e same)
]

-- If `SetClipboardSync` changes the flag of an enrollment that exists and its save fails, it
-- returns the error and leaves the disk as it was, and a second call with the same value returns
-- nil without a write.
pub set_clipboard_sync_lost :
    (o : SaveOutcome) (n : Bytes) (enabled : Bool) (s : State) {e : Enrollment}
    → get n s.enrollments ≡ some e
    → same_bool e.clipboard_sync enabled ≡ false
    → let s' = (set_clipboard_sync main_failed n enabled s).0 in
      ((set_clipboard_sync main_failed n enabled s).1 ≡ some save_failed)
      × (set_clipboard_sync o n enabled s' ≡ (s', none))
      × (s'.disk ≡ s.disk)
unfolding set_clipboard_sync save_locked
set_clipboard_sync_lost o n enabled s {e} h d = ground (
  arith,
  get-update_first n (λ x. record x { clipboard_sync = enabled }) s.enrollments e (λ x. refl) h,
  same_bool_refl enabled,
)
  where
    same_bool_refl : (b : Bool) → same_bool b b ≡ true
    same_bool_refl true = refl
    same_bool_refl false = refl
