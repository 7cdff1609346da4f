-- ===== src/Registry/Persist.antt =====
-- Saving and loading the registry.
use hopssh.Base.{◌≡◌, refl, ◌≢◌, none, some, List, [], ◌∷◌, ◌++◌, arith}
use hopssh.Registry.{
  Enrollment, State, Disk, FileState, absent, unreadable, malformed, document, SaveOutcome, saved,
  main_failed, backup_failed, save_locked, add, read, read_enrollments_file,
  load_enrollment_registry,
}

-- What a successful save wrote is what the next start of the agent loads.
load-save_locked :
    (o : SaveOutcome) (es : List Enrollment) (d : Disk)
    → (save_locked o es d).1 ≡ none
    → load_enrollment_registry (save_locked o es d).0 ≡ some es
unfolding save_locked load_enrollment_registry
load-save_locked saved es d h = refl
load-save_locked main_failed es d h = cc
load-save_locked backup_failed es d h = refl

-- A file that `readEnrollmentsFile` refuses.
abbrev IsDamaged : FileState → Type 0
IsDamaged f = (es : List Enrollment) → read_enrollments_file f ≢ read es

-- After a save that wrote both files, the registry loads with all its enrollments whatever replaces
-- the main file, provided that the replacement does not read as a registry.
pub load-damaged :
    (es : List Enrollment) (d : Disk) (f : FileState)
    → IsDamaged f
    → load_enrollment_registry (record (save_locked saved es d).0 { main = f }) ≡ some es
unfolding save_locked load_enrollment_registry
load-damaged es d absent h = refl
load-damaged es d unreadable h = refl
load-damaged es d malformed h = refl
load-damaged es d (document v l) h = ground (arith, h l)

-- After an `Add` that returns nil, loading the files gives the entries that were there with the new
-- one behind them, which is also what memory holds.
load-add :
    (o : SaveOutcome) (e : Enrollment) (s : State)
    → (add o e s).1 ≡ none
    → (load_enrollment_registry (add o e s).0.disk ≡ some (s.enrollments ++ e ∷ []))
      × ((add o e s).0.enrollments ≡ s.enrollments ++ e ∷ [])
unfolding add save_locked load_enrollment_registry
load-add saved e s h = ground arith
load-add main_failed e s h = ground arith
load-add backup_failed e s h = ground arith
