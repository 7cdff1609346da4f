-- ===== src/Registry.antt =====
-- The agent's enrollment registry (internal/client/enrollments.go): the data, the two files it is
-- kept in, and the operations under its mutex. Each operation takes the state (the slice in memory
-- and the files) and what the disk does to a save, and returns the new state and the error.
-- A listen port is a natural number; `time.Time` is a number of ticks.
pub mod Name
pub mod Rollback
pub mod Persist
pub mod Ports
pub mod Unique
pub mod Refine
use hopssh.Base.{
  ℕ, zero, suc, ◌+◌, ◌-◌, ◌&&◌, ◌||◌, Bool, true, false, Option, none, some, List, [], ◌∷◌, ◌++◌,
  map, if◌then◌else◌, ◌==◌, ltb, length, take, drop, drop_last,
}
use hopssh.Base.Text.{Bytes, is_empty, bytes_eq, contains, sort_strings}
use hopssh.Base.StringSet.{normalize}
use Name.{validate_enrollment_name, NameError}

pub record Enrollment : Type 0 where
  pub name : Bytes
  pub node_id : Bytes
  pub network_id : Bytes
  pub endpoint : Bytes
  pub tun_mode : Bytes
  pub ca_fingerprint : Bytes
  pub dns_domain : Bytes
  pub listen_port : ℕ
  pub clipboard_sync : Bool
  pub enrolled_at : ℕ

-- What reading one registry file finds: no file, a read error, bytes that are no JSON document,
-- or a document with its version.
pub data FileState : Type 0 where
  absent unreadable malformed : FileState
  document : ℕ → List Enrollment → FileState

pub record Disk : Type 0 where
  pub main : FileState
  pub backup : FileState

pub record State : Type 0 where
  pub enrollments : List Enrollment
  pub disk : Disk

-- What the file system does to one call of `saveLocked`.
pub data SaveOutcome : Type 0 where
  saved main_failed backup_failed : SaveOutcome

pub data Error : Type 0 where
  bad_name : NameError → Error
  already_exists not_found save_failed : Error

abbrev registry_version : ℕ
registry_version = 1

-- The files after the save, and whether it returned nil.
unfoldable pub save_locked : SaveOutcome → List Enrollment → Disk → Disk × Option Error
save_locked saved es d =
    (record { main = document registry_version es; backup = document registry_version es }, none)
save_locked main_failed es d = (d, some save_failed)
save_locked backup_failed es d = (record d { main = document registry_version es }, none)

-- `readEnrollmentsFile`: the list, or whether the error is `os.ErrNotExist`.
pub data ReadResult : Type 0 where
  read : List Enrollment → ReadResult
  not_exist failed : ReadResult

unfoldable pub read_enrollments_file : FileState → ReadResult
read_enrollments_file absent = not_exist
read_enrollments_file unreadable = failed
read_enrollments_file malformed = failed
read_enrollments_file (document v es) = if v == registry_version then read es else failed

-- The backup after a failed read of the main file; `none` is an error or a missing backup.
read_backup : FileState → Option (List Enrollment)
unfolding read_enrollments_file
read_backup f = elim (read_enrollments_file f) [ read es ↦ some es | _ ↦ none ]

-- `loadEnrollmentRegistry`; `none` is the error of a corrupt main file with no usable backup.
pub load_enrollment_registry : Disk → Option (List Enrollment)
unfolding read_enrollments_file read_backup
load_enrollment_registry d = elim (read_enrollments_file d.main) [
  | read es ↦ some es
  | not_exist ↦ elim (read_backup d.backup) [ some es ↦ some es | none ↦ some [] ]
  | failed ↦ read_backup d.backup
]

-- What an operation keeps, by whether its save returned nil.
abbrev if_saved {ℓ} : {A : Type ℓ} → Option Error → A → A → A
if_saved none kept undone = kept
if_saved (some _) kept undone = undone

-- `Get`.
unfoldable pub get : Bytes → List Enrollment → Option Enrollment
get n [] = none
get n (e ∷ es) = if bytes_eq e.name n then some e else get n es

-- `Add`: the name check, the duplicate check, the append, the save and the rollback.
pub add : SaveOutcome → Enrollment → State → State × Option Error
add o e s = elim (validate_enrollment_name e.name) [
  | some err ↦ (s, some (bad_name err))
  | none ↦ elim (get e.name s.enrollments) [
    | some _ ↦ (s, some already_exists)
    | none ↦
        let appended = s.enrollments ++ e ∷ [] in
        let (d, err) = save_locked o appended s.disk in
        (record { enrollments = if_saved err appended (drop_last appended); disk = d }, err)
  ]
]

-- The position of the first enrollment of that name, counted from `i`.
pub index_of : Bytes → List Enrollment → ℕ → Option ℕ
index_of n [] i = none
index_of n (e ∷ es) i = if bytes_eq e.name n then some i else index_of n es (i + 1)

-- The part of `Remove` behind the search; `removed` is the slice of the one entry at `idx`.
pub remove_at : SaveOutcome → ℕ → State → State × Option Error
remove_at o idx s =
    let removed = take 1 (drop idx s.enrollments) in
    let kept = take idx s.enrollments ++ drop (suc idx) s.enrollments in
    let (d, err) = save_locked o kept s.disk in
    (
      record {
        enrollments = if_saved err kept (take idx kept ++ (removed ++ drop idx kept));
        disk = d;
      },
      err,
    )

pub remove : SaveOutcome → Bytes → State → State × Option Error
unfolding index_of remove_at
remove o n s = elim (index_of n s.enrollments 0) [
  | none ↦ (s, some not_found)
  | some idx ↦ remove_at o idx s
]

-- `Names` and `CAFingerprints`.
unfoldable names : List Enrollment → List Bytes
names es = sort_strings (map (λ e. e.name) es)

unfoldable ca_fingerprints : List Enrollment → List Bytes
ca_fingerprints es = normalize (λ _. true) (map (λ e. e.ca_fingerprint) es)

-- A write through the pointer that the loop finds first.
pub update_first : Bytes → (Enrollment → Enrollment) → List Enrollment → List Enrollment
update_first n f [] = []
update_first n f (e ∷ es) = if bytes_eq e.name n then f e ∷ es else e ∷ update_first n f es

abbrev pub same_bool : Bool → Bool → Bool
same_bool true b = b
same_bool false true = false
same_bool false false = true

pub set_clipboard_sync : SaveOutcome → Bytes → Bool → State → State × Option Error
set_clipboard_sync o n enabled s = elim (get n s.enrollments) [
  | none ↦ (s, some not_found)
  | some e ↦
      if same_bool e.clipboard_sync enabled
      then (s, none)
      else (let es = update_first n (λ x. record x { clipboard_sync = enabled }) s.enrollments in
          let (d, err) = save_locked o es s.disk in (record { enrollments = es; disk = d }, err))
]

unfoldable set_network_id : SaveOutcome → Bytes → Bytes → State → State × Option Error
set_network_id o n id s = elim (get n s.enrollments) [
  | none ↦ (s, some not_found)
  | some e ↦
      if bytes_eq e.network_id id
      then (s, none)
      else (let es = update_first n (λ x. record x { network_id = id }) s.enrollments in
          let (d, err) = save_locked o es s.disk in (record { enrollments = es; disk = d }, err))
]

-- Listen ports. `free` says which ports the operating system would bind (`udpPortAvailable`).
unfoldable pub port_used : ℕ → List Enrollment → Bool
port_used p [] = false
port_used p (e ∷ es) = (ltb 0 e.listen_port && e.listen_port == p) || port_used p es

-- The loop `for p := base; p < 65535; p++`, with the rounds left as its first argument.
unfoldable pub next_port_loop : (ℕ → Bool) → List Enrollment → ℕ → ℕ → ℕ
next_port_loop free es zero p = 0
next_port_loop free es (suc left) p =
    let rest = next_port_loop free es left (p + 1) in
    if port_used p es then rest else if free p then p else rest

unfoldable pub next_available_listen_port : (ℕ → Bool) → List Enrollment → ℕ → ℕ
next_available_listen_port free es base = next_port_loop free es (65535 - base) base

-- The body of the loop of `AssignMissingListenPorts`: the entry `e` between those before and after.
unfoldable pub assign_port :
    (ℕ → Bool) → ℕ → List Enrollment → Enrollment → List Enrollment → Enrollment
assign_port free base before e rest =
    if ltb 0 e.listen_port
    then e
    else record e { listen_port = next_available_listen_port free (before ++ e ∷ rest) base }

-- The loop itself, with its count: the registry in memory is `before ++ rest` throughout.
unfoldable pub assign_loop :
    (ℕ → Bool) → ℕ → List Enrollment → List Enrollment → ℕ → List Enrollment × ℕ
assign_loop free base before [] updated = (before, updated)
assign_loop free base before (e ∷ rest) updated =
    assign_loop free base (before ++ assign_port free base before e rest ∷ []) rest
      (if ltb 0 e.listen_port then updated else updated + 1)

unfoldable pub assign_missing_listen_ports :
    SaveOutcome → (ℕ → Bool) → ℕ → State → State × ℕ × Option Error
assign_missing_listen_ports o free base s =
    let (es, updated) = assign_loop free base [] s.enrollments 0 in
    if updated == 0
    then (s, 0, none)
    else (let (d, err) = save_locked o es s.disk in
        (record { enrollments = es; disk = d }, if_saved err updated 0, err))

-- The positions of the enrollments with port `p`, as `HealDuplicateListenPorts` groups them.
group_of : ℕ → List Enrollment → ℕ → List ℕ
group_of p [] i = []
group_of p (e ∷ es) i =
    let rest = group_of p es (i + 1) in if e.listen_port == p then i ∷ rest else rest

enrolled_at_of : List Enrollment → ℕ → ℕ
enrolled_at_of [] i = 0
enrolled_at_of (e ∷ es) zero = e.enrolled_at
enrolled_at_of (e ∷ es) (suc i) = enrolled_at_of es i

-- `sort.Slice` by `EnrolledAt`, oldest first.
insert_oldest : List Enrollment → ℕ → List ℕ → List ℕ
insert_oldest es i [] = i ∷ []
insert_oldest es i (j ∷ js) =
    if ltb (enrolled_at_of es j) (enrolled_at_of es i)
    then j ∷ insert_oldest es i js
    else i ∷ j ∷ js

sort_oldest : List Enrollment → List ℕ → List ℕ
unfolding insert_oldest enrolled_at_of
sort_oldest es [] = []
sort_oldest es (i ∷ is) = insert_oldest es i (sort_oldest es is)

unfoldable set_port : ℕ → ℕ → List Enrollment → List Enrollment
set_port i p [] = []
set_port zero p (e ∷ es) = record e { listen_port = p } ∷ es
set_port (suc i) p (e ∷ es) = e ∷ set_port i p es

name_of : List Enrollment → ℕ → Bytes
name_of [] i = []
name_of (e ∷ es) zero = e.name
name_of (e ∷ es) (suc i) = name_of es i

-- The loop over `group[1:]`.
renumber : (ℕ → Bool) → ℕ → List ℕ → List Enrollment → List Bytes → List Enrollment × List Bytes
unfolding name_of
renumber free base [] es renumbered = (es, renumbered)
renumber free base (i ∷ is) es renumbered =
    renumber free base is (set_port i (next_available_listen_port free es base) es)
      (renumbered ++ name_of es i ∷ [])

-- The loop over `byPort`; Go leaves the order of the ports open, so it is the argument `order`.
-- The groups are those of the registry `start` before any change.
unfoldable heal_groups :
    (ℕ → Bool)
    → ℕ
    → List Enrollment
    → List ℕ
    → List Enrollment
    → List Bytes
    → List Enrollment × List Bytes
unfolding group_of sort_oldest renumber
heal_groups free base start [] es renumbered = (es, renumbered)
heal_groups free base start (p ∷ order) es renumbered =
    let group = group_of p start 0 in
    let result =
      if ltb (length group) 2
      then (es, renumbered)
      else renumber free base (drop 1 (sort_oldest start group)) es renumbered in
    heal_groups free base start order result.0 result.1

unfoldable heal_duplicate_listen_ports :
    SaveOutcome → (ℕ → Bool) → ℕ → List ℕ → State → State × List Bytes × Option Error
heal_duplicate_listen_ports o free base order s =
    let (es, renumbered) = heal_groups free base s.enrollments order s.enrollments [] in
    if length renumbered == 0
    then (s, [], none)
    else (let (d, err) = save_locked o es s.disk in
        (record { enrollments = es; disk = d }, if_saved err renumbered [], err))
