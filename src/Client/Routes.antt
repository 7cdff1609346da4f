-- ===== src/Client/Routes.antt =====
-- The subnet routes that the server pushes (internal/client/routes.go). `trim` is
-- strings.TrimSpace. Of nebula.yaml only the list of `tun.unsafe_routes` is kept; an empty list
-- stands for the missing key.
pub mod Apply
use hopssh.Base.{
  ℕ, zero, suc, ◌+◌, ◌-◌, ◌*◌, ◌/◌, ◌%◌, ◌≤◌, ◌<◌, ◌≡◌, refl, sym, ap, ◌∙◌, ◌≢◌, ◌↔◌, ◌⊎◌, inl, inr,
  Bool, true, false, not, ◌&&◌, ◌||◌, Option, none, some, List, [], ◌∷◌, ◌++◌, map, arith, ltb, leb,
  ◌==◌, if◌then◌else◌, ltb→lt, lt→ltb, leb→le, ==_iff, Bool-cases, Option-cases, length, get_or,
  take, drop, drop_last, replicate, All, length-append, drop_last-append,
}
use hopssh.Base.Text.{Bytes, codes, is_empty, bytes_eq, bytes_eq_iff, bytes_eq_refl, contains}
use hopssh.Base.StringSet.{normalize}

-- `file` is routes.json if it is there, `unsafe_routes` what nebula.yaml says, `reloads` counts
-- the calls of reloadNebula.
pub record State : Type 0 where
  pub file : Option Bytes
  pub unsafe_routes : List Bytes
  pub reloads : ℕ

-- What the file system does to one update: whether routes.json can be read, whether it can be
-- written or removed, and whether nebula.yaml can be read, parsed and written.
pub record Outcomes : Type 0 where
  pub reads : Bool
  pub persists : Bool
  pub rewrites : Bool

abbrev pub newline : ℕ
newline = 10

unfoldable pub normalise_routes : (Bytes → Bytes) → List Bytes → List Bytes
normalise_routes trim routes = normalize (λ _. true) (map trim routes)

unfoldable pub routes_equal : List Bytes → List Bytes → Bool
routes_equal [] [] = true
routes_equal [] (b ∷ bs) = false
routes_equal (a ∷ as') [] = false
routes_equal (a ∷ as') (b ∷ bs) = bytes_eq a b && routes_equal as' bs

abbrev prepend : ℕ → List Bytes → List Bytes
prepend c [] = (c ∷ []) ∷ []
prepend c (l ∷ ls) = (c ∷ l) ∷ ls

-- strings.Split(s, "\n")
pub split_lines : Bytes → List Bytes
split_lines [] = [] ∷ []
split_lines (c ∷ cs) =
    let rest = split_lines cs in if c == newline then [] ∷ rest else prepend c rest

pub trimmed_lines : (Bytes → Bytes) → List Bytes → List Bytes
trimmed_lines trim [] = []
trimmed_lines trim (l ∷ ls) =
    let rest = trimmed_lines trim ls in if is_empty (trim l) then rest else trim l ∷ rest

unfoldable pub load_persisted_routes : (Bytes → Bytes) → Bool → Option Bytes → List Bytes
load_persisted_routes trim reads none = []
load_persisted_routes trim reads (some content) =
    if reads then trimmed_lines trim (split_lines content) else []

-- strings.Join(routes, "\n") + "\n" of a list that is not empty.
pub join_lines : List Bytes → Bytes
join_lines [] = []
join_lines (r ∷ rs) = r ++ (newline ∷ join_lines rs)

-- The file afterwards, and whether the call returns nil. A failed removal is not reported.
unfoldable pub persist_routes : Bool → List Bytes → Option Bytes → Option Bytes × Bool
persist_routes persists [] file = (if persists then none else file, true)
persist_routes persists (r ∷ rs) file =
    if persists then (some (join_lines (r ∷ rs)), true) else (file, false)

-- The list in nebula.yaml afterwards, and whether the call returns nil.
unfoldable pub rewrite_nebula_unsafe_routes : Bool → List Bytes → List Bytes → List Bytes × Bool
rewrite_nebula_unsafe_routes rewrites routes before =
    if rewrites then (routes, true) else (before, false)

unfoldable pub apply_routes_update : (Bytes → Bytes) → Outcomes → List Bytes → State → State
apply_routes_update trim o fresh s =
    let cleaned = normalise_routes trim fresh in
    let (file', persisted) = persist_routes o.persists cleaned s.file in
    let (routes', rewritten) = rewrite_nebula_unsafe_routes o.rewrites cleaned s.unsafe_routes in
    if routes_equal cleaned (load_persisted_routes trim o.reads s.file)
    then s
    else if not persisted
    then record s { file = file' }
    else if not rewritten
    then record s { file = file'; unsafe_routes = routes' }
    else record { file = file'; unsafe_routes = routes'; reloads = s.reloads + 1 }
