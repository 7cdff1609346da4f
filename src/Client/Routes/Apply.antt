-- ===== src/Client/Routes/Apply.antt =====
-- Updates of the routes that succeed, repeat and fail.
use hopssh.Base.{
  ◌≡◌, refl, ap, inl, inr, Bool, true, false, ◌||◌, Option, List, [], ◌∷◌, ◌++◌, map, arith, ◌==◌,
  Bool-cases, All,
}
use hopssh.Base.Text.{Bytes, is_empty, bytes_eq_iff, bytes_eq_refl, contains}
use hopssh.Base.StringSet.{normalize, dedup_loop}
use hopssh.Base.Text.{insert_string, sort_strings, bytes_lt}
use hopssh.Client.Routes.{
  State, Outcomes, newline, normalise_routes, routes_equal, split_lines, trimmed_lines,
  load_persisted_routes, join_lines, persist_routes, rewrite_nebula_unsafe_routes,
  apply_routes_update,
}

routes_equal_refl : (rs : List Bytes) → routes_equal rs rs ≡ true
unfolding routes_equal
routes_equal_refl [] = refl
routes_equal_refl (r ∷ rs) = ground (arith, bytes_eq_refl r, routes_equal_refl rs)

abbrev has_newline : Bytes → Bool
has_newline [] = false
has_newline (c ∷ cs) = (c == newline) || has_newline cs

All-insert_string {ℓ} :
    (P : Bytes → Type ℓ) (a : Bytes) (xs : List Bytes) → P a → All P xs → All P (insert_string a xs)
unfolding insert_string
All-insert_string P a [] p ps = (p, tt)
All-insert_string P a (x ∷ xs) p ps = elim (Bool-cases (bytes_lt x a)) [
  | inl e ↦ rw e (ps.0, All-insert_string P a xs p ps.1)
  | inr e ↦ rw e (p, ps)
]

All-sort_strings {ℓ} : (P : Bytes → Type ℓ) (xs : List Bytes) → All P xs → All P (sort_strings xs)
unfolding sort_strings
All-sort_strings P [] ps = tt
All-sort_strings P (x ∷ xs) ps =
    All-insert_string P x (sort_strings xs) ps.0 (All-sort_strings P xs ps.1)

-- What the lines of routes.json are: not empty, trimmed, on one line.
abbrev IsLine : (Bytes → Bytes) → Bytes → Type 0
IsLine trim r = (is_empty r ≡ false) × (trim r ≡ r) × (has_newline r ≡ false)

IsLine-dedup_loop :
    (trim : Bytes → Bytes) (seen routes : List Bytes)
    → ((s : Bytes) → trim (trim s) ≡ trim s)
    → All (λ r. has_newline (trim r) ≡ false) routes
    → All (IsLine trim) (dedup_loop (λ _. true) seen (map trim routes))
unfolding dedup_loop
IsLine-dedup_loop trim seen [] idem n = tt
IsLine-dedup_loop trim seen (r ∷ rs) idem n = elim (Bool-cases (is_empty (trim r))) [
  | inl e ↦ rw e (IsLine-dedup_loop trim seen rs idem n.1)
  | inr e ↦ elim (Bool-cases (contains seen (trim r))) [
    | inl c ↦ rw (e, c) (IsLine-dedup_loop trim seen rs idem n.1)
    | inr c ↦ rw (e, c) ((e, idem r, n.0), IsLine-dedup_loop trim (trim r ∷ seen) rs idem n.1)
  ]
]

split_lines-append :
    (r cs : Bytes) → has_newline r ≡ false → split_lines (r ++ (newline ∷ cs)) ≡ r ∷ split_lines cs
unfolding split_lines
split_lines-append [] cs n = refl
split_lines-append (c ∷ r) cs n = ground (arith, split_lines-append r cs, n)

trimmed_lines-join :
    (trim : Bytes → Bytes) (rs : List Bytes)
    → trim [] ≡ []
    → All (IsLine trim) rs
    → trimmed_lines trim (split_lines (join_lines rs)) ≡ rs
unfolding trimmed_lines split_lines join_lines
trimmed_lines-join trim [] z l = rw z refl
trimmed_lines-join trim (r ∷ rs) z ((e, t, n), l) =
    rw (split_lines-append r (join_lines rs) n, trimmed_lines)
      (rw (t, e) (ap (λ x. r ∷ x) (trimmed_lines-join trim rs z l)))

normalised_lines :
    (trim : Bytes → Bytes) (fresh : List Bytes)
    → ((s : Bytes) → trim (trim s) ≡ trim s)
    → All (λ r. has_newline (trim r) ≡ false) fresh
    → All (IsLine trim) (normalise_routes trim fresh)
unfolding normalise_routes normalize
normalised_lines trim fresh idem n =
    All-sort_strings (IsLine trim) (dedup_loop (λ _. true) [] (map trim fresh))
      (IsLine-dedup_loop trim [] fresh idem n)

-- What routes.json was written with is read back.
load-persist_routes :
    (trim : Bytes → Bytes) (rs : List Bytes) (file : Option Bytes)
    → trim [] ≡ []
    → All (IsLine trim) rs
    → load_persisted_routes trim true (persist_routes true rs file).0 ≡ rs
unfolding load_persisted_routes persist_routes
load-persist_routes trim [] file z l = refl
load-persist_routes trim (r ∷ rs) file z l = trimmed_lines-join trim (r ∷ rs) z l

routes_equal_sound : (as' bs : List Bytes) → routes_equal as' bs ≡ true → as' ≡ bs
unfolding routes_equal
routes_equal_sound [] [] h = refl
routes_equal_sound [] (b ∷ bs) h = absurd (ground (arith, h))
routes_equal_sound (a ∷ as') [] h = absurd (ground (arith, h))
routes_equal_sound (a ∷ as') (b ∷ bs) h =
    ground (arith, h, bytes_eq_iff a b, routes_equal_sound as' bs)

-- A state whose routes.json holds the list is left alone.
skipped :
    (trim : Bytes → Bytes) (o : Outcomes) (fresh : List Bytes) (s : State)
    → load_persisted_routes trim o.reads s.file ≡ normalise_routes trim fresh
    → apply_routes_update trim o fresh s ≡ s
unfolding apply_routes_update
skipped trim o fresh s h = rw (h, routes_equal_refl (normalise_routes trim fresh)) refl

-- After an update, routes.json holds the list, whatever happened to nebula.yaml.
file_holds :
    (trim : Bytes → Bytes) (rewrites : Bool) (fresh : List Bytes) (s : State)
    → trim [] ≡ []
    → ((t : Bytes) → trim (trim t) ≡ trim t)
    → All (λ r. has_newline (trim r) ≡ false) fresh
    → load_persisted_routes trim true
        (apply_routes_update trim
          (record { reads = true; persists = true; rewrites = rewrites })
          fresh
          s).file
      ≡ normalise_routes trim fresh
unfolding apply_routes_update
file_holds trim rewrites fresh s z idem n = ground (
  arith,
  load-persist_routes trim (normalise_routes trim fresh) s.file z
      (normalised_lines trim fresh idem n),
  routes_equal_sound (normalise_routes trim fresh) (load_persisted_routes trim true s.file),
)

-- If routes.json can be read and the first update can write it, a second update with the same list
-- does nothing, whether or not the first one rewrote nebula.yaml. The trimming keeps the empty
-- string, is idempotent and leaves no line break in the routes.
same_list_skipped :
    (trim : Bytes → Bytes) (rewrites rewrites' persists' : Bool) (fresh : List Bytes) (s : State)
    → trim [] ≡ []
    → ((t : Bytes) → trim (trim t) ≡ trim t)
    → All (λ r. has_newline (trim r) ≡ false) fresh
    → apply_routes_update trim
        (record { reads = true; persists = persists'; rewrites = rewrites' })
        fresh
        (apply_routes_update trim
          (record { reads = true; persists = true; rewrites = rewrites })
          fresh
          s)
      ≡ apply_routes_update trim
          (record { reads = true; persists = true; rewrites = rewrites })
          fresh
          s
same_list_skipped trim rewrites rewrites' persists' fresh s z idem n =
    skipped trim (record { reads = true; persists = persists'; rewrites = rewrites' }) fresh
      (apply_routes_update trim (record { reads = true; persists = true; rewrites = rewrites })
        fresh s)
      (file_holds trim rewrites fresh s z idem n)

not_rewritten :
    (trim : Bytes → Bytes) (fresh : List Bytes) (s : State)
    → let s' =
        apply_routes_update trim
          (record { reads = true; persists = true; rewrites = false })
          fresh
          s in
      (s'.unsafe_routes ≡ s.unsafe_routes) × (s'.reloads ≡ s.reloads)
unfolding apply_routes_update rewrite_nebula_unsafe_routes
not_rewritten trim fresh s = ground arith

-- An update that wrote routes.json and failed on nebula.yaml is not made up for: a next update with
-- the same list changes neither the routes in nebula.yaml nor the count of reloads, though its
-- writes would work. The trimming keeps the empty string, is idempotent and leaves no line break in
-- the routes.
pub failed_rewrite_lost :
    (trim : Bytes → Bytes) (fresh : List Bytes) (s : State)
    → trim [] ≡ []
    → ((t : Bytes) → trim (trim t) ≡ trim t)
    → All (λ r. has_newline (trim r) ≡ false) fresh
    → let s' =
        apply_routes_update trim
          (record { reads = true; persists = true; rewrites = true })
          fresh
          (apply_routes_update trim
            (record { reads = true; persists = true; rewrites = false })
            fresh
            s) in
      (s'.unsafe_routes ≡ s.unsafe_routes) × (s'.reloads ≡ s.reloads)
failed_rewrite_lost trim fresh s z idem n =
    rw (same_list_skipped trim false true true fresh s z idem n) (not_rewritten trim fresh s)
