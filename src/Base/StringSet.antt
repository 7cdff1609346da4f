-- ===== src/Base/StringSet.antt =====
-- Sets of strings kept as sorted slices without repetitions: the loop that `normalizeRelays`
-- (internal/client/relay_state.go) and `normalizeEndpoints` (internal/client/peer_cache.go) share.
use hopssh.Base.{
  sym, ◌≡◌, refl, ◌∙◌, inl, inr, Bool, true, false, not, ◌&&◌, ◌||◌, List, [], ◌∷◌, All, arith,
  if◌then◌else◌, Bool-cases,
}
use hopssh.Base.Text.{
  Bytes, is_empty, bytes_eq, bytes_eq_iff, bytes_eq_refl, bytes_lt, bytes_lt_irrefl, bytes_lt_trans,
  bytes_lt_total, contains, insert_string, sort_strings, contains-sort_strings,
}

-- The loop over the input with its `seen` map; `valid` is the check of a single string.
unfoldable pub dedup_loop : (Bytes → Bool) → List Bytes → List Bytes → List Bytes
dedup_loop valid seen [] = []
dedup_loop valid seen (s ∷ ss) =
    let skip = is_empty s || contains seen s || not (valid s) in
    let rest = dedup_loop valid (if skip then seen else (s ∷ seen)) ss in
    if skip then rest else s ∷ rest

unfoldable pub normalize : (Bytes → Bool) → List Bytes → List Bytes
unfolding dedup_loop sort_strings
normalize valid ss = sort_strings (dedup_loop valid [] ss)

-- What the input says of a string, without order or repetition.
abbrev pub listed : (Bytes → Bool) → List Bytes → Bytes → Bool
listed valid ss a = contains ss a && (not (is_empty a) && valid a)

contains-dedup_loop :
    (valid : Bytes → Bool) (seen ss : List Bytes) (a : Bytes)
    → contains (dedup_loop valid seen ss) a ≡ (listed valid ss a && not (contains seen a))
unfolding contains dedup_loop
contains-dedup_loop valid seen [] a = refl
contains-dedup_loop valid seen (s ∷ ss) a = elim (Bool-cases (bytes_eq s a)) [
  | inl e ↦ rw (← (bytes_eq_iff s a).0 e) (
      ground (
        arith,
        bytes_eq_refl s,
        contains-dedup_loop valid seen ss s,
        contains-dedup_loop valid (s ∷ seen) ss s,
      ))
  | inr n ↦
      ground
        (arith, n, contains-dedup_loop valid seen ss a, contains-dedup_loop valid (s ∷ seen) ss a)
]

-- A string is in the result exactly if it is listed in the input.
pub contains-normalize :
    (valid : Bytes → Bool) (ss : List Bytes) (a : Bytes)
    → contains (normalize valid ss) a ≡ listed valid ss a
unfolding normalize contains
contains-normalize valid ss a = contains-sort_strings a (dedup_loop valid [] ss) ∙ unseen
  where
    unseen : contains (dedup_loop valid [] ss) a ≡ listed valid ss a
    unseen = ground (arith, contains-dedup_loop valid [] ss a)

abbrev pub NoRepeat : List Bytes → Type 0
NoRepeat [] = Unit
NoRepeat (x ∷ xs) = (contains xs x ≡ false) × NoRepeat xs

-- Strictly rising in the order of `sort.Strings`.
abbrev pub Rising : List Bytes → Type 0
Rising [] = Unit
Rising (x ∷ xs) = All (λ y. bytes_lt x y ≡ true) xs × Rising xs

dedup_loop-NoRepeat :
    (valid : Bytes → Bool) (seen ss : List Bytes) → NoRepeat (dedup_loop valid seen ss)
unfolding contains dedup_loop
dedup_loop-NoRepeat valid seen [] = tt
dedup_loop-NoRepeat valid seen (s ∷ ss) = ground (
  arith,
  bytes_eq_refl s,
  contains-dedup_loop valid (s ∷ seen) ss s,
  dedup_loop-NoRepeat valid seen ss,
  dedup_loop-NoRepeat valid (s ∷ seen) ss,
)

Above-trans :
    (a b : Bytes) (xs : List Bytes)
    → bytes_lt a b ≡ true
    → All (λ y. bytes_lt b y ≡ true) xs
    → All (λ y. bytes_lt a y ≡ true) xs
Above-trans a b [] h k = tt
Above-trans a b (x ∷ xs) h k = (bytes_lt_trans a b x h k.0, Above-trans a b xs h k.1)

Above-insert_string :
    (c a : Bytes) (xs : List Bytes)
    → bytes_lt c a ≡ true
    → All (λ y. bytes_lt c y ≡ true) xs
    → All (λ y. bytes_lt c y ≡ true) (insert_string a xs)
unfolding insert_string
Above-insert_string c a [] h k = (h, tt)
Above-insert_string c a (x ∷ xs) h k = elim (Bool-cases (bytes_lt x a)) [
  | inl e ↦ rw e (k.0, Above-insert_string c a xs h k.1)
  | inr e ↦ rw e (h, (k.0, k.1))
]

insert_string-Rising :
    (a : Bytes) (xs : List Bytes) → contains xs a ≡ false → Rising xs → Rising (insert_string a xs)
unfolding insert_string contains
insert_string-Rising a [] n r = (tt, tt)
insert_string-Rising a (x ∷ xs) n r = elim (Bool-cases (bytes_lt x a)) [
  | inl e ↦ rw e (Above-insert_string x a xs e r.0, insert_string-Rising a xs (ground arith) r.1)
  | inr e ↦ rw e ((less e, Above-trans a x xs (less e) r.0), (r.0, r.1))
]
  where
    less : bytes_lt x a ≡ false → bytes_lt a x ≡ true
    less e = elim (Bool-cases (bytes_lt a x)) [
      | inl k ↦ k
      | inr k ↦ ground (arith, bytes_lt_total x a e k, bytes_eq_iff x a)
    ]

sort_strings-Rising : (xs : List Bytes) → NoRepeat xs → Rising (sort_strings xs)
unfolding sort_strings
sort_strings-Rising [] n = tt
sort_strings-Rising (x ∷ xs) n =
    insert_string-Rising x (sort_strings xs) (contains-sort_strings x xs ∙ n.0)
      (sort_strings-Rising xs n.1)

pub normalize-Rising : (valid : Bytes → Bool) (ss : List Bytes) → Rising (normalize valid ss)
unfolding normalize
normalize-Rising valid ss =
    sort_strings-Rising (dedup_loop valid [] ss) (dedup_loop-NoRepeat valid [] ss)

-- A member of a list that lies above `a` lies above `a`.
lt_of_contains :
    (a b : Bytes) (xs : List Bytes)
    → All (λ y. bytes_lt a y ≡ true) xs
    → contains xs b ≡ true
    → bytes_lt a b ≡ true
unfolding contains
lt_of_contains a b [] h k = cc
lt_of_contains a b (x ∷ xs) h k = elim (Bool-cases (bytes_eq x b)) [
  | inl e ↦ rw (← (bytes_eq_iff x b).0 e) h.0
  | inr n ↦ lt_of_contains a b xs h.1 (ground arith)
]

not-contains_self :
    (a : Bytes) (xs : List Bytes) → All (λ y. bytes_lt a y ≡ true) xs → contains xs a ≡ false
not-contains_self a xs h = elim (Bool-cases (contains xs a)) [
  | inl e ↦ ground (arith, lt_of_contains a a xs h e, bytes_lt_irrefl a)
  | inr n ↦ n
]

heads_equal :
    (x y : Bytes) (xs ys : List Bytes)
    → Rising (x ∷ xs)
    → Rising (y ∷ ys)
    → ((a : Bytes) → contains (x ∷ xs) a ≡ contains (y ∷ ys) a)
    → x ≡ y
unfolding contains
heads_equal x y xs ys r s same = elim (Bool-cases (bytes_eq x y)) [
  | inl e ↦ (bytes_eq_iff x y).0 e
  | inr n ↦ ground (
    arith,
    same x,
    same y,
    bytes_eq_refl x,
    bytes_eq_refl y,
    bytes_eq_iff x y,
    bytes_eq_iff y x,
    lt_of_contains x y xs r.0,
    lt_of_contains y x ys s.0,
    bytes_lt_trans x y x,
    bytes_lt_irrefl x,
  )
]

-- Rising lists with the same members are equal.
pub Rising-unique :
    (xs ys : List Bytes)
    → Rising xs
    → Rising ys
    → ((a : Bytes) → contains xs a ≡ contains ys a)
    → xs ≡ ys
unfolding contains
Rising-unique [] [] r s same = refl
Rising-unique [] (y ∷ ys) r s same = ground (arith, same y, bytes_eq_refl y)
Rising-unique (x ∷ xs) [] r s same = ground (arith, same x, bytes_eq_refl x)
Rising-unique (x ∷ xs) (y ∷ ys) r s same =
    let e : x ≡ y = heads_equal x y xs ys r s same in cc (e, Rising-unique xs ys r.1 s.1 (tails e))
  where
    tails : x ≡ y → (a : Bytes) → contains xs a ≡ contains ys a
    tails e a = ground (
      arith,
      e,
      same a,
      bytes_eq_iff x a,
      bytes_eq_iff y a,
      not-contains_self x xs r.0,
      not-contains_self y ys s.0,
    )

-- The normal form depends only on what is listed, not on order or repetition.
pub normalize_canonical :
    (valid : Bytes → Bool) (ss ts : List Bytes)
    → ((a : Bytes) → listed valid ss a ≡ listed valid ts a)
    → normalize valid ss ≡ normalize valid ts
normalize_canonical valid ss ts same =
    Rising-unique (normalize valid ss) (normalize valid ts) (normalize-Rising valid ss)
      (normalize-Rising valid ts)
      (λ a. contains-normalize valid ss a ∙ (same a ∙ sym (contains-normalize valid ts a)))

pub normalize_idem :
    (valid : Bytes → Bool) (ss : List Bytes)
    → normalize valid (normalize valid ss) ≡ normalize valid ss
normalize_idem valid ss =
    normalize_canonical valid (normalize valid ss) ss
      (λ a. ground (arith, contains-normalize valid ss a))
