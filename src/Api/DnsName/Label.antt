-- ===== src/Api/DnsName/Label.antt =====
-- What the sanitized name is, and why the loop ends.
use hopssh.Base.{
  ℕ, zero, suc, ◌+◌, ◌≤◌, ◌<◌, ◌≡◌, refl, leb, inl, inr, Bool, true, false, not, ◌&&◌, ◌||◌, [],
  ◌∷◌, arith, ◌==◌, if◌then◌else◌, Bool-cases, length, All,
}
use hopssh.Base.Text.{Bytes, is_empty}
use hopssh.Api.DnsName.{
  is_label_char, first_label, replace_unsafe, trim_left, trim_right, starts_with_hyphen, has_pair,
  replace_pairs, collapse_loop, or_node, sanitize_dns_name, matches_rest, valid_dns_name,
  is_valid_dns_name,
}

abbrev held_length : Bool → ℕ
held_length true = 1
held_length false = 0

replace_pairs_shorter :
    (held : Bool) (s : Bytes)
    → (length (replace_pairs held s) ≤ length s + held_length held)
      × (((held && starts_with_hyphen s) || has_pair s) ≡ true
          → length (replace_pairs held s) < length s + held_length held)
unfolding replace_pairs has_pair
replace_pairs_shorter false [] = ground arith
replace_pairs_shorter true [] = ground arith
replace_pairs_shorter held (c ∷ cs) =
    ground (arith, replace_pairs_shorter (not held && c == b'-') cs)

-- With fuel of the length of the name, the loop ends in a name without two hyphens in a row.
collapse_ends : (fuel : ℕ) (s : Bytes) → length s ≤ fuel → has_pair (collapse_loop fuel s) ≡ false
unfolding collapse_loop has_pair
collapse_ends zero [] h = refl
collapse_ends zero (c ∷ cs) h = absurd (ground (arith, h))
collapse_ends (suc fuel) s h = elim (Bool-cases (has_pair s)) [
  | inl e ↦ rw e (
      collapse_ends fuel (replace_pairs false s)
        (ground (arith, h, e, replace_pairs_shorter false s)))
  | inr e ↦ rw e e
]

abbrev ends_with_hyphen : Bytes → Bool
ends_with_hyphen [] = false
ends_with_hyphen (c ∷ []) = c == b'-'
ends_with_hyphen (c ∷ d ∷ cs) = ends_with_hyphen (d ∷ cs)

-- What the steps keep of a name.
record IsTrimmed (s : Bytes) : Type 0 where
  chars : All (λ c. is_label_char c ≡ true) s
  start : starts_with_hyphen s ≡ false
  end : ends_with_hyphen s ≡ false

replace_unsafe_chars : (s : Bytes) → All (λ c. is_label_char c ≡ true) (replace_unsafe s)
unfolding replace_unsafe
replace_unsafe_chars [] = tt
replace_unsafe_chars (c ∷ cs) = (ground arith, replace_unsafe_chars cs)

trim_left_chars :
    (s : Bytes)
    → All (λ c. is_label_char c ≡ true) s
    → All (λ c. is_label_char c ≡ true) (trim_left s)
unfolding trim_left
trim_left_chars [] a = tt
trim_left_chars (c ∷ cs) a = elim (Bool-cases (c == b'-')) [
  | inl e ↦ rw e (trim_left_chars cs a.1)
  | inr e ↦ rw e a
]

trim_right_chars :
    (s : Bytes)
    → All (λ c. is_label_char c ≡ true) s
    → All (λ c. is_label_char c ≡ true) (trim_right s)
unfolding trim_right
trim_right_chars [] a = tt
trim_right_chars (c ∷ cs) a = elim (Bool-cases (c == b'-' && is_empty (trim_right cs))) [
  | inl e ↦ rw e tt
  | inr e ↦ rw e (a.0, trim_right_chars cs a.1)
]

trim_left_start : (s : Bytes) → starts_with_hyphen (trim_left s) ≡ false
unfolding trim_left
trim_left_start [] = refl
trim_left_start (c ∷ cs) = ground (arith, trim_left_start cs)

trim_right_start :
    (s : Bytes) → starts_with_hyphen s ≡ false → starts_with_hyphen (trim_right s) ≡ false
unfolding trim_right
trim_right_start [] h = refl
trim_right_start (c ∷ cs) h = ground (arith, h)

ends-cons :
    (c : ℕ) (s : Bytes)
    → ends_with_hyphen (c ∷ s) ≡ (if is_empty s then c == b'-' else ends_with_hyphen s)
ends-cons c [] = refl
ends-cons c (d ∷ s) = refl

trim_right_end : (s : Bytes) → ends_with_hyphen (trim_right s) ≡ false
unfolding trim_right
trim_right_end [] = refl
trim_right_end (c ∷ cs) = elim (Bool-cases (c == b'-' && is_empty (trim_right cs))) [
  | inl e ↦ rw e refl
  | inr e ↦ rw e ground (arith, e, ends-cons c (trim_right cs), trim_right_end cs)
]

replace_pairs_chars :
    (held : Bool) (s : Bytes)
    → All (λ c. is_label_char c ≡ true) s
    → All (λ c. is_label_char c ≡ true) (replace_pairs held s)
unfolding replace_pairs
replace_pairs_chars false [] a = tt
replace_pairs_chars true [] a = (refl, tt)
replace_pairs_chars true (c ∷ cs) a = elim (Bool-cases (c == b'-')) [
  | inl e ↦ rw e (refl, replace_pairs_chars false cs a.1)
  | inr e ↦ rw e (refl, (a.0, replace_pairs_chars false cs a.1))
]
replace_pairs_chars false (c ∷ cs) a = elim (Bool-cases (c == b'-')) [
  | inl e ↦ rw e (replace_pairs_chars true cs a.1)
  | inr e ↦ rw e (a.0, replace_pairs_chars false cs a.1)
]

replace_pairs_empty :
    (s : Bytes) → is_empty s ≡ true → ends_with_hyphen (replace_pairs false s) ≡ false
unfolding replace_pairs
replace_pairs_empty [] h = refl
replace_pairs_empty (c ∷ cs) h = absurd (ground (arith, h))

replace_pairs_start :
    (s : Bytes) → starts_with_hyphen s ≡ false → starts_with_hyphen (replace_pairs false s) ≡ false
unfolding replace_pairs
replace_pairs_start [] h = refl
replace_pairs_start (c ∷ cs) h = ground (arith, h)

replace_pairs_end :
    (held : Bool) (s : Bytes)
    → ends_with_hyphen s ≡ false
    → (is_empty s ≡ false)
    → (ends_with_hyphen (replace_pairs held s) ≡ false) × (is_empty (replace_pairs held s) ≡ false)
unfolding replace_pairs
replace_pairs_end held [] h n = absurd (ground (arith, n))
replace_pairs_end true (c ∷ []) h n = ground (arith, h)
replace_pairs_end false (c ∷ []) h n = ground (arith, h)
replace_pairs_end held (c ∷ d ∷ cs) h n =
    let (e, f) = replace_pairs_end (not held && c == b'-') (d ∷ cs) h refl in
    let rest = replace_pairs (not held && c == b'-') (d ∷ cs) in
    ground (arith, e, f, ends-cons b'-' rest, ends-cons c rest, ends-cons b'-' (c ∷ rest))

IsTrimmed-replace_pairs : (s : Bytes) → IsTrimmed s → IsTrimmed (replace_pairs false s)
IsTrimmed-replace_pairs s t = record {
  chars = replace_pairs_chars false s t.chars;
  start = replace_pairs_start s t.start;
  end = elim (Bool-cases (is_empty s)) [
    | inl e ↦ replace_pairs_empty s e
    | inr e ↦ (replace_pairs_end false s t.end e).0
  ];
}

IsTrimmed-collapse_loop : (fuel : ℕ) (s : Bytes) → IsTrimmed s → IsTrimmed (collapse_loop fuel s)
unfolding collapse_loop
IsTrimmed-collapse_loop zero s t = t
IsTrimmed-collapse_loop (suc fuel) s t = elim (Bool-cases (has_pair s)) [
  | inl e ↦
      rw e (IsTrimmed-collapse_loop fuel (replace_pairs false s) (IsTrimmed-replace_pairs s t))
  | inr e ↦ rw e t
]

-- Not empty, of lower-case letters, digits and hyphens, without a hyphen at either end or two in a
-- row.
pub IsCleanName : Bytes → Type 0
IsCleanName s =
    (is_empty s ≡ false)
    × All (λ c. is_label_char c ≡ true) s
    × (starts_with_hyphen s ≡ false)
    × (ends_with_hyphen s ≡ false)
    × (has_pair s ≡ false)

or_node-IsCleanName : (s : Bytes) → IsTrimmed s → has_pair s ≡ false → IsCleanName (or_node s)
unfolding IsCleanName has_pair
or_node-IsCleanName [] t h = (refl, (refl, (refl, (refl, (refl, tt)))), refl, refl, refl)
or_node-IsCleanName (c ∷ cs) t h = (refl, t.chars, t.start, t.end, h)

matches_rest-IsCleanName :
    (n c : ℕ) (cs : Bytes)
    → All (λ c. is_label_char c ≡ true) (c ∷ cs)
    → ends_with_hyphen (c ∷ cs) ≡ false
    → matches_rest n (c ∷ cs) ≡ leb (length cs) n
unfolding matches_rest
matches_rest-IsCleanName n c [] a e = ground (arith, a.0, e)
matches_rest-IsCleanName zero c (d ∷ cs) a e = ground arith
matches_rest-IsCleanName (suc n) c (d ∷ cs) a e =
    rw (matches_rest-IsCleanName n d cs a.1 e) ground (arith, a.0)

is_valid_dns_name-IsCleanName :
    (s : Bytes) → IsCleanName s → is_valid_dns_name s ≡ leb (length s) 63
unfolding is_valid_dns_name valid_dns_name IsCleanName
is_valid_dns_name-IsCleanName [] h = absurd (ground (arith, h.0))
is_valid_dns_name-IsCleanName (c ∷ []) h = ground (arith, h.1.0, h.2)
is_valid_dns_name-IsCleanName (c ∷ d ∷ cs) h =
    rw (matches_rest-IsCleanName 61 d cs h.1.1 h.3) ground (arith, h.1.0, h.2)

sanitize_dns_name_clean :
    (lower : Bytes → Bytes) (hostname : Bytes) → IsCleanName (sanitize_dns_name lower hostname)
unfolding sanitize_dns_name
sanitize_dns_name_clean lower hostname =
    let raw = replace_unsafe (first_label (lower hostname)) in
    let trimmed = trim_right (trim_left raw) in
    or_node-IsCleanName (collapse_loop (length trimmed) trimmed)
      (IsTrimmed-collapse_loop (length trimmed) trimmed (record {
        chars = trim_right_chars (trim_left raw) (trim_left_chars raw (replace_unsafe_chars _));
        start = trim_right_start (trim_left raw) (trim_left_start raw);
        end = trim_right_end (trim_left raw);
      }))
      (collapse_ends (length trimmed) trimmed (omega arith))

-- Whatever strings.ToLower returns, the sanitized name of any host name is not empty, has only
-- lower-case letters, digits and hyphens, no hyphen at either end and no two hyphens in a row; and
-- isValidDNSName accepts it exactly if it has at most 63 bytes.
pub sanitize_dns_name-IsCleanName :
    (lower : Bytes → Bytes) (hostname : Bytes)
    → IsCleanName (sanitize_dns_name lower hostname)
      × (is_valid_dns_name (sanitize_dns_name lower hostname)
          ≡ leb (length (sanitize_dns_name lower hostname)) 63)
sanitize_dns_name-IsCleanName lower hostname =
    let clean = sanitize_dns_name_clean lower hostname in
    (clean, is_valid_dns_name-IsCleanName (sanitize_dns_name lower hostname) clean)
