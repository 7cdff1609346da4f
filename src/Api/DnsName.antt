-- ===== src/Api/DnsName.antt =====
-- The DNS name made of a host name (internal/api/types.go: sanitizeDNSName), and the test of the
-- names of custom records (internal/api/dns.go: isValidDNSName). `lower` is
-- strings.ToLower. A character outside ASCII is several bytes here and so becomes several hyphens,
-- of which the loop leaves one, as it does of the one hyphen of the source.
pub mod Label
use hopssh.Base.{
  ℕ, zero, suc, ◌+◌, ◌-◌, ◌*◌, ◌/◌, ◌%◌, ◌≤◌, ◌<◌, ◌≡◌, refl, sym, ap, ◌∙◌, ◌≢◌, ◌↔◌, ◌⊎◌, inl, inr,
  Bool, true, false, not, ◌&&◌, ◌||◌, Option, none, some, List, [], ◌∷◌, ◌++◌, map, arith, ltb, leb,
  ◌==◌, if◌then◌else◌, ltb→lt, lt→ltb, leb→le, ==_iff, Bool-cases, Option-cases, length, get_or,
  take, drop, drop_last, replicate, All, length-append, drop_last-append,
}
use hopssh.Base.Text.{Bytes, codes, is_empty, bytes_eq, bytes_eq_iff, bytes_eq_refl, contains}

abbrev pub is_label_char : ℕ → Bool
is_label_char c = leb b'a' c && leb c b'z' || (leb b'0' c && leb c b'9' || c == b'-')

-- The part before the first dot.
pub first_label : Bytes → Bytes
first_label [] = []
first_label (c ∷ cs) = if c == b'.' then [] else c ∷ first_label cs

-- `dnsUnsafe.ReplaceAllString(name, "-")`
pub replace_unsafe : Bytes → Bytes
replace_unsafe [] = []
replace_unsafe (c ∷ cs) = (if is_label_char c then c else b'-') ∷ replace_unsafe cs

pub trim_left : Bytes → Bytes
trim_left [] = []
trim_left (c ∷ cs) = let rest = trim_left cs in if c == b'-' then rest else c ∷ cs

pub trim_right : Bytes → Bytes
trim_right [] = []
trim_right (c ∷ cs) =
    let rest = trim_right cs in if c == b'-' && is_empty rest then [] else c ∷ rest

abbrev pub starts_with_hyphen : Bytes → Bool
starts_with_hyphen [] = false
starts_with_hyphen (c ∷ cs) = c == b'-'

-- strings.Contains(name, "--")
unfoldable pub has_pair : Bytes → Bool
has_pair [] = false
has_pair (c ∷ cs) = c == b'-' && starts_with_hyphen cs || has_pair cs

-- strings.ReplaceAll(name, "--", "-") from the left; the flag says that a hyphen was read and is
-- still to be written.
unfoldable pub replace_pairs : Bool → Bytes → Bytes
replace_pairs false [] = []
replace_pairs true [] = b'-' ∷ []
replace_pairs held (c ∷ cs) =
    let rest = replace_pairs (not held && c == b'-') cs in
    if c == b'-'
    then (if held then b'-' ∷ rest else rest)
    else if held
    then b'-' ∷ c ∷ rest
    else c ∷ rest

-- The loop while the name has a pair, on fuel.
pub collapse_loop : ℕ → Bytes → Bytes
collapse_loop zero s = s
collapse_loop (suc fuel) s =
    let rest = collapse_loop fuel (replace_pairs false s) in if has_pair s then rest else s

abbrev collapse : Bytes → Bytes
collapse s = collapse_loop (length s) s

abbrev pub or_node : Bytes → Bytes
or_node [] = codes "node"
or_node (c ∷ cs) = c ∷ cs

unfoldable pub sanitize_dns_name : (Bytes → Bytes) → Bytes → Bytes
unfolding first_label replace_unsafe trim_left trim_right collapse_loop
sanitize_dns_name lower hostname =
    or_node (collapse (trim_right (trim_left (replace_unsafe (first_label (lower hostname))))))

-- [a-zA-Z0-9]
abbrev pub is_alnum : ℕ → Bool
is_alnum c = leb b'a' c && leb c b'z' || (leb b'A' c && leb c b'Z' || leb b'0' c && leb c b'9')

-- [a-zA-Z0-9-]{0,n}[a-zA-Z0-9]
pub matches_rest : ℕ → Bytes → Bool
matches_rest n [] = false
matches_rest n (c ∷ []) = is_alnum c
matches_rest zero (c ∷ d ∷ cs) = false
matches_rest (suc n) (c ∷ d ∷ cs) = (is_alnum c || c == b'-') && matches_rest n (d ∷ cs)

-- The pattern `validDNSName`.
pub valid_dns_name : Bytes → Bool
unfolding matches_rest
valid_dns_name [] = false
valid_dns_name (c ∷ []) = is_alnum c
valid_dns_name (c ∷ d ∷ cs) = is_alnum c && matches_rest 61 (d ∷ cs)

pub is_valid_dns_name : Bytes → Bool
is_valid_dns_name name = leb 1 (length name) && (leb (length name) 63 && valid_dns_name name)
