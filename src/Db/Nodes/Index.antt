-- ===== src/Db/Nodes/Index.antt =====
-- The next free host index of a network (internal/db/nodes.go: NextNodeIndex, parseLastOctet).
-- `atoi` is strconv.Atoi with its error dropped.
pub mod Fresh
use hopssh.Base.{
  ℕ, zero, suc, ◌+◌, ◌-◌, ◌*◌, ◌/◌, ◌%◌, ◌≤◌, ◌<◌, ◌≡◌, refl, sym, ap, ◌∙◌, ◌≢◌, ◌↔◌, ◌⊎◌, inl, inr,
  Bool, true, false, not, ◌&&◌, ◌||◌, Option, none, some, List, [], ◌∷◌, ◌++◌, map, arith, ltb, leb,
  ◌==◌, if◌then◌else◌, ltb→lt, lt→ltb, leb→le, ==_iff, Bool-cases, Option-cases, length, get_or,
  take, drop, drop_last, replicate, All, length-append, drop_last-append,
}
use hopssh.Base.Text.{Bytes, codes, is_empty, bytes_eq, bytes_eq_iff, bytes_eq_refl, contains}
use hopssh.Base.Int.{ℤ, pos, negsuc, pos_part}
use hopssh.Db.Nodes.{Row}

-- The part before the first slash.
unfoldable pub cut_slash : Bytes → Bytes
cut_slash [] = []
cut_slash (c ∷ cs) = if c == b'/' then [] else c ∷ cut_slash cs

abbrev prepend : ℕ → List Bytes → List Bytes
prepend c [] = (c ∷ []) ∷ []
prepend c (l ∷ ls) = (c ∷ l) ∷ ls

-- strings.Split(ip, ".")
unfoldable pub split_dots : Bytes → List Bytes
split_dots [] = [] ∷ []
split_dots (c ∷ cs) = let rest = split_dots cs in if c == b'.' then [] ∷ rest else prepend c rest

abbrev last_of_four : (Bytes → ℤ) → List Bytes → ℤ
last_of_four atoi (a ∷ b ∷ c ∷ d ∷ []) = atoi d
last_of_four atoi _ = pos 0

unfoldable pub parse_last_octet : (Bytes → ℤ) → Bytes → ℤ
parse_last_octet atoi cidr = last_of_four atoi (split_dots (cut_slash cidr))

-- `SELECT nebula_ip … WHERE network_id = ? AND nebula_ip IS NOT NULL`
unfoldable pub node_ips : Bytes → List Row → List Bytes
node_ips network [] = []
node_ips network (r ∷ rs) =
    let rest = node_ips network rs in
    if bytes_eq r.network_id network then with_ip r.nebula_ip rest else rest
  where
    with_ip : Option Bytes → List Bytes → List Bytes
    with_ip none ips = ips
    with_ip (some ip) ips = ip ∷ ips

-- The loop, with `maxOctet`.
unfoldable pub max_octet : (Bytes → ℤ) → ℕ → List Bytes → ℕ
max_octet atoi m [] = m
max_octet atoi m (ip ∷ ips) =
    let octet = pos_part (parse_last_octet atoi ip) in
    max_octet atoi (if ltb m octet then octet else m) ips

unfoldable pub index_after : (Bytes → ℤ) → List Bytes → ℕ
index_after atoi [] = 0
index_after atoi (ip ∷ ips) = max_octet atoi 1 (ip ∷ ips) - 1

-- `NextNodeIndex`; `none` is the error of the query.
unfoldable pub next_node_index : (Bytes → ℤ) → Bool → Bytes → List Row → Option ℕ
unfolding index_after
next_node_index atoi works network rows =
    if works then some (index_after atoi (node_ips network rows)) else none
