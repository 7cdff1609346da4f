-- ===== src/Db/Nodes/Index/Fresh.antt =====
-- The address of the next index is taken by no node of the network, and `Create` accepts it.
use hopssh.Base.{
  ℕ, ◌+◌, ◌≤◌, ◌<◌, ◌≡◌, refl, inl, inr, Bool, true, false, ◌||◌, Option, some, List, [], ◌∷◌, ◌++◌,
  arith, ltb, ◌==◌, if◌then◌else◌, Bool-cases,
}
use hopssh.Base.Text.{Bytes, bytes_eq, bytes_eq_iff, contains}
use mathlib.Core.Option.{some-injective}
use hopssh.Base.Int.{ℤ, pos, pos_part}
use hopssh.Portmap.Wire.{Ipv4}
use hopssh.Pki.{Prefix, v4_prefix, ok, node_address}
use hopssh.Pki.Distinct.{host, node_address_lem}
use hopssh.Db.Nodes.{Row}
use hopssh.Db.Nodes.Index.{
  cut_slash, split_dots, parse_last_octet, node_ips, max_octet, index_after, next_node_index,
}

abbrev has : ℕ → Bytes → Bool
has c [] = false
has c (d ∷ ds) = (d == c) || has c ds

-- What netip.Prefix.String writes: the four bytes in decimal with dots, a slash and the length.
-- `dec` is the decimal form of a byte, which strconv.Atoi reads back.
pub record IsDotted (atoi : Bytes → ℤ) (dec : ℕ → Bytes) (show : Prefix → Bytes) : Type 0 where
  pub dotted :
      (ip : Ipv4) (len : ℕ)
      → show (v4_prefix ip len)
        ≡ (dec ip.a ++ (b'.' ∷ (dec ip.b ++ (b'.' ∷ (dec ip.c ++ (b'.' ∷ dec ip.d))))))
          ++ (b'/' ∷ dec len)
  pub no_dot : (n : ℕ) → n < 256 → has b'.' (dec n) ≡ false
  pub no_slash : (n : ℕ) → n < 256 → has b'/' (dec n) ≡ false
  pub reads_back : (n : ℕ) → n < 256 → atoi (dec n) ≡ pos n

has-append : (c : ℕ) (xs ys : Bytes) → has c (xs ++ ys) ≡ (has c xs || has c ys)
has-append c [] ys = refl
has-append c (x ∷ xs) ys = ground (arith, has-append c xs ys)

cut_slash-append : (x y : Bytes) → has b'/' x ≡ false → cut_slash (x ++ (b'/' ∷ y)) ≡ x
unfolding cut_slash
cut_slash-append [] y h = refl
cut_slash-append (c ∷ x) y h = ground (arith, cut_slash-append x y, h)

split_dots-append :
    (x y : Bytes) → has b'.' x ≡ false → split_dots (x ++ (b'.' ∷ y)) ≡ x ∷ split_dots y
unfolding split_dots
split_dots-append [] y h = refl
split_dots-append (c ∷ x) y h = ground (arith, split_dots-append x y, h)

split_dots-one : (x : Bytes) → has b'.' x ≡ false → split_dots x ≡ x ∷ []
unfolding split_dots
split_dots-one [] h = refl
split_dots-one (c ∷ x) h = ground (arith, split_dots-one x, h)

module _ (atoi : Bytes → ℤ) (dec : ℕ → Bytes) (show : Prefix → Bytes)
    (dots : IsDotted atoi dec show) where
  parse_last_octet-show :
      (ip : Ipv4) (len : ℕ)
      → (ip.a < 256) × (ip.b < 256) × (ip.c < 256) × (ip.d < 256)
      → parse_last_octet atoi (show (v4_prefix ip len)) ≡ pos ip.d
  unfolding parse_last_octet
  parse_last_octet-show ip len (a, b, c, d) = rw (dots.dotted ip len) (
      rw
        (cut_slash-append
          (dec ip.a ++ (b'.' ∷ (dec ip.b ++ (b'.' ∷ (dec ip.c ++ (b'.' ∷ dec ip.d)))))) (dec len)
          slashless)
        (rw
          (split_dots-append (dec ip.a) (dec ip.b ++ (b'.' ∷ (dec ip.c ++ (b'.' ∷ dec ip.d))))
            (dots.no_dot ip.a a))
          (rw (split_dots-append (dec ip.b) (dec ip.c ++ (b'.' ∷ dec ip.d)) (dots.no_dot ip.b b)) (
            rw (split_dots-append (dec ip.c) (dec ip.d) (dots.no_dot ip.c c))
              (rw (split_dots-one (dec ip.d) (dots.no_dot ip.d d)) (dots.reads_back ip.d d))))))
    where
      slashless :
          has b'/' (dec ip.a ++ (b'.' ∷ (dec ip.b ++ (b'.' ∷ (dec ip.c ++ (b'.' ∷ dec ip.d))))))
          ≡ false
      slashless = simp (
        has-append,
        dots.no_slash ip.a a,
        dots.no_slash ip.b b,
        dots.no_slash ip.c c,
        dots.no_slash ip.d d,
      )

max_octet-le : (atoi : Bytes → ℤ) (m : ℕ) (ips : List Bytes) → m ≤ max_octet atoi m ips
unfolding max_octet
max_octet-le atoi m [] = omega arith
max_octet-le atoi m (ip ∷ ips) =
    ground
      (arith, max_octet-le atoi m ips, max_octet-le atoi (pos_part (parse_last_octet atoi ip)) ips)

octet-le-max :
    (atoi : Bytes → ℤ) (m : ℕ) (ips : List Bytes) (s : Bytes)
    → contains ips s ≡ true
    → pos_part (parse_last_octet atoi s) ≤ max_octet atoi m ips
unfolding max_octet contains
octet-le-max atoi m [] s h = absurd (ground (arith, h))
octet-le-max atoi m (ip ∷ ips) s h = elim (Bool-cases (bytes_eq ip s)) [
  | inl e ↦
      let same : ip ≡ s = (bytes_eq_iff ip s).0 e in
      rw (← same) (
        ground (
          arith,
          max_octet-le atoi m ips,
          max_octet-le atoi (pos_part (parse_last_octet atoi ip)) ips,
        ))
  | inr n ↦
      octet-le-max atoi
        (if ltb m (pos_part (parse_last_octet atoi ip))
          then pos_part (parse_last_octet atoi ip)
          else m)
        ips s (rw n at h)
]

index_after-cons :
    (atoi : Bytes → ℤ) (ips : List Bytes) (s : Bytes)
    → contains ips s ≡ true
    → pos_part (parse_last_octet atoi s) < index_after atoi ips + 2
unfolding index_after
index_after-cons atoi [] s h = absurd (unfold contains in ground (arith, h))
index_after-cons atoi (ip ∷ ips) s h =
    omega (arith, octet-le-max atoi 1 (ip ∷ ips) s h, max_octet-le atoi 1 (ip ∷ ips))

-- If strconv.Atoi reads back the decimal bytes that netip writes, the address that `NodeAddress`
-- gives the index of `NextNodeIndex` in an IPv4 subnet is the address of no node of that network,
-- whatever the addresses of the table are.
pub fresh_address :
    (atoi : Bytes → ℤ) (dec : ℕ → Bytes) (show : Prefix → Bytes) (parse : Bytes → Option Prefix)
    (subnet : Bytes) (ip : Ipv4) (len : ℕ) (network : Bytes) (rows : List Row) (i : ℕ) (a : Prefix)
    → IsDotted atoi dec show
    → parse subnet ≡ some (v4_prefix ip len)
    → (ip.a < 256) × (ip.b < 256) × (ip.c < 256)
    → next_node_index atoi true network rows ≡ some i
    → node_address parse subnet (pos i) ≡ ok a
    → contains (node_ips network rows) (show a) ≡ false
unfolding next_node_index
fresh_address atoi dec show parse subnet ip len network rows i a dots p (ba, bb, bc) e k =
    elim (Bool-cases (contains (node_ips network rows) (show a))) [
      | inr free ↦ free
      | inl taken ↦ absurd (clash taken)
    ]
  where
    index : index_after atoi (node_ips network rows) ≡ i
    index = some-injective _ _ e

    small : i ≤ 252
    small = ground (arith, node_address_lem parse subnet ip len p i, k)

    address : a ≡ host ip (i + 2)
    address = ground (arith, node_address_lem parse subnet ip len p i, k)

    octet : parse_last_octet atoi (show a) ≡ pos (i + 2)
    octet = rw address (
        parse_last_octet-show atoi dec show dots (record ip { d = i + 2 }) 24
          (ba, bb, bc, omega (arith, small)))

    clash : contains (node_ips network rows) (show a) ≡ true → ⊥
    clash taken =
        omega
          (arith, rw octet at (index_after-cons atoi (node_ips network rows) (show a) taken), index)
