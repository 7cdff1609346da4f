-- ===== src/Portmap/Pcp/Codec.antt =====
-- The client against the wire format of RFC 6887, as the head of pcp.go gives it.
use hopssh.Base.{
  ℕ, zero, suc, ◌+◌, ◌≤◌, ◌<◌, ◌≡◌, refl, ap, ◌∙◌, false, List, [], ◌∷◌, ◌++◌, arith, length,
  get_or, take, drop, length-append,
}
use hopssh.Base.Text.{Bytes, bytes_eq_iff, bytes_eq_refl}
use native.Mathlib.Nat.{add_assoc, suc-add, zero-add}
use hopssh.Portmap.Wire.{put_u16, put_u32, byte_at, u16_at, u32_at, slice, Ipv4, is_unspecified, v4}
use hopssh.Portmap.Pcp.{
  parse_payload, MapResponse, parsed, parse_map_response, extract_ipv4, ipv4_mapped_ipv6,
}

-- The response of a conforming gateway: `header` is the epoch and the reserved bytes.
abbrev pub map_response : ℕ → ℕ → Bytes → Bytes → ℕ → ℕ → Ipv4 → Bytes
map_response rc lifetime header nonce int_port ext_port ip =
    2
    ∷ 129
    ∷ 0
    ∷ rc
    ∷ (put_u32 lifetime
        ++ (header
            ++ (nonce
                ++ 17
                  ∷ 0
                  ∷ 0
                  ∷ 0
                  ∷ (put_u16 int_port ++ (put_u16 ext_port ++ ipv4_mapped_ipv6 (v4 ip))))))

extract-mapped :
    (ip : Ipv4) → is_unspecified ip ≡ false → extract_ipv4 (ipv4_mapped_ipv6 (v4 ip)) ≡ parsed ip
unfolding extract_ipv4 ipv4_mapped_ipv6
extract-mapped ip h = rw h refl

drop-append_add {ℓ} :
    {A : Type ℓ} (xs ys : List A) (n i : ℕ) → length xs ≡ n → drop (n + i) (xs ++ ys) ≡ drop i ys
drop-append_add [] ys n i h = rw (← h, zero-add) refl
drop-append_add (x ∷ xs) ys zero i h = absurd (omega (arith, h))
drop-append_add (x ∷ xs) ys (suc n) i h = rw suc-add (drop-append_add xs ys n i (omega (arith, h)))

get_or-append_add {ℓ} :
    {A : Type ℓ} (xs ys : List A) (n i : ℕ) (d : A)
    → length xs ≡ n
    → get_or (xs ++ ys) (n + i) d ≡ get_or ys i d
get_or-append_add [] ys n i d h = rw (← h, zero-add) refl
get_or-append_add (x ∷ xs) ys zero i d h = absurd (omega (arith, h))
get_or-append_add (x ∷ xs) ys (suc n) i d h =
    rw suc-add (get_or-append_add xs ys n i d (omega (arith, h)))

take-append {ℓ} : {A : Type ℓ} (xs ys : List A) (n : ℕ) → length xs ≡ n → take n (xs ++ ys) ≡ xs
take-append [] ys n h = rw (← h) refl
take-append (x ∷ xs) ys zero h = absurd (omega (arith, h))
take-append (x ∷ xs) ys (suc n) h = ap (◌∷◌ x) (take-append xs ys n (omega (arith, h)))

-- The tests of `parsePCPMapResponse`, passed one by one.
parse_accepts :
    (resp nonce : Bytes) (ip : Ipv4)
    → 60 ≤ length resp
    → byte_at resp 0 ≡ 2
    → byte_at resp 1 ≡ 129
    → byte_at resp 3 ≡ 0
    → slice 24 36 resp ≡ nonce
    → byte_at resp 36 ≡ 17
    → 0 < u16_at resp 42
    → extract_ipv4 (slice 44 60 resp) ≡ parsed ip
    → parse_map_response resp nonce
      ≡ parsed
          (record { external_ip = ip; external_port = u16_at resp 42; lifetime = u32_at resp 4 })
unfolding parse_map_response parse_payload
parse_accepts resp nonce ip l a b c n p q e =
    ground (arith, bytes_eq_iff (slice 24 36 resp) nonce, bytes_eq_refl nonce)

module _ (lifetime port ext : ℕ) (header nonce : Bytes) (ip : Ipv4)
    (header_length : length header ≡ 16) (nonce_length : length nonce ≡ 12) where
  abbrev response : Bytes
  response = map_response 0 lifetime header nonce port ext ip

  -- What follows the nonce.
  abbrev payload : Bytes
  payload = 17 ∷ 0 ∷ 0 ∷ 0 ∷ (put_u16 port ++ (put_u16 ext ++ ipv4_mapped_ipv6 (v4 ip)))

  behind_nonce : (i d : ℕ) → get_or (header ++ (nonce ++ payload)) (28 + i) d ≡ get_or payload i d
  behind_nonce i d = rw (add_assoc 16 12 i) (
      get_or-append_add header (nonce ++ payload) 16 (12 + i) d header_length
      ∙ get_or-append_add nonce payload 12 i d nonce_length)

  nonce_slice : slice 24 36 response ≡ nonce
  nonce_slice =
      ap (take 12) (drop-append_add header (nonce ++ payload) 16 0 header_length)
      ∙ take-append nonce payload 12 nonce_length

  address_slice : slice 44 60 response ≡ ipv4_mapped_ipv6 (v4 ip)
  unfolding ipv4_mapped_ipv6
  address_slice = ap (take 16) (
      drop-append_add header (nonce ++ payload) 16 20 header_length
      ∙ drop-append_add nonce payload 12 8 nonce_length)

  length-response : 60 ≤ length response
  unfolding ipv4_mapped_ipv6
  length-response = omega (
    arith,
    header_length,
    nonce_length,
    length-append header (nonce ++ payload),
    length-append nonce payload,
  )

  -- A response of RFC 6887 with result code 0 and the nonce of the request, an external port from 1
  -- to 65535, a 32-bit lifetime and an address other than 0.0.0.0 is parsed as these.
  pub parse-map_response :
      0 < ext
      → ext < 65536
      → lifetime < 4294967296
      → is_unspecified ip ≡ false
      → parse_map_response (map_response 0 lifetime header nonce port ext ip) nonce
        ≡ parsed (record { external_ip = ip; external_port = ext; lifetime = lifetime })
  parse-map_response p q l u =
      let port_read : u16_at response 42 ≡ ext =
        rw (behind_nonce 6 0, behind_nonce 7 0) (omega (arith, q)) in
      let lifetime_read : u32_at response 4 ≡ lifetime = omega (arith, l) in
      let accepted =
        parse_accepts response nonce ip length-response refl refl refl nonce_slice
          (behind_nonce 0 0) (rw port_read p)
          (ap extract_ipv4 address_slice ∙ extract-mapped ip u) in
      rw (port_read, lifetime_read) at accepted

parse_payload_sound :
    (resp nonce : Bytes) (r : MapResponse)
    → parse_payload resp nonce ≡ parsed r
    → (slice 24 36 resp ≡ nonce)
      × (0 < r.external_port)
      × (extract_ipv4 (slice 44 60 resp) ≡ parsed r.external_ip)
unfolding parse_payload
parse_payload_sound resp nonce r h = ground (arith, h, bytes_eq_iff (slice 24 36 resp) nonce)

parse_header_sound :
    (resp nonce : Bytes) (r : MapResponse)
    → parse_map_response resp nonce ≡ parsed r
    → (60 ≤ length resp) × (byte_at resp 3 ≡ 0) × (parse_payload resp nonce ≡ parsed r)
unfolding parse_map_response
parse_header_sound resp nonce r h = ground (arith, h)

-- A PCP response is accepted only with at least 60 bytes, result code 0 and the nonce of the
-- request, and then gives a port other than 0 and the address that it carries.
pub parse_map_response_sound :
    (resp nonce : Bytes) (r : MapResponse)
    → parse_map_response resp nonce ≡ parsed r
    → (60 ≤ length resp)
      × (byte_at resp 3 ≡ 0)
      × (slice 24 36 resp ≡ nonce)
      × (0 < r.external_port)
      × (extract_ipv4 (slice 44 60 resp) ≡ parsed r.external_ip)
parse_map_response_sound resp nonce r h =
    let (l, c, rest) = parse_header_sound resp nonce r h in
    let (n, p, e) = parse_payload_sound resp nonce r rest in (l, c, n, p, e)
