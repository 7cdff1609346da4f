-- ===== src/Portmap/Pcp.antt =====
-- The PCP client (internal/portmap/pcp.go). Its round trips are those of the NAT-PMP client. The
-- bit tests on the second byte are written as arithmetic on a byte: the R bit is `b / 128 % 2`, the
-- opcode `b % 128`.
pub mod Codec
use hopssh.Base.{
  ℕ, zero, suc, ◌+◌, ◌-◌, ◌*◌, ◌/◌, ◌%◌, ◌≤◌, ◌<◌, ◌≡◌, refl, sym, ap, ◌∙◌, ◌≢◌, ◌↔◌, ◌⊎◌, inl, inr,
  Bool, true, false, not, ◌&&◌, ◌||◌, Option, none, some, List, [], ◌∷◌, ◌++◌, map, arith, ltb, leb,
  ◌==◌, if◌then◌else◌, ltb→lt, lt→ltb, leb→le, ==_iff, Bool-cases, Option-cases, length, get_or,
  take, drop, drop_last, replicate, All, length-append, drop_last-append,
}
use hopssh.Base.Text.{Bytes, codes, is_empty, bytes_eq, bytes_eq_iff, bytes_eq_refl, contains}
use hopssh.Portmap.Wire.{
  put_u16, put_u32, byte_at, u16_at, u32_at, slice, Ipv4, addr_from4, octets, is_unspecified, Addr,
  invalid, v6, v4,
}
use hopssh.Portmap.NatPmp.{Net, Result, ok, err}
use hopssh.Portmap.NatPmp

abbrev version : ℕ
version = 2

abbrev opcode_map : ℕ
opcode_map = 1

abbrev response_bit : ℕ
response_bit = 128

abbrev proto_udp : ℕ
proto_udp = 17

abbrev request_length : ℕ
request_length = 60

abbrev lifetime_request : ℕ
lifetime_request = 7200

pub data ResultCode : Type 0 where
  unsupported_version not_authorized malformed_request : ResultCode
  other_code : ℕ → ResultCode

pub data Error : Type 0 where
  invalid_gateway no_local_address no_nonce : Error
  transport : NatPmp.Error → Error
  too_short bad_version bad_opcode bad_protocol bad_address_length : ℕ → Error
  no_response_bit wrong_nonce zero_port not_mapped double_nat : Error
  result_code : ResultCode → Error

pub data Parsed {ℓ} (A : Type ℓ) : Type ℓ where
  parsed : A → Parsed A
  refused : Error → Parsed A

pub record MapResponse : Type 0 where
  pub external_ip : Ipv4
  pub external_port : ℕ
  pub lifetime : ℕ

result_code_error : ℕ → ResultCode
result_code_error rc =
    if rc == 1
    then unsupported_version
    else if rc == 2
    then not_authorized
    else if rc == 3
    then malformed_request
    else other_code rc

-- `ipv4MappedIPv6`: an address that is not IPv4 leaves the last four bytes zero.
pub ipv4_mapped_ipv6 : Addr → Bytes
ipv4_mapped_ipv6 (v4 ip) = 0 ∷ 0 ∷ 0 ∷ 0 ∷ 0 ∷ 0 ∷ 0 ∷ 0 ∷ 0 ∷ 0 ∷ 255 ∷ 255 ∷ octets ip
ipv4_mapped_ipv6 invalid = 0 ∷ 0 ∷ 0 ∷ 0 ∷ 0 ∷ 0 ∷ 0 ∷ 0 ∷ 0 ∷ 0 ∷ 255 ∷ 255 ∷ 0 ∷ 0 ∷ 0 ∷ 0 ∷ []
ipv4_mapped_ipv6 v6 = 0 ∷ 0 ∷ 0 ∷ 0 ∷ 0 ∷ 0 ∷ 0 ∷ 0 ∷ 0 ∷ 0 ∷ 255 ∷ 255 ∷ 0 ∷ 0 ∷ 0 ∷ 0 ∷ []

-- `buildPCPMapRequest`, for a nonce of twelve bytes.
unfoldable build_map_request : ℕ → Addr → Bytes → ℕ → Bytes
unfolding ipv4_mapped_ipv6
build_map_request port client nonce lifetime =
    version
    ∷ opcode_map
    ∷ 0
    ∷ 0
    ∷ (put_u32 lifetime
        ++ (ipv4_mapped_ipv6 client
            ++ (nonce
                ++ proto_udp ∷ 0 ∷ 0 ∷ 0 ∷ (put_u16 port ++ (put_u16 port ++ replicate 16 0)))))

-- The loop over the first ten bytes of the address.
all_zero : Bytes → Bool
all_zero [] = true
all_zero (b ∷ bs) = b == 0 && all_zero bs

pub extract_ipv4 : Bytes → Parsed Ipv4
unfolding all_zero
extract_ipv4 b =
    if not (length b == 16)
    then refused (bad_address_length (length b))
    else if not (all_zero (take 10 b))
    then refused not_mapped
    else if not (byte_at b 10 == 255) || not (byte_at b 11 == 255)
    then refused not_mapped
    else if is_unspecified (addr_from4 (slice 12 16 b))
    then refused double_nat
    else parsed (addr_from4 (slice 12 16 b))

finish_response : ℕ → ℕ → Parsed Ipv4 → Parsed MapResponse
finish_response port lifetime (refused e) = refused e
finish_response port lifetime (parsed ip) =
    parsed (record { external_ip = ip; external_port = port; lifetime = lifetime })

-- `parsePCPMapResponse` from the MAP payload on, with the lifetime of the header.
pub parse_payload : Bytes → Bytes → Parsed MapResponse
unfolding finish_response
parse_payload resp nonce =
    if not (bytes_eq (slice 24 36 resp) nonce)
    then refused wrong_nonce
    else if not (byte_at resp 36 == proto_udp)
    then refused (bad_protocol (byte_at resp 36))
    else if u16_at resp 42 == 0
    then refused zero_port
    else finish_response (u16_at resp 42) (u32_at resp 4) (extract_ipv4 (slice 44 60 resp))

-- `parsePCPMapResponse`.
pub parse_map_response : Bytes → Bytes → Parsed MapResponse
parse_map_response resp nonce =
    if ltb (length resp) request_length
    then refused (too_short (length resp))
    else if not (byte_at resp 0 == version)
    then refused (bad_version (byte_at resp 0))
    else if byte_at resp 1 / 128 % 2 == 0
    then refused no_response_bit
    else if not (byte_at resp 1 % 128 == opcode_map)
    then refused (bad_opcode (byte_at resp 1))
    else if not (byte_at resp 3 == 0)
    then refused (result_code (result_code_error (byte_at resp 3)))
    else parse_payload resp nonce

-- What `Map` meets before it sends: the local address toward the gateway and the random nonce.
pub record Host : Type 0 where
  pub local_address : Option Addr
  pub nonce : Option Bytes

map_on : Result Bytes → Bytes → Parsed MapResponse
map_on (err e) nonce = refused (transport e)
map_on (ok resp) nonce = parse_map_response resp nonce

-- `Map`: the request that is sent, if one is, and the result.
unfoldable map_port : Addr → Host → Net → ℕ → Option Bytes × Parsed MapResponse
unfolding map_on
map_port gateway host net port =
    if not (NatPmp.is_v4 gateway)
    then (none, refused invalid_gateway)
    else elim host.local_address [
      | none ↦ (none, refused no_local_address)
      | some client ↦ elim host.nonce [
        | none ↦ (none, refused no_nonce)
        | some nonce ↦ (
          some (build_map_request port client nonce lifetime_request),
          map_on (NatPmp.round_trip net request_length) nonce,
        )
      ]
    ]
