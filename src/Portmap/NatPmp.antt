-- ===== src/Portmap/NatPmp.antt =====
-- The NAT-PMP client (internal/portmap/natpmp.go). The network is an argument: for each round trip
-- whether the dial works, and what each attempt meets. Durations are in milliseconds, lifetimes in
-- seconds.
pub mod Codec
pub mod Retry
use hopssh.Base.{
  ℕ, zero, suc, ◌+◌, ◌-◌, ◌*◌, ◌/◌, ◌%◌, ◌≤◌, ◌<◌, ◌≡◌, refl, sym, ap, ◌∙◌, ◌≢◌, ◌↔◌, ◌⊎◌, inl, inr,
  Bool, true, false, not, ◌&&◌, ◌||◌, Option, none, some, List, [], ◌∷◌, ◌++◌, map, arith, ltb, leb,
  ◌==◌, if◌then◌else◌, ltb→lt, lt→ltb, leb→le, ==_iff, Bool-cases, Option-cases, length, get_or,
  take, drop, drop_last, replicate, All, length-append, drop_last-append,
}
use hopssh.Base.Text.{Bytes, codes, is_empty, bytes_eq, bytes_eq_iff, bytes_eq_refl, contains}
use hopssh.Portmap.Wire.{
  put_u16, put_u32, byte_at, u16_at, u32_at, slice, Ipv4, addr_from4, is_unspecified, Addr, invalid,
  v6, v4,
}

abbrev pub version : ℕ
version = 0

abbrev pub op_external_addr : ℕ
op_external_addr = 0

abbrev pub op_map_udp : ℕ
op_map_udp = 1

-- natpmpResponseOpBit, added to an opcode below it.
abbrev pub response_op_bit : ℕ
response_op_bit = 128

abbrev pub lifetime_request : ℕ
lifetime_request = 7200

-- 60 minutes.
abbrev pub lifetime_fallback : ℕ
lifetime_fallback = 3600

-- The errors that `resultCodeError` tells apart.
pub data ResultCode : Type 0 where
  unsupported_version not_authorized network_failure out_of_resources : ResultCode
  unsupported_opcode : ResultCode
  other_code : ℕ → ResultCode

pub data Error : Type 0 where
  invalid_gateway dial_error context_done write_error no_response : Error
  bad_version bad_opcode : ℕ → Error
  result_code : ResultCode → Error
  double_nat zero_port : Error
  port_mismatch : ℕ → Error

pub data Result {ℓ} (A : Type ℓ) : Type ℓ where
  err : Error → Result A
  ok : A → Result A

-- The early return of `if err != nil`.
infixl 5 ◌>>=◌
abbrev pub ◌>>=◌ {ℓ κ} : {S : Type ℓ} {T : Type κ} → Result S → (S → Result T) → Result T
err why >>= next = err why
ok value >>= next = next value

pub result_code_error : ℕ → ResultCode
result_code_error rc =
    if rc == 1
    then unsupported_version
    else if rc == 2
    then not_authorized
    else if rc == 3
    then network_failure
    else if rc == 4
    then out_of_resources
    else if rc == 5
    then unsupported_opcode
    else other_code rc

-- What one attempt meets: a context that is done, a failed write, a read that ends in its timeout
-- or in another error, or a datagram.
pub data Attempt : Type 0 where
  cancelled write_failed timed_out read_failed : Attempt
  datagram : Bytes → Attempt

-- `deadline` is the time from the call to the deadline of the context, in milliseconds.
pub record Net : Type 0 where
  pub dials : Bool
  pub deadline : Option ℕ
  pub attempt : ℕ → Attempt

-- ctx.Err() at the time `waited`, of a context with that deadline.
abbrev pub is_past : Option ℕ → ℕ → Bool
is_past none waited = false
is_past (some d) waited = leb d waited

-- The time that a read has: up to the earlier of the backoff and the deadline.
abbrev pub read_time : Option ℕ → ℕ → ℕ → ℕ
read_time none backoff waited = backoff
read_time (some d) backoff waited = if ltb (d - waited) backoff then d - waited else backoff

-- The loop of `roundTrip`: `left` attempts remain, `n` are done. The clock `waited`, also the
-- second result, is the sum of the read timeouts that ran out; nothing else takes time.
pub attempt_loop : Option ℕ → (ℕ → Attempt) → ℕ → ℕ → ℕ → ℕ → ℕ → Result Bytes × ℕ
attempt_loop deadline net resp_len zero n backoff waited = (err no_response, waited)
attempt_loop deadline net resp_len (suc left) n backoff waited =
    let retry = attempt_loop deadline net resp_len left (n + 1) (backoff * 2) in
    if is_past deadline waited then (err context_done, waited) else elim (net n) [
      | cancelled ↦ (err context_done, waited)
      | write_failed ↦ (err write_error, waited)
      | timed_out ↦ retry (waited + read_time deadline backoff waited)
      | read_failed ↦ retry waited
      | datagram b ↦
          if leb resp_len (length b) then (ok (take resp_len b), waited) else retry waited
    ]

abbrev pub max_attempts : ℕ
max_attempts = 9

unfoldable pub round_trip : Net → ℕ → Result Bytes
unfolding attempt_loop
round_trip net resp_len =
    if net.dials
    then (attempt_loop net.deadline net.attempt resp_len max_attempts 0 250 0).0
    else err dial_error

unfoldable pub external_addr_request : Bytes
external_addr_request = version ∷ op_external_addr ∷ []

unfoldable pub map_request : ℕ → Bytes
map_request port =
    version ∷ op_map_udp ∷ 0 ∷ 0 ∷ (put_u16 port ++ (put_u16 port ++ put_u32 lifetime_request))

-- The request of `Unmap`: no suggested port, lifetime 0.
unfoldable pub unmap_request : ℕ → Bytes
unmap_request port = version ∷ op_map_udp ∷ 0 ∷ 0 ∷ (put_u16 port ++ 0 ∷ 0 ∷ 0 ∷ 0 ∷ 0 ∷ 0 ∷ [])

-- The tests of `queryExternalAddr` on a response.
unfoldable pub read_external_addr : Bytes → Result Ipv4
unfolding result_code_error
read_external_addr resp =
    if not (byte_at resp 0 == version)
    then err (bad_version (byte_at resp 0))
    else if not (byte_at resp 1 == response_op_bit + op_external_addr)
    then err (bad_opcode (byte_at resp 1))
    else if not (u16_at resp 2 == 0)
    then err (result_code (result_code_error (u16_at resp 2)))
    else if is_unspecified (addr_from4 (slice 8 12 resp))
    then err double_nat
    else ok (addr_from4 (slice 8 12 resp))

-- The tests of `requestMap` on a response: the external port and the lifetime.
unfoldable pub read_map : ℕ → Bytes → Result (ℕ × ℕ)
unfolding result_code_error
read_map port resp =
    if not (byte_at resp 0 == version)
    then err (bad_version (byte_at resp 0))
    else if not (byte_at resp 1 == response_op_bit + op_map_udp)
    then err (bad_opcode (byte_at resp 1))
    else if not (u16_at resp 2 == 0)
    then err (result_code (result_code_error (u16_at resp 2)))
    else if not (u16_at resp 8 == port)
    then err (port_mismatch (u16_at resp 8))
    else if u16_at resp 10 == 0
    then err zero_port
    else ok (u16_at resp 10, u32_at resp 12)

abbrev pub is_v4 : Addr → Bool
is_v4 invalid = false
is_v4 v6 = false
is_v4 (v4 _) = true

-- The two exchanges of `Map`, with one network for each: address, port and lifetime.
unfoldable pub exchange : Net → Net → ℕ → Result (Ipv4 × ℕ × ℕ)
exchange net₁ net₂ port = round_trip net₁ 12 >>= λ r₁. read_external_addr r₁ >>= λ public.
    round_trip net₂ 16 >>= λ r₂.
    read_map port r₂ >>= λ m. ok (public, m.0, if m.1 == 0 then lifetime_fallback else m.1)

unfoldable pub map_port : Addr → Net → Net → ℕ → Result (Ipv4 × ℕ × ℕ)
map_port gateway net₁ net₂ port =
    if is_v4 gateway then exchange net₁ net₂ port else err invalid_gateway
