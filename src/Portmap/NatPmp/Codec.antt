-- ===== src/Portmap/NatPmp/Codec.antt =====
-- The client against the wire format of RFC 6886, as the head of natpmp.go gives it.
use hopssh.Base.{
  ℕ, ◌+◌, ◌*◌, ◌/◌, ◌%◌, ◌<◌, ◌≡◌, refl, ◌≢◌, inl, inr, false, ◌∷◌, ◌++◌, arith, ◌==◌,
  if◌then◌else◌, Bool-cases,
}
use hopssh.Base.Text.{Bytes}
use mathlib.Core.Path.{subst}
use hopssh.Portmap.Wire.{put_u16, put_u32, u16_at, Ipv4, octets, is_unspecified, Addr}
use hopssh.Portmap.NatPmp.{
  is_v4, invalid_gateway, exchange, Result, ok, err, result_code, result_code_error, read_map,
  read_external_addr, map_port, Net, ◌>>=◌, round_trip, lifetime_fallback,
}

-- The responses of a conforming gateway.
abbrev pub map_response : ℕ → ℕ → ℕ → ℕ → ℕ → Bytes
map_response rc epoch int_port ext_port lifetime =
    0
    ∷ 129
    ∷ (put_u16 rc
        ++ (put_u32 epoch ++ (put_u16 int_port ++ (put_u16 ext_port ++ put_u32 lifetime))))

abbrev pub external_addr_response : ℕ → ℕ → Ipv4 → Bytes
external_addr_response rc epoch ip = 0 ∷ 128 ∷ (put_u16 rc ++ (put_u32 epoch ++ octets ip))

u16_round : (n : ℕ) → n < 65536 → n / 256 % 256 * 256 + n % 256 ≡ n
u16_round n h = omega arith

u32_round :
    (n : ℕ)
    → n < 4294967296
    → n / 16777216 % 256 * 16777216 + n / 65536 % 256 * 65536 + n / 256 % 256 * 256 + n % 256 ≡ n
u32_round n h = omega arith

-- A response of RFC 6886 that grants a mapping for the requested port, with an external port from 1
-- to 65535 and a 32-bit lifetime, is read as that port and that lifetime, or the fallback for a
-- lifetime of 0.
read_map-map_response :
    (epoch port ext lifetime : ℕ)
    → port < 65536
    → 0 < ext
    → ext < 65536
    → lifetime < 4294967296
    → read_map port (map_response 0 epoch port ext lifetime) ≡ ok (ext, lifetime)
unfolding read_map
read_map-map_response epoch port ext lifetime p q r l =
    ground (arith, u16_round port p, u16_round ext r, u32_round lifetime l)

-- A refusal is reported with its code.
read_map-refused :
    (rc epoch port port' ext lifetime : ℕ)
    → 0 < rc
    → rc < 65536
    → read_map port (map_response rc epoch port' ext lifetime)
      ≡ err (result_code (result_code_error rc))
unfolding read_map
read_map-refused rc epoch port port' ext lifetime p q = ground (arith, u16_round rc q)

read_external_addr-response :
    (epoch : ℕ) (ip : Ipv4)
    → is_unspecified ip ≡ false
    → read_external_addr (external_addr_response 0 epoch ip) ≡ ok ip
unfolding read_external_addr
read_external_addr-response epoch ip h = ground (arith, h)

read_map_ok :
    (port : ℕ) (resp : Bytes) (ext lifetime : ℕ)
    → read_map port resp ≡ ok (ext, lifetime)
    → (0 < ext) × (u16_at resp 8 ≡ port) × (ext ≡ u16_at resp 10) × (u16_at resp 2 ≡ 0)
unfolding read_map
read_map_ok port resp ext lifetime h = ground arith

read_external_addr_ok :
    (resp : Bytes) (ip : Ipv4) → read_external_addr resp ≡ ok ip → is_unspecified ip ≡ false
unfolding read_external_addr
read_external_addr_ok resp ip h = ground arith

bind_succeeds {ℓ κ} :
    {S : Type ℓ} {T : Type κ} (first : Result S) (next : S → Result T) {t : T}
    → first >>= next ≡ ok t
    → (s : S) × (first ≡ ok s) × (next s ≡ ok t)
bind_succeeds (err why) next h = cc
bind_succeeds (ok value) next h = (value, refl, h)

accepted :
    (gateway : Addr) (net₁ net₂ : Net) (port : ℕ) (r : Ipv4 × ℕ × ℕ)
    → map_port gateway net₁ net₂ port ≡ ok r
    → exchange net₁ net₂ port ≡ ok r
unfolding map_port
accepted gateway net₁ net₂ port r h = elim (Bool-cases (is_v4 gateway)) [
  | inl e ↦ rw e at h
  | inr n ↦ absurd (refused (rw n at h))
]
  where
    refused : err invalid_gateway ≢ ok r
    refused k = cc

reported :
    (public ip : Ipv4) (m₀ m₁ ext ttl : ℕ)
    → ◌≡◌ {A = Result (Ipv4 × ℕ × ℕ)}
        (ok (public, m₀, if m₁ == 0 then lifetime_fallback else m₁))
        (ok (ip, ext, ttl))
    → (public ≡ ip) × (m₀ ≡ ext) × (0 < ttl)
reported public ip m₀ m₁ ext ttl h = ground (arith, h)

-- Whatever the network sends, a mapping that `Map` of the NAT-PMP client reports has an address
-- other than 0.0.0.0, and a port and a lifetime other than 0.
map_port_usable :
    (gateway : Addr) (net₁ net₂ : Net) (port : ℕ) (ip : Ipv4) (ext ttl : ℕ)
    → map_port gateway net₁ net₂ port ≡ ok (ip, ext, ttl)
    → (is_unspecified ip ≡ false) × (0 < ext) × (0 < ttl)
unfolding exchange
map_port_usable gateway net₁ net₂ port ip ext ttl h =
    let steps = accepted gateway net₁ net₂ port (ip, ext, ttl) h in
    let (r₁, _, s₁) = bind_succeeds (round_trip net₁ 12) _ steps in
    let (public, read, s₂) = bind_succeeds (read_external_addr r₁) _ s₁ in
    let (r₂, _, s₃) = bind_succeeds (round_trip net₂ 16) _ s₂ in
    let (m, mapped, s₄) = bind_succeeds (read_map port r₂) _ s₃ in
    let (same_ip, same_ext, alive) = reported public ip m.0 m.1 ext ttl s₄ in
    (
      subst (λ x. is_unspecified x ≡ false) same_ip (read_external_addr_ok r₁ public read),
      subst (λ x. 0 < x) same_ext (read_map_ok port r₂ m.0 m.1 mapped).0,
      alive,
    )
