-- ===== src/Portmap/Wire.antt =====
-- Network byte order and IPv4 addresses, as the port-mapping clients use them.
use hopssh.Base.{ℕ, ◌+◌, ◌-◌, ◌*◌, ◌/◌, ◌%◌, Bool, ◌&&◌, [], ◌∷◌, ◌==◌, get_or, take, drop}
use hopssh.Base.Text.{Bytes}

abbrev pub put_u16 : ℕ → Bytes
put_u16 n = n / 256 % 256 ∷ n % 256 ∷ []

abbrev pub put_u32 : ℕ → Bytes
put_u32 n = n / 16777216 % 256 ∷ n / 65536 % 256 ∷ n / 256 % 256 ∷ n % 256 ∷ []

abbrev pub byte_at : Bytes → ℕ → ℕ
byte_at bs i = get_or bs i 0

abbrev pub u16_at : Bytes → ℕ → ℕ
u16_at bs i = byte_at bs i * 256 + byte_at bs (i + 1)

abbrev pub u32_at : Bytes → ℕ → ℕ
u32_at bs i =
    byte_at bs i * 16777216
    + byte_at bs (i + 1) * 65536
    + byte_at bs (i + 2) * 256
    + byte_at bs (i + 3)

-- `bs[from:to]`
abbrev pub slice : ℕ → ℕ → Bytes → Bytes
slice from to bs = take (to - from) (drop from bs)

-- The four bytes of an IPv4 address.
pub record Ipv4 : Type 0 where
  pub a : ℕ
  pub b : ℕ
  pub c : ℕ
  pub d : ℕ

abbrev pub addr_from4 : Bytes → Ipv4
addr_from4 bs = record { a = byte_at bs 0; b = byte_at bs 1; c = byte_at bs 2; d = byte_at bs 3 }

abbrev pub octets : Ipv4 → Bytes
octets ip = ip.a ∷ ip.b ∷ ip.c ∷ ip.d ∷ []

-- `IsUnspecified`: 0.0.0.0.
abbrev pub is_unspecified : Ipv4 → Bool
is_unspecified ip = ip.a == 0 && (ip.b == 0 && (ip.c == 0 && ip.d == 0))

-- A netip.Addr: none, an IPv4 address, or an IPv6 address.
pub data Addr : Type 0 where
  invalid v6 : Addr
  v4 : Ipv4 → Addr
