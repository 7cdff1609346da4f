-- ===== src/Pki.antt =====
-- Addresses within a network's subnet (internal/pki/subnet.go). `parse` is netip.ParsePrefix: the
-- four bytes of the address and the length of the prefix, or no four bytes for an IPv6 prefix, on
-- which `As4` panics.
pub mod Distinct
use hopssh.Base.{
  ℕ, zero, suc, ◌+◌, ◌-◌, ◌*◌, ◌/◌, ◌%◌, ◌≤◌, ◌<◌, ◌≡◌, refl, sym, ap, ◌∙◌, ◌≢◌, ◌↔◌, ◌⊎◌, inl, inr,
  Bool, true, false, not, ◌&&◌, ◌||◌, Option, none, some, List, [], ◌∷◌, ◌++◌, map, arith, ltb, leb,
  ◌==◌, if◌then◌else◌, ltb→lt, lt→ltb, leb→le, ==_iff, Bool-cases, Option-cases, length, get_or,
  take, drop, drop_last, replicate, All, length-append, drop_last-append,
}
use hopssh.Base.Text.{Bytes, codes, is_empty, bytes_eq, bytes_eq_iff, bytes_eq_refl, contains}
use hopssh.Base.Int.{ℤ, pos, negsuc, pos_part, neg_part, sub_ℕ, ◌+ℤ◌}
use hopssh.Portmap.Wire.{Ipv4}

pub data Prefix : Type 0 where
  v4_prefix : Ipv4 → ℕ → Prefix
  v6_prefix : Prefix

pub data Result {ℓ} (A : Type ℓ) : Type ℓ where
  ok : A → Result A
  parse_error out_of_range panic : Result A

abbrev pub below_zero : ℤ → Bool
below_zero (pos n) = false
below_zero (negsuc n) = true

subnet_base : Prefix → ℕ → Result Prefix
subnet_base (v4_prefix ip len) index = ok (v4_prefix (record ip { d = index % 256 }) 24)
subnet_base v6_prefix index = panic

unfoldable pub subnet_ip : (Bytes → Option Prefix) → Bytes → ℤ → Result Prefix
unfolding subnet_base
subnet_ip parse subnet index = elim (parse subnet) [
  | none ↦ parse_error
  | some prefix ↦
      if below_zero index || ltb 254 (pos_part index)
      then out_of_range
      else subnet_base prefix (pos_part index)
]

pub server_address : (Bytes → Option Prefix) → Bytes → Result Prefix
server_address parse subnet = subnet_ip parse subnet (pos 1)

unfoldable pub node_address : (Bytes → Option Prefix) → Bytes → ℤ → Result Prefix
node_address parse subnet index = subnet_ip parse subnet (index +ℤ pos 2)
