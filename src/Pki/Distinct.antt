-- ===== src/Pki/Distinct.antt =====
-- Distinct nodes have distinct addresses, and none has the server's.
use hopssh.Base.{ℕ, ◌+◌, ◌≡◌, ◌∙◌, ◌≢◌, Option, some, arith, leb, if◌then◌else◌}
use hopssh.Base.Text.{Bytes}
use hopssh.Base.Int.{pos, ◌+ℤ◌}
use hopssh.Portmap.Wire.{Ipv4}
use hopssh.Pki.{Prefix, v4_prefix, ok, out_of_range, subnet_ip, server_address, node_address}

plus_two : (n : ℕ) → pos n +ℤ pos 2 ≡ pos (n + 2)
unfolding ◌+ℤ◌
plus_two n = ground arith

-- The host `n` of the /24 of an address.
abbrev pub host : Ipv4 → ℕ → Prefix
host ip n = v4_prefix (record ip { d = n }) 24

module _ (parse : Bytes → Option Prefix) (subnet : Bytes) (ip : Ipv4) (len : ℕ)
    (parsed : parse subnet ≡ some (v4_prefix ip len)) where
  subnet_ip_lem :
      (n : ℕ)
      → subnet_ip parse subnet (pos n) ≡ (if leb n 254 then ok (host ip n) else out_of_range)
  unfolding subnet_ip
  subnet_ip_lem n = rw (parsed, subnet_ip) (ground arith)

  -- In an IPv4 subnet the node indices 0 to 252 get the hosts .2 to .254, and every larger index is
  -- refused.
  pub node_address_lem :
      (n : ℕ)
      → node_address parse subnet (pos n)
        ≡ (if leb n 252 then ok (host ip (n + 2)) else out_of_range)
  unfolding node_address
  node_address_lem n = rw (plus_two n) (subnet_ip_lem (n + 2) ∙ same_bound)
    where
      same_bound :
          (if leb (n + 2) 254 then ok (host ip (n + 2)) else out_of_range)
          ≡ (if leb n 252 then ok (host ip (n + 2)) else out_of_range)
      same_bound = ground arith

  -- In an IPv4 subnet, two node indices with the same address are equal, and no node has the
  -- address of the server.
  node_address_distinct :
      (n m : ℕ) (a : Prefix)
      → node_address parse subnet (pos n) ≡ ok a
      → node_address parse subnet (pos m) ≡ ok a
      → (n ≡ m) × (server_address parse subnet ≢ ok a)
  unfolding server_address
  node_address_distinct n m a h k = (
    ground (arith, h, k, node_address_lem n, node_address_lem m),
    λ s. ground (arith, h, s, node_address_lem n, subnet_ip_lem 1),
  )
