-- ===== src/Client/NebulaConfig/Device.antt =====
-- The names of the tunnel devices (internal/client/enroll.go: meshIfaceName).
use hopssh.Base.{
  ℕ, zero, suc, ◌+◌, ◌≤◌, ◌≡◌, refl, sym, ap, ◌↔◌, inl, inr, [], ◌∷◌, ◌++◌, arith, leb, Bool-cases,
  length, take, drop,
}
use hopssh.Base.Text.{Bytes, codes}
use hopssh.Client.NebulaConfig.{mesh_iface_name}

take-all : (n : ℕ) (s : Bytes) → length s ≤ n → take n s ≡ s
take-all zero [] h = refl
take-all (suc n) [] h = refl
take-all zero (c ∷ cs) h = absurd (ground (arith, h))
take-all (suc n) (c ∷ cs) h = ap (◌∷◌ c) (take-all n cs (omega (arith, h)))

length-take : (n : ℕ) (s : Bytes) → length (take n s) ≤ n
length-take zero s = ground arith
length-take (suc n) [] = ground arith
length-take (suc n) (c ∷ cs) = omega (arith, length-take n cs)

mesh_iface_name-take : (name : Bytes) → mesh_iface_name name ≡ codes "hop-" ++ take 11 name
unfolding mesh_iface_name
mesh_iface_name-take name = elim (Bool-cases (leb (4 + length name) 15)) [
  | inl y ↦ rw (y) (ap (λ s. codes "hop-" ++ s) (sym (take-all 11 name (ground (arith, y)))))
  | inr n ↦ rw n refl
]

-- A device name has at most 15 bytes, and two enrollments have the same one exactly if the first 11
-- bytes of their names agree.
pub mesh_iface_name-same :
    (a b : Bytes)
    → (length (mesh_iface_name a) ≤ 15)
      × ((mesh_iface_name a ≡ mesh_iface_name b) ↔ (take 11 a ≡ take 11 b))
mesh_iface_name-same a b =
    rw (mesh_iface_name-take a, mesh_iface_name-take b)
      (omega (arith, length-take 11 a), (λ e. ap (drop 4) e, λ e. ap (λ s. codes "hop-" ++ s) e))
