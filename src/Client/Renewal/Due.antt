-- ===== src/Client/Renewal/Due.antt =====
-- When the agent renews its certificate (internal/client/renew.go: timeUntilRenewal).
use hopssh.Base.{
  ℕ, suc, ◌+◌, ◌-◌, ◌/◌, ◌<◌, ◌≡◌, refl, inl, inr, true, false, arith, leb, ◌==◌, Bool-cases,
}
use hopssh.Base.Int.{sub_ℕ}
use hopssh.Client.Renewal.{due_in, valid_until, time_until_renewal, is_due}

is_due-positive : (a b : ℕ) → b < a → is_due (due_in (sub_ℕ a b)) ≡ false
unfolding is_due
is_due-positive a b h =
    let least : leb b a ≡ true = ground arith in
    let e : a - b ≡ suc (a - b - 1) = omega arith in rw least (rw e refl)

tenth_below_half : (r x : ℕ) → (r / 5 == 0) ≡ false → r / 10 < r / 2 + x
tenth_below_half r x h = let some_left : 0 < r / 5 = ground (arith, h) in omega arith

-- Whatever the random numbers are: a pass of the loop that reads a certificate begins a renewal
-- exactly if the certificate has expired.
pub due-expired :
    (random : ℕ → ℕ) (until now : ℕ)
    → is_due (time_until_renewal random (valid_until until) now) ≡ leb until now
unfolding time_until_renewal is_due
due-expired random until now = elim (Bool-cases (leb until now)) [
  | inl y ↦ rw y refl
  | inr n ↦ rw n (elim (Bool-cases ((until - now) / 5 == 0)) [
    | inl y ↦ rw y refl
    | inr m ↦ rw m (
        is_due-positive ((until - now) / 2 + random ((until - now) / 5)) ((until - now) / 10)
          (tenth_below_half (until - now) (random ((until - now) / 5)) m))
  ])
]
