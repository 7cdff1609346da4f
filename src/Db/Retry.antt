-- ===== src/Db/Retry.antt =====
-- The lock retries around the database (internal/db/resilience.go). What the driver and the context
-- do is an argument: the outcome of the first call, and for each retry whether the context is done
-- first and the outcome of the call. Durations are in milliseconds.
use mathlib.Core.Path.{ap₂}
use native.Mathlib.Nat.{zero-add}
use hopssh.Base.{
  ℕ, suc, ◌+◌, ◌≡◌, refl, ◌∙◌, Bool, false, Option, none, some, List, [], ◌∷◌, ◌++◌, arith,
  if◌then◌else◌, length,
}

pub data Outcome {ℓ} (A : Type ℓ) : Type ℓ where
  done : A → Outcome A
  locked : ℕ → Outcome A  -- an error that `isLockError` accepts, by its number
  failed : ℕ → Outcome A

pub data Final {ℓ} (A : Type ℓ) : Type ℓ where
  returned : A → Final A
  error : ℕ → Final A
  context_done : Final A
  no_error_no_result : Final A

pub record Retry {ℓ} (A : Type ℓ) : Type ℓ where
  pub cancelled : Bool
  pub outcome : Outcome A

lock_retry_intervals : List ℕ
lock_retry_intervals = 50 ∷ 100 ∷ 150 ∷ 200 ∷ 300 ∷ 400 ∷ 500 ∷ 700 ∷ 1000 ∷ 1500 ∷ 2000 ∷ 3000 ∷ []

-- The sum of the intervals.
abbrev total : List ℕ → ℕ
total [] = 0
total (i ∷ is) = i + total is

-- The error of the last call, with `code n` the error of the n-th retry.
abbrev last_code : (ℕ → ℕ) → ℕ → Option ℕ → List ℕ → Option ℕ
last_code code n last [] = last
last_code code n last (i ∷ is) = last_code code (n + 1) (some (code n)) is

module _ {ℓ} {A : Type ℓ} where
  abbrev last_error : Option ℕ → Final A
  last_error none = no_error_no_result
  last_error (some e) = error e

  -- `retryExec` (and `retryQuery`, which is the same loop): the result, the calls made and the time
  -- waited. `attempt n` is the n-th retry.
  retry_exec : (ℕ → Retry A) → List ℕ → ℕ → Option ℕ → ℕ → Final A × ℕ × ℕ
  retry_exec attempt [] n last waited = (last_error last, n, waited)
  retry_exec attempt (interval ∷ rest) n last waited =
      let again = λ (e : ℕ). retry_exec attempt rest (n + 1) (some e) (waited + interval) in
      if (attempt n).cancelled then (context_done, n, waited) else elim (attempt n).outcome [
        | done a ↦ (returned a, n + 1, waited + interval)
        | failed e ↦ (error e, n + 1, waited + interval)
        | locked e ↦ again e
      ]

  -- `ExecContext` and `QueryContext`.
  exec_context : Outcome A → (ℕ → Retry A) → Final A × ℕ × ℕ
  exec_context (done a) attempt = (returned a, 0, 0)
  exec_context (failed e) attempt = (error e, 0, 0)
  exec_context (locked e) attempt = retry_exec attempt lock_retry_intervals 0 none 0

  lock_step :
      (attempt : ℕ → Retry A) (i : ℕ) (is : List ℕ) (n : ℕ) (last : Option ℕ) (waited e : ℕ)
      → (attempt n).cancelled ≡ false
      → (attempt n).outcome ≡ locked e
      → retry_exec attempt (i ∷ is) n last waited
        ≡ retry_exec attempt is (n + 1) (some e) (waited + i)
  unfolding retry_exec
  lock_step attempt i is n last waited e c o = rw (c, o, retry_exec) refl

  -- Any number of lock errors in a row: the retries go on with the rest of the intervals.
  abbrev LockedFor : (ℕ → Retry A) → (ℕ → ℕ) → ℕ → List ℕ → Type ℓ
  LockedFor attempt code n [] = Unit
  LockedFor attempt code n (i ∷ is) =
      ((attempt n).cancelled ≡ false)
      × ((attempt n).outcome ≡ locked (code n))
      × LockedFor attempt code (n + 1) is

  -- While the calls meet locks the loop goes on with the intervals behind.
  locked_prefix :
      (attempt : ℕ → Retry A) (code : ℕ → ℕ) (is js : List ℕ) (n : ℕ) (last : Option ℕ) (waited : ℕ)
      → LockedFor attempt code n is
      → retry_exec attempt (is ++ js) n last waited
        ≡ retry_exec attempt js (n + length is) (last_code code n last is) (waited + total is)
  locked_prefix attempt code [] js n last waited l =
      ap₂ (λ a b. retry_exec attempt js a last b) (plus_zero n) (plus_zero waited)
    where
      plus_zero : (k : ℕ) → k ≡ k + 0
      plus_zero k = omega arith
  locked_prefix attempt code (i ∷ is) js n last waited (c, o, l) =
      lock_step attempt i (is ++ js) n last waited (code n) c o
      ∙ (locked_prefix attempt code is js (n + 1) (some (code n)) (waited + i) l
          ∙ ap₂ (λ a b. retry_exec attempt js a (last_code code n last (i ∷ is)) b)
              (plus_suc n (length is)) (plus_assoc waited i (total is)))
    where
      plus_suc : (a b : ℕ) → a + 1 + b ≡ a + suc b
      plus_suc a b = omega arith

      plus_assoc : (a b c : ℕ) → a + b + c ≡ a + (b + c)
      plus_assoc a b c = omega arith

  done_step :
      (attempt : ℕ → Retry A) (i : ℕ) (js : List ℕ) (n : ℕ) (last : Option ℕ) (waited : ℕ) (a : A)
      → (attempt n).cancelled ≡ false
      → (attempt n).outcome ≡ done a
      → retry_exec attempt (i ∷ js) n last waited ≡ (returned a, n + 1, waited + i)
  unfolding retry_exec
  done_step attempt i js n last waited a c o = rw (c, o, retry_exec) refl

  exhausted :
      (attempt : ℕ → Retry A) (n : ℕ) (last : Option ℕ) (waited : ℕ)
      → retry_exec attempt [] n last waited ≡ (last_error last, n, waited)
  unfolding retry_exec
  exhausted attempt n last waited = refl

  -- If the first call meets a lock, the retries of some first intervals do too, and the next one
  -- works with the context not done, its result is returned after the waits up to there.
  released :
      (attempt : ℕ → Retry A) (code : ℕ → ℕ) (e : ℕ) (is js : List ℕ) (i : ℕ) (a : A)
      → lock_retry_intervals ≡ is ++ i ∷ js
      → LockedFor attempt code 0 is
      → (attempt (length is)).cancelled ≡ false
      → (attempt (length is)).outcome ≡ done a
      → exec_context (locked e) attempt ≡ (returned a, length is + 1, total is + i)
  unfolding exec_context
  released attempt code e is js i a s l c o = rw s (
      locked_prefix attempt code is (i ∷ js) 0 none 0 l
      ∙ rw (zero-add, zero-add)
          (done_step attempt i js (length is) (last_code code 0 none is) (total is) a c o))

  -- If the first call and all retries meet a lock and the context is never done, the last lock
  -- error is returned after twelve retries and 9.9 seconds.
  never_released :
      (attempt : ℕ → Retry A) (code : ℕ → ℕ) (e : ℕ)
      → ((n : ℕ) → (attempt n).cancelled ≡ false)
      → ((n : ℕ) → (attempt n).outcome ≡ locked (code n))
      → exec_context (locked e) attempt ≡ (error (code 11), 12, 9900)
  unfolding exec_context lock_retry_intervals
  never_released attempt code e c o =
      locked_prefix attempt code lock_retry_intervals [] 0 none 0
        (everywhere lock_retry_intervals 0)
      ∙ exhausted attempt 12 (some (code 11)) 9900
    where
      everywhere : (is : List ℕ) (n : ℕ) → LockedFor attempt code n is
      everywhere [] n = tt
      everywhere (i ∷ is) n = (c n, o n, everywhere is (n + 1))
