-- ===== src/ReadRetry.antt =====
-- oracle/read-retry.js: a read that is tried again, with longer waits, while its errors are of the
-- kind that pass.
pub mod Attempts
mod Tests
use sigvara.Prelude.{ℕ, List, [], suc, zero, ◌*◌, ◌+◌, ◌-◌, ◌∷◌}

-- How one try ends: an answer, an error that is worth another try, or one that is not.
pub data Try (A : Type 0) : Type 0 where
  answer : A → Try A
  transient permanent : Try A

-- What the call ends in, and the waits before each further try.
pub record Outcome (A : Type 0) : Type 0 where
  pub result : Try A
  pub waits : List ℕ

module _ {A : Type 0} where
  -- The loop of `readWithBackoff` from try `i` on, `left` more tries being allowed after it.
  pub retry : (ℕ → Try A) → ℕ → ℕ → ℕ → Outcome A
  retry fn zero i delay = record { result = fn i; waits = [] }
  retry fn (suc left) i delay =
      let rest = retry fn left (i + 1) (delay * 2) in
      elim (fn i) [
        | answer a ↦ record { result = answer a; waits = [] }
        | permanent ↦ record { result = permanent; waits = [] }
        | transient ↦ record { result = rest.result; waits = delay ∷ rest.waits }
      ]

  -- `readWithBackoff`, of one try or more.
  pub read_with_backoff : (ℕ → Try A) → ℕ → Outcome A
  unfolding retry
  read_with_backoff fn attempts = retry fn (attempts - 1) 0 500
