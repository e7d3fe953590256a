-- ===== src/PayerOutcome/Times.antt =====
-- The times of an outcome that passes every check.
use sigvara.PayerOutcome.{
  Signed, checked_block_problem, max_check_lag_seconds, max_deadline_seconds,
  max_future_skew_seconds, timing_problem,
}
use sigvara.Prelude.{arith, none, ℕ, ◌*◌, ◌+◌, ◌/◌, ◌<◌, ◌↔◌, ◌≡◌, ◌≤◌}

-- An outcome passes both checks of its times exactly when it was signed after the payment settled,
-- not ahead of the clock and not long after the block it is checked at, and its deadline is within
-- a month of its signing and not past at that block.
pub timing_problem_iff :
    (v : Signed) (settled_at_ms now_ms checked_at_ms : ℕ)
    → ((timing_problem v settled_at_ms now_ms ≡ none)
        × (checked_block_problem v checked_at_ms ≡ none))
      ↔ ((settled_at_ms ≤ v.signed_at * 1000)
          × (v.signed_at ≤ now_ms / 1000 + max_future_skew_seconds)
          × (v.deadline ≤ v.signed_at + max_deadline_seconds)
          × (v.signed_at ≤ checked_at_ms / 1000 + max_check_lag_seconds)
          × (checked_at_ms / 1000 < v.deadline))
unfolding timing_problem checked_block_problem
timing_problem_iff v settled_at_ms now_ms checked_at_ms = (λ h. ground arith, λ h. ground arith)
