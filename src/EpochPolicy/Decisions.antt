-- ===== src/EpochPolicy/Decisions.antt =====
-- When an epoch acts: the proposer after the window, the checker only on what it agrees with.
use sigvara.EpochPolicy.{
  decide_action, finalize_then_propose, finalizable_at_of, decide_checker_action, score_divergence,
  Pending, Factors, Grace, CheckerAction,
}
use sigvara.Prelude.{Option, some, true, ℕ, ◌+◌, ◌↔◌, ◌≡◌, ◌≤◌, arith, ◌≢◌}

-- The checker finalizes exactly where it agrees and the proposal's time and the grace are past:
-- the proposal is there, every factor of it can be compared, neither the totals nor any one factor
-- differ by more than the tolerance, and the time of finalization lies a grace or more back.
pub decide_checker_action-finalize :
    (p : Pending) (own : Factors) (window now : ℕ) (tolerance : ℕ) (g : Grace)
    → let d = score_divergence p.scores own in
      (decide_checker_action (some p) own window now (some tolerance) g ≡ CheckerAction.finalize)
      ↔ ((p.exists ≡ true)
          × (d.comparable ≡ true)
          × (d.total ≤ tolerance)
          × (d.max_factor ≤ tolerance)
          × (finalizable_at_of p window + g.grace_seconds ≤ now))
unfolding decide_checker_action
decide_checker_action-finalize p own window now tolerance g = (λ h. ground arith, λ h. ground arith)

-- The checker stands behind the proposer: whenever it would finalize, the proposer that sees the
-- same proposal at the same time would too.
pub decide_checker_action_behind :
    (p : Pending) (own : Factors) (window now : ℕ) (tolerance : Option ℕ) (g : Grace)
    → decide_checker_action (some p) own window now tolerance g ≡ CheckerAction.finalize
    → decide_action (some p) window now ≡ finalize_then_propose
unfolding decide_checker_action decide_action
decide_checker_action_behind p own window now tolerance g h = ground arith

-- The checker proposes nothing over a proposal that is there.
pub decide_checker_action_held :
    (p : Pending) (own : Factors) (window now : ℕ) (tolerance : Option ℕ) (g : Grace)
    → p.exists ≡ true
    → decide_checker_action (some p) own window now tolerance g ≢ CheckerAction.propose
unfolding decide_checker_action
decide_checker_action_held p own window now tolerance g held h = ground arith
