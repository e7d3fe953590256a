-- ===== src/EpochPolicy/Tests.antt =====
-- Decisions on concrete proposals, and the theorems at an input that meets their hypotheses.
use sigvara.EpochPolicy.{
  Factor, decide_checker_action, finalizable_at_of, score_divergence, Factors, Pending, Grace,
  CheckerAction, abs_diff,
}
use sigvara.EpochPolicy.Agreements.{decide_checker_action-Agrees, Agrees, sum_of}
use sigvara.EpochPolicy.Divergences.{decide_checker_action-diverged}
use sigvara.Prelude.{arith, refl, some, true, ◌+◌, ◌↔◌, ◌≡◌, ◌≤◌}

abbrev scored : Factors
scored Factor.fee = some 12
scored Factor.success = some 9
scored Factor.age = some 20
scored Factor.external = some 4
scored Factor.community = some 5
scored Factor.propagation = some 0

-- Two factors off by four, in opposite directions, so that the totals agree.
abbrev offset : Factors
offset Factor.fee = some 8
offset Factor.success = some 13
offset Factor.age = some 20
offset Factor.external = some 4
offset Factor.community = some 5
offset Factor.propagation = some 0

abbrev proposal : Pending
proposal = record { exists = true; finalizable_at = 500; proposed_at = 100; scores = scored }

abbrev grace : Grace
grace = record { grace_seconds = 60; empty_since = 0 }

decide_checker_action_runs :
    (decide_checker_action (some proposal) scored 300 560 (some 3) grace ≡ CheckerAction.finalize)
    × (decide_checker_action (some proposal) scored 300 559 (some 3) grace
        ≡ CheckerAction.defer_finalize)
    × (decide_checker_action (some proposal) offset 300 560 (some 3) grace ≡ CheckerAction.diverged)
unfolding decide_checker_action score_divergence finalizable_at_of
decide_checker_action_runs = (refl, refl, refl)

decide_checker_action-Agrees_example :
    (decide_checker_action (some proposal) scored 300 560 (some 3) grace ≡ CheckerAction.finalize)
    ↔ ((proposal.exists ≡ true)
        × ((f : Factor) → Agrees (proposal.scores f) (scored f) 3)
        × (abs_diff (sum_of scored) (sum_of proposal.scores) ≤ 3)
        × (finalizable_at_of proposal 300 + 60 ≤ 560))
decide_checker_action-Agrees_example = decide_checker_action-Agrees proposal scored 300 560 3 grace

decide_checker_action-diverged_example :
    decide_checker_action (some proposal) offset 300 90 (some 3) grace ≡ CheckerAction.diverged
decide_checker_action-diverged_example =
    decide_checker_action-diverged proposal offset 300 90 3 grace Factor.fee refl (omega arith)
