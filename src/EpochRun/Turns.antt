-- ===== src/EpochRun/Turns.antt =====
-- The whole turn of an agent: what has to hold for a score to be proposed for it.
use sigvara.EpochRun.{Asks, Config, CutReads, Guard, State, Try, fail, is_not_authorized}
use sigvara.EpochRun.Sending.{after_finalize_error, cut_too_old, evidence_cut}
use sigvara.EpochRun.Gates.{IsPaid, IsSlotFree, with_scores-IsPaid, with_scores-IsSlotFree}
use sigvara.EpochRun.Rounds.{
  with_scores, bonded_stage, finalize_first, finalize_stage, score_stage, visit,
}
use sigvara.EpochRun.Proposals.{proposes, with_scores-IsSent, Try-cases}
use sigvara.EpochPolicy.{Action, decide_action}
use sigvara.PaymentChains.{active}
use sigvara.Prelude.{
  Bool-cases, Option-cases, arith, false, inl, inr, refl, some, true, ℕ, ◌*◌, ◌≡◌, ◌≢◌, ◌⊎◌,
}

pub Action-cases :
    (d : Action) → (d ≡ Action.propose) ⊎ ((d ≡ Action.finalize_then_propose) ⊎ (d ≡ Action.skip))
Action-cases Action.propose = inl refl
Action-cases Action.finalize_then_propose = inr (inl refl)
Action-cases Action.skip = inr (inr refl)

module _ (cfg : Config) (a : Asks) where
  -- The agent's links are checked, the epoch's fee is paid where it is charged, and the checker finds
  -- the slot free; with payment chains on, no transaction is unconfirmed, the scans
  -- cover a cut of the evidence, and that is recent when the score is proposed.
  pub record IsScorable (s : State) : Type 0 where
    pub linked : a.link_unchecked ≡ false
    pub covered :
        active cfg.chains ≡ true
        → (s.stopped ≡ false)
          × (r : CutReads) × (cut : ℕ) × (t : ℕ) × (a.cut_reads ≡ Try.ok r)
          × (evidence_cut cfg r ≡ some cut)
          × (a.latest_time ≡ Try.ok t)
          × (cut_too_old cfg (t * 1_000) (some cut) ≡ false)
    pub paid : IsPaid cfg a
    pub slot : IsSlotFree cfg a

  score_stage-IsScorable : (s : State) → proposes (score_stage cfg a s).1 ≡ true → IsScorable s
  unfolding score_stage proposes fail
  score_stage-IsScorable s h = elim (Bool-cases a.link_unchecked) [
    | inl unchecked ↦ absurd (ground (arith, h, unchecked))
    | inr linked ↦ elim (Bool-cases (active cfg.chains)) [
      | inr off ↦
          let sent : proposes (with_scores cfg a (cfg.chain_now * 1_000) s).1 ≡ true =
            ground (arith, h, linked, off) in
          record {
            linked = linked;
            covered = λ on. absurd (ground (arith, on, off));
            paid = with_scores-IsPaid cfg a (cfg.chain_now * 1_000) s sent;
            slot = with_scores-IsSlotFree cfg a (cfg.chain_now * 1_000) s sent;
          }
      | inl on ↦ elim (Try-cases a.cut_reads) [
        | inr (e, threw) ↦ absurd (ground (arith, h, linked, on, threw))
        | inl (r, read) ↦ elim (Option-cases (evidence_cut cfg r)) [
          | inl uncovered ↦ absurd (ground (arith, h, linked, on, read, uncovered))
          | inr (cut, covered) ↦
              let sent : proposes (with_scores cfg a cut s).1 ≡ true =
                ground (arith, h, linked, on, read, covered) in
              let (going, t, told, recent) = with_scores-IsSent cfg a cut s sent on in
              record {
                linked = linked;
                covered = λ q. (going, r, cut, t, read, covered, told, recent);
                paid = with_scores-IsPaid cfg a cut s sent;
                slot = with_scores-IsSlotFree cfg a cut s sent;
              }
        ]
      ]
    ]
  ]

  finalize_first-IsScorable :
      (s : State) → proposes (finalize_first cfg a s).1 ≡ true → IsScorable s
  unfolding finalize_first after_finalize_error proposes fail
  finalize_first-IsScorable s h = elim (Try-cases a.finalize) [
    | inl (u, sent) ↦ score_stage-IsScorable s (ground (arith, h, sent))
    | inr (e, threw) ↦ elim (Bool-cases (is_not_authorized e)) [
      | inl gone ↦ score_stage-IsScorable s (ground (arith, h, threw, gone))
      | inr other ↦ elim (Try-cases a.still_pending) [
        | inr (e', broke) ↦ absurd (ground (arith, h, threw, other, broke))
        | inl (still, read) ↦ elim (Bool-cases still) [
          | inl there ↦ absurd (ground (arith, h, threw, other, read, there))
          | inr away ↦ score_stage-IsScorable s (ground (arith, h, threw, other, read, away))
        ]
      ]
    ]
  ]

  finalize_stage-IsScorable :
      (s : State) → proposes (finalize_stage cfg a s).1 ≡ true → IsScorable s
  unfolding finalize_stage proposes fail
  finalize_stage-IsScorable s h = elim (Bool-cases (active cfg.chains)) [
    | inr off ↦ finalize_first-IsScorable s (ground (arith, h, off))
    | inl on ↦ elim (Try-cases a.cut_before_finalize) [
      | inr (e, threw) ↦ absurd (ground (arith, h, on, threw))
      | inl (r, read) ↦ elim (Option-cases (evidence_cut cfg r)) [
        | inl uncovered ↦ absurd (ground (arith, h, on, read, uncovered))
        | inr (cut, covered) ↦ finalize_first-IsScorable s (ground (arith, h, on, read, covered))
      ]
    ]
  ]

  -- What has to hold for a proposal: the agent is bonded and not slashed, the operator that proposes
  -- finds no proposal in its challenge window, and the agent is scorable.
  pub record IsProposable (s : State) : Type 0 where
    pub guarded : (g : Guard) × (a.guard ≡ Try.ok g) × (g.slashed ≡ false) × (g.bonded ≡ true)
    pub due :
        cfg.checker_mode ≡ false
        → decide_action (some a.pending) cfg.challenge_window cfg.chain_now ≢ Action.skip
    pub scorable : IsScorable s

  bonded_stage-IsScorable :
      (s : State)
      → proposes (bonded_stage cfg a s).1 ≡ true
      → IsScorable s
        × (cfg.checker_mode ≡ false
            → decide_action (some a.pending) cfg.challenge_window cfg.chain_now ≢ Action.skip)
  unfolding bonded_stage proposes
  bonded_stage-IsScorable s h = elim (Bool-cases cfg.checker_mode) [
    | inl checks ↦ (
      score_stage-IsScorable s (ground (arith, h, checks)),
      λ leads. absurd (ground (arith, checks, leads)),
    )
    | inr leads ↦
        elim (Action-cases (decide_action (some a.pending) cfg.challenge_window cfg.chain_now)) [
          | inl p ↦ (
            score_stage-IsScorable s (ground (arith, h, leads, p)),
            λ q skips. ground (arith, p, skips),
          )
          | inr (inl f) ↦ (
            finalize_stage-IsScorable s (ground (arith, h, leads, f)),
            λ q skips. ground (arith, f, skips),
          )
          | inr (inr k) ↦ absurd (ground (arith, h, leads, k))
        ]
  ]

  pub visit-IsProposable : (s : State) → proposes (visit cfg a s).1 ≡ true → IsProposable s
  unfolding visit proposes
  visit-IsProposable s h = elim (Try-cases a.guard) [
    | inr (e, threw) ↦ absurd (ground (arith, h, threw))
    | inl (g, read) ↦ elim (Bool-cases g.slashed) [
      | inl slashed ↦ absurd (ground (arith, h, read, slashed))
      | inr fine ↦ elim (Bool-cases g.bonded) [
        | inr unbonded ↦ absurd (ground (arith, h, read, fine, unbonded))
        | inl bonded ↦
            let (scorable, due) =
              bonded_stage-IsScorable s (ground (arith, h, read, fine, bonded)) in
            record { guarded = (g, read, fine, bonded); due = due; scorable = scorable }
      ]
    ]
  ]
