-- ===== src/EpochRun/Checking.antt =====
-- The turn of an agent, for the operator that checks.
use sigvara.EpochRun.{
  Asks, Config, Error, State, Visit, absent, add_late, covers, done, fail, forget_empty,
  is_not_authorized, is_rate_limit, note_empty, seen_at, recorded_divergence, thrown, ok, finalized,
}
use sigvara.EpochRun.Sending.{propose_stage}
use sigvara.EpochPolicy.{CheckerAction, Factors, Pending, decide_checker_action}
use sigvara.PaymentChains.{active}
use sigvara.Prelude.Dict.{has}
use sigvara.Prelude.{Bool, [], false, if◌then◌else◌, ltb, max, not, some, true, ℕ, ◌&&◌, ◌||◌, ◌∷◌}

module _ (cfg : Config) where
  -- The error of a finalize, as the checking operator takes it.
  unfoldable pub after_checker_error : Asks → Error → State → Visit
  unfolding fail
  after_checker_error a e s =
      if is_rate_limit e || is_not_authorized e then done s else elim a.still_pending [
        | thrown e' ↦ fail e' s
        | ok still ↦
            if still
            then fail e s
            else elim a.live_total [ thrown e' ↦ fail e' s | ok live ↦ done s ]
      ]

  -- The checker's finalize, after which its turn is over.
  unfoldable pub checker_finalize : Asks → State → Visit
  unfolding after_checker_error add_late
  checker_finalize a s = elim a.finalize [
    | ok _ ↦ (add_late a.did_hash s, finalized a.did_hash ∷ [])
    | thrown e ↦ after_checker_error a e s
  ]

  -- What the checker does once it has its scores and the slot.
  unfoldable pub checker_decide : Asks → ℕ → Pending → Factors → ℕ → State → Visit
  unfolding propose_stage checker_finalize
  checker_decide a cut fresh audit empty_since s =
      elim (decide_checker_action (some fresh) audit cfg.challenge_window cfg.chain_now
        cfg.tolerance (record { grace_seconds = cfg.grace_seconds; empty_since = empty_since })) [
          | CheckerAction.propose ↦ propose_stage cfg a cut s
          | CheckerAction.defer_propose ↦ done s
          | CheckerAction.diverged ↦ (s, recorded_divergence a.did_hash ∷ [])
          | CheckerAction.skip ↦ done s
          | CheckerAction.finalize ↦ checker_finalize a s
          | CheckerAction.defer_finalize ↦ done s
        ]

  -- Since when the slot is empty, and the state that keeps it.
  unfoldable pub empty_slot : Asks → ℕ → Pending → Bool → Factors → State → Visit
  unfolding checker_decide fail note_empty forget_empty has
  empty_slot a cut fresh stranded audit s =
      if fresh.exists
      then checker_decide a cut fresh audit 0 (forget_empty a.did_hash s)
      else if stranded || has a.did_hash s.covering_late
      then checker_decide a cut fresh audit 0 s
      else elim a.last_updated [
        | thrown e ↦ fail e (note_empty a.did_hash cfg.chain_now s)
        | ok updated ↦
            let noted = note_empty a.did_hash cfg.chain_now s in
            checker_decide a cut fresh audit
              (max (max a.registered_at updated) (seen_at a.did_hash noted.empty_seen_at)) noted
      ]

  -- The scores that the checker compares with those of the proposal.
  unfoldable pub audit_stage : Asks → ℕ → Factors → Pending → Bool → State → Visit
  unfolding empty_slot fail
  audit_stage a cut own fresh stranded s =
      if not (fresh.exists && ltb 0 fresh.proposed_at)
      then empty_slot a cut fresh stranded own s
      else if active cfg.chains && not a.scans_passed_proposal
      then done s
      else elim a.audit_scores [
        | thrown e ↦ fail e s
        | ok audit ↦ empty_slot a cut fresh stranded audit s
      ]

  -- The checker's turn, once it has scores of its own.
  unfoldable pub checker_stage : Asks → ℕ → Factors → State → Visit
  unfolding audit_stage fail covers
  checker_stage a cut own s = elim a.fresh_pending [
    | thrown e ↦ fail e s
    | ok fresh ↦
        if fresh.exists && covers a.can_cover
        then audit_stage a cut own absent true s
        else audit_stage a cut own fresh false s
  ]
