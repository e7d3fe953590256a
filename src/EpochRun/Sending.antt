-- ===== src/EpochRun/Sending.antt =====
-- From the evidence root to the proposal, and the errors of a finalize by the operator that
-- proposes.
use sigvara.EpochRun.{
  Asks, Config, CutReads, Error, State, Visit, done, fail, is_already_charged, is_not_authorized,
  is_unconfirmed, then_effect, thrown, ok, proposed, charged,
}
use sigvara.PaymentChains.{active, audit_window_ms, covered_cut, cut_for}
use sigvara.Prelude.{
  Bool, Option, [], if◌then◌else◌, ltb, none, not, some, true, ℕ, ◌&&◌, ◌*◌, ◌-◌, ◌||◌, ◌∷◌,
}

module _ (cfg : Config) where
  -- `cutTooOld`
  unfoldable pub cut_too_old : ℕ → Option ℕ → Bool
  cut_too_old now_ms none = true
  cut_too_old now_ms (some cut_ms) = ltb (audit_window_ms - cfg.propose_margin_ms) (now_ms - cut_ms)

  -- `evidenceCutFor`, after its scans
  unfoldable pub evidence_cut : CutReads → Option ℕ
  unfolding cut_too_old
  evidence_cut r =
      let now_ms = r.time * 1000 in
      let cut = covered_cut (cut_for now_ms cfg.chains) r.scored_reach_ms cfg.chains r.state_of in
      if cut_too_old now_ms cut then none else cut

  unfoldable pub send_proposal : Asks → ℕ → State → Visit
  unfolding fail
  send_proposal a cut s = elim a.propose [
    | thrown e ↦ fail e s
    | ok _ ↦ (s, proposed a.did_hash cut ∷ [])
  ]

  -- The error of a charge: a fee that was paid before is no obstacle.
  unfoldable pub after_charge_error : Asks → ℕ → Error → State → Visit
  unfolding send_proposal
  after_charge_error a cut e s =
      if is_already_charged e
      then send_proposal a cut s
      else done (record s { stopped = s.stopped || is_unconfirmed e })

  -- The charge of an epoch's fee before a proposal.
  unfoldable pub charge_and_propose : Asks → ℕ → State → Visit
  unfolding send_proposal after_charge_error
  charge_and_propose a cut s = elim a.can_propose [
    | thrown e ↦ done s
    | ok allowed ↦ if not allowed then done s else elim a.charge [
      | ok _ ↦ then_effect (charged a.did_hash) (send_proposal a cut s)
      | thrown e ↦ after_charge_error a cut e s
    ]
  ]

  unfoldable pub charge_stage : Asks → ℕ → State → Visit
  unfolding charge_and_propose send_proposal
  charge_stage a cut s =
      if cfg.gating_active && not cfg.checker_mode
      then charge_and_propose a cut s
      else send_proposal a cut s

  -- From the evidence root to the proposal.
  unfoldable pub propose_stage : Asks → ℕ → State → Visit
  unfolding charge_stage cut_too_old fail
  propose_stage a cut s =
      if not (active cfg.chains)
      then charge_stage a cut s
      else if s.stopped
      then done s
      else elim a.latest_time [
        | thrown e ↦ fail e s
        | ok t ↦ if cut_too_old (t * 1000) (some cut) then done s else charge_stage a cut s
      ]

  -- The error of a finalize, as the proposing operator takes it: whether the turn goes on.
  unfoldable pub after_finalize_error : Asks → Error → State → (State → Visit) → Visit
  unfolding fail
  after_finalize_error a e s next = if is_not_authorized e then next s else elim a.still_pending [
    | thrown e' ↦ fail e' s
    | ok still ↦ if still then fail e s else next s
  ]
