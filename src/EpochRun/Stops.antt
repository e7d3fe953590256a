-- ===== src/EpochRun/Stops.antt =====
-- A transaction that was not seen mined stops the proposals of an epoch, agent after agent.
use sigvara.EpochRun.{
  Asks, Config, Error, State, Visit, add_late, fail, forget_empty, is_not_authorized, is_rate_limit,
  note_empty, seen_at, is_already_charged, covers, absent,
}
use sigvara.EpochRun.Checking.{
  after_checker_error, checker_decide, checker_finalize, empty_slot, audit_stage, checker_stage,
}
use sigvara.EpochRun.Sending.{
  charge_and_propose, charge_stage, propose_stage, send_proposal, after_charge_error,
}
use sigvara.EpochRun.Proposals.{Try-cases, note_empty-stopped, CheckerAction-cases}
use sigvara.EpochPolicy.{Factors, Pending, decide_checker_action}
use sigvara.PaymentChains.{active}
use sigvara.Prelude.{
  arith, inl, inr, true, ℕ, ◌≡◌, Bool, Bool-cases, max, not, refl, some, ◌&&◌, ◌||◌, ◌∙◌, false,
  ltb,
}
use sigvara.Prelude.Dict.{has}

abbrev pub IsStopped : Visit → Type 0
IsStopped v = v.0.stopped ≡ true

pub fail-IsStopped : (e : Error) (s : State) → s.stopped ≡ true → IsStopped (fail e s)
unfolding fail
fail-IsStopped e s h = ground (arith, h)

module _ (cfg : Config) (a : Asks) where
  send_proposal-IsStopped :
      (cut : ℕ) (s : State) → s.stopped ≡ true → IsStopped (send_proposal cfg a cut s)
  unfolding send_proposal
  send_proposal-IsStopped cut s h = elim (Try-cases a.propose) [
    | inl (u, sent) ↦ rw (sent, send_proposal) h
    | inr (e, threw) ↦ rw (threw, send_proposal) (fail-IsStopped e s h)
  ]

  charge_and_propose-IsStopped :
      (cut : ℕ) (s : State) → s.stopped ≡ true → IsStopped (charge_and_propose cfg a cut s)
  unfolding charge_and_propose after_charge_error
  charge_and_propose-IsStopped cut s h = elim (Try-cases a.can_propose) [
    | inr (e, threw) ↦ rw (threw, charge_and_propose) h
    | inl (allowed, read) ↦ elim (Bool-cases allowed) [
      | inr refused ↦ rw (read, refused, charge_and_propose) h
      | inl fine ↦ elim (Try-cases a.charge) [
        | inl (u, paid) ↦
            rw (read, fine, paid, charge_and_propose) (send_proposal-IsStopped cut s h)
        | inr (e, threw) ↦ elim (Bool-cases (is_already_charged e)) [
          | inl before ↦
              rw (read, fine, threw, before, charge_and_propose, after_charge_error)
                (send_proposal-IsStopped cut s h)
          | inr other ↦
              rw (read, fine, threw, other, charge_and_propose, after_charge_error)
                (ground (arith, h))
        ]
      ]
    ]
  ]

  charge_stage-IsStopped :
      (cut : ℕ) (s : State) → s.stopped ≡ true → IsStopped (charge_stage cfg a cut s)
  unfolding charge_stage
  charge_stage-IsStopped cut s h = elim (Bool-cases (cfg.gating_active && not cfg.checker_mode)) [
    | inl gated ↦ rw (gated, charge_stage) (charge_and_propose-IsStopped cut s h)
    | inr free ↦ rw (free, charge_stage) (send_proposal-IsStopped cut s h)
  ]

  pub propose_stage-IsStopped :
      (cut : ℕ) (s : State) → s.stopped ≡ true → IsStopped (propose_stage cfg a cut s)
  unfolding propose_stage
  propose_stage-IsStopped cut s h = elim (Bool-cases (active cfg.chains)) [
    | inr off ↦ rw (off, propose_stage) (charge_stage-IsStopped cut s h)
    | inl on ↦ rw (on, propose_stage, h) refl
  ]

  after_checker_error-IsStopped :
      (e : Error) (s : State) → s.stopped ≡ true → IsStopped (after_checker_error cfg a e s)
  unfolding after_checker_error
  after_checker_error-IsStopped e s h = elim (Bool-cases (is_rate_limit e || is_not_authorized e)) [
    | inl over ↦ rw (over, after_checker_error) h
    | inr on ↦ elim (Try-cases a.still_pending) [
      | inr (e', threw) ↦ rw (on, threw, after_checker_error) (fail-IsStopped e' s h)
      | inl (still, read) ↦ elim (Bool-cases still) [
        | inl there ↦ rw (on, read, there, after_checker_error) (fail-IsStopped e s h)
        | inr gone ↦ elim (Try-cases a.live_total) [
          | inr (e', threw) ↦
              rw (on, read, gone, threw, after_checker_error) (fail-IsStopped e' s h)
          | inl (live, told) ↦ rw (on, read, gone, told, after_checker_error) h
        ]
      ]
    ]
  ]

  checker_finalize-IsStopped : (s : State) → s.stopped ≡ true → IsStopped (checker_finalize cfg a s)
  unfolding checker_finalize add_late
  checker_finalize-IsStopped s h = elim (Try-cases a.finalize) [
    | inl (u, sent) ↦ rw (sent, checker_finalize) h
    | inr (e, threw) ↦ rw (threw, checker_finalize) (after_checker_error-IsStopped e s h)
  ]

  checker_decide-IsStopped :
      (cut : ℕ) (fresh : Pending) (audit : Factors) (since : ℕ) (s : State)
      → s.stopped ≡ true
      → IsStopped (checker_decide cfg a cut fresh audit since s)
  unfolding checker_decide
  checker_decide-IsStopped cut fresh audit since s h =
      elim (CheckerAction-cases (
        decide_checker_action (some fresh) audit cfg.challenge_window cfg.chain_now cfg.tolerance
          (record { grace_seconds = cfg.grace_seconds; empty_since = since }))) [
            | inl d ↦ rw (d, checker_decide) (propose_stage-IsStopped cut s h)
            | inr (inl d) ↦ rw (d, checker_decide) h
            | inr (inr (inl d)) ↦ rw (d, checker_decide) h
            | inr (inr (inr (inl d))) ↦ rw (d, checker_decide) h
            | inr (inr (inr (inr (inr d)))) ↦ rw (d, checker_decide) h
            | inr (inr (inr (inr (inl d)))) ↦
                rw (d, checker_decide) (checker_finalize-IsStopped s h)
          ]

  empty_slot-IsStopped :
      (cut : ℕ) (fresh : Pending) (stranded : Bool) (audit : Factors) (s : State)
      → s.stopped ≡ true
      → IsStopped (empty_slot cfg a cut fresh stranded audit s)
  unfolding empty_slot forget_empty
  empty_slot-IsStopped cut fresh stranded audit s h = elim (Bool-cases fresh.exists) [
    | inl held ↦
        ground
          (arith, held, checker_decide-IsStopped cut fresh audit 0 (forget_empty a.did_hash s) h)
    | inr empty ↦ elim (Bool-cases (stranded || has a.did_hash s.covering_late)) [
      | inl covering ↦
          ground (arith, empty, covering, checker_decide-IsStopped cut fresh audit 0 s h)
      | inr waiting ↦
          let noted : (note_empty a.did_hash cfg.chain_now s).stopped ≡ true =
            note_empty-stopped a.did_hash cfg.chain_now s ∙ h in
          elim (Try-cases a.last_updated) [
            | inr (e, threw) ↦ ground (
              arith,
              empty,
              waiting,
              threw,
              fail-IsStopped e (note_empty a.did_hash cfg.chain_now s) noted,
            )
            | inl (updated, read) ↦ ground (
              arith,
              empty,
              waiting,
              read,
              checker_decide-IsStopped cut fresh audit
                  (max (max a.registered_at updated)
                    (seen_at a.did_hash (note_empty a.did_hash cfg.chain_now s).empty_seen_at))
                  (note_empty a.did_hash cfg.chain_now s) noted,
            )
          ]
    ]
  ]

  audit_stage-IsStopped :
      (cut : ℕ) (own : Factors) (fresh : Pending) (stranded : Bool) (s : State)
      → s.stopped ≡ true
      → IsStopped (audit_stage cfg a cut own fresh stranded s)
  unfolding audit_stage
  audit_stage-IsStopped cut own fresh stranded s h =
      elim (Bool-cases (not (fresh.exists && ltb 0 fresh.proposed_at))) [
        | inl open_slot ↦ ground (arith, open_slot, empty_slot-IsStopped cut fresh stranded own s h)
        | inr made ↦ elim (Bool-cases (active cfg.chains && not a.scans_passed_proposal)) [
          | inl early ↦ ground (arith, made, early, h)
          | inr passed ↦ elim (Try-cases a.audit_scores) [
            | inr (e, threw) ↦ ground (arith, made, passed, threw, fail-IsStopped e s h)
            | inl (audit, read) ↦
                ground
                  (arith, made, passed, read, empty_slot-IsStopped cut fresh stranded audit s h)
          ]
        ]
      ]

  pub checker_stage-IsStopped :
      (cut : ℕ) (own : Factors) (s : State)
      → s.stopped ≡ true
      → IsStopped (checker_stage cfg a cut own s)
  unfolding checker_stage
  checker_stage-IsStopped cut own s h = elim (Try-cases a.fresh_pending) [
    | inr (e, threw) ↦ rw (threw, checker_stage) (fail-IsStopped e s h)
    | inl (fresh, read) ↦ elim (Bool-cases (fresh.exists && covers a.can_cover)) [
      | inl cover ↦ ground (arith, read, cover, audit_stage-IsStopped cut own absent true s h)
      | inr plain ↦ ground (arith, read, plain, audit_stage-IsStopped cut own fresh false s h)
    ]
  ]
