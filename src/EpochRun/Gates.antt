-- ===== src/EpochRun/Gates.antt =====
-- What a proposal costs its operator, and the slot that it goes into.
use sigvara.EpochRun.{Asks, Config, Error, State, Try, fail, forget_empty, is_already_charged}
use sigvara.EpochRun.Sending.{
  charge_and_propose, charge_stage, propose_stage, after_charge_error, cut_too_old,
}
use sigvara.EpochRun.Checking.{checker_decide, empty_slot, audit_stage, checker_stage}
use sigvara.EpochRun.Rounds.{with_scores}
use sigvara.EpochRun.Proposals.{checker_finalize-proposes, proposes, Try-cases, CheckerAction-cases}
use sigvara.EpochPolicy.{Factors, Pending, decide_checker_action, Grace}
use sigvara.PaymentChains.{active}
use sigvara.EpochPolicy.Decisions.{decide_checker_action_held}
use sigvara.Prelude.{
  Bool, Bool-cases, ap, arith, false, inl, inr, ltb, not, refl, some, true, ℕ, ◌&&◌, ◌*◌, ◌∙◌, ◌≡◌,
  ◌⊎◌,
}

-- Where the proposing operator is charged, the contract would take the proposal, and the fee of the
-- epoch is paid now or was before.
abbrev pub IsPaid : Config → Asks → Type 0
IsPaid cfg a =
    cfg.gating_active ≡ true
    → cfg.checker_mode ≡ false
    → (a.can_propose ≡ Try.ok true)
      × ((a.charge ≡ Try.ok tt) ⊎ (a.charge ≡ Try.thrown Error.already_charged))

-- The checking operator reads that no proposal is in the slot, or that it may cover the one there.
abbrev pub IsSlotFree : Config → Asks → Type 0
IsSlotFree cfg a =
    cfg.checker_mode ≡ true
    → (fresh : Pending) × (a.fresh_pending ≡ Try.ok fresh)
      × ((fresh.exists ≡ false) ⊎ (a.can_cover ≡ Try.ok true))

charged_before : (e : Error) → is_already_charged e ≡ true → e ≡ Error.already_charged
charged_before Error.already_charged h = refl
charged_before Error.slot_taken h = absurd (ground (arith, h))
charged_before Error.rate_limit h = absurd (ground (arith, h))
charged_before Error.fee_cap h = absurd (ground (arith, h))
charged_before Error.unconfirmed h = absurd (ground (arith, h))
charged_before Error.proposer_not_authorized h = absurd (ground (arith, h))
charged_before Error.unknown_error h = absurd (ground (arith, h))

module _ (cfg : Config) (a : Asks) where
  charge_and_propose-IsPaid :
      (cut : ℕ) (s : State)
      → proposes (charge_and_propose cfg a cut s).1 ≡ true
      → (a.can_propose ≡ Try.ok true)
        × ((a.charge ≡ Try.ok tt) ⊎ (a.charge ≡ Try.thrown Error.already_charged))
  unfolding charge_and_propose after_charge_error proposes
  charge_and_propose-IsPaid cut s h = elim (Try-cases a.can_propose) [
    | inr (e, threw) ↦ absurd (ground (arith, h, threw))
    | inl (allowed, read) ↦ elim (Bool-cases allowed) [
      | inr refused ↦ absurd (ground (arith, h, read, refused))
      | inl fine ↦ elim (Try-cases a.charge) [
        | inl (u, paid) ↦ (read ∙ ap Try.ok fine, inl paid)
        | inr (e, threw) ↦ elim (Bool-cases (is_already_charged e)) [
          | inl before ↦
              (read ∙ ap Try.ok fine, inr (threw ∙ ap Try.thrown (charged_before e before)))
          | inr other ↦ absurd (ground (arith, h, read, fine, threw, other))
        ]
      ]
    ]
  ]

  charge_stage-IsPaid :
      (cut : ℕ) (s : State) → proposes (charge_stage cfg a cut s).1 ≡ true → IsPaid cfg a
  unfolding charge_stage
  charge_stage-IsPaid cut s h gated leads =
      charge_and_propose-IsPaid cut s (ground (arith, h, gated, leads))

  propose_stage-IsPaid :
      (cut : ℕ) (s : State) → proposes (propose_stage cfg a cut s).1 ≡ true → IsPaid cfg a
  unfolding propose_stage proposes fail
  propose_stage-IsPaid cut s h = elim (Bool-cases (active cfg.chains)) [
    | inr off ↦ charge_stage-IsPaid cut s (ground (arith, h, off))
    | inl on ↦ elim (Bool-cases s.stopped) [
      | inl halted ↦ absurd (ground (arith, h, on, halted))
      | inr going ↦ elim (Try-cases a.latest_time) [
        | inr (e, threw) ↦ absurd (ground (arith, h, on, going, threw))
        | inl (t, told) ↦ elim (Bool-cases (cut_too_old cfg (t * 1000) (some cut))) [
          | inl old ↦ absurd (ground (arith, h, on, going, told, old))
          | inr recent ↦ charge_stage-IsPaid cut s (ground (arith, h, on, going, told, recent))
        ]
      ]
    ]
  ]

  pub with_scores-IsPaid :
      (cut : ℕ) (s : State) → proposes (with_scores cfg a cut s).1 ≡ true → IsPaid cfg a
  unfolding with_scores proposes fail
  with_scores-IsPaid cut s h gated leads = elim (Try-cases a.scores) [
    | inr (e, threw) ↦ absurd (ground (arith, h, threw))
    | inl (own, read) ↦ propose_stage-IsPaid cut s (ground (arith, h, read, leads)) gated leads
  ]

  checker_decide-held :
      (cut : ℕ) (fresh : Pending) (audit : Factors) (since : ℕ) (s : State)
      → fresh.exists ≡ true
      → proposes (checker_decide cfg a cut fresh audit since s).1 ≡ false
  unfolding checker_decide proposes
  checker_decide-held cut fresh audit since s held =
      let g : Grace = record { grace_seconds = cfg.grace_seconds; empty_since = since } in
      elim (CheckerAction-cases (
        decide_checker_action (some fresh) audit cfg.challenge_window cfg.chain_now cfg.tolerance
          g)) [
            | inl d ↦ absurd (
                decide_checker_action_held fresh audit cfg.challenge_window cfg.chain_now
                  cfg.tolerance g held d)
            | inr (inl d) ↦ rw (d, checker_decide) refl
            | inr (inr (inl d)) ↦ rw (d, checker_decide) refl
            | inr (inr (inr (inl d))) ↦ rw (d, checker_decide) refl
            | inr (inr (inr (inr (inr d)))) ↦ rw (d, checker_decide) refl
            | inr (inr (inr (inr (inl d)))) ↦
                rw (d, checker_decide) (checker_finalize-proposes cfg a s)
          ]

  empty_slot-held :
      (cut : ℕ) (fresh : Pending) (stranded : Bool) (audit : Factors) (s : State)
      → fresh.exists ≡ true
      → proposes (empty_slot cfg a cut fresh stranded audit s).1 ≡ false
  unfolding empty_slot
  empty_slot-held cut fresh stranded audit s held =
      ground (arith, held, checker_decide-held cut fresh audit 0 (forget_empty a.did_hash s) held)

  audit_stage-held :
      (cut : ℕ) (own : Factors) (fresh : Pending) (stranded : Bool) (s : State)
      → fresh.exists ≡ true
      → proposes (audit_stage cfg a cut own fresh stranded s).1 ≡ false
  unfolding audit_stage proposes fail
  audit_stage-held cut own fresh stranded s held =
      let quick = empty_slot-held cut fresh stranded own s held in
      elim (Bool-cases (ltb 0 fresh.proposed_at)) [
        | inr unmade ↦ ground (arith, held, unmade, quick)
        | inl made ↦ elim (Bool-cases (active cfg.chains && not a.scans_passed_proposal)) [
          | inl early ↦ ground (arith, held, made, early)
          | inr passed ↦ elim (Try-cases a.audit_scores) [
            | inr (e, threw) ↦ ground (arith, held, made, passed, threw)
            | inl (audit, read) ↦
                ground
                  (arith, held, made, passed, read, empty_slot-held cut fresh stranded audit s held)
          ]
        ]
      ]

  pub with_scores-IsSlotFree :
      (cut : ℕ) (s : State) → proposes (with_scores cfg a cut s).1 ≡ true → IsSlotFree cfg a
  unfolding with_scores checker_stage proposes fail
  with_scores-IsSlotFree cut s h checks = elim (Try-cases a.scores) [
    | inr (e, threw) ↦ absurd (ground (arith, h, threw))
    | inl (own, read) ↦ elim (Try-cases a.fresh_pending) [
      | inr (e, threw) ↦ absurd (ground (arith, h, read, checks, threw))
      | inl (fresh, slot) ↦ elim (Bool-cases fresh.exists) [
        | inr empty ↦ (fresh, slot, inl empty)
        | inl held ↦ elim (Try-cases a.can_cover) [
          | inr (e, threw) ↦ absurd (
              ground (
                arith,
                h,
                read,
                checks,
                slot,
                held,
                threw,
                audit_stage-held cut own fresh false s held,
              ))
          | inl (allowed, told) ↦ elim (Bool-cases allowed) [
            | inl may ↦ (fresh, slot, inr (told ∙ ap Try.ok may))
            | inr may_not ↦ absurd (
                ground (
                  arith,
                  h,
                  read,
                  checks,
                  slot,
                  held,
                  told,
                  may_not,
                  audit_stage-held cut own fresh false s held,
                ))
          ]
        ]
      ]
    ]
  ]
