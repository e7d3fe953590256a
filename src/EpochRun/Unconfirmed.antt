-- ===== src/EpochRun/Unconfirmed.antt =====
-- A proposal that is sent and not seen mined, in the turn of an agent and after it.
use sigvara.EpochRun.{
  Asks, Config, Error, State, Try, Visit, fail, is_already_charged, seen_at, forget_empty,
  note_empty, is_not_authorized, covers, absent,
}
use sigvara.EpochRun.Sending.{
  charge_and_propose, charge_stage, propose_stage, send_proposal, after_charge_error, cut_too_old,
  evidence_cut, after_finalize_error,
}
use sigvara.EpochRun.Proposals.{proposes, Try-cases, CheckerAction-cases, checker_finalize-proposes}
use sigvara.PaymentChains.{active}
use sigvara.Prelude.{
  Bool-cases, arith, false, inl, inr, not, some, true, ℕ, ◌&&◌, ◌*◌, ◌≡◌, Bool, List, Option-cases,
  ltb, max, refl, ◌||◌, ◌∙◌, ◌∷◌, subst, sym,
}
use sigvara.EpochRun.Checking.{checker_stage, empty_slot, audit_stage, checker_decide}
use sigvara.EpochRun.Halts.{proposes-append, visits_stopped}
use sigvara.EpochRun.Rounds.{
  bonded_stage, finalize_first, finalize_stage, with_scores, score_stage, visit, visits,
}
use sigvara.EpochPolicy.{decide_action, decide_checker_action, Pending, Factors, Grace}
use sigvara.EpochRun.Turns.{Action-cases}
use sigvara.Prelude.Dict.{has}

-- The answers about an agent, had its proposal been mined.
unfoldable pub mined : Asks → Asks
mined a = record a { propose = Try.ok tt }

-- Nothing was proposed, and the epoch is stopped.
pub record IsHalted (v : Visit) : Type 0 where
  pub stopped : v.0.stopped ≡ true
  pub quiet : proposes v.1 ≡ false

as-IsHalted : {v w : Visit} → IsHalted w → v ≡ w → IsHalted v
as-IsHalted h same = subst IsHalted (sym same) h

module _ (cfg : Config) (a : Asks) (lost : a.propose ≡ Try.thrown Error.unconfirmed) where
  send_proposal-IsHalted : (cut : ℕ) (s : State) → IsHalted (send_proposal cfg a cut s)
  unfolding send_proposal proposes fail
  send_proposal-IsHalted cut s = record {
    stopped = ground (arith, lost);
    quiet = ground (arith, lost);
  }

  charge_and_propose-IsHalted :
      (cut : ℕ) (s : State)
      → proposes (charge_and_propose cfg (mined a) cut s).1 ≡ true
      → IsHalted (charge_and_propose cfg a cut s)
  unfolding charge_and_propose after_charge_error proposes mined
  charge_and_propose-IsHalted cut s h =
      let sent = send_proposal-IsHalted cut s in
      elim (Try-cases a.can_propose) [
        | inr (e, threw) ↦ absurd (ground (arith, h, threw))
        | inl (allowed, read) ↦ elim (Bool-cases allowed) [
          | inr refused ↦ absurd (ground (arith, h, read, refused))
          | inl fine ↦ elim (Try-cases a.charge) [
            | inl (u, paid) ↦
                rw (read, fine, paid, charge_and_propose)
                  (record { stopped = sent.stopped; quiet = sent.quiet })
            | inr (e, threw) ↦ elim (Bool-cases (is_already_charged e)) [
              | inl before ↦
                  rw (read, fine, threw, before, charge_and_propose, after_charge_error) sent
              | inr other ↦ absurd (ground (arith, h, read, fine, threw, other))
            ]
          ]
        ]
      ]

  charge_stage-IsHalted :
      (cut : ℕ) (s : State)
      → proposes (charge_stage cfg (mined a) cut s).1 ≡ true
      → IsHalted (charge_stage cfg a cut s)
  unfolding charge_stage
  charge_stage-IsHalted cut s h = elim (Bool-cases (cfg.gating_active && not cfg.checker_mode)) [
    | inl gated ↦
        rw (gated, charge_stage) (charge_and_propose-IsHalted cut s (rw (gated, charge_stage) at h))
    | inr free ↦ rw (free, charge_stage) (send_proposal-IsHalted cut s)
  ]

  propose_stage-IsHalted :
      (cut : ℕ) (s : State)
      → proposes (propose_stage cfg (mined a) cut s).1 ≡ true
      → IsHalted (propose_stage cfg a cut s)
  unfolding propose_stage proposes fail mined
  propose_stage-IsHalted cut s h = elim (Bool-cases (active cfg.chains)) [
    | inr off ↦
        let sent = charge_stage-IsHalted cut s (ground (arith, h, off)) in
        rw (off, propose_stage) sent
    | inl on ↦ elim (Bool-cases s.stopped) [
      | inl halted ↦ absurd (ground (arith, h, on, halted))
      | inr going ↦ elim (Try-cases a.latest_time) [
        | inr (e, threw) ↦ absurd (ground (arith, h, on, going, threw))
        | inl (t, told) ↦ elim (Bool-cases (cut_too_old cfg (t * 1000) (some cut))) [
          | inl old ↦ absurd (ground (arith, h, on, going, told, old))
          | inr recent ↦
              let sent = charge_stage-IsHalted cut s (ground (arith, h, on, going, told, recent)) in
              rw (on, going, told, recent, propose_stage) sent
        ]
      ]
    ]
  ]

  checker_decide-IsHalted :
      (cut : ℕ) (fresh : Pending) (audit : Factors) (since : ℕ) (s : State)
      → proposes (checker_decide cfg (mined a) cut fresh audit since s).1 ≡ true
      → IsHalted (checker_decide cfg a cut fresh audit since s)
  unfolding checker_decide proposes
  checker_decide-IsHalted cut fresh audit since s h =
      let g : Grace = record { grace_seconds = cfg.grace_seconds; empty_since = since } in
      let quiet = checker_finalize-proposes cfg (mined a) s in
      elim (CheckerAction-cases (
        decide_checker_action (some fresh) audit cfg.challenge_window cfg.chain_now cfg.tolerance
          g)) [
            | inl d ↦
                rw (d, checker_decide) (propose_stage-IsHalted cut s (rw (d, checker_decide) at h))
            | inr (inl d) ↦ absurd (ground (arith, h, d))
            | inr (inr (inl d)) ↦ absurd (ground (arith, h, d))
            | inr (inr (inr (inl d))) ↦ absurd (ground (arith, h, d))
            | inr (inr (inr (inr (inr d)))) ↦ absurd (ground (arith, h, d))
            | inr (inr (inr (inr (inl d)))) ↦ absurd (ground (arith, h, d, quiet))
          ]

  empty_slot-IsHalted :
      (cut : ℕ) (fresh : Pending) (stranded : Bool) (audit : Factors) (s : State)
      → proposes (empty_slot cfg (mined a) cut fresh stranded audit s).1 ≡ true
      → IsHalted (empty_slot cfg a cut fresh stranded audit s)
  unfolding empty_slot proposes fail mined
  empty_slot-IsHalted cut fresh stranded audit s h = elim (Bool-cases fresh.exists) [
    | inl held ↦
        as-IsHalted
          (checker_decide-IsHalted cut fresh audit 0 (forget_empty a.did_hash s)
            (ground (arith, h, held)))
          (ground (arith, held))
    | inr empty ↦ elim (Bool-cases (stranded || has a.did_hash s.covering_late)) [
      | inl covering ↦
          as-IsHalted
            (checker_decide-IsHalted cut fresh audit 0 s (ground (arith, h, empty, covering)))
            (ground (arith, empty, covering))
      | inr waiting ↦ elim (Try-cases a.last_updated) [
        | inr (e, threw) ↦ absurd (ground (arith, h, empty, waiting, threw))
        | inl (updated, read) ↦
            let noted : State = note_empty a.did_hash cfg.chain_now s in
            as-IsHalted
              (checker_decide-IsHalted cut fresh audit
                (max (max a.registered_at updated) (seen_at a.did_hash noted.empty_seen_at)) noted
                (ground (arith, h, empty, waiting, read)))
              (ground (arith, empty, waiting, read))
      ]
    ]
  ]

  audit_stage-IsHalted :
      (cut : ℕ) (own : Factors) (fresh : Pending) (stranded : Bool) (s : State)
      → proposes (audit_stage cfg (mined a) cut own fresh stranded s).1 ≡ true
      → IsHalted (audit_stage cfg a cut own fresh stranded s)
  unfolding audit_stage proposes fail mined
  audit_stage-IsHalted cut own fresh stranded s h =
      elim (Bool-cases (not (fresh.exists && ltb 0 fresh.proposed_at))) [
        | inl open_slot ↦
            as-IsHalted
              (empty_slot-IsHalted cut fresh stranded own s (ground (arith, h, open_slot)))
              (ground (arith, open_slot))
        | inr made ↦ elim (Bool-cases (active cfg.chains && not a.scans_passed_proposal)) [
          | inl early ↦ absurd (ground (arith, h, made, early))
          | inr passed ↦ elim (Try-cases a.audit_scores) [
            | inr (e, threw) ↦ absurd (ground (arith, h, made, passed, threw))
            | inl (audit, read) ↦
                as-IsHalted
                  (empty_slot-IsHalted cut fresh stranded audit s
                    (ground (arith, h, made, passed, read)))
                  (ground (arith, made, passed, read))
          ]
        ]
      ]

  checker_stage-IsHalted :
      (cut : ℕ) (own : Factors) (s : State)
      → proposes (checker_stage cfg (mined a) cut own s).1 ≡ true
      → IsHalted (checker_stage cfg a cut own s)
  unfolding checker_stage proposes fail mined
  checker_stage-IsHalted cut own s h = elim (Try-cases a.fresh_pending) [
    | inr (e, threw) ↦ absurd (ground (arith, h, threw))
    | inl (fresh, read) ↦ elim (Bool-cases (fresh.exists && covers a.can_cover)) [
      | inl cover ↦
          as-IsHalted (audit_stage-IsHalted cut own absent true s (ground (arith, h, read, cover)))
            (ground (arith, read, cover))
      | inr plain ↦
          as-IsHalted (audit_stage-IsHalted cut own fresh false s (ground (arith, h, read, plain)))
            (ground (arith, read, plain))
    ]
  ]

  with_scores-IsHalted :
      (cut : ℕ) (s : State)
      → proposes (with_scores cfg (mined a) cut s).1 ≡ true
      → IsHalted (with_scores cfg a cut s)
  unfolding with_scores proposes fail mined
  with_scores-IsHalted cut s h = elim (Try-cases a.scores) [
    | inr (e, threw) ↦ absurd (ground (arith, h, threw))
    | inl (own, read) ↦ elim (Bool-cases cfg.checker_mode) [
      | inl checks ↦
          as-IsHalted (checker_stage-IsHalted cut own s (ground (arith, h, read, checks)))
            (ground (arith, read, checks))
      | inr leads ↦
          as-IsHalted (propose_stage-IsHalted cut s (ground (arith, h, read, leads)))
            (ground (arith, read, leads))
    ]
  ]

  score_stage-IsHalted :
      (s : State) → proposes (score_stage cfg (mined a) s).1 ≡ true → IsHalted (score_stage cfg a s)
  unfolding score_stage proposes fail mined
  score_stage-IsHalted s h = elim (Bool-cases a.link_unchecked) [
    | inl unchecked ↦ absurd (ground (arith, h, unchecked))
    | inr linked ↦ elim (Bool-cases (active cfg.chains)) [
      | inr off ↦
          as-IsHalted
            (with_scores-IsHalted (cfg.chain_now * 1000) s (ground (arith, h, linked, off)))
            (ground (arith, linked, off))
      | inl on ↦ elim (Try-cases a.cut_reads) [
        | inr (e, threw) ↦ absurd (ground (arith, h, linked, on, threw))
        | inl (r, read) ↦ elim (Option-cases (evidence_cut cfg r)) [
          | inl uncovered ↦ absurd (ground (arith, h, linked, on, read, uncovered))
          | inr (cut, covered) ↦
              as-IsHalted
                (with_scores-IsHalted cut s (ground (arith, h, linked, on, read, covered)))
                (ground (arith, linked, on, read, covered))
        ]
      ]
    ]
  ]

  finalize_first-IsHalted :
      (s : State)
      → proposes (finalize_first cfg (mined a) s).1 ≡ true
      → IsHalted (finalize_first cfg a s)
  unfolding finalize_first after_finalize_error proposes fail mined
  finalize_first-IsHalted s h = elim (Try-cases a.finalize) [
    | inl (u, sent) ↦
        let scored = score_stage-IsHalted s (ground (arith, h, sent)) in
        rw (sent, finalize_first) (record { stopped = scored.stopped; quiet = scored.quiet })
    | inr (e, threw) ↦ elim (Bool-cases (is_not_authorized e)) [
      | inl gone ↦
          as-IsHalted (score_stage-IsHalted s (ground (arith, h, threw, gone)))
            (ground (arith, threw, gone))
      | inr other ↦ elim (Try-cases a.still_pending) [
        | inr (e', broke) ↦ absurd (ground (arith, h, threw, other, broke))
        | inl (still, read) ↦ elim (Bool-cases still) [
          | inl there ↦ absurd (ground (arith, h, threw, other, read, there))
          | inr away ↦
              as-IsHalted (score_stage-IsHalted s (ground (arith, h, threw, other, read, away)))
                (ground (arith, threw, other, read, away))
        ]
      ]
    ]
  ]

  finalize_stage-IsHalted :
      (s : State)
      → proposes (finalize_stage cfg (mined a) s).1 ≡ true
      → IsHalted (finalize_stage cfg a s)
  unfolding finalize_stage proposes fail mined
  finalize_stage-IsHalted s h = elim (Bool-cases (active cfg.chains)) [
    | inr off ↦
        as-IsHalted (finalize_first-IsHalted s (ground (arith, h, off))) (ground (arith, off))
    | inl on ↦ elim (Try-cases a.cut_before_finalize) [
      | inr (e, threw) ↦ absurd (ground (arith, h, on, threw))
      | inl (r, read) ↦ elim (Option-cases (evidence_cut cfg r)) [
        | inl uncovered ↦ absurd (ground (arith, h, on, read, uncovered))
        | inr (cut, covered) ↦
            as-IsHalted (finalize_first-IsHalted s (ground (arith, h, on, read, covered)))
              (ground (arith, on, read, covered))
      ]
    ]
  ]

  bonded_stage-IsHalted :
      (s : State)
      → proposes (bonded_stage cfg (mined a) s).1 ≡ true
      → IsHalted (bonded_stage cfg a s)
  unfolding bonded_stage proposes mined
  bonded_stage-IsHalted s h = elim (Bool-cases cfg.checker_mode) [
    | inl checks ↦
        as-IsHalted (score_stage-IsHalted s (ground (arith, h, checks))) (ground (arith, checks))
    | inr leads ↦
        elim (Action-cases (decide_action (some a.pending) cfg.challenge_window cfg.chain_now)) [
          | inl p ↦
              as-IsHalted (score_stage-IsHalted s (ground (arith, h, leads, p)))
                (ground (arith, leads, p))
          | inr (inl f) ↦
              as-IsHalted (finalize_stage-IsHalted s (ground (arith, h, leads, f)))
                (ground (arith, leads, f))
          | inr (inr k) ↦ absurd (ground (arith, h, leads, k))
        ]
  ]

  visit-IsHalted :
      (s : State) → proposes (visit cfg (mined a) s).1 ≡ true → IsHalted (visit cfg a s)
  unfolding visit proposes mined
  visit-IsHalted s h = elim (Try-cases a.guard) [
    | inr (e, threw) ↦ absurd (ground (arith, h, threw))
    | inl (g, read) ↦ elim (Bool-cases g.slashed) [
      | inl slashed ↦ absurd (ground (arith, h, read, slashed))
      | inr fine ↦ elim (Bool-cases g.bonded) [
        | inr unbonded ↦ absurd (ground (arith, h, read, fine, unbonded))
        | inl bonded ↦
            as-IsHalted (bonded_stage-IsHalted s (ground (arith, h, read, fine, bonded)))
              (ground (arith, read, fine, bonded))
      ]
    ]
  ]

-- With payment chains on: where the proposal of an agent is sent and not seen mined (the answers
-- are such that it would be made, had it been mined), the epoch proposes nothing in that agent's
-- turn and nothing in any turn after it, whatever the agents that follow and whatever is read for
-- them.
pub visits_unconfirmed :
    (cfg : Config) (a : Asks) (asks : List Asks) (s : State)
    → active cfg.chains ≡ true
    → a.propose ≡ Try.thrown Error.unconfirmed
    → proposes (visit cfg (mined a) s).1 ≡ true
    → proposes (visits cfg (a ∷ asks) s).1 ≡ false
unfolding visits
visits_unconfirmed cfg a asks s on lost h =
    let halted = visit-IsHalted cfg a lost s h in
    proposes-append (visit cfg a s).1 (visits cfg asks (visit cfg a s).0).1
    ∙ rw (halted.quiet, visits_stopped cfg asks (visit cfg a s).0 on halted.stopped) refl
