-- ===== src/EpochRun/Proposals.antt =====
-- Which agents an epoch proposes a score for.
use sigvara.EpochRun.{
  Asks, Config, Effect, Error, State, Try, absent, covers, fail, forget_empty, note_empty, add_late,
  is_not_authorized, is_rate_limit, seen_at,
}
use sigvara.EpochRun.Checking.{
  after_checker_error, audit_stage, checker_decide, checker_finalize, checker_stage, empty_slot,
}
use sigvara.EpochRun.Sending.{cut_too_old, propose_stage}
use sigvara.EpochRun.Rounds.{with_scores}
use sigvara.EpochPolicy.{CheckerAction, Factors, Pending, decide_checker_action}
use sigvara.PaymentChains.{active}
use sigvara.Prelude.{
  Bool, Bool-cases, List, [], arith, false, inl, inr, refl, some, true, ℕ, ◌*◌, ◌∷◌, ◌≡◌, ◌⊎◌,
  Option-cases, ltb, not, subst, ◌&&◌, ◌||◌, max,
}
use sigvara.Prelude.Dict.{has, lookup}
use sigvara.Prelude.Text.{Text}

unfoldable pub proposes : List Effect → Bool
proposes [] = false
proposes (Effect.proposed did cut ∷ es) = true
proposes (Effect.pruned did ∷ es) = proposes es
proposes (Effect.finalized did ∷ es) = proposes es
proposes (Effect.charged did ∷ es) = proposes es
proposes (Effect.recorded_divergence did ∷ es) = proposes es

pub Try-cases :
    {A : Type 0} (t : Try A) → ((a : A) × (t ≡ Try.ok a)) ⊎ ((e : Error) × (t ≡ Try.thrown e))
Try-cases (Try.ok a) = inl (a, refl)
Try-cases (Try.thrown e) = inr (e, refl)

pub CheckerAction-cases :
    (d : CheckerAction)
    → (d ≡ CheckerAction.propose)
      ⊎ ((d ≡ CheckerAction.defer_propose)
          ⊎ ((d ≡ CheckerAction.diverged)
              ⊎ ((d ≡ CheckerAction.skip)
                  ⊎ ((d ≡ CheckerAction.finalize) ⊎ (d ≡ CheckerAction.defer_finalize)))))
CheckerAction-cases CheckerAction.propose = inl refl
CheckerAction-cases CheckerAction.defer_propose = inr (inl refl)
CheckerAction-cases CheckerAction.diverged = inr (inr (inl refl))
CheckerAction-cases CheckerAction.skip = inr (inr (inr (inl refl)))
CheckerAction-cases CheckerAction.finalize = inr (inr (inr (inr (inl refl))))
CheckerAction-cases CheckerAction.defer_finalize = inr (inr (inr (inr (inr refl))))

pub note_empty-stopped :
    (did : Text) (now : ℕ) (s : State) → (note_empty did now s).stopped ≡ s.stopped
unfolding note_empty
note_empty-stopped did now s = elim (Option-cases (lookup did s.empty_seen_at)) [
  | inl new ↦ rw (new, note_empty) refl
  | inr (t, seen) ↦ rw (seen, note_empty) refl
]

module _ (cfg : Config) (a : Asks) where
  -- With payment chains on: no transaction is unconfirmed, and the evidence is recent.
  abbrev pub IsSent : ℕ → State → Type 0
  IsSent cut s =
      active cfg.chains ≡ true
      → (s.stopped ≡ false)
        × (t : ℕ) × (a.latest_time ≡ Try.ok t)
        × (cut_too_old cfg (t * 1_000) (some cut) ≡ false)

  propose_stage-IsSent :
      (cut : ℕ) (s : State) → proposes (propose_stage cfg a cut s).1 ≡ true → IsSent cut s
  unfolding propose_stage proposes fail
  propose_stage-IsSent cut s h on = elim (Bool-cases s.stopped) [
    | inl stopped ↦ absurd (ground (arith, h, on, stopped))
    | inr going ↦ elim (Try-cases a.latest_time) [
      | inr (e, threw) ↦ absurd (ground (arith, h, on, going, threw))
      | inl (t, read) ↦ elim (Bool-cases (cut_too_old cfg (t * 1_000) (some cut))) [
        | inl old ↦ absurd (ground (arith, h, on, going, read, old))
        | inr recent ↦ (going, t, read, recent)
      ]
    ]
  ]

  after_checker_error-proposes :
      (e : Error) (s : State) → proposes (after_checker_error cfg a e s).1 ≡ false
  unfolding after_checker_error proposes fail
  after_checker_error-proposes e s = elim (Bool-cases (is_rate_limit e || is_not_authorized e)) [
    | inl over ↦ rw (over, after_checker_error) refl
    | inr on ↦ elim (Try-cases a.still_pending) [
      | inr (e', threw) ↦ rw (on, threw, after_checker_error) refl
      | inl (still, read) ↦ elim (Bool-cases still) [
        | inl there ↦ rw (on, read, there, after_checker_error) refl
        | inr gone ↦ elim (Try-cases a.live_total) [
          | inr (e', threw) ↦ rw (on, read, gone, threw, after_checker_error) refl
          | inl (live, told) ↦ rw (on, read, gone, told, after_checker_error) refl
        ]
      ]
    ]
  ]

  pub checker_finalize-proposes : (s : State) → proposes (checker_finalize cfg a s).1 ≡ false
  unfolding checker_finalize proposes add_late
  checker_finalize-proposes s = elim (Try-cases a.finalize) [
    | inl (u, sent) ↦ rw (sent, checker_finalize) refl
    | inr (e, threw) ↦ rw (threw, checker_finalize) (after_checker_error-proposes e s)
  ]

  checker_decide-IsSent :
      (cut : ℕ) (fresh : Pending) (audit : Factors) (since : ℕ) (s : State)
      → proposes (checker_decide cfg a cut fresh audit since s).1 ≡ true
      → IsSent cut s
  unfolding checker_decide proposes
  checker_decide-IsSent cut fresh audit since s h =
      elim (CheckerAction-cases (
        decide_checker_action (some fresh) audit cfg.challenge_window cfg.chain_now cfg.tolerance
          (record { grace_seconds = cfg.grace_seconds; empty_since = since }))) [
            | inl p ↦ propose_stage-IsSent cut s (ground (arith, h, p))
            | inr (inl d) ↦ absurd (ground (arith, h, d))
            | inr (inr (inl d)) ↦ absurd (ground (arith, h, d))
            | inr (inr (inr (inl d))) ↦ absurd (ground (arith, h, d))
            | inr (inr (inr (inr (inr d)))) ↦ absurd (ground (arith, h, d))
            | inr (inr (inr (inr (inl f)))) ↦
                absurd (ground (arith, h, f, checker_finalize-proposes s))
          ]

  empty_slot-IsSent :
      (cut : ℕ) (fresh : Pending) (stranded : Bool) (audit : Factors) (s : State)
      → proposes (empty_slot cfg a cut fresh stranded audit s).1 ≡ true
      → IsSent cut s
  unfolding empty_slot forget_empty proposes fail
  empty_slot-IsSent cut fresh stranded audit s h on = elim (Bool-cases fresh.exists) [
    | inl held ↦
        checker_decide-IsSent cut fresh audit 0 (forget_empty a.did_hash s)
          (ground (arith, h, held)) on
    | inr empty ↦ elim (Bool-cases (stranded || has a.did_hash s.covering_late)) [
      | inl covering ↦
          checker_decide-IsSent cut fresh audit 0 s (ground (arith, h, empty, covering)) on
      | inr waiting ↦ elim (Try-cases a.last_updated) [
        | inr (e, threw) ↦ absurd (ground (arith, h, empty, waiting, threw))
        | inl (updated, read) ↦
            subst
              (λ b.
                (b ≡ false)
                × (t : ℕ) × (a.latest_time ≡ Try.ok t)
                × (cut_too_old cfg (t * 1_000) (some cut) ≡ false))
              (note_empty-stopped a.did_hash cfg.chain_now s)
              (checker_decide-IsSent cut fresh audit
                (max (max a.registered_at updated)
                  (seen_at a.did_hash (note_empty a.did_hash cfg.chain_now s).empty_seen_at))
                (note_empty a.did_hash cfg.chain_now s) (ground (arith, h, empty, waiting, read))
                on)
      ]
    ]
  ]

  audit_stage-IsSent :
      (cut : ℕ) (own : Factors) (fresh : Pending) (stranded : Bool) (s : State)
      → proposes (audit_stage cfg a cut own fresh stranded s).1 ≡ true
      → IsSent cut s
  unfolding audit_stage proposes fail
  audit_stage-IsSent cut own fresh stranded s h =
      elim (Bool-cases (not (fresh.exists && ltb 0 fresh.proposed_at))) [
        | inl open_slot ↦ empty_slot-IsSent cut fresh stranded own s (ground (arith, h, open_slot))
        | inr made ↦ elim (Bool-cases (active cfg.chains && not a.scans_passed_proposal)) [
          | inl early ↦ absurd (ground (arith, h, made, early))
          | inr passed ↦ elim (Try-cases a.audit_scores) [
            | inr (e, threw) ↦ absurd (ground (arith, h, made, passed, threw))
            | inl (audit, read) ↦
                empty_slot-IsSent cut fresh stranded audit s (ground (arith, h, made, passed, read))
          ]
        ]
      ]

  checker_stage-IsSent :
      (cut : ℕ) (own : Factors) (s : State)
      → proposes (checker_stage cfg a cut own s).1 ≡ true
      → IsSent cut s
  unfolding checker_stage proposes fail
  checker_stage-IsSent cut own s h = elim (Try-cases a.fresh_pending) [
    | inr (e, threw) ↦ absurd (ground (arith, h, threw))
    | inl (fresh, read) ↦ elim (Bool-cases (fresh.exists && covers a.can_cover)) [
      | inl cover ↦ audit_stage-IsSent cut own absent true s (ground (arith, h, read, cover))
      | inr plain ↦ audit_stage-IsSent cut own fresh false s (ground (arith, h, read, plain))
    ]
  ]

  pub with_scores-IsSent :
      (cut : ℕ) (s : State) → proposes (with_scores cfg a cut s).1 ≡ true → IsSent cut s
  unfolding with_scores proposes fail
  with_scores-IsSent cut s h = elim (Try-cases a.scores) [
    | inr (e, threw) ↦ absurd (ground (arith, h, threw))
    | inl (own, read) ↦ elim (Bool-cases cfg.checker_mode) [
      | inl checks ↦ checker_stage-IsSent cut own s (ground (arith, h, read, checks))
      | inr leads ↦ propose_stage-IsSent cut s (ground (arith, h, read, leads))
    ]
  ]
