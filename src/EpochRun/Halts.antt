-- ===== src/EpochRun/Halts.antt =====
-- Once stopped, the epoch stays so through the turn of every agent, and proposes nothing more.
use sigvara.EpochRun.Stops.{
  IsStopped, fail-IsStopped, propose_stage-IsStopped, checker_stage-IsStopped,
}
use sigvara.EpochRun.{Asks, Config, State, is_not_authorized, Effect, ScanState, Info}
use sigvara.EpochRun.Rounds.{
  with_scores, finalize_stage, score_stage, bonded_stage, finalize_first, visit, visits, epoch_held,
  run_agents, candidates, after_links, agent_rounds, Starts,
}
use sigvara.EpochRun.Sending.{after_finalize_error, evidence_cut}
use sigvara.EpochRun.Proposals.{Try-cases, proposes}
use sigvara.EpochPolicy.{decide_action}
use sigvara.PaymentChains.{active}
use sigvara.EpochRun.Turns.{Action-cases, visit-IsProposable}
use sigvara.Prelude.{
  Bool, Bool-cases, List, Option-cases, [], arith, false, inl, inr, refl, some, true, ℕ, ◌*◌, ◌++◌,
  ◌||◌, ◌∙◌, ◌∷◌, ◌≡◌, ◌≢◌, Option, ltb, ◌<◌, ◌⊎◌,
}
use sigvara.Prelude.Text.{Text}

module _ (cfg : Config) (a : Asks) where
  with_scores-IsStopped :
      (cut : ℕ) (s : State) → s.stopped ≡ true → IsStopped (with_scores cfg a cut s)
  unfolding with_scores
  with_scores-IsStopped cut s h = elim (Try-cases a.scores) [
    | inr (e, threw) ↦ rw (threw, with_scores) (fail-IsStopped e s h)
    | inl (own, read) ↦ elim (Bool-cases cfg.checker_mode) [
      | inl checks ↦ ground (arith, read, checks, checker_stage-IsStopped cfg a cut own s h)
      | inr leads ↦ ground (arith, read, leads, propose_stage-IsStopped cfg a cut s h)
    ]
  ]

  score_stage-IsStopped : (s : State) → s.stopped ≡ true → IsStopped (score_stage cfg a s)
  unfolding score_stage
  score_stage-IsStopped s h = elim (Bool-cases a.link_unchecked) [
    | inl unchecked ↦ ground (arith, unchecked, h)
    | inr linked ↦ elim (Bool-cases (active cfg.chains)) [
      | inr off ↦ ground (arith, linked, off, with_scores-IsStopped (cfg.chain_now * 1_000) s h)
      | inl on ↦ elim (Try-cases a.cut_reads) [
        | inr (e, threw) ↦ ground (arith, linked, on, threw, fail-IsStopped e s h)
        | inl (r, read) ↦ elim (Option-cases (evidence_cut cfg r)) [
          | inl uncovered ↦ ground (arith, linked, on, read, uncovered, h)
          | inr (cut, covered) ↦
              ground (arith, linked, on, read, covered, with_scores-IsStopped cut s h)
        ]
      ]
    ]
  ]

  finalize_first-IsStopped : (s : State) → s.stopped ≡ true → IsStopped (finalize_first cfg a s)
  unfolding finalize_first after_finalize_error
  finalize_first-IsStopped s h =
      let scored = score_stage-IsStopped s h in
      elim (Try-cases a.finalize) [
        | inl (u, sent) ↦ ground (arith, sent, scored)
        | inr (e, threw) ↦ elim (Bool-cases (is_not_authorized e)) [
          | inl gone ↦ ground (arith, threw, gone, scored)
          | inr other ↦ elim (Try-cases a.still_pending) [
            | inr (e', broke) ↦ ground (arith, threw, other, broke, fail-IsStopped e' s h)
            | inl (still, read) ↦ ground (arith, threw, other, read, fail-IsStopped e s h, scored)
          ]
        ]
      ]

  finalize_stage-IsStopped : (s : State) → s.stopped ≡ true → IsStopped (finalize_stage cfg a s)
  unfolding finalize_stage
  finalize_stage-IsStopped s h =
      let first = finalize_first-IsStopped s h in
      elim (Bool-cases (active cfg.chains)) [
        | inr off ↦ ground (arith, off, first)
        | inl on ↦ elim (Try-cases a.cut_before_finalize) [
          | inr (e, threw) ↦ ground (arith, on, threw, fail-IsStopped e s h)
          | inl (r, read) ↦ elim (Option-cases (evidence_cut cfg r)) [
            | inl uncovered ↦ ground (arith, on, read, uncovered, h)
            | inr (cut, covered) ↦ ground (arith, on, read, covered, first)
          ]
        ]
      ]

  visit-IsStopped : (s : State) → s.stopped ≡ true → IsStopped (visit cfg a s)
  unfolding visit bonded_stage
  visit-IsStopped s h =
      let scored = score_stage-IsStopped s h in
      elim (Try-cases a.guard) [
        | inr (e, threw) ↦ rw (threw, visit) h
        | inl (g, read) ↦
            elim (Action-cases
              (decide_action (some a.pending) cfg.challenge_window cfg.chain_now)) [
                | inl p ↦ ground (arith, read, p, scored, h)
                | inr (inl f) ↦ ground (arith, read, f, scored, finalize_stage-IsStopped s h, h)
                | inr (inr k) ↦ ground (arith, read, k, scored, h)
              ]
      ]

pub proposes-append : (es fs : List Effect) → proposes (es ++ fs) ≡ (proposes es || proposes fs)
unfolding proposes
proposes-append [] fs = refl
proposes-append (Effect.proposed did cut ∷ es) fs = refl
proposes-append (Effect.pruned did ∷ es) fs = proposes-append es fs
proposes-append (Effect.finalized did ∷ es) fs = proposes-append es fs
proposes-append (Effect.charged did ∷ es) fs = proposes-append es fs
proposes-append (Effect.recorded_divergence did ∷ es) fs = proposes-append es fs

going_absurd : {b : Bool} → b ≡ true → b ≢ false
going_absurd h n = ground (arith, h, n)

-- With payment chains on, once a transaction is not seen mined the rest of the epoch proposes
-- nothing, whatever the agents that follow and whatever is read for them.
pub visits_stopped :
    (cfg : Config) (asks : List Asks) (s : State)
    → active cfg.chains ≡ true
    → s.stopped ≡ true
    → proposes (visits cfg asks s).1 ≡ false
unfolding visits proposes
visits_stopped cfg [] s on h = refl
visits_stopped cfg (a ∷ asks) s on h = elim (Bool-cases (proposes (visit cfg a s).1)) [
  | inl sent ↦ absurd (going_absurd h ((visit-IsProposable cfg a s sent).scorable.covered on).0)
  | inr quiet ↦
      proposes-append (visit cfg a s).1 (visits cfg asks (visit cfg a s).0).1
      ∙ rw (quiet, visits_stopped cfg asks (visit cfg a s).0 on (visit-IsStopped cfg a s h)) refl
]

candidates-proposes : (cfg : Config) (infos : List Info) → proposes (candidates cfg infos).1 ≡ false
unfolding candidates proposes
candidates-proposes cfg [] = refl
candidates-proposes cfg (i ∷ infos) = ground (arith, candidates-proposes cfg infos)

agent_rounds_held :
    (cfg : Config) (stuck : ℕ) (infos : List Info) (s : State)
    → active cfg.chains ≡ true
    → ltb 0 stuck ≡ true
    → proposes (agent_rounds cfg stuck infos s).1 ≡ false
unfolding agent_rounds
agent_rounds_held cfg stuck infos s on pending =
    let first : State = record s { stopped = ltb 0 stuck; agents_held = 0 } in
    proposes-append (candidates cfg infos).1 (visits cfg (candidates cfg infos).0 first).1
    ∙ rw (candidates-proposes cfg infos)
        (visits_stopped cfg (candidates cfg infos).0 first on pending)

after_links_held :
    (cfg : Config) (starts : Starts) (stuck : ℕ) (infos : List Info) (s : State)
    → active cfg.chains ≡ true
    → ltb 0 stuck ≡ true
    → proposes (after_links cfg starts stuck infos s).1 ≡ false
unfolding after_links proposes
after_links_held cfg starts stuck infos s on pending = elim (Try-cases starts.links_listed) [
  | inr (e, threw) ↦ ground (arith, threw)
  | inl (listed, told) ↦ elim (Bool-cases listed) [
    | inr unlisted ↦ ground (arith, told, unlisted)
    | inl fine ↦ elim (Try-cases starts.gating) [
      | inr (e, threw) ↦ ground (arith, told, fine, threw)
      | inl (charged, read) ↦ ground (
        arith,
        told,
        fine,
        read,
        agent_rounds_held (record cfg { gating_active = charged }) stuck infos s on pending,
      )
    ]
  ]
]

-- An epoch proposes nothing at all where, with payment chains on, its scans are too far behind or a
-- transaction of its wallet was still pending when it began.
pub run_agents_held :
    (cfg : Config) (starts : Starts) (state_of : Text → Option ScanState) (reach stuck : ℕ)
    (infos : List Info) (s : State)
    → active cfg.chains ≡ true
    → (epoch_held cfg state_of reach ≡ true) ⊎ (0 < stuck)
    → proposes (run_agents cfg starts state_of reach stuck infos s).1 ≡ false
unfolding run_agents proposes
run_agents_held cfg starts state_of reach stuck infos s on why =
    elim (Bool-cases (epoch_held cfg state_of reach)) [
      | inl held ↦ rw (held, run_agents) refl
      | inr due ↦ elim (Bool-cases starts.registry_known) [
        | inr unknown ↦ rw (due, unknown, run_agents) refl
        | inl known ↦
            let pending : ltb 0 stuck ≡ true = ground (arith, why, due) in
            rw (due, known, run_agents) (after_links_held cfg starts stuck infos s on pending)
      ]
    ]
