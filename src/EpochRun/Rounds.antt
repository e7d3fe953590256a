-- ===== src/EpochRun/Rounds.antt =====
-- The turn of an agent, the hold of an epoch and its rounds.
use sigvara.EpochRun.{
  Asks, Config, Effect, Info, State, Visit, done, fail, then_effect, thrown, ok, pruned, finalized,
  Try,
}
use sigvara.EpochRun.Sending.{cut_too_old, evidence_cut, propose_stage, after_finalize_error}
use sigvara.EpochRun.Checking.{checker_stage}
use sigvara.EpochPolicy.{Action, decide_action}
use sigvara.PaymentChains.{ScanState, active, covered_cut, cut_for, behind}
use sigvara.Prelude.{
  Bool, List, Option, [], if◌then◌else◌, length, ltb, none, not, some, ℕ, ◌&&◌, ◌*◌, ◌++◌, ◌+◌,
  ◌||◌, ◌∷◌,
}
use sigvara.Prelude.Text.{Text}

module _ (cfg : Config) where
  unfoldable pub with_scores : Asks → ℕ → State → Visit
  unfolding checker_stage propose_stage fail
  with_scores a cut s = elim a.scores [
    | thrown e ↦ fail e s
    | ok own ↦ if cfg.checker_mode then checker_stage cfg a cut own s else propose_stage cfg a cut s
  ]

  abbrev held_back : State → Visit
  held_back s = done (record s { agents_held = s.agents_held + 1 })

  -- From the links to the scores, at the cut of the evidence.
  unfoldable pub score_stage : Asks → State → Visit
  unfolding with_scores evidence_cut fail
  score_stage a s =
      if a.link_unchecked
      then done s
      else if not (active cfg.chains)
      then with_scores a (cfg.chain_now * 1000) s
      else elim a.cut_reads [
        | thrown e ↦ fail e s
        | ok r ↦ elim (evidence_cut cfg r) [ none ↦ held_back s | some cut ↦ with_scores a cut s ]
      ]

  unfoldable pub finalize_first : Asks → State → Visit
  unfolding score_stage after_finalize_error
  finalize_first a s = elim a.finalize [
    | ok _ ↦ then_effect (finalized a.did_hash) (score_stage a s)
    | thrown e ↦ after_finalize_error cfg a e s (score_stage a)
  ]

  -- The finalize of a pending proposal, where the evidence has a cut.
  unfoldable pub finalize_stage : Asks → State → Visit
  unfolding finalize_first evidence_cut fail
  finalize_stage a s =
      if not (active cfg.chains) then finalize_first a s else elim a.cut_before_finalize [
        | thrown e ↦ fail e s
        | ok r ↦ elim (evidence_cut cfg r) [ none ↦ held_back s | some cut ↦ finalize_first a s ]
      ]

  -- The turn of one agent, and of each.
  unfoldable pub bonded_stage : Asks → State → Visit
  unfolding score_stage finalize_stage
  bonded_stage a s =
      if cfg.checker_mode
      then score_stage a s
      else elim (decide_action (some a.pending) cfg.challenge_window cfg.chain_now) [
        | Action.skip ↦ done s
        | Action.finalize_then_propose ↦ finalize_stage a s
        | Action.propose ↦ score_stage a s
      ]

  unfoldable pub visit : Asks → State → Visit
  unfolding bonded_stage
  visit a s = elim a.guard [
    | thrown e ↦ done s
    | ok g ↦
        if g.slashed
        then (s, pruned a.did_hash ∷ [])
        else if not g.bonded
        then done s
        else bonded_stage a s
  ]

  unfoldable pub visits : List Asks → State → Visit
  unfolding visit
  visits [] s = done s
  visits (a ∷ asks) s = let v = visit a s in let rest = visits asks v.0 in (rest.0, v.1 ++ rest.1)

  -- An agent as the first reads of the epoch give it: an error, or its status and whether its fee is
  -- paid.
  unfoldable pub candidates : List Info → List Asks × List Effect
  candidates [] = ([], [])
  candidates (i ∷ infos) =
      let rest = candidates infos in
      if i.failed
      then rest
      else if i.slashed
      then (rest.0, pruned i.asks.did_hash ∷ rest.1)
      else if cfg.gating_active && not i.covered
      then rest
      else (i.asks ∷ rest.0, rest.1)

  -- Whether the epoch scores nothing, the scans being too far behind.
  pub epoch_held : (Text → Option ScanState) → ℕ → Bool
  unfolding cut_too_old
  epoch_held state_of scored_reach_ms =
      let now_ms = cfg.chain_now * 1000 in
      let want = cut_for now_ms cfg.chains in
      ltb 0 (length (behind cfg.chains state_of want))
      || (active cfg.chains
          && cut_too_old cfg now_ms (covered_cut want scored_reach_ms cfg.chains state_of))

-- What an epoch reads before the agents: whether the chain of the registry of links is known, or
-- needs not be, whether the logs that the link scan has not checked could be listed, and whether
-- the fee of an epoch is charged. What throws here ends the epoch.
pub record Starts : Type 0 where
  pub registry_known : Bool
  pub links_listed : Try Bool
  pub gating : Try Bool

-- The rounds of the agents, of the number of transactions that are pending.
unfoldable pub agent_rounds : Config → ℕ → List Info → State → Visit
unfolding candidates visits
agent_rounds cfg stuck infos s =
    let chosen = candidates cfg infos in
    let v = visits cfg chosen.0 (record s { stopped = ltb 0 stuck; agents_held = 0 }) in
    (v.0, chosen.1 ++ v.1)

unfoldable pub after_links : Config → Starts → ℕ → List Info → State → Visit
unfolding agent_rounds
after_links cfg starts stuck infos s = elim starts.links_listed [
  | thrown e ↦ done s
  | ok listed ↦ if not listed then done s else elim starts.gating [
    | thrown e ↦ done s
    | ok charged ↦ agent_rounds (record cfg { gating_active = charged }) stuck infos s
  ]
]

-- The part of `runEpochInner` from the hold on.
unfoldable pub run_agents :
    Config → Starts → (Text → Option ScanState) → ℕ → ℕ → List Info → State → Visit
unfolding epoch_held after_links
run_agents cfg starts state_of scored_reach_ms stuck infos s =
    if epoch_held cfg state_of scored_reach_ms
    then done s
    else if not starts.registry_known
    then done s
    else after_links cfg starts stuck infos s
