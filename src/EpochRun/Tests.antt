-- ===== src/EpochRun/Tests.antt =====
-- An agent whose score is proposed, and an epoch that is stopped.
use sigvara.EpochRun.{Asks, Config, State, Try, Error, absent}
use sigvara.EpochRun.Rounds.{visit, visits, run_agents, Starts}
use sigvara.EpochRun.Proposals.{proposes}
use sigvara.EpochRun.Turns.{IsProposable, visit-IsProposable}
use sigvara.EpochRun.Halts.{run_agents_held}
use sigvara.EpochRun.Unconfirmed.{mined, visits_unconfirmed}
use sigvara.EpochPolicy.{decide_action}
use sigvara.PaymentChains.{Chain, active, covered_cut, cap_of, cut_for}
use sigvara.Prelude.{[], false, refl, some, true, ◌∷◌, ◌≡◌, arith, inr, none}

abbrev one_chain : Chain
one_chain = record {
  chain_id = 10;
  from_block = 1;
  fee_unit = 100;
  min_amount = 1;
  delay_ms = 5_000;
  chunk_size = 10;
  max_blocks = 100;
  max_reads = 4;
  is_on = true;
}

abbrev plain : Config
plain = record {
  checker_mode = false;
  chains = [];
  gating_active = false;
  challenge_window = 3_600;
  chain_now = 90_000;
  tolerance = some 2;
  grace_seconds = 600;
  propose_margin_ms = 300_000;
}

abbrev ready : Asks
ready = record {
  did_hash = b'd' ∷ [];
  registered_at = 10;
  pending = absent;
  guard = Try.ok (record { slashed = false; bonded = true });
  link_unchecked = false;
  cut_before_finalize = Try.thrown Error.unknown_error;
  cut_reads = Try.thrown Error.unknown_error;
  finalize = Try.thrown Error.unknown_error;
  still_pending = Try.ok false;
  live_total = Try.ok 0;
  scores = Try.ok (λ f. some 5);
  fresh_pending = Try.ok absent;
  can_cover = Try.ok false;
  scans_passed_proposal = true;
  audit_scores = Try.ok (λ f. some 5);
  last_updated = Try.ok 0;
  latest_time = Try.ok 90_010;
  can_propose = Try.ok true;
  charge = Try.ok tt;
  propose = Try.ok tt;
}

abbrev fresh_state : State
fresh_state = record { stopped = false; agents_held = 0; empty_seen_at = []; covering_late = [] }

-- Payment chains on and fees charged: the scans cover the evidence up to a minute ago.
abbrev on_cfg : Config
on_cfg = record plain { chains = one_chain ∷ []; gating_active = true }

abbrev covered : Asks
covered = record ready {
  cut_reads = Try.ok (record {
    time = 90_000;
    scored_reach_ms = 90_000_000;
    state_of = λ key. some (record { last_block = 50; last_block_ts = some 90_000 });
  });
}

covered_proposed : proposes (visit on_cfg covered fresh_state).1 ≡ true
unfolding visit proposes active decide_action covered_cut cut_for cap_of
covered_proposed = refl

visit-IsProposable_example : IsProposable on_cfg covered fresh_state
visit-IsProposable_example = visit-IsProposable on_cfg covered fresh_state covered_proposed

-- The proposal is sent and not seen mined; a second agent is ready.
abbrev unseen : Asks
unseen = record covered { propose = Try.thrown Error.unconfirmed }

mined_proposed : proposes (visit on_cfg (mined unseen) fresh_state).1 ≡ true
unfolding mined
mined_proposed = covered_proposed

visits_unconfirmed_example : proposes (visits on_cfg (unseen ∷ covered ∷ []) fresh_state).1 ≡ false
unfolding active
visits_unconfirmed_example =
    visits_unconfirmed on_cfg unseen (covered ∷ []) fresh_state refl refl mined_proposed

abbrev all_read : Starts
all_read = record { registry_known = true; links_listed = Try.ok true; gating = Try.ok true }

run_agents_held_example :
    proposes
      (run_agents on_cfg all_read
        (λ key. none)
        0
        1
        (record { asks = ready; failed = false; slashed = false; covered = true } ∷ [])
        fresh_state).1
    ≡ false
unfolding active
run_agents_held_example =
    run_agents_held on_cfg all_read (λ key. none) 0 1
      (record { asks = ready; failed = false; slashed = false; covered = true } ∷ []) fresh_state
      refl (inr (omega arith))
