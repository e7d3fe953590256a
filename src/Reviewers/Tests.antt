-- ===== src/Reviewers/Tests.antt =====
-- A reviewer that paid once, and the theorem about it.
use sigvara.Prelude.Text.{lower, text_eq, Text}
use sigvara.Prelude.{none, some, List, [], false, refl, true, ◌∷◌, ◌≡◌}
use sigvara.Event.{Event}
use sigvara.Reviewers.{Agent, Deps, Judgment, Standing, verdict_for}
use sigvara.Reviewers.Funders.Independence.{IsEligible, IsIndependent, verdict_for-IsIndependent}

abbrev reviewer : Text
reviewer = b'r' ∷ []

abbrev scored : Agent
scored = record { operator = b'o' ∷ []; agent_address = b'a' ∷ [] }

abbrev standing : Standing
standing = record {
  registered = true;
  operator = b'k' ∷ [];
  is_active = true;
  bonded = true;
  registered_at = 100;
  matured = 55;
}

abbrev paid : Event
paid = record {
  tx_hash = b't' ∷ [];
  ts = 2_000_000;
  amount = 9;
  payer = reviewer;
  success = none;
  packet_id = none;
  block_number = some 40;
  chain_id = none;
  payer_outcome = none;
}

abbrev deps : Deps
deps = record {
  standing_of = λ client. standing;
  funder_of = λ address before. some (record { funder = some (b'f' ∷ []); block = 3 });
  is_public = λ f. false;
  payment_block = λ e. 40;
  snapshot_block = 90;
}

abbrev keys : List Text
keys = reviewer ∷ (b'k' ∷ []) ∷ (b'f' ∷ []) ∷ (b'f' ∷ []) ∷ (b'f' ∷ []) ∷ (b'f' ∷ []) ∷ []

verdict_for_runs :
    verdict_for reviewer scored (paid ∷ []) 2_592_100_000 deps ≡ Judgment.counts 2_000_000 keys
unfolding verdict_for lower text_eq
verdict_for_runs = refl

verdict_for-IsIndependent_example :
    IsEligible 2_592_100_000 deps reviewer × IsIndependent reviewer scored (paid ∷ []) deps keys
verdict_for-IsIndependent_example =
    verdict_for-IsIndependent reviewer scored (paid ∷ []) 2_592_100_000 deps 2_000_000 keys
      verdict_for_runs
