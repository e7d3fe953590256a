-- ===== src/PaymentScan/Tests.antt =====
-- Two transfers of one transaction and one from the operator, and the theorems there.
use sigvara.Prelude.Text.{lower, text_eq, Text}
use sigvara.PaymentScan.{
  Canary, Group, Options, SkipReason, Tenure, Transfer, checkpoint_after, group_transfers,
  plan_credits,
}
use sigvara.PaymentScan.Sums.{credited_sum, plan_credits-sum, skipped_sum, to_agents}
use sigvara.PaymentScan.Credits.{IsCreditable, plan_credits-IsCreditable}
use sigvara.Prelude.{
  List, Option, [], arith, false, map, none, refl, some, ℕ, ◌+◌, ◌<◌, ◌↔◌, ◌∈◌, ◌∷◌, ◌≡◌, ◌≤◌,
}

abbrev agent : Text
agent = b'a' ∷ []

abbrev payer : Text
payer = b'p' ∷ []

abbrev operator : Text
operator = b'o' ∷ []

abbrev moved : Text → Text → ℕ → Option Transfer
moved tx from amount =
    some (record { tx_hash = tx; block_number = 10; from = from; to = agent; amount = amount })

abbrev decoded : List (Option Transfer)
decoded =
    moved (b't' ∷ []) payer 4 ∷ none ∷ moved (b'T' ∷ []) payer 5 ∷ moved (b'u' ∷ []) operator 7 ∷ []

abbrev options : Options
options = record {
  did_hash_of = λ address. some address;
  operator_of = λ did block. some operator;
  is_used = λ tx did from. false;
  min_amount = 5;
  registered_block_of = λ did. some 3;
}

abbrev both : Group
both = record {
  did_hash = agent;
  transfer = record {
    tx_hash = b't' ∷ [];
    block_number = 10;
    from = payer;
    to = agent;
    amount = 9;
  };
}

plan_credits_runs : plan_credits decoded options ≡ (
  both ∷ [],
  (
    record {
      did_hash = agent;
      transfer = record {
        tx_hash = b'u' ∷ [];
        block_number = 10;
        from = operator;
        to = agent;
        amount = 7;
      };
    },
    SkipReason.self_payment,
  )
      ∷ [],
)
unfolding plan_credits lower text_eq
plan_credits_runs = refl

plan_credits-sum_example :
    credited_sum (plan_credits decoded options).0 + skipped_sum (plan_credits decoded options).1
    ≡ to_agents options decoded
plan_credits-sum_example = plan_credits-sum decoded options

plan_credits-IsCreditable_example :
    (both ∈ (plan_credits decoded options).0)
    ↔ ((both ∈ map (λ x. x.1) (group_transfers options decoded [])) × IsCreditable options both)
plan_credits-IsCreditable_example = plan_credits-IsCreditable decoded options both

within : (b : ℕ) → b ∈ (22 ∷ 19 ∷ []) → b ≤ 25
within b at = ground arith

checkpoint_after_runs : checkpoint_after (22 ∷ 19 ∷ []) 10 25 Canary.passed ≡ some 18
unfolding checkpoint_after
checkpoint_after_runs = refl

abbrev first : Tenure
first = record { operator = payer; from_block = 5 }

abbrev second : Tenure
second = record { operator = operator; from_block = 20 }

abbrev third : Tenure
third = record { operator = agent; from_block = 40 }

after_thirty : (t : Tenure) → t ∈ (third ∷ []) → 30 < t.from_block
after_thirty t at = ground arith
