-- ===== src/Store/Tests.antt =====
-- A store that takes in payments and outcomes, and the theorems at inputs that meet their
-- hypotheses.
use sigvara.Store.Paging.{outcomes_after, payer_outcomes_since}
use sigvara.Store.{
  already_set, record_payer_outcome, credit_payment, payment_volume, events_of, Store, Payment,
  Report, set, not_found,
}
use sigvara.Store.Reports.{record_payer_outcome-IsOrdered, is_taken, IsOrdered}
use sigvara.Store.Paging.Pages.{payer_outcomes_since-eq-take}
use sigvara.Store.Credit.{credit_payment-IsValid, payment_volume-credit_payment}
use sigvara.Prelude.{
  [], ap, false, if◌then◌else◌, none, refl, some, take, true, ◌&&◌, ◌+◌, ◌∷◌, ◌≡◌, ◌⊎◌,
}
use sigvara.Upkeep.{prune_payment_events}
use sigvara.Prelude.Text.{lower, text_eq}
use sigvara.Store.Marks.{IsValid}
use sigvara.Store.Ledger.{Reach-ledger, after_all, ledger}
use sigvara.Store.Steps.{Reach, pruned, start, next, credit, report, prune}
use sigvara.Store.Reached.{Reach-IsValid, credit_payment-IsOrdered}
use sigvara.Store.Final.{credit_payment_once}
use sigvara.Store.Verdicts.{IsFinal}
use sigvara.Store.Verdicts.Reported.{record_payer_outcome_settled}

abbrev empty : Store
empty = record {
  payment_events = [];
  used_payment_txs = [];
  last_accepted_at = 0;
  accepted_order = [];
}

abbrev first_payment : Payment
first_payment = record {
  did_hash = b'd' ∷ [];
  tx_hash = b't' ∷ [];
  amount = 250;
  payer = b'P' ∷ [];
  success = none;
  now = 1_000;
  packet_id = none;
  block_number = some 7;
  chain_id = none;
}

-- The same payment, written in another case and claimed for another amount.
abbrev replay : Payment
replay = record first_payment {
  tx_hash = b'T' ∷ [];
  payer = b'p' ∷ [];
  amount = 900;
  success = some true;
}

abbrev paid_store : Store
paid_store = (credit_payment first_payment empty).1

empty-IsValid : IsValid empty
unfolding events_of
empty-IsValid = record { keyed = tt; marked = λ did. tt; distinct = λ did. tt }

empty-IsOrdered : IsOrdered empty
empty-IsOrdered = record { increasing = tt; below = tt }

payment_volume-credit_payment_example :
    payment_volume (credit_payment first_payment empty).1 (b'D' ∷ [])
    ≡ payment_volume empty (b'D' ∷ [])
      + (if (credit_payment first_payment empty).0
            && text_eq (lower (b'd' ∷ [])) (lower (b'D' ∷ []))
          then 250
          else 0)
payment_volume-credit_payment_example =
    payment_volume-credit_payment first_payment empty (b'D' ∷ [])

payment_volume_runs : payment_volume paid_store (b'D' ∷ []) ≡ 250
unfolding payment_volume credit_payment lower text_eq
payment_volume_runs = refl

abbrev good : Report
good = record {
  did_hash = b'd' ∷ [];
  tx_hash = b't' ∷ [];
  payer = b'p' ∷ [];
  success = true;
  signed = b's' ∷ [];
  window_ms = 100;
  replaceable = true;
  now = 2_000;
  packet_id = none;
  chain_id = none;
}

-- The payer's second thought.
abbrev bad : Report
bad = record good { success = false; now = 2_001 }

record_payer_outcome_runs : (record_payer_outcome good 2_000 paid_store).0 ≡ set
unfolding record_payer_outcome credit_payment lower text_eq
record_payer_outcome_runs = refl

-- The payment is pruned, and still is not credited again.
abbrev pruned_store : Store
pruned_store = pruned 10 5 2_000 paid_store

credit_payment_once_example : credit_payment replay pruned_store ≡ (false, pruned_store)
unfolding lower
credit_payment_once_example =
    credit_payment_once first_payment replay empty (next start (prune 10 5 2_000)) refl refl refl
      refl

pruned_runs : events_of pruned_store (b'd' ∷ []) ≡ []
unfolding pruned events_of credit_payment lower prune_payment_events
pruned_runs = refl

paid_store-IsValid : IsValid paid_store
paid_store-IsValid = credit_payment-IsValid first_payment empty empty-IsValid

-- The store that took the first report, before and after the payment is claimed again.
abbrev told_store : Store
told_store = (record_payer_outcome good 2_000 paid_store).1

abbrev claimed_store : Store
claimed_store = (credit_payment replay told_store).1

record_payer_outcome_settled_example :
    ((record_payer_outcome bad 2_001 claimed_store ≡ (already_set, claimed_store))
      ⊎ (record_payer_outcome bad 2_001 claimed_store ≡ (not_found, claimed_store)))
    × IsFinal good 2_000 claimed_store
unfolding credit_payment
record_payer_outcome_settled_example =
    record_payer_outcome_settled good bad 2_000 2_001 paid_store paid_store-IsValid
      (ap is_taken record_payer_outcome_runs) (next start (credit replay)) refl refl refl refl

told_store-IsOrdered : IsOrdered told_store
told_store-IsOrdered =
    record_payer_outcome-IsOrdered good 2_000 paid_store
      (credit_payment-IsOrdered first_payment empty empty-IsOrdered)

payer_outcomes_since-eq-take_example :
    ((payer_outcomes_since told_store 5 10).0 ≡ take 10 (outcomes_after told_store 5))
    × ((payer_outcomes_since told_store 5 10).1 ≡ false
        → (payer_outcomes_since told_store 5 10).0 ≡ outcomes_after told_store 5)
payer_outcomes_since-eq-take_example =
    payer_outcomes_since-eq-take told_store 5 10 told_store-IsOrdered

-- A payment credited, credited again, its outcome reported, and the old payments pruned.
abbrev called_store : Store
called_store =
    pruned 10 5_000 2_000 (record_payer_outcome good 2_000 (credit_payment replay paid_store).1).1

abbrev calls : Reach empty called_store
calls =
    next (next (next (next start (credit first_payment)) (credit replay)) (report good 2_000))
      (prune 10 5_000 2_000)

Reach-IsValid_example : IsValid called_store × IsOrdered called_store
Reach-IsValid_example = Reach-IsValid calls empty-IsValid empty-IsOrdered

Reach-ledger_example :
    ledger called_store (b'd' ∷ []) ≡ after_all empty calls (b'd' ∷ []) (ledger empty (b'd' ∷ []))
Reach-ledger_example = Reach-ledger empty calls (b'd' ∷ []) empty-IsValid
