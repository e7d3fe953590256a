-- ===== src/Store/Reached.antt =====
-- What holds of every store that the calls reach.
use sigvara.Store.{
  Store, Payment, credit_payment, set_payment_outcome, is_payment, find_event, events_of, Event,
}
use sigvara.Store.Steps.{
  Step, Reach, start, next, credit, outcome, report, prune, pruned, pruned-IsValid,
}
use sigvara.Store.Marks.{IsValid}
use sigvara.Store.Credit.{credit_payment-IsValid, credit_payment-eq, is_old, with_payment-order}
use sigvara.Store.Reports.{
  record_payer_outcome-IsValid, set_payment_outcome-IsValid, record_payer_outcome-IsOrdered,
  IsOrdered,
}
use sigvara.Prelude.Text.{Text, lower}
use sigvara.Prelude.{Bool, Bool-cases, Option, Option-cases, inl, inr, none, ℕ}

pub Step-IsValid : {s t : Store} → Step s t → IsValid s → IsValid t
Step-IsValid (credit p) v = credit_payment-IsValid p _ v
Step-IsValid (outcome a b c d e) v = set_payment_outcome-IsValid a b c d e _ v
Step-IsValid (report r now) v = record_payer_outcome-IsValid r now _ v
Step-IsValid (prune h z now) v = pruned-IsValid h z now _ v

pub credit_payment-IsOrdered :
    (p : Payment) (s : Store) → IsOrdered s → IsOrdered (credit_payment p s).1
credit_payment-IsOrdered p s o =
    let order = with_payment-order p s in
    elim (Bool-cases (is_old p s)) [
      | inl old ↦ rw (credit_payment-eq p s, old) o
      | inr new ↦
          rw (credit_payment-eq p s, new)
            (record {
              increasing = rw (order.0) (o.increasing);
              below = rw (order.0, order.1) (o.below);
            })
    ]

set_payment_outcome-IsOrdered :
    (did_hash tx_hash payer : Text) (success : Bool) (packet_id : Option Text) (s : Store)
    → IsOrdered s
    → IsOrdered (set_payment_outcome did_hash tx_hash payer success packet_id s).1
unfolding set_payment_outcome
set_payment_outcome-IsOrdered did_hash tx_hash payer success packet_id s o =
    let test : Event → Bool = is_payment (lower tx_hash) (lower payer) none in
    elim (Option-cases (find_event test (events_of s (lower did_hash)))) [
      | inl missing ↦ rw (missing, set_payment_outcome) o
      | inr (e, found) ↦ elim (Option-cases e.success) [
        | inr (b, held) ↦ rw (found, held, set_payment_outcome) o
        | inl unset ↦
            rw (found, unset, set_payment_outcome)
              (record { increasing = o.increasing; below = o.below })
      ]
    ]

pruned-IsOrdered : (h z now : ℕ) (s : Store) → IsOrdered s → IsOrdered (pruned h z now s)
unfolding pruned
pruned-IsOrdered h z now s o = record { increasing = o.increasing; below = o.below }

Step-IsOrdered : {s t : Store} → Step s t → IsOrdered s → IsOrdered t
Step-IsOrdered (credit p) o = credit_payment-IsOrdered p _ o
Step-IsOrdered (outcome a b c d e) o = set_payment_outcome-IsOrdered a b c d e _ o
Step-IsOrdered (report r now) o = record_payer_outcome-IsOrdered r now _ o
Step-IsOrdered (prune h z now) o = pruned-IsOrdered h z now _ o

-- In every store that calls reach, pruning among them, each stored event is marked as credited and stored once, and the
-- accepted outcomes are in strictly increasing order of time, if so they were at first.
pub Reach-IsValid : {s t : Store} → Reach s t → IsValid s → IsOrdered s → IsValid t × IsOrdered t
Reach-IsValid start v o = (v, o)
Reach-IsValid (next r step) v o =
    let (v, o) = Reach-IsValid r v o in (Step-IsValid step v, Step-IsOrdered step o)

pub Reach-IsValid' : {s t : Store} → Reach s t → IsValid s → IsValid t
Reach-IsValid' start v = v
Reach-IsValid' (next r step) v = Step-IsValid step (Reach-IsValid' r v)
