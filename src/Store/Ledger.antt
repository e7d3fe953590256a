-- ===== src/Store/Ledger.antt =====
-- The store as a ledger of payments for each agent.
use sigvara.Store.{
  Event, Outcome, Payment, Report, Store, accept, credit_payment, events_of, find_event, new_event,
  record_payer_outcome, reported, set_event, set_payment_outcome, is_payment, write_event, truthy,
}
use sigvara.Store.Marks.{IsValid}
use sigvara.Store.Outcomes.{found_here, found_later}
use sigvara.Store.Credit.{
  credit_payment-eq, events_of-insert, events_of-with_payment, is_old, with_payment,
}
use sigvara.Store.Reports.{record_payer_outcome-cases, list_of, names}
use sigvara.Store.Steps.{
  Step, Reach, start, next, credit, outcome, report, prune, pruned, outlives, events_of-pruned,
}
use sigvara.Store.Reached.{Reach-IsValid'}
use sigvara.Prelude.Dict.{insert}
use sigvara.Prelude.{
  Bool, Bool-cases, List, Option, [], ap, if◌then◌else◌, inl, inr, map, refl, some, sym, ℕ, ◌&&◌,
  ◌++◌, ◌∙◌, ◌∷◌, ◌≡◌, Option-cases, max, none, ◌+◌, keep,
}
use sigvara.Prelude.Text.{Text, lower, text_eq, text_eq_sound}

-- What a payment is, apart from its outcome.
pub record Paid : Type 0 where
  pub tx : Text
  pub payer : Text
  pub chain : Option ℕ
  pub amount : ℕ
  pub settled : ℕ

pub paid_of : Event → Paid
paid_of e = record {
  tx = e.tx_hash;
  payer = e.payer;
  chain = e.chain_id;
  amount = e.amount;
  settled = e.ts;
}

-- The abstract view of a store: the payments of each agent, in order.
pub ledger : Store → Text → List Paid
ledger s did = map paid_of (events_of s did)

map-append :
    (es : List Event) (e : Event) → map paid_of (es ++ e ∷ []) ≡ map paid_of es ++ paid_of e ∷ []
map-append [] e = refl
map-append (x ∷ es) e = ap (λ t. paid_of x ∷ t) (map-append es e)

map-keep :
    (test : Paid → Bool) (es : List Event)
    → map paid_of (keep (λ e. test (paid_of e)) es) ≡ keep test (map paid_of es)
map-keep test [] = refl
map-keep test (e ∷ es) = elim (Bool-cases (test (paid_of e))) [
  | inl kept ↦ rw kept (ap (λ t. paid_of e ∷ t) (map-keep test es))
  | inr gone ↦ rw gone (map-keep test es)
]

ledger-with_payment :
    (p : Payment) (s : Store) (did : Text)
    → map paid_of (events_of (with_payment p s) did) ≡ (
        if text_eq (lower p.did_hash) did
        then map paid_of (events_of s did) ++ paid_of (new_event p) ∷ []
        else map paid_of (events_of s did))
ledger-with_payment p s did = elim (Bool-cases (text_eq (lower p.did_hash) did)) [
  | inr other ↦ rw (events_of-with_payment p s did, other) refl
  | inl same ↦
      rw (events_of-with_payment p s did, same, text_eq_sound (lower p.did_hash) did same)
        (map-append (events_of s did) (new_event p))
]

-- Crediting appends the payment to its agent's ledger and to no other, or nothing where it was
-- credited before.
ledger-credit_payment :
    (p : Payment) (s : Store) (did : Text)
    → ledger (credit_payment p s).1 did ≡ (
        if (credit_payment p s).0 && text_eq (lower p.did_hash) did
        then ledger s did ++ paid_of (new_event p) ∷ []
        else ledger s did)
unfolding ledger
ledger-credit_payment p s did = elim (Bool-cases (is_old p s)) [
  | inl old ↦ rw (credit_payment-eq p s, old) refl
  | inr new ↦ rw (credit_payment-eq p s, new) (ledger-with_payment p s did)
]

-- Rewriting the event that a search finds as the same payment changes no payment.
map-set_event :
    (test : Event → Bool) (e x : Event) (list : List Event)
    → find_event test list ≡ some e
    → paid_of x ≡ paid_of e
    → map paid_of (set_event test x list) ≡ map paid_of list
unfolding set_event
map-set_event test e x [] found same = refl
map-set_event test e x (y ∷ list) found same = elim (Bool-cases (test y)) [
  | inl here ↦ rw here (
      ap (λ p. p ∷ map paid_of list)
        (same ∙ ap paid_of (sym (found_here test y e list here found))))
  | inr later ↦ rw later (
      ap (λ t. paid_of y ∷ t)
        (map-set_event test e x list (found_later test y e list later found) same))
]

rewrite-ledger :
    (s t : Store) (key did : Text) (test : Event → Bool) (e x : Event)
    → t.payment_events ≡ insert key (set_event test x (events_of s key)) s.payment_events
    → find_event test (events_of s key) ≡ some e
    → paid_of x ≡ paid_of e
    → ledger t did ≡ ledger s did
unfolding ledger
rewrite-ledger s t key did test e x written found same = elim (Bool-cases (text_eq key did)) [
  | inr other ↦
      rw (events_of-insert s t key did (set_event test x (events_of s key)) written, other) refl
  | inl here ↦
      rw (events_of-insert s t key did (set_event test x (events_of s key)) written, here)
        (map-set_event test e x (events_of s key) found same
          ∙ ap (λ d. map paid_of (events_of s d)) (text_eq_sound key did here))
]

outcome_set : Bool → Option Text → Event → Event
outcome_set success packet_id e = record e {
  success = some success;
  packet_id = elim e.packet_id [ some p ↦ some p | none ↦ truthy packet_id ];
}

set_payment_outcome-ledger :
    (did_hash tx_hash payer : Text) (success : Bool) (packet_id : Option Text) (s : Store)
    (did : Text)
    → ledger (set_payment_outcome did_hash tx_hash payer success packet_id s).1 did ≡ ledger s did
unfolding set_payment_outcome paid_of outcome_set
set_payment_outcome-ledger did_hash tx_hash payer success packet_id s did =
    let key : Text = lower did_hash in
    let test : Event → Bool = is_payment (lower tx_hash) (lower payer) none in
    elim (Option-cases (find_event test (events_of s key))) [
      | inl missing ↦ rw (missing, set_payment_outcome) refl
      | inr (e, found) ↦ elim (Option-cases e.success) [
        | inr (b, held) ↦ rw (found, held, set_payment_outcome) refl
        | inl unset ↦
            rw (found, unset, set_payment_outcome)
              (rewrite-ledger s (write_event s key test (outcome_set success packet_id e)) key did
                test e (outcome_set success packet_id e) refl found refl)
      ]
    ]

accept-ledger :
    (r : Report) (host_now : ℕ) (e : Event) (result : Outcome) (s : Store) (did : Text)
    → find_event (names r) (list_of r s) ≡ some e
    → ledger (accept r host_now e result s).1 did ≡ ledger s did
unfolding accept paid_of
accept-ledger r host_now e result s did found =
    let at : ℕ = max host_now (s.last_accepted_at + 1) in
    rewrite-ledger s (accept r host_now e result s).1 (lower r.did_hash) did (names r) e
      (reported r at e) refl found refl

record_payer_outcome-ledger :
    (r : Report) (host_now : ℕ) (s : Store) (did : Text)
    → ledger (record_payer_outcome r host_now s).1 did ≡ ledger s did
record_payer_outcome-ledger r host_now s did = elim (record_payer_outcome-cases r host_now s) [
  | inl (same, _) ↦ ap (λ t. ledger t did) same
  | inr (e, result, (found, _, taken)) ↦
      ap (λ t. ledger t.1 did) taken ∙ accept-ledger r host_now e result s did found
]

pruned-ledger :
    (h z now : ℕ) (s : Store) (did : Text)
    → IsValid s
    → ledger (pruned h z now s) did ≡ keep (λ p. outlives h z now p.settled) (ledger s did)
unfolding ledger paid_of
pruned-ledger h z now s did v =
    ap (map paid_of) (events_of-pruned h z now s did v.keyed)
    ∙ map-keep (λ p. outlives h z now p.settled) (events_of s did)

-- What each call does to an agent's ledger: a payment that is credited goes to its end, pruning
-- takes out the payments settled too long ago, and no other call touches it.
pub after : (s : Store) {t : Store} → Step s t → Text → List Paid → List Paid
after s (credit p) did paid =
    if (credit_payment p s).0 && text_eq (lower p.did_hash) did
    then paid ++ paid_of (new_event p) ∷ []
    else paid
after s (outcome a b c d e) did paid = paid
after s (report r now) did paid = paid
after s (prune h z now) did paid = keep (λ p. outlives h z now p.settled) paid

pub after_all : (s : Store) {t : Store} → Reach s t → Text → List Paid → List Paid
unfolding after
after_all s start did paid = paid
after_all s (next {t} r step) did paid = after t step did (after_all s r did paid)

Step-ledger :
    (s : Store) {t : Store} (step : Step s t) (did : Text)
    → IsValid s
    → ledger t did ≡ after s step did (ledger s did)
unfolding after
Step-ledger s (credit p) did v = ledger-credit_payment p s did
Step-ledger s (outcome a b c d e) did v = set_payment_outcome-ledger a b c d e s did
Step-ledger s (report r now) did v = record_payer_outcome-ledger r now s did
Step-ledger s (prune h z now) did v = pruned-ledger h z now s did v

-- The store is a ledger per agent: whatever credits, outcomes, reports and prunings were made of a
-- valid store, in any order, each agent's payments are those it had, with a payment put at the end
-- by each call that credited one to it, and with those taken out that were settled longer ago than
-- a pruning's horizon when it ran; the payments are otherwise not added, changed, reordered or
-- removed.
pub Reach-ledger :
    (s : Store) {t : Store} (r : Reach s t) (did : Text)
    → IsValid s
    → ledger t did ≡ after_all s r did (ledger s did)
unfolding after_all
Reach-ledger s start did v = refl
Reach-ledger s (next {t} r step) did v =
    Step-ledger t step did (Reach-IsValid' r v) ∙ ap (after t step did) (Reach-ledger s r did v)
