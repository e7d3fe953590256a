-- ===== src/Store/Final.antt =====
-- What no later call undoes: that a payment was credited, and a payer's outcome.
use sigvara.Store.{
  Store, Event, Payment, Report, Outcome, credit_payment, set_payment_outcome, record_payer_outcome,
  is_credited, accept, events_of, find_event, is_payment,
}
use sigvara.Store.Steps.{Step, Reach, start, next, credit, outcome, report, prune, pruned-used}
use sigvara.Store.Credit.{
  credit_payment-eq, is_old, is_old-lower, is_credited-credit_payment, is_old-credit_payment,
}
use sigvara.Store.Reports.{record_payer_outcome-cases}
use sigvara.Prelude.Text.{Text, lower}
use sigvara.Prelude.{
  Bool, Option, Option-cases, ap, false, inl, inr, none, refl, some, true, ℕ, ◌∙◌, ◌≡◌,
}

is_credited-same_used :
    (s t : Store) (tx did payer : Text) (chain : Option ℕ)
    → t.used_payment_txs ≡ s.used_payment_txs
    → is_credited t tx did payer chain ≡ is_credited s tx did payer chain
unfolding is_credited
is_credited-same_used s t tx did payer none same = rw same refl
is_credited-same_used s t tx did payer (some c) same = rw same refl

set_payment_outcome-used :
    (did tx payer : Text) (success : Bool) (packet_id : Option Text) (s : Store)
    → (set_payment_outcome did tx payer success packet_id s).1.used_payment_txs ≡ s.used_payment_txs
unfolding set_payment_outcome
set_payment_outcome-used did tx payer success packet_id s =
    elim (Option-cases
      (find_event (is_payment (lower tx) (lower payer) none) (events_of s (lower did)))) [
        | inl missing ↦ rw (missing, set_payment_outcome) refl
        | inr (e, found) ↦ elim (Option-cases e.success) [
          | inr (b, held) ↦ rw (found, held, set_payment_outcome) refl
          | inl unset ↦ rw (found, unset, set_payment_outcome) refl
        ]
      ]

accept-used :
    (r : Report) (host_now : ℕ) (e : Event) (result : Outcome) (s : Store)
    → (accept r host_now e result s).1.used_payment_txs ≡ s.used_payment_txs
unfolding accept
accept-used r host_now e result s = refl

record_payer_outcome-used :
    (r : Report) (host_now : ℕ) (s : Store)
    → (record_payer_outcome r host_now s).1.used_payment_txs ≡ s.used_payment_txs
record_payer_outcome-used r host_now s = elim (record_payer_outcome-cases r host_now s) [
  | inl (same, _) ↦ ap (λ t. t.used_payment_txs) same
  | inr (e, result, (_, _, taken)) ↦
      ap (λ t. t.1.used_payment_txs) taken ∙ accept-used r host_now e result s
]

module _ (tx did payer : Text) (chain : Option ℕ) where
  pub Step-is_credited :
      {s t : Store}
      → Step s t
      → is_credited s tx did payer chain ≡ true
      → is_credited t tx did payer chain ≡ true
  Step-is_credited {s} (credit p) h = is_credited-credit_payment p s tx did payer chain h
  Step-is_credited {s} (outcome a b c d e) h =
      is_credited-same_used s _ tx did payer chain (set_payment_outcome-used a b c d e s) ∙ h
  Step-is_credited {s} (report r now) h =
      is_credited-same_used s _ tx did payer chain (record_payer_outcome-used r now s) ∙ h
  Step-is_credited {s} (prune h z now) q =
      is_credited-same_used s _ tx did payer chain (pruned-used h z now s) ∙ q

  pub Reach-is_credited :
      {s t : Store}
      → Reach s t
      → is_credited s tx did payer chain ≡ true
      → is_credited t tx did payer chain ≡ true
  Reach-is_credited start h = h
  Reach-is_credited (next r step) h = Step-is_credited step (Reach-is_credited r h)

is_old-Reach : (p : Payment) {s t : Store} → Reach s t → is_old p s ≡ true → is_old p t ≡ true
unfolding is_old
is_old-Reach p r h = Reach-is_credited (lower p.tx_hash) (lower p.did_hash) p.payer p.chain_id r h

-- A payment that was credited once is refused from then on: whatever payments were credited,
-- outcomes written and events pruned in between, a call for it in whatever case it writes the
-- transaction, the agent and the payer, and whatever else it claims, is refused and changes nothing.
pub credit_payment_once :
    (p q : Payment) (s : Store) {t : Store}
    → Reach (credit_payment p s).1 t
    → lower q.tx_hash ≡ lower p.tx_hash
    → lower q.did_hash ≡ lower p.did_hash
    → lower q.payer ≡ lower p.payer
    → q.chain_id ≡ p.chain_id
    → credit_payment q t ≡ (false, t)
credit_payment_once p q s {t} r tx did payer chain = rw (
  credit_payment-eq q t,
  is_old-lower p q t tx did payer chain,
  is_old-Reach p r (is_old-credit_payment p s),
)
