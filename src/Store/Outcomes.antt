-- ===== src/Store/Outcomes.antt =====
-- Writing an outcome into a stored event: the event stays the same payment, and a payer's own
-- outcome is written once.
use sigvara.Store.{find_event, set_event, Event, events_of, Store, insert}
use sigvara.Store.Marks.{same_payment, IsDistinct, is_credited-used, IsValid, IsMarked}
use sigvara.Prelude.{
  All, Bool, Bool-cases, List, [], inl, inr, some, ◌∷◌, ◌≡◌, arith, false, subst, true, ◌∙◌,
  All-map,
}
use sigvara.Store.Credit.{IsValid-insert}
use sigvara.Prelude.Text.{Text}

-- The rewritten event is the same payment.
abbrev pub KeepsKey : Event → Event → Type 0
KeepsKey e x = (x.tx_hash ≡ e.tx_hash) × (x.payer ≡ e.payer) × (x.chain_id ≡ e.chain_id)

pub found_here :
    (test : Event → Bool) (y e : Event) (list : List Event)
    → test y ≡ true
    → find_event test (y ∷ list) ≡ some e
    → y ≡ e
unfolding find_event
found_here test y e list here found = ground arith

pub found_later :
    (test : Event → Bool) (y e : Event) (list : List Event)
    → test y ≡ false
    → find_event test (y ∷ list) ≡ some e
    → find_event test list ≡ some e
unfolding find_event
found_later test y e list later found = ground arith

pub find_event-test :
    (test : Event → Bool) (e : Event) (list : List Event)
    → find_event test list ≡ some e
    → test e ≡ true
unfolding find_event
find_event-test test e [] found = cc
find_event-test test e (y ∷ list) found = elim (Bool-cases (test y)) [
  | inl here ↦ subst (λ t. test t ≡ true) (found_here test y e list here found) here
  | inr later ↦ find_event-test test e list (found_later test y e list later found)
]

-- The search finds what was written, if the search's test accepts it.
pub find_event-set_event :
    (test : Event → Bool) (e x : Event) (list : List Event)
    → find_event test list ≡ some e
    → test x ≡ true
    → find_event test (set_event test x list) ≡ some x
unfolding find_event set_event
find_event-set_event test e x [] found h = cc
find_event-set_event test e x (y ∷ list) found h =
    ground (arith, find_event-set_event test e x list, found_later test y e list)

pub set_event-All {κ} :
    (P : Event → Type κ) (test : Event → Bool) (e x : Event) (list : List Event)
    → find_event test list ≡ some e
    → (P e → P x)
    → All P list
    → All P (set_event test x list)
unfolding set_event
set_event-All P test e x [] found f h = tt
set_event-All P test e x (y ∷ list) found f h = elim (Bool-cases (test y)) [
  | inl here ↦ rw here (f (subst P (found_here test y e list here found) h.0), h.1)
  | inr later ↦
      rw later (h.0, set_event-All P test e x list (found_later test y e list later found) f h.1)
]

same_payment-left : (e x y : Event) → KeepsKey e x → same_payment x y ≡ same_payment e y
unfolding same_payment
same_payment-left e x y (tx, payer, chain) = rw (tx, payer, chain)

same_payment-right : (e x y : Event) → KeepsKey e x → same_payment y x ≡ same_payment y e
unfolding same_payment
same_payment-right e x y (tx, payer, chain) = rw (tx, payer, chain)

set_event-IsDistinct :
    (test : Event → Bool) (e x : Event) (list : List Event)
    → find_event test list ≡ some e
    → KeepsKey e x
    → IsDistinct list
    → IsDistinct (set_event test x list)
unfolding set_event
set_event-IsDistinct test e x [] found key d = tt
set_event-IsDistinct test e x (y ∷ list) found key d = elim (Bool-cases (test y)) [
  | inl here ↦
      let same : y ≡ e = found_here test y e list here found in
      rw here (
        All-map (λ f. same_payment y f ≡ false) (λ f. same_payment x f ≡ false) list
            (λ f q. same_payment-left e x f key ∙ subst (λ t. same_payment t f ≡ false) same q) d.0,
        d.1,
      )
  | inr later ↦
      let found' : find_event test list ≡ some e = found_later test y e list later found in
      rw later (
        set_event-All (λ f. same_payment y f ≡ false) test e x list found'
            (λ q. same_payment-right e x y key ∙ q) d.0,
        set_event-IsDistinct test e x list found' key d.1,
      )
]

-- Rewriting a stored event as the same payment keeps the store valid.
pub rewrite-IsValid :
    (s t : Store) (did : Text) (test : Event → Bool) (e x : Event)
    → t.payment_events ≡ insert did (set_event test x (events_of s did)) s.payment_events
    → t.used_payment_txs ≡ s.used_payment_txs
    → find_event test (events_of s did) ≡ some e
    → KeepsKey e x
    → IsValid s
    → IsValid t
rewrite-IsValid s t did test e x written used found key v =
    let same : (d : Text) (list : List Event) → All (IsMarked s d) list → All (IsMarked t d) list =
      λ d list.
        All-map (IsMarked s d) (IsMarked t d) list (λ f q. is_credited-used s t f d used q) in
    IsValid-insert s t did (set_event test x (events_of s did)) written
      (λ d h. same d (events_of s d) h)
      (
        same did _ (
            set_event-All (IsMarked s did) test e x (events_of s did) found
              (λ q. rw (key.0, key.1, key.2) q) (v.marked did)),
        set_event-IsDistinct test e x (events_of s did) found key (v.distinct did),
      )
      v
