-- ===== src/Store/Credit.antt =====
-- A payment is credited once: what `creditPayment` keeps true of the store, and what it adds.
use sigvara.Store.Marks.{
  is_credited-lower, is_credited-more, is_credited-key, IsDistinct-append, marked-IsFresh, IsMarked,
  IsValid, IsDistinct,
}
use sigvara.Store.{
  is_credited, credit_payment, events_of, new_event, credit_key, payment_volume, Payment, Store,
  amounts, Event,
}
use sigvara.Prelude.Dict.{lookup-insert, insert, IsKeyed-insert}
use sigvara.Prelude.{
  All, Bool, Bool-cases, List, [], ap, arith, false, if◌then◌else◌, inl, inr, keep, refl, subst,
  true, ◌&&◌, ◌++◌, ◌+◌, ◌∙◌, ◌∷◌, ◌≡◌, All-append, All-map, Option, sym, ℕ,
}
use sigvara.Prelude.Text.{Text, lower, text_eq, text_eq_sound, lower-lower}

-- Whether `creditPayment` finds the payment credited already.
unfoldable pub is_old : Payment → Store → Bool
is_old p s = is_credited s (lower p.tx_hash) (lower p.did_hash) p.payer p.chain_id

-- The store that takes a payment in.
pub with_payment : Payment → Store → Store
with_payment p s =
    let did = lower p.did_hash in
    record s {
      used_payment_txs = credit_key (lower p.tx_hash) did p.payer p.chain_id ∷ s.used_payment_txs;
      payment_events = insert did (events_of s did ++ new_event p ∷ []) s.payment_events;
    }

pub with_payment-order :
    (p : Payment) (s : Store)
    → ((with_payment p s).accepted_order ≡ s.accepted_order)
      × ((with_payment p s).last_accepted_at ≡ s.last_accepted_at)
unfolding with_payment
with_payment-order p s = (refl, refl)

pub credit_payment-eq :
    (p : Payment) (s : Store)
    → credit_payment p s ≡ (if is_old p s then (false, s) else (true, with_payment p s))
unfolding credit_payment is_old with_payment
credit_payment-eq p s = refl

-- Writing one agent's list leaves the lists of the others.
pub events_of-insert :
    (s t : Store) (key did : Text) (list : List Event)
    → t.payment_events ≡ insert key list s.payment_events
    → events_of t did ≡ (if text_eq key did then list else events_of s did)
unfolding events_of
events_of-insert s t key did list e = ground (arith, lookup-insert key did list s.payment_events)

pub events_of-with_payment :
    (p : Payment) (s : Store) (did : Text)
    → events_of (with_payment p s) did ≡ (
        if text_eq (lower p.did_hash) did
        then events_of s (lower p.did_hash) ++ new_event p ∷ []
        else events_of s did)
unfolding with_payment
events_of-with_payment p s did =
    events_of-insert s (with_payment p s) (lower p.did_hash) did
      (events_of s (lower p.did_hash) ++ new_event p ∷ []) refl

with_payment-IsMarked :
    (p : Payment) (s : Store) (did : Text) (list : List Event)
    → All (IsMarked s did) list
    → All (IsMarked (with_payment p s) did) list
unfolding with_payment
with_payment-IsMarked p s did list h =
    All-map (IsMarked s did) (IsMarked (with_payment p s) did) list
      (λ e.
        is_credited-more s (with_payment p s)
          (credit_key (lower p.tx_hash) (lower p.did_hash) p.payer p.chain_id) e.tx_hash did e.payer
          e.chain_id refl)
      h

new_event-IsMarked :
    (p : Payment) (s : Store) → IsMarked (with_payment p s) (lower p.did_hash) (new_event p)
unfolding with_payment new_event
new_event-IsMarked p s =
    is_credited-key (with_payment p s) (lower p.tx_hash) (lower p.did_hash) p.payer p.chain_id
      s.used_payment_txs refl

with_payment-list :
    (p : Payment) (s : Store)
    → is_old p s ≡ false
    → IsValid s
    → let did = lower p.did_hash in
      All (IsMarked (with_payment p s) did) (events_of s did ++ new_event p ∷ [])
      × IsDistinct (events_of s did ++ new_event p ∷ [])
unfolding is_old
with_payment-list p s fresh v =
    let did : Text = lower p.did_hash in
    let list : List Event = events_of s did in
    (
      All-append (IsMarked (with_payment p s) did) list (new_event p)
          (with_payment-IsMarked p s did list (v.marked did)) (new_event-IsMarked p s),
      IsDistinct-append list (new_event p) (v.distinct did)
          (marked-IsFresh s did (new_event p) list (unfold new_event in fresh) (v.marked did)),
    )

-- The lists of a store that are written together satisfy what each of them does.
pub IsValid-insert :
    (s t : Store) (key : Text) (list : List Event)
    → t.payment_events ≡ insert key list s.payment_events
    → ((did : Text)
        → All (IsMarked s did) (events_of s did)
        → All (IsMarked t did) (events_of s did))
    → All (IsMarked t key) list × IsDistinct list
    → IsValid s
    → IsValid t
IsValid-insert s t key list e keep new v = record {
  keyed = rw e (IsKeyed-insert key list s.payment_events v.keyed);
  marked = λ did. elim (Bool-cases (text_eq key did)) [
    | inl same ↦
        rw (events_of-insert s t key did list e, same)
          (subst (λ d. All (IsMarked t d) list) (text_eq_sound key did same) new.0)
    | inr other ↦ rw (events_of-insert s t key did list e, other) (keep did (v.marked did))
  ];
  distinct = λ did. elim (Bool-cases (text_eq key did)) [
    | inl same ↦ rw (events_of-insert s t key did list e, same) new.1
    | inr other ↦ rw (events_of-insert s t key did list e, other) (v.distinct did)
  ];
}

with_payment-IsValid :
    (p : Payment) (s : Store) → is_old p s ≡ false → IsValid s → IsValid (with_payment p s)
with_payment-IsValid p s fresh v =
    IsValid-insert s (with_payment p s) (lower p.did_hash)
      (events_of s (lower p.did_hash) ++ new_event p ∷ []) (unfold with_payment in refl)
      (λ did h. with_payment-IsMarked p s did (events_of s did) h) (with_payment-list p s fresh v) v

-- Crediting a payment keeps every stored event marked as credited and every payment stored once.
pub credit_payment-IsValid : (p : Payment) (s : Store) → IsValid s → IsValid (credit_payment p s).1
credit_payment-IsValid p s v = elim (Bool-cases (is_old p s)) [
  | inl old ↦ rw (credit_payment-eq p s, old) v
  | inr new ↦ rw (credit_payment-eq p s, new) (with_payment-IsValid p s new v)
]

pub is_old-lower :
    (p q : Payment) (s : Store)
    → lower q.tx_hash ≡ lower p.tx_hash
    → lower q.did_hash ≡ lower p.did_hash
    → lower q.payer ≡ lower p.payer
    → q.chain_id ≡ p.chain_id
    → is_old q s ≡ is_old p s
unfolding is_old
is_old-lower p q s tx did payer chain =
    is_credited-lower s (lower q.tx_hash) (lower p.tx_hash) (lower q.did_hash) (lower p.did_hash)
      q.payer p.payer q.chain_id (ap lower tx) (ap lower did) payer
    ∙ ap (is_credited s (lower p.tx_hash) (lower p.did_hash) p.payer) chain

pub is_old-credit_payment : (p : Payment) (s : Store) → is_old p (credit_payment p s).1 ≡ true
unfolding is_old new_event
is_old-credit_payment p s = elim (Bool-cases (is_old p s)) [
  | inl old ↦ rw (credit_payment-eq p s, old) old
  | inr new ↦ rw (credit_payment-eq p s, new) (new_event-IsMarked p s)
]

-- Once `creditPayment` was called, the payment counts as credited, and so does what did before.
pub credit_payment-is_credited :
    (p : Payment) (s : Store)
    → is_credited (credit_payment p s).1 p.tx_hash p.did_hash p.payer p.chain_id ≡ true
unfolding is_old
credit_payment-is_credited p s =
    is_credited-lower (credit_payment p s).1 p.tx_hash (lower p.tx_hash) p.did_hash
      (lower p.did_hash) p.payer p.payer p.chain_id (sym (lower-lower p.tx_hash))
      (sym (lower-lower p.did_hash)) refl
    ∙ is_old-credit_payment p s

pub is_credited-credit_payment :
    (p : Payment) (s : Store) (tx did payer : Text) (chain : Option ℕ)
    → is_credited s tx did payer chain ≡ true
    → is_credited (credit_payment p s).1 tx did payer chain ≡ true
unfolding with_payment
is_credited-credit_payment p s tx did payer chain h = elim (Bool-cases (is_old p s)) [
  | inl old ↦ rw (credit_payment-eq p s, old) h
  | inr new ↦
      rw (credit_payment-eq p s, new)
        (is_credited-more s (with_payment p s)
          (credit_key (lower p.tx_hash) (lower p.did_hash) p.payer p.chain_id) tx did payer chain
          refl h)
]

amounts-append : (es : List Event) (e : Event) → amounts (es ++ e ∷ []) ≡ amounts es + e.amount
unfolding amounts
amounts-append [] e = omega arith
amounts-append (x ∷ es) e = omega (arith, amounts-append es e)

volume_of_list : (s : Store) (did : Text) → payment_volume s did ≡ amounts (events_of s (lower did))
unfolding payment_volume
volume_of_list s did = refl

payment_volume-with_payment :
    (p : Payment) (s : Store) (did : Text)
    → amounts (events_of (with_payment p s) did)
      ≡ amounts (events_of s did) + (if text_eq (lower p.did_hash) did then p.amount else 0)
unfolding new_event
payment_volume-with_payment p s did = elim (Bool-cases (text_eq (lower p.did_hash) did)) [
  | inl same ↦
      rw (events_of-with_payment p s did, same, text_eq_sound (lower p.did_hash) did same)
        (amounts-append (events_of s did) (new_event p))
  | inr other ↦ rw (events_of-with_payment p s did, other) (omega arith)
]

-- A credited payment adds its amount to the volume of its agent and to no other; a refused one
-- adds nothing.
pub payment_volume-credit_payment :
    (p : Payment) (s : Store) (did : Text)
    → payment_volume (credit_payment p s).1 did
      ≡ payment_volume s did
        + (if (credit_payment p s).0 && text_eq (lower p.did_hash) (lower did) then p.amount else 0)
payment_volume-credit_payment p s did = elim (Bool-cases (is_old p s)) [
  | inl old ↦ rw (credit_payment-eq p s, old) (omega arith)
  | inr new ↦
      rw (credit_payment-eq p s, new, volume_of_list (with_payment p s) did, volume_of_list s did)
        (payment_volume-with_payment p s (lower did))
]
