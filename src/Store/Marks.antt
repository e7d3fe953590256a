-- ===== src/Store/Marks.antt =====
-- When a payment counts as credited, and what holds of an agent's list of events.
use sigvara.Store.{is_credited, on_chain, events_of, credit_key, Event, Store}
use sigvara.Prelude.Dict.{has-cons_self, has, IsKeyed}
use sigvara.Prelude.{
  All, Bool, List, Option, [], ap, arith, false, none, refl, some, true, ℕ, ◌&&◌, ◌++◌, ◌||◌, ◌∙◌,
  ◌∷◌, ◌≡◌, Option-cases, inl, inr, All-append,
}
use sigvara.Prelude.Text.{Text, lower, lower-lower, text_eq, text_eq_sound}

pub or_mono :
    (a b c : Bool) {a' b' c' : Bool}
    → (a ≡ true → a' ≡ true)
    → (b ≡ true → b' ≡ true)
    → (c ≡ true → c' ≡ true)
    → (a || b || c) ≡ true
    → (a' || b' || c') ≡ true
or_mono a b c f g h e = ground arith

pub or_last : (a b c : Bool) → c ≡ true → (a || b || c) ≡ true
or_last a b c h = ground arith

pub has-head : (k j : Text) (s : List Text) → k ≡ j → has k (j ∷ s) ≡ true
has-head k j s e = rw e (has-cons_self j s)

pub has-cons : (k j : Text) (s : List Text) → has k s ≡ true → has k (j ∷ s) ≡ true
unfolding has
has-cons k j s h = ground arith

-- Two records of one payment: the same transaction, payer and chain, in whatever case.
unfoldable pub same_payment : Event → Event → Bool
same_payment e f =
    on_chain e.chain_id f.chain_id
    && text_eq (lower e.tx_hash) (lower f.tx_hash)
    && text_eq (lower e.payer) (lower f.payer)

-- No event of the list is the same payment as `e`.
abbrev pub IsFresh : Event → List Event → Type 0
IsFresh e = All (λ f. same_payment f e ≡ false)

abbrev pub IsDistinct : List Event → Type 0
IsDistinct [] = Unit
IsDistinct (e ∷ es) = All (λ f. same_payment e f ≡ false) es × IsDistinct es

abbrev pub IsMarked : Store → Text → Event → Type 0
IsMarked s did e = is_credited s e.tx_hash did e.payer e.chain_id ≡ true

-- Every event an agent holds is marked as credited to it, none is held twice, and each agent has one
-- list.
pub record IsValid (s : Store) : Type 0 where
  pub keyed : IsKeyed s.payment_events
  pub marked : (did : Text) → All (IsMarked s did) (events_of s did)
  pub distinct : (did : Text) → IsDistinct (events_of s did)

pub on_chain_sound : (b c : Option ℕ) → on_chain b c ≡ true → b ≡ c
on_chain_sound none none h = refl
on_chain_sound none (some c) h = cc
on_chain_sound (some b) none h = cc
on_chain_sound (some b) (some c) h = ground arith

-- A payment is told apart by lower-case texts alone.
pub is_credited-lower :
    (s : Store) (tx tx' did did' payer payer' : Text) (chain : Option ℕ)
    → lower tx ≡ lower tx'
    → lower did ≡ lower did'
    → lower payer ≡ lower payer'
    → is_credited s tx did payer chain ≡ is_credited s tx' did' payer' chain
unfolding is_credited
is_credited-lower s tx tx' did did' payer payer' none a b c = rw (a, b, c)
is_credited-lower s tx tx' did did' payer payer' (some n) a b c = rw (a, b, c)

-- What is credited stays credited when a key is added, whatever else changes.
pub is_credited-more :
    (s t : Store) (key tx did payer : Text) (chain : Option ℕ)
    → t.used_payment_txs ≡ key ∷ s.used_payment_txs
    → is_credited s tx did payer chain ≡ true
    → is_credited t tx did payer chain ≡ true
unfolding is_credited
is_credited-more s t key tx did payer none e h =
    let used : List Text = s.used_payment_txs in
    rw e (or_mono _ _ _ (has-cons _ key used) (has-cons _ key used) (has-cons _ key used) h)
is_credited-more s t key tx did payer (some c) e h = rw e (has-cons _ key s.used_payment_txs h)

-- Only the set of keys decides.
pub is_credited-used :
    (s t : Store) (e : Event) (did : Text)
    → t.used_payment_txs ≡ s.used_payment_txs
    → IsMarked s did e
    → IsMarked t did e
unfolding is_credited
is_credited-used s t e did used h = elim (Option-cases e.chain_id) [
  | inl n ↦ rw (used, n) (rw n at h)
  | inr (c, n) ↦ rw (used, n) (rw n at h)
]

pub credit_key-lower :
    (tx did payer : Text) (chain : Option ℕ)
    → credit_key (lower tx) did payer chain ≡ credit_key tx did payer chain
unfolding credit_key
credit_key-lower tx did payer none = rw (lower-lower tx)
credit_key-lower tx did payer (some c) = rw (lower-lower tx)

-- The key that `creditPayment` adds is the one that `isCredited` looks for.
pub is_credited-key :
    (s : Store) (tx did payer : Text) (chain : Option ℕ) (used : List Text)
    → s.used_payment_txs ≡ credit_key tx did payer chain ∷ used
    → is_credited s tx did payer chain ≡ true
unfolding is_credited credit_key
is_credited-key s tx did payer none used e = rw e (
    or_last (has (lower tx) (credit_key tx did payer none ∷ used))
      (has (lower tx ++ (b'|' ∷ lower did)) (credit_key tx did payer none ∷ used)) _
      (has-head _ _ used (credit_key-lower tx did payer none)))
is_credited-key s tx did payer (some c) used e =
    rw e (has-head _ _ used (credit_key-lower tx did payer (some c)))

-- Two events of one payment are credited together.
pub same_payment-credited :
    (s : Store) (did : Text) (f e : Event)
    → same_payment f e ≡ true
    → is_credited s f.tx_hash did f.payer f.chain_id
      ≡ is_credited s e.tx_hash did e.payer e.chain_id
unfolding same_payment
same_payment-credited s did f e h =
    let parts : (on_chain f.chain_id e.chain_id ≡ true)
        × (text_eq (lower f.tx_hash) (lower e.tx_hash) ≡ true)
        × (text_eq (lower f.payer) (lower e.payer) ≡ true) =
      ground arith in
    is_credited-lower s f.tx_hash e.tx_hash did did f.payer e.payer f.chain_id
      (text_eq_sound _ _ parts.1) refl (text_eq_sound _ _ parts.2)
    ∙ ap (is_credited s e.tx_hash did e.payer) (on_chain_sound f.chain_id e.chain_id parts.0)

-- What is not credited is fresh among events that all are.
pub marked-IsFresh :
    (s : Store) (did : Text) (e : Event) (list : List Event)
    → is_credited s e.tx_hash did e.payer e.chain_id ≡ false
    → All (IsMarked s did) list
    → IsFresh e list
marked-IsFresh s did e [] no_mark h = tt
marked-IsFresh s did e (f ∷ list) no_mark h =
    (ground (arith, same_payment-credited s did f e), marked-IsFresh s did e list no_mark h.1)

pub IsDistinct-append :
    (es : List Event) (e : Event) → IsDistinct es → IsFresh e es → IsDistinct (es ++ e ∷ [])
IsDistinct-append [] e d f = (tt, tt)
IsDistinct-append (x ∷ es) e d f =
    (All-append (λ y. same_payment x y ≡ false) es e d.0 f.0, IsDistinct-append es e d.1 f.1)
