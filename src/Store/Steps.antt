-- ===== src/Store/Steps.antt =====
-- The calls that write a store's payments, and what pruning keeps.
use sigvara.Store.{
  Store, Event, credit_payment, events_of, or_empty, record_payer_outcome, set_payment_outcome,
  Payment, Report,
}
use sigvara.Upkeep.{prune_lists, prune_payment_events}
use sigvara.Prelude.Dict.{lookup, IsKeyed}
use sigvara.Prelude.Text.{Text, text_eq, text_eq_sound}
use sigvara.Store.Marks.{IsValid, IsDistinct, IsMarked, same_payment, is_credited-used}
use sigvara.Prelude.{
  Bool, Bool-cases, List, Option, [], arith, inl, inr, keep, leb, none, refl, some, subst, ℕ, ◌-◌,
  ◌==◌, ◌||◌, ◌∷◌, ◌≡◌, All-map, ap, false, sym, true, ◌∙◌, ◌⊎◌,
}
use sigvara.Prelude.Keep.{keep-All}

-- Whether an event outlives a pruning.
abbrev pub outlives : ℕ → ℕ → ℕ → ℕ → Bool
outlives half_life_ms horizon now ts = half_life_ms == 0 || leb (now - ts) horizon

-- `prunePaymentEvents` on the store, at a half-life and a horizon.
unfoldable pub pruned : ℕ → ℕ → ℕ → Store → Store
pruned half_life_ms horizon now s = record s {
  payment_events = (prune_payment_events half_life_ms horizon now s.payment_events).1;
}

-- The calls that write the payments of a store, loading a saved one aside.
pub data Step (s : Store) : Store → Type 0 where
  credit : (p : Payment) → Step s (credit_payment p s).1
  outcome :
      (did_hash tx_hash payer : Text) (success : Bool) (packet_id : Option Text)
      → Step s (set_payment_outcome did_hash tx_hash payer success packet_id s).1
  report : (r : Report) (host_now : ℕ) → Step s (record_payer_outcome r host_now s).1
  prune : (half_life_ms horizon now : ℕ) → Step s (pruned half_life_ms horizon now s)

-- The stores that calls reach from a store, in any order and number.
pub data Reach (s : Store) : Store → Type 0 where
  start : Reach s s
  next : {t u : Store} → Reach s t → Step t u → Reach s u

List-cases : {A : Type 0} (xs : List A) → (xs ≡ []) ⊎ ((x : A) × (ys : List A) × (xs ≡ x ∷ ys))
List-cases [] = inl refl
List-cases (x ∷ xs) = inr (x, xs, refl)

module _ {A : Type 0} (test : A → Bool) where
  abbrev list_at : Option (List A) → List A
  list_at none = []
  list_at (some list) = list

  prune-gone :
      (j : Text) (list : List A) (m : List (Text × List A))
      → keep test list ≡ []
      → (prune_lists test ((j, list) ∷ m)).1 ≡ (prune_lists test m).1
  unfolding prune_lists
  prune-gone j list m h = rw (h, prune_lists) refl

  prune-kept :
      (j : Text) (list : List A) (m : List (Text × List A)) (x : A) (xs : List A)
      → keep test list ≡ x ∷ xs
      → (prune_lists test ((j, list) ∷ m)).1 ≡ (j, keep test list) ∷ (prune_lists test m).1
  unfolding prune_lists
  prune-kept j list m x xs h = rw (h, prune_lists) refl

  lookup-prune_none :
      (k : Text) (m : List (Text × List A))
      → lookup k m ≡ none
      → lookup k (prune_lists test m).1 ≡ none
  unfolding lookup
  lookup-prune_none k [] h = unfold prune_lists in refl
  lookup-prune_none k ((j, list) ∷ m) h = elim (Bool-cases (text_eq j k)) [
    | inl same ↦ absurd (ground (arith, h, same))
    | inr other ↦
        let rest = lookup-prune_none k m (ground (arith, h, other)) in
        elim (List-cases (keep test list)) [
          | inl none_kept ↦ rw (prune-gone j list m none_kept) rest
          | inr (x, xs, kept) ↦ rw (prune-kept j list m x xs kept, other) rest
        ]
  ]

  IsKeyed-prune : (m : List (Text × List A)) → IsKeyed m → IsKeyed (prune_lists test m).1
  IsKeyed-prune [] h = unfold prune_lists in tt
  IsKeyed-prune ((j, list) ∷ m) h = elim (List-cases (keep test list)) [
    | inl none_kept ↦ rw (prune-gone j list m none_kept) (IsKeyed-prune m h.1)
    | inr (x, xs, kept) ↦
        rw (prune-kept j list m x xs kept) (lookup-prune_none j m h.0, IsKeyed-prune m h.1)
  ]

  -- Each key's list loses what fails the test.
  lookup-prune :
      (k : Text) (m : List (Text × List A))
      → IsKeyed m
      → list_at (lookup k (prune_lists test m).1) ≡ keep test (list_at (lookup k m))
  unfolding lookup
  lookup-prune k [] h = unfold prune_lists in refl
  lookup-prune k ((j, list) ∷ m) h = elim (Bool-cases (text_eq j k)) [
    | inl same ↦ elim (List-cases (keep test list)) [
      | inl none_kept ↦
          let gone : lookup k (prune_lists test m).1 ≡ none =
            lookup-prune_none k m (subst (λ t. lookup t m ≡ none) (text_eq_sound j k same) h.0) in
          rw (prune-gone j list m none_kept, same, gone, none_kept) refl
      | inr (x, xs, kept) ↦ rw (prune-kept j list m x xs kept, same) refl
    ]
    | inr other ↦ elim (List-cases (keep test list)) [
      | inl none_kept ↦ rw (prune-gone j list m none_kept, other) (lookup-prune k m h.1)
      | inr (x, xs, kept) ↦ rw (prune-kept j list m x xs kept, other) (lookup-prune k m h.1)
    ]
  ]

or_empty-list_at : (test : Event → Bool) (o : Option (List Event)) → or_empty o ≡ list_at test o
or_empty-list_at test none = refl
or_empty-list_at test (some list) = refl

keep_all : (es : List Event) → keep (λ e. true) es ≡ es
keep_all [] = refl
keep_all (e ∷ es) = ap (λ t. e ∷ t) (keep_all es)

-- What pruning leaves of an agent's events.
pub events_of-pruned :
    (half_life_ms horizon now : ℕ) (s : Store) (did : Text)
    → IsKeyed s.payment_events
    → events_of (pruned half_life_ms horizon now s) did
      ≡ keep (λ e. outlives half_life_ms horizon now e.ts) (events_of s did)
unfolding pruned events_of prune_payment_events
events_of-pruned half_life_ms horizon now s did keyed = elim (Bool-cases (half_life_ms == 0)) [
  | inl off ↦ rw off (sym (keep_all (or_empty (lookup did s.payment_events))))
  | inr on ↦
      let test : Event → Bool = λ e. leb (now - e.ts) horizon in
      rw on (
        or_empty-list_at test (lookup did (prune_lists test s.payment_events).1)
        ∙ lookup-prune test did s.payment_events keyed
        ∙ ap (keep test) (sym (or_empty-list_at test (lookup did s.payment_events))))
]

IsDistinct-keep :
    (test : Event → Bool) (es : List Event) → IsDistinct es → IsDistinct (keep test es)
IsDistinct-keep test [] d = tt
IsDistinct-keep test (e ∷ es) d = elim (Bool-cases (test e)) [
  | inl here ↦
      rw here (keep-All test (λ f. same_payment e f ≡ false) es d.0, IsDistinct-keep test es d.1)
  | inr gone ↦ rw gone (IsDistinct-keep test es d.1)
]

pub pruned-used :
    (h z now : ℕ) (s : Store) → (pruned h z now s).used_payment_txs ≡ s.used_payment_txs
unfolding pruned
pruned-used h z now s = refl

pruned-IsKeyed :
    (h z now : ℕ) (s : Store) → IsKeyed s.payment_events → IsKeyed (pruned h z now s).payment_events
unfolding pruned prune_payment_events
pruned-IsKeyed h z now s keyed = elim (Bool-cases (h == 0)) [
  | inl off ↦ rw off keyed
  | inr on ↦ rw on (IsKeyed-prune (λ e. leb (now - e.ts) z) s.payment_events keyed)
]

pub pruned-IsValid : (h z now : ℕ) (s : Store) → IsValid s → IsValid (pruned h z now s)
pruned-IsValid h z now s v = record {
  keyed = pruned-IsKeyed h z now s v.keyed;
  marked = λ did.
      let t : Store = pruned h z now s in
      rw (events_of-pruned h z now s did v.keyed) (
        keep-All (λ e. outlives h z now e.ts) (IsMarked t did) (events_of s did)
          (All-map (IsMarked s did) (IsMarked t did) (events_of s did)
            (λ e q. is_credited-used s t e did (pruned-used h z now s) q) (v.marked did)));
  distinct = λ did.
      rw (events_of-pruned h z now s did v.keyed)
        (IsDistinct-keep (λ e. outlives h z now e.ts) (events_of s did) (v.distinct did));
}
