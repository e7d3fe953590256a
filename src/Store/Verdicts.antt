-- ===== src/Store/Verdicts.antt =====
-- What an outcome that a payer reported keeps true of the store.
pub mod Reported
use sigvara.Store.{
  Store, Event, Payment, Report, credit_payment, set_payment_outcome, record_payer_outcome,
  is_credited, accept, reported, events_of, find_event, is_payment, on_chain, set_event, new_event,
  write_event, truthy, not_found, already_set,
}
use sigvara.Store.Steps.{
  Step, Reach, start, next, credit, outcome, report, prune, outlives, events_of-pruned,
}
use sigvara.Store.Reached.{Step-IsValid}
use sigvara.Store.Final.{Step-is_credited}
use sigvara.Store.Marks.{
  IsValid, IsDistinct, same_payment, on_chain_sound, is_credited-lower, IsMarked,
}
use sigvara.Store.Credit.{
  credit_payment-eq, is_old, with_payment, events_of-with_payment, events_of-insert,
}
use sigvara.Store.Reports.{
  names, list_of, record_payer_outcome-cases, record_payer_outcome-IsValid, names-lower, is_taken,
  accept-found, record_payer_outcome-reported,
}
use sigvara.Store.Outcomes.{set_event-All, find_event-test}
use sigvara.Prelude.Text.{Text, lower, text_eq, text_eq_sound, lower-lower, text_eq_self}
use sigvara.Prelude.Dict.{insert}
use sigvara.Prelude.{
  All, All-map, Bool, Bool-cases, List, [], arith, false, if◌then◌else◌, inl, inr, some, subst, sym,
  true, ℕ, ◌∷◌, ◌≡◌, All-append, Option, Option-cases, ap, max, none, refl, ◌++◌, ◌+◌, ◌∙◌, ◌⊎◌,
}
use sigvara.Prelude.Keep.{keep-All}

on_chain_self : (c : Option ℕ) → on_chain c c ≡ true
on_chain_self none = refl
on_chain_self (some c) = ground arith

names-same_payment :
    (r : Report) (e f : Event) → names r e ≡ true → names r f ≡ true → same_payment e f ≡ true
unfolding is_payment same_payment
names-same_payment r e f h k =
    let chains : (on_chain e.chain_id r.chain_id ≡ true) × (on_chain f.chain_id r.chain_id ≡ true) =
      ground arith in
    let txs : (text_eq e.tx_hash (lower r.tx_hash) ≡ true)
        × (text_eq f.tx_hash (lower r.tx_hash) ≡ true) =
      ground arith in
    let payers : (text_eq (lower e.payer) (lower r.payer) ≡ true)
        × (text_eq (lower f.payer) (lower r.payer) ≡ true) =
      ground arith in
    rw
      (
        on_chain_sound e.chain_id r.chain_id chains.0,
        on_chain_sound f.chain_id r.chain_id chains.1,
        text_eq_sound e.tx_hash (lower r.tx_hash) txs.0,
        text_eq_sound f.tx_hash (lower r.tx_hash) txs.1,
        text_eq_sound (lower e.payer) (lower r.payer) payers.0,
        text_eq_sound (lower f.payer) (lower r.payer) payers.1,
        on_chain_self r.chain_id,
        text_eq_self (lower (lower r.tx_hash)),
        text_eq_self (lower r.payer),
      )
      refl

-- In a list without doubles, the event found is the only one that the report names.
found_only :
    (r : Report) (x : Event) (es : List Event)
    → IsDistinct es
    → find_event (names r) es ≡ some x
    → All (λ e. names r e ≡ true → e ≡ x) es
unfolding find_event
found_only r x [] d found = tt
found_only r x (e ∷ es) d found = elim (Bool-cases (names r e)) [
  | inl here ↦
      let same : e ≡ x = ground (arith, found, here) in
      (
        λ h. same,
        All-map (λ f. same_payment e f ≡ false) (λ f. names r f ≡ true → f ≡ x) es
            (λ f other h. absurd (ground (arith, names-same_payment r e f here h, other))) d.0,
      )
  | inr other ↦
      (λ h. absurd (ground (arith, h, other)), found_only r x es d.1 (ground (arith, found, other)))
]

found-All {κ} :
    (P : Event → Type κ) (test : Event → Bool) (e : Event) (es : List Event)
    → find_event test es ≡ some e
    → All P es
    → P e
unfolding find_event
found-All P test e [] found h = absurd (ground (arith, found))
found-All P test e (x ∷ es) found h = elim (Bool-cases (test x)) [
  | inl here ↦ subst P (ground (arith, found, here)) h.0
  | inr other ↦ found-All P test e es (ground (arith, found, other)) h.1
]

module _ (r : Report) (at : ℕ) where
  -- The event has the payer's own outcome: its verdict, what it signed and when it was accepted.
  abbrev pub IsReported : Event → Type 0
  IsReported e =
      (e.payer_outcome ≡ some (record { signed = r.signed; accepted_at = at }))
      × (e.success ≡ some r.success)

  -- Each event that the report names has it.
  abbrev pub IsFinal : Store → Type 0
  IsFinal t = All (λ e. names r e ≡ true → IsReported e) (list_of r t)

  IsFinal-lists :
      (s t : Store) (key : Text) (list : List Event)
      → (events_of t (lower r.did_hash)
          ≡ (if text_eq key (lower r.did_hash) then list else list_of r s))
      → (text_eq key (lower r.did_hash) ≡ true → All (λ e. names r e ≡ true → IsReported e) list)
      → IsFinal s
      → IsFinal t
  IsFinal-lists s t key list written new old = elim (Bool-cases (text_eq key (lower r.did_hash))) [
    | inl same ↦ rw (written, same) (new same)
    | inr other ↦ rw (written, other) old
  ]

  -- Writing into an event that has no payer's outcome.
  IsFinal-set :
      (s t : Store) (key : Text) (test : Event → Bool) (e x : Event)
      → t.payment_events ≡ insert key (set_event test x (events_of s key)) s.payment_events
      → find_event test (events_of s key) ≡ some e
      → ((names r e ≡ true → IsReported e) → names r x ≡ true → IsReported x)
      → IsFinal s
      → IsFinal t
  IsFinal-set s t key test e x written found keeps f =
      IsFinal-lists s t key (set_event test x (events_of s key))
        (events_of-insert s t key (lower r.did_hash) (set_event test x (events_of s key)) written)
        (λ same.
          set_event-All (λ y. names r y ≡ true → IsReported y) test e x (events_of s key) found
            keeps
            (subst (λ k. All (λ y. names r y ≡ true → IsReported y) (events_of s k))
              (sym (text_eq_sound key (lower r.did_hash) same)) f))
        f

  -- A payment that the report names is credited already.
  names-is_old :
      (p : Payment) (s : Store)
      → is_credited s r.tx_hash r.did_hash r.payer r.chain_id ≡ true
      → text_eq (lower p.did_hash) (lower r.did_hash) ≡ true
      → names r (new_event p) ≡ true
      → is_old p s ≡ true
  unfolding is_old is_payment new_event
  names-is_old p s credited did h =
      let parts : (on_chain p.chain_id r.chain_id ≡ true)
          × (text_eq (lower p.tx_hash) (lower r.tx_hash) ≡ true)
          × (text_eq (lower p.payer) (lower r.payer) ≡ true) =
        ground arith in
      is_credited-lower s (lower p.tx_hash) r.tx_hash (lower p.did_hash) r.did_hash p.payer r.payer
        p.chain_id
        (ap lower (text_eq_sound (lower p.tx_hash) (lower r.tx_hash) parts.1)
          ∙ lower-lower r.tx_hash)
        (ap lower (text_eq_sound (lower p.did_hash) (lower r.did_hash) did)
          ∙ lower-lower r.did_hash)
        (text_eq_sound (lower p.payer) (lower r.payer) parts.2)
      ∙ ap (is_credited s r.tx_hash r.did_hash r.payer)
          (on_chain_sound p.chain_id r.chain_id parts.0)
      ∙ credited

  IsFinal-credit :
      (p : Payment) (s : Store)
      → is_credited s r.tx_hash r.did_hash r.payer r.chain_id ≡ true
      → IsFinal s
      → IsFinal (credit_payment p s).1
  IsFinal-credit p s credited f = elim (Bool-cases (is_old p s)) [
    | inl old ↦ rw (credit_payment-eq p s, old) f
    | inr fresh ↦
        let t : Store = with_payment p s in
        let list : List Event = events_of s (lower p.did_hash) ++ new_event p ∷ [] in
        rw (credit_payment-eq p s, fresh)
          (IsFinal-lists s t (lower p.did_hash) list (events_of-with_payment p s (lower r.did_hash))
            (λ same.
              All-append (λ y. names r y ≡ true → IsReported y) (events_of s (lower p.did_hash))
                (new_event p)
                (subst (λ k. All (λ y. names r y ≡ true → IsReported y) (events_of s k))
                  (sym (text_eq_sound (lower p.did_hash) (lower r.did_hash) same)) f)
                (λ h. absurd (ground (arith, names-is_old p s credited same h, fresh))))
            f)
  ]

  IsFinal-outcome :
      (a b c : Text) (success : Bool) (packet_id : Option Text) (s : Store)
      → IsFinal s
      → IsFinal (set_payment_outcome a b c success packet_id s).1
  unfolding set_payment_outcome is_payment
  IsFinal-outcome a b c success packet_id s f =
      let key : Text = lower a in
      let test : Event → Bool = is_payment (lower b) (lower c) none in
      elim (Option-cases (find_event test (events_of s key))) [
        | inl missing ↦ rw (missing, set_payment_outcome) f
        | inr (e, found) ↦ elim (Option-cases e.success) [
          | inr (v, held) ↦ rw (found, held, set_payment_outcome) f
          | inl unset ↦
              let x : Event = record e {
                success = some success;
                packet_id = elim e.packet_id [ some p ↦ some p | none ↦ truthy packet_id ];
              } in
              rw (found, unset, set_payment_outcome)
                (IsFinal-set s (write_event s key test x) key test e x refl found
                  (λ g h. absurd (ground (arith, (g h).1, unset))) f)
        ]
      ]

  IsFinal-report :
      (q : Report) (now : ℕ) (s : Store) → IsFinal s → IsFinal (record_payer_outcome q now s).1
  unfolding accept reported is_payment
  IsFinal-report q now s f = elim (record_payer_outcome-cases q now s) [
    | inl (same, _) ↦ subst IsFinal (sym same) f
    | inr (e, result, (found, unset, taken)) ↦
        let x : Event = reported q (max now (s.last_accepted_at + 1)) e in
        rw taken (
          IsFinal-set s (accept q now e result s).1 (lower q.did_hash) (names q) e x refl found
            (λ g h. absurd (ground (arith, (g h).0, unset))) f)
  ]

  -- The payment is credited and, where it is still held, has the outcome.
  abbrev pub IsSettled : Store → Type 0
  IsSettled t =
      IsValid t × (is_credited t r.tx_hash r.did_hash r.payer r.chain_id ≡ true) × IsFinal t

  Step-IsFinal :
      {s t : Store}
      → Step s t
      → IsValid s
      → is_credited s r.tx_hash r.did_hash r.payer r.chain_id ≡ true
      → IsFinal s
      → IsFinal t
  Step-IsFinal {s} (credit p) v credited f = IsFinal-credit p s credited f
  Step-IsFinal {s} (outcome a b c d e) v credited f = IsFinal-outcome a b c d e s f
  Step-IsFinal {s} (report q now) v credited f = IsFinal-report q now s f
  Step-IsFinal {s} (prune h z now) v credited f =
      rw (events_of-pruned h z now s (lower r.did_hash) v.keyed) (
        keep-All (λ e. outlives h z now e.ts) (λ e. names r e ≡ true → IsReported e) (list_of r s)
          f)

  Step-IsSettled : {s t : Store} → Step s t → IsSettled s → IsSettled t
  Step-IsSettled {s} {t} step (v, credited, f) = (
    Step-IsValid step v,
    Step-is_credited r.tx_hash r.did_hash r.payer r.chain_id step credited,
    Step-IsFinal step v credited f,
  )

  Reach-IsSettled : {s t : Store} → Reach s t → IsSettled s → IsSettled t
  Reach-IsSettled start h = h
  Reach-IsSettled (next c step) h = Step-IsSettled step (Reach-IsSettled c h)

reported-IsReported : (r : Report) (at : ℕ) (e : Event) → IsReported r at (reported r at e)
unfolding reported
reported-IsReported r at e = (refl, refl)

-- An event that the report names is marked as the report's own payment.
names-is_credited :
    (r : Report) (t : Store) (e : Event)
    → names r e ≡ true
    → IsMarked t (lower r.did_hash) e
    → is_credited t r.tx_hash r.did_hash r.payer r.chain_id ≡ true
unfolding is_payment
names-is_credited r t e h marked =
    let parts : (on_chain e.chain_id r.chain_id ≡ true)
        × (text_eq e.tx_hash (lower r.tx_hash) ≡ true)
        × (text_eq (lower e.payer) (lower r.payer) ≡ true) =
      ground arith in
    is_credited-lower t r.tx_hash e.tx_hash r.did_hash (lower r.did_hash) r.payer e.payer r.chain_id
      (sym (ap lower (text_eq_sound e.tx_hash (lower r.tx_hash) parts.1) ∙ lower-lower r.tx_hash))
      (sym (lower-lower r.did_hash)) (sym (text_eq_sound (lower e.payer) (lower r.payer) parts.2))
    ∙ ap (is_credited t e.tx_hash (lower r.did_hash) e.payer)
        (sym (on_chain_sound e.chain_id r.chain_id parts.0))
    ∙ marked
