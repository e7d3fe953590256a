-- ===== src/Store/Reports.antt =====
-- `setPaymentOutcome` and `recordPayerOutcome`: what they keep.
use sigvara.Store.{
  events_of, is_payment, find_event, record_payer_outcome, Report, Event, Store, Outcome, accept,
  set, replaced, already_set, Accepted, reported, set_event, set_payment_outcome,
}
use sigvara.Prelude.{
  Bool, Bool-cases, List, Option-cases, inl, inr, ltb, none, not, some, ℕ, ◌-◌, ◌||◌, ◌≡◌, ◌⊎◌, All,
  Option, [], arith, max, refl, subst, sym, ◌++◌, ◌+◌, ◌<◌, ◌∷◌, ◌≤◌, ap, false, true, ◌∙◌,
  All-append, All-map,
}
use sigvara.Prelude.Text.{lower, Text, text_eq_self}
use sigvara.Store.Marks.{IsValid}
use sigvara.Store.Outcomes.{rewrite-IsValid, find_event-test, find_event-set_event}
use sigvara.Store.Credit.{events_of-insert}
use sigvara.Event.{PayerOutcome}

-- The test, by the payment that a report names.
abbrev pub names : Report → Event → Bool
names r = is_payment (lower r.tx_hash) (lower r.payer) r.chain_id

abbrev pub list_of : Report → Store → List Event
list_of r s = events_of s (lower r.did_hash)

-- Whether a report is taken: the payment is there, has no payer outcome, and if a credentialed
-- outcome is in place it may still be replaced.
abbrev IsTaken : Report → ℕ → Store → Event → Outcome → Type 0
IsTaken r host_now s e result =
    (find_event (names r) (list_of r s) ≡ some e)
    × (e.payer_outcome ≡ none)
    × (record_payer_outcome r host_now s ≡ accept r host_now e result s)

abbrev pub is_taken : Outcome → Bool
is_taken set = true
is_taken replaced = true
is_taken _ = false

pub record_payer_outcome-cases :
    (r : Report) (host_now : ℕ) (s : Store)
    → ((record_payer_outcome r host_now s).1 ≡ s)
        × (is_taken (record_payer_outcome r host_now s).0 ≡ false)
      ⊎ ((e : Event) × (result : Outcome) × IsTaken r host_now s e result)
unfolding record_payer_outcome
record_payer_outcome-cases r host_now s = elim (Option-cases (find_event (names r) (list_of r s))) [
  | inl missing ↦ inl (rw (missing, record_payer_outcome), rw (missing, record_payer_outcome))
  | inr (e, found) ↦ elim (Option-cases e.payer_outcome) [
    | inr (o, reported_already) ↦ inl (
      rw (found, reported_already, record_payer_outcome),
      rw (found, reported_already, record_payer_outcome),
    )
    | inl unreported ↦ elim (Option-cases e.success) [
      | inl open_outcome ↦
          inr (
            e,
            set,
            (found, unreported, rw (found, unreported, open_outcome, record_payer_outcome)),
          )
      | inr (b, held) ↦ elim (Bool-cases (not r.replaceable || ltb r.window_ms (r.now - e.ts))) [
        | inl late ↦ inl (
          rw (found, unreported, held, late, record_payer_outcome),
          rw (found, unreported, held, late, record_payer_outcome),
        )
        | inr in_time ↦ inr (
          e,
          replaced,
          (found, unreported, rw (found, unreported, held, in_time, record_payer_outcome)),
        )
      ]
    ]
  ]
]

accept-IsValid :
    (r : Report) (host_now : ℕ) (e : Event) (result : Outcome) (s : Store)
    → find_event (names r) (list_of r s) ≡ some e
    → IsValid s
    → IsValid (accept r host_now e result s).1
unfolding accept
accept-IsValid r host_now e result s found v =
    let at : ℕ = max host_now (s.last_accepted_at + 1) in
    rewrite-IsValid s (accept r host_now e result s).1 (lower r.did_hash) (names r) e
      (reported r at e) refl refl found (refl, refl, refl) v

-- Recording a payer's outcome keeps every stored event marked as credited and stored once.
pub record_payer_outcome-IsValid :
    (r : Report) (host_now : ℕ) (s : Store)
    → IsValid s
    → IsValid (record_payer_outcome r host_now s).1
record_payer_outcome-IsValid r host_now s v = elim (record_payer_outcome-cases r host_now s) [
  | inl (same, _) ↦ subst IsValid (sym same) v
  | inr (e, result, (found, _, taken)) ↦ rw taken (accept-IsValid r host_now e result s found v)
]

-- Entries in strictly increasing order of acceptance, none later than the last one handed out.
abbrev pub IsIncreasing : List Accepted → Type 0
IsIncreasing [] = Unit
IsIncreasing (a ∷ rest) = All (λ b. a.accepted_at < b.accepted_at) rest × IsIncreasing rest

pub record IsOrdered (s : Store) : Type 0 where
  pub increasing : IsIncreasing s.accepted_order
  pub below : All (λ a. a.accepted_at ≤ s.last_accepted_at) s.accepted_order

IsIncreasing-append :
    (order : List Accepted) (last : ℕ) (a : Accepted)
    → IsIncreasing order
    → All (λ b. b.accepted_at ≤ last) order
    → last < a.accepted_at
    → IsIncreasing (order ++ a ∷ [])
IsIncreasing-append [] last a i b h = (tt, tt)
IsIncreasing-append (x ∷ order) last a i b h = (
  All-append (λ y. x.accepted_at < y.accepted_at) order a i.0 (omega arith),
  IsIncreasing-append order last a i.1 b.1 h,
)

accept-IsOrdered :
    (r : Report) (host_now : ℕ) (e : Event) (result : Outcome) (s : Store)
    → IsOrdered s
    → IsOrdered (accept r host_now e result s).1
unfolding accept
accept-IsOrdered r host_now e result s o =
    let at : ℕ = max host_now (s.last_accepted_at + 1) in
    let a : Accepted = record {
      accepted_at = at;
      did = lower r.did_hash;
      tx = lower r.tx_hash;
      who = lower r.payer;
    } in
    record {
      increasing =
          IsIncreasing-append s.accepted_order s.last_accepted_at a o.increasing o.below
            (omega arith);
      below =
          All-append (λ b. b.accepted_at ≤ at) s.accepted_order a
            (All-map (λ b. b.accepted_at ≤ s.last_accepted_at) (λ b. b.accepted_at ≤ at)
              s.accepted_order (λ b h. omega arith) o.below)
            (omega arith);
    }

-- Whatever the host's clock does, each accepted outcome is later than all before it: the order of
-- acceptance is strictly increasing, and its last time bounds it.
pub record_payer_outcome-IsOrdered :
    (r : Report) (host_now : ℕ) (s : Store)
    → IsOrdered s
    → IsOrdered (record_payer_outcome r host_now s).1
record_payer_outcome-IsOrdered r host_now s o = elim (record_payer_outcome-cases r host_now s) [
  | inl (same, _) ↦ subst IsOrdered (sym same) o
  | inr (e, result, (found, _, taken)) ↦ rw taken (accept-IsOrdered r host_now e result s o)
]

-- The payment that `r` names, as the store holds it after `r` was taken.
pub accept-found :
    (r : Report) (host_now : ℕ) (e : Event) (result : Outcome) (s : Store)
    → find_event (names r) (list_of r s) ≡ some e
    → find_event (names r) (list_of r (accept r host_now e result s).1)
      ≡ some (reported r (max host_now (s.last_accepted_at + 1)) e)
unfolding accept
accept-found r host_now e result s found =
    let did : Text = lower r.did_hash in
    let x : Event = reported r (max host_now (s.last_accepted_at + 1)) e in
    let t : Store = (accept r host_now e result s).1 in
    let list : List Event = set_event (names r) x (events_of s did) in
    let there : events_of t did ≡ list =
      events_of-insert s t did did list refl ∙ rw (text_eq_self did) in
    ap (find_event (names r)) there
    ∙ find_event-set_event (names r) e x (events_of s did) found
        (find_event-test (names r) e (events_of s did) found)

pub record_payer_outcome-reported :
    (q : Report) (later : ℕ) (t : Store) (x : Event) {o : PayerOutcome}
    → find_event (names q) (list_of q t) ≡ some x
    → x.payer_outcome ≡ some o
    → record_payer_outcome q later t ≡ (already_set, t)
unfolding record_payer_outcome
record_payer_outcome-reported q later t x found h = rw (found, h, record_payer_outcome)

-- Two reports that name one payment look for it in the same way.
pub names-lower :
    (r q : Report) (t : Store)
    → lower q.did_hash ≡ lower r.did_hash
    → lower q.tx_hash ≡ lower r.tx_hash
    → lower q.payer ≡ lower r.payer
    → q.chain_id ≡ r.chain_id
    → find_event (names q) (list_of q t) ≡ find_event (names r) (list_of r t)
names-lower r q t did tx payer chain = rw (did, tx, payer, chain)

-- `setPaymentOutcome` keeps every stored event marked as credited and stored once.
pub set_payment_outcome-IsValid :
    (did_hash tx_hash payer : Text) (success : Bool) (packet_id : Option Text) (s : Store)
    → IsValid s
    → IsValid (set_payment_outcome did_hash tx_hash payer success packet_id s).1
unfolding set_payment_outcome
set_payment_outcome-IsValid did_hash tx_hash payer success packet_id s v =
    let did : Text = lower did_hash in
    let test : Event → Bool = is_payment (lower tx_hash) (lower payer) none in
    elim (Option-cases (find_event test (events_of s did))) [
      | inl missing ↦ rw (missing, set_payment_outcome) v
      | inr (e, found) ↦ elim (Option-cases e.success) [
        | inr (b, held) ↦ rw (found, held, set_payment_outcome) v
        | inl unset ↦
            rw (found, unset, set_payment_outcome)
              (rewrite-IsValid s _ did test e _ refl refl found (refl, refl, refl) v)
      ]
    ]
