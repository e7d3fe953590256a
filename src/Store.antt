-- ===== src/Store.antt =====
-- oracle/store.js: the payments credited to each agent and the outcomes reported for them. The
-- maps of the module are the fields of one record; every operation returns the new record.
pub mod Marks
pub mod Credit
pub mod Outcomes
pub mod Reports
pub mod Paging
pub mod Steps
pub mod Reached
pub mod Final
pub mod Verdicts
pub mod Ledger
mod Tests
use sigvara.Prelude.{
  Bool, List, Option, [], false, if◌then◌else◌, ltb, max, none, not, some, suc, true, zero, ℕ, ◌%◌,
  ◌&&◌, ◌++◌, ◌+◌, ◌-◌, ◌/◌, ◌==◌, ◌||◌, ◌∷◌,
}
use sigvara.Prelude.Text.{Text, lower, text_eq}
use sigvara.Event.{Event}
use sigvara.Prelude.Dict.{has, lookup, insert}
use sigvara.Prelude.Decimal.{decimal}

-- An entry of `acceptedOrder`.
pub record Accepted : Type 0 where
  pub accepted_at : ℕ
  pub did : Text
  pub tx : Text
  pub who : Text

pub record Store : Type 0 where
  pub payment_events : List (Text × List Event)
  pub used_payment_txs : List Text
  pub last_accepted_at : ℕ
  pub accepted_order : List Accepted

-- `creditKey`
pub credit_key : Text → Text → Text → Option ℕ → Text
unfolding decimal
credit_key tx did payer chain =
    let key = lower tx ++ (b'|' ∷ (lower did ++ (b'|' ∷ lower payer))) in
    elim chain [ none ↦ key | some c ↦ decimal c ++ (b':' ∷ key) ]

-- `isCredited`, with the two forms of key that older versions wrote.
pub is_credited : Store → Text → Text → Text → Option ℕ → Bool
unfolding credit_key has
is_credited s tx_hash did payer chain =
    let tx = lower tx_hash in
    elim chain [
      | some c ↦ has (credit_key tx did payer (some c)) s.used_payment_txs
      | none ↦
          has tx s.used_payment_txs
          || has (tx ++ (b'|' ∷ lower did)) s.used_payment_txs
          || has (credit_key tx did payer none) s.used_payment_txs
    ]

-- `paymentEvents.get(did) ?? []`
abbrev pub or_empty : Option (List Event) → List Event
or_empty none = []
or_empty (some list) = list

pub events_of : Store → Text → List Event
unfolding lookup
events_of s did = or_empty (lookup did s.payment_events)

-- `getPaymentEvents`
pub get_payment_events : Store → Text → List Event
unfolding events_of
get_payment_events s did_hash = events_of s (lower did_hash)

-- `paymentVolume`
pub amounts : List Event → ℕ
amounts [] = 0
amounts (e ∷ es) = e.amount + amounts es

pub payment_volume : Store → Text → ℕ
unfolding amounts get_payment_events
payment_volume s did_hash = amounts (get_payment_events s did_hash)

-- `if (packetId) …`: an empty text counts as none.
abbrev pub truthy : Option Text → Option Text
truthy none = none
truthy (some []) = none
truthy (some (c ∷ s)) = some (c ∷ s)

-- The arguments of `creditPayment`.
pub record Payment : Type 0 where
  pub did_hash : Text
  pub tx_hash : Text
  pub amount : ℕ
  pub payer : Text
  pub success : Option Bool
  pub now : ℕ
  pub packet_id : Option Text
  pub block_number : Option ℕ
  pub chain_id : Option ℕ

pub new_event : Payment → Event
new_event p = record {
  tx_hash = lower p.tx_hash;
  ts = p.now;
  amount = p.amount;
  payer = p.payer;
  success = p.success;
  packet_id = truthy p.packet_id;
  block_number = p.block_number;
  chain_id = p.chain_id;
  payer_outcome = none;
}

-- `creditPayment`
pub credit_payment : Payment → Store → Bool × Store
unfolding is_credited new_event insert events_of
credit_payment p s =
    let key = lower p.tx_hash in
    let did = lower p.did_hash in
    if is_credited s key did p.payer p.chain_id then (false, s) else (
      true,
      record s {
        used_payment_txs = credit_key key did p.payer p.chain_id ∷ s.used_payment_txs;
        payment_events = insert did (events_of s did ++ new_event p ∷ []) s.payment_events;
      },
    )

-- `list.findIndex`, and the write at that index.
pub find_event : (Event → Bool) → List Event → Option Event
find_event test [] = none
find_event test (e ∷ es) = if test e then some e else find_event test es

pub set_event : (Event → Bool) → Event → List Event → List Event
set_event test x [] = []
set_event test x (e ∷ es) = if test e then x ∷ es else e ∷ set_event test x es

pub data Outcome : Type 0 where
  not_found already_set outside_window replaced set : Outcome

-- `onChain`
abbrev pub on_chain : Option ℕ → Option ℕ → Bool
on_chain none none = true
on_chain none (some c) = false
on_chain (some b) none = false
on_chain (some b) (some c) = b == c

-- The payment that an outcome is about.
pub is_payment : Text → Text → Option ℕ → Event → Bool
is_payment tx who chain e =
    on_chain e.chain_id chain && text_eq e.tx_hash tx && text_eq (lower e.payer) who

abbrev pub write_event : Store → Text → (Event → Bool) → Event → Store
write_event s did test x = record s {
  payment_events = insert did (set_event test x (events_of s did)) s.payment_events;
}

-- `setPaymentOutcome`
pub set_payment_outcome : Text → Text → Text → Bool → Option Text → Store → Outcome × Store
unfolding find_event set_event is_payment events_of insert
set_payment_outcome did_hash tx_hash payer success packet_id s =
    let did = lower did_hash in
    let test = is_payment (lower tx_hash) (lower payer) none in
    elim (find_event test (events_of s did)) [
      | none ↦ (not_found, s)
      | some e ↦ elim e.success [
        | some _ ↦ (already_set, s)
        | none ↦ (
          set,
          write_event s did test (record e {
            success = some success;
            packet_id = elim e.packet_id [ some p ↦ some p | none ↦ truthy packet_id ];
          }),
        )
      ]
    ]

-- The arguments of `recordPayerOutcome`.
pub record Report : Type 0 where
  pub did_hash : Text
  pub tx_hash : Text
  pub payer : Text
  pub success : Bool
  pub signed : Text
  pub window_ms : ℕ
  pub replaceable : Bool
  pub now : ℕ
  pub packet_id : Option Text
  pub chain_id : Option ℕ

-- The event with the payer's own outcome, accepted at that time.
pub reported : Report → ℕ → Event → Event
reported r at e = record e {
  success = some r.success;
  packet_id = truthy r.packet_id;
  payer_outcome = some (record { signed = r.signed; accepted_at = at });
}

-- The new store and result of an accepted report.
pub accept : Report → ℕ → Event → Outcome → Store → Outcome × Store
unfolding reported set_event is_payment insert events_of
accept r host_now e result s =
    let did = lower r.did_hash in
    let tx = lower r.tx_hash in
    let who = lower r.payer in
    let at = max host_now (s.last_accepted_at + 1) in
    (
      result,
      record s {
        last_accepted_at = at;
        payment_events =
            insert did
              (set_event (is_payment tx who r.chain_id) (reported r at e) (events_of s did))
              s.payment_events;
        accepted_order =
            s.accepted_order ++ record { accepted_at = at; did = did; tx = tx; who = who } ∷ [];
      },
    )

-- `recordPayerOutcome`, at the host's clock.
pub record_payer_outcome : Report → ℕ → Store → Outcome × Store
unfolding accept find_event is_payment events_of
record_payer_outcome r host_now s =
    elim (find_event (is_payment (lower r.tx_hash) (lower r.payer) r.chain_id)
      (events_of s (lower r.did_hash))) [
        | none ↦ (not_found, s)
        | some e ↦ elim e.payer_outcome [
          | some _ ↦ (already_set, s)
          | none ↦ elim e.success [
            | none ↦ accept r host_now e set s
            | some _ ↦
                if not r.replaceable || ltb r.window_ms (r.now - e.ts)
                then (outside_window, s)
                else accept r host_now e replaced s
          ]
        ]
      ]
