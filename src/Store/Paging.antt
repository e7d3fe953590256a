-- ===== src/Store/Paging.antt =====
-- `payerOutcomesSince`: the outcomes accepted after a time, a page at a time.
pub mod Pages
use sigvara.Store.{events_of, find_event, Accepted, Store}
use sigvara.Prelude.Search.{first_passing, IsMonotone}
use sigvara.Prelude.{
  Bool, List, Option, Option-cases, [], ap, drop, false, get_elem?, inl, inr, keep, length, ltb,
  none, not, refl, some, suc, take, true, zero, ℕ, ◌&&◌, ◌==◌, ◌∷◌, ◌≡◌,
}
use sigvara.Prelude.Text.{Text, lower, text_eq}
use sigvara.Event.{PayerOutcome, Event}
use sigvara.Store.Reports.{IsIncreasing}

-- An outcome as it is served.
pub record Served : Type 0 where
  pub did_hash : Text
  pub tx_hash : Text
  pub payer : Text
  pub chain_id : Option ℕ
  pub payer_outcome : PayerOutcome
  pub packet_id : Option Text

-- The event that an entry of the order stands for.
pub is_entry : Accepted → Event → Bool
is_entry a e =
    text_eq e.tx_hash a.tx
    && text_eq (lower e.payer) a.who
    && (elim e.payer_outcome [ none ↦ false | some o ↦ o.accepted_at == a.accepted_at ])

serve : Accepted → Event → Option Served
serve a e = elim e.payer_outcome [
  | none ↦ none
  | some o ↦ some (record {
    did_hash = a.did;
    tx_hash = e.tx_hash;
    payer = e.payer;
    chain_id = e.chain_id;
    payer_outcome = o;
    packet_id = e.packet_id;
  })
]

-- What the loop makes of one entry; an event that is gone is passed over.
pub served : Store → Accepted → Option Served
unfolding is_entry serve find_event events_of
served s a = elim (find_event (is_entry a) (events_of s a.did)) [ none ↦ none | some e ↦ serve a e ]

-- The loop from `lo` on: the page, and the entries that are left.
pub collect : Store → ℕ → List Accepted → List Served × List Accepted
collect s limit [] = ([], [])
collect s zero (a ∷ rest) = ([], a ∷ rest)
collect s (suc n) (a ∷ rest) = elim (served s a) [
  | none ↦ collect s (suc n) rest
  | some o ↦ let (page, left) = collect s n rest in (o ∷ page, left)
]

-- `acceptedOrder[mid].acceptedAt > since`
pub accepted_after : List Accepted → ℕ → ℕ → Bool
accepted_after order since i = elim (get_elem? order i) [
  | none ↦ true
  | some a ↦ ltb since a.accepted_at
]

pub is_empty : List Accepted → Bool
is_empty [] = true
is_empty (a ∷ rest) = false

-- `payerOutcomesSince`: the page, and whether there is more.
pub payer_outcomes_since : Store → ℕ → ℕ → List Served × Bool
unfolding accepted_after collect first_passing is_empty
payer_outcomes_since s since limit =
    let size = length s.accepted_order in
    let lo = first_passing size (accepted_after s.accepted_order since) 0 size in
    let (page, left) = collect s limit (drop lo s.accepted_order) in (page, not (is_empty left))

-- All the outcomes accepted after a time, in the order of acceptance.
pub all_served : Store → List Accepted → List Served
all_served s [] = []
all_served s (a ∷ rest) = elim (served s a) [
  | none ↦ all_served s rest
  | some o ↦ o ∷ all_served s rest
]

abbrev pub later_than : ℕ → Accepted → Bool
later_than since a = ltb since a.accepted_at

pub outcomes_after : Store → ℕ → List Served
unfolding all_served
outcomes_after s since = all_served s (keep (later_than since) s.accepted_order)
