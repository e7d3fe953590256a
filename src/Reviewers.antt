-- ===== src/Reviewers.antt =====
-- oracle/reviewers.js: which reviewers of an agent count. Reads of the chain are functions.
pub mod Funders
mod Tests
use sigvara.Prelude.{
  ℕ, Bool, List, Option, [], false, if◌then◌else◌, leb, ltb, map, max, none, not, some, suc, true,
  zero, ◌&&◌, ◌*◌, ◌++◌, ◌+◌, ◌-◌, ◌/◌, ◌==◌, ◌^◌, ◌||◌, ◌∷◌,
}
use sigvara.Prelude.Text.{Text, lower, text_eq, text_le}
use sigvara.Prelude.Search.{first_passing}
use sigvara.Event.{Event}

abbrev pub day_ms : ℕ
day_ms = 86_400_000

abbrev pub snapshot_seconds : ℕ
snapshot_seconds = 86_400

abbrev pub reviewer_min_tenure_days : ℕ
reviewer_min_tenure_days = 30

abbrev pub reviewer_min_score : ℕ
reviewer_min_score = 40

abbrev pub funder_hops : ℕ
funder_hops = 2

abbrev pub funding_floor : ℕ
funding_floor = 10 ^ 18

-- `snapshotOf`
pub snapshot_of : ℕ → ℕ
snapshot_of now_sec = now_sec / snapshot_seconds * snapshot_seconds

-- The sums of `payersByAmount`: an event with no payer is left out.
pub add_paid : Text → ℕ → List (Text × ℕ) → List (Text × ℕ)
unfolding text_eq
add_paid key value [] = (key, value) ∷ []
add_paid key value ((k, v) ∷ m) =
    let rest = add_paid key value m in if text_eq k key then (k, v + value) ∷ m else (k, v) ∷ rest

abbrev is_empty : Text → Bool
is_empty [] = true
is_empty (c ∷ s) = false

pub paid_by : List Event → List (Text × ℕ) → List (Text × ℕ)
unfolding add_paid lower
paid_by [] m = m
paid_by (e ∷ events) m =
    paid_by events (if is_empty e.payer then m else add_paid (lower e.payer) e.amount m)

-- Its order: the most paid first, and by address among equals.
pub comes_first : Text × ℕ → Text × ℕ → Bool
unfolding text_le
comes_first a b = ltb b.1 a.1 || (a.1 == b.1 && text_le a.0 b.0)

pub insert_payer : Text × ℕ → List (Text × ℕ) → List (Text × ℕ)
unfolding comes_first
insert_payer x [] = x ∷ []
insert_payer x (y ∷ ys) =
    let rest = insert_payer x ys in if comes_first x y then x ∷ y ∷ ys else y ∷ rest

pub sort_payers : List (Text × ℕ) → List (Text × ℕ)
unfolding insert_payer
sort_payers [] = []
sort_payers (x ∷ xs) = insert_payer x (sort_payers xs)

-- `payersByAmount`
pub payers_by_amount : List Event → List Text
unfolding paid_by sort_payers
payers_by_amount events = map (λ x. x.0) (sort_payers (paid_by events []))

pub record Inbound : Type 0 where
  pub from : Text
  pub value : ℕ

-- The first of the largest transfers.
pub largest : Option Inbound → List Inbound → Option Inbound
largest best [] = best
largest none (t ∷ ts) = largest (some t) ts
largest (some b) (t ∷ ts) = largest (if ltb b.value t.value then some t else some b) ts

pub record Funder : Type 0 where
  pub funder : Option Text
  pub block : ℕ

pub funder_at : (ℕ → List Inbound) → ℕ → Funder
unfolding largest lower
funder_at inbound block = record {
  funder = elim (largest none (inbound block)) [
    | none ↦ none
    | some t ↦ if leb funding_floor t.value then some (lower t.from) else none
  ];
  block = block;
}

-- `findFirstFunder`, of what `read` answers for the address.
pub find_first_funder : (ℕ → Bool) → (ℕ → List Inbound) → ℕ → Option Funder
unfolding funder_at first_passing
find_first_funder touched inbound cap =
    if touched cap
    then some (funder_at inbound (first_passing cap touched 0 cap))
    else if cap == 0 || not (touched (cap - 1))
    then none
    else some (funder_at inbound (first_passing (cap - 1) touched 0 (cap - 1)))

pub data Trace : Type 0 where
  own_side unknown_funder : Trace
  wallets : List Text → Trace

abbrev pub add_wallet : Text → Trace → Trace
add_wallet f own_side = own_side
add_wallet f unknown_funder = unknown_funder
add_wallet f (wallets keys) = wallets (f ∷ keys)

abbrev pub funder_of_found : Option Funder → Option (Text × ℕ)
funder_of_found none = none
funder_of_found (some found) = elim found.funder [ none ↦ none | some f ↦ some (f, found.block) ]

-- The hops of `traceFunding` after the first: a trace that ends shows the wallets so far.
pub trace_from : ℕ → (Text → Bool) → (Text → Bool) → (Text → ℕ → Option Funder) → Text → ℕ → Trace
trace_from zero own stop funder_of at before = wallets []
trace_from (suc hops) own stop funder_of at before = elim (funder_of_found (funder_of at before)) [
  | none ↦ wallets []
  | some (f, block) ↦
      let further = trace_from hops own stop funder_of f block in
      if stop f then wallets [] else if own f then own_side else add_wallet f further
]

-- `traceFunding`; `stop` holds of the zero address and the public funders.
pub trace_funding : (Text → Bool) → (Text → Bool) → (Text → ℕ → Option Funder) → Text → ℕ → Trace
unfolding trace_from
trace_funding own stop funder_of address cap = elim (funder_of_found (funder_of address cap)) [
  | none ↦ unknown_funder
  | some (f, block) ↦ trace_from funder_hops own stop funder_of address cap
]

-- What `standingOf` reads of a reviewer.
pub record Standing : Type 0 where
  pub registered : Bool
  pub operator : Text
  pub is_active : Bool
  pub bonded : Bool
  pub registered_at : ℕ
  pub matured : ℕ

pub data Refusal : Type 0 where
  itself unpaid not_an_agent unbonded too_new low_score self_funded no_funder : Refusal

pub data Judgment : Type 0 where
  refused : Refusal → Judgment
  counts : ℕ → List Text → Judgment

pub record Agent : Type 0 where
  pub operator : Text
  pub agent_address : Text

-- `own`: the scored agent's side.
pub is_own : Agent → Text → Bool
unfolding lower text_eq
is_own agent x = text_eq (lower agent.agent_address) x || text_eq (lower agent.operator) x

-- The first payment of a reviewer, and the time of its last.
pub first_payment : Text → Option Event → List Event → Option Event
unfolding lower text_eq
first_payment c first [] = first
first_payment c none (e ∷ events) =
    first_payment c (if text_eq (lower e.payer) c then some e else none) events
first_payment c (some f) (e ∷ events) =
    first_payment c (if text_eq (lower e.payer) c && ltb e.ts f.ts then some e else some f) events

pub last_paid : Text → List Event → ℕ
unfolding lower text_eq
last_paid c [] = 0
last_paid c (e ∷ events) =
    let rest = last_paid c events in if text_eq (lower e.payer) c then max e.ts rest else rest

pub record Deps : Type 0 where
  pub standing_of : Text → Standing
  pub funder_of : Text → ℕ → Option Funder
  pub is_public : Text → Bool
  pub payment_block : Event → ℕ
  pub snapshot_block : ℕ

abbrev pub trace_keys : Trace → List Text
trace_keys own_side = []
trace_keys unknown_funder = []
trace_keys (wallets keys) = keys

-- The end of `verdictFor`, on the reviewer's own trace and its operator's.
pub judge_traces : Text → Text → ℕ → Trace → Trace → Judgment
judge_traces c operator last_ms own_side theirs = refused self_funded
judge_traces c operator last_ms unknown_funder theirs = refused no_funder
judge_traces c operator last_ms (wallets mine) own_side = refused self_funded
judge_traces c operator last_ms (wallets mine) unknown_funder = counts last_ms (c ∷ operator ∷ mine)
judge_traces c operator last_ms (wallets mine) (wallets theirs) =
    counts last_ms (c ∷ operator ∷ mine ++ theirs)

-- `verdictFor`
pub verdict_for : Text → Agent → List Event → ℕ → Deps → Judgment
unfolding is_own first_payment last_paid trace_funding judge_traces lower
verdict_for client agent events now_ms deps =
    let c = lower client in
    let own = is_own agent in
    let s = deps.standing_of client in
    let operator = lower s.operator in
    if own c then refused itself else elim (first_payment c none events) [
      | none ↦ refused unpaid
      | some first ↦
          if not s.registered
          then refused not_an_agent
          else if own operator
          then refused itself
          else if not (s.is_active && s.bonded)
          then refused unbonded
          else if ltb now_ms (reviewer_min_tenure_days * day_ms + s.registered_at * 1000)
          then refused too_new
          else if ltb s.matured reviewer_min_score
          then refused low_score
          else judge_traces c operator (last_paid c events)
              (trace_funding own deps.is_public deps.funder_of c (deps.payment_block first))
              (trace_funding own deps.is_public deps.funder_of operator deps.snapshot_block)
    ]
