-- ===== src/PaymentChains.antt =====
-- oracle/payment-chains.js: payments that settle on other chains, when they count, and up to which
-- time the evidence of every chain is known. `Infinity` is `none` among times.
pub mod Cuts
pub mod Memo
pub mod Ends
mod Tests
use sigvara.Prelude.{
  ℕ, Bool, List, Option, [], drop, false, if◌then◌else◌, keep, leb, length, ltb, map, min, none,
  not, some, suc, take, true, zero, ◌&&◌, ◌*◌, ◌++◌, ◌+◌, ◌-◌, ◌/◌, ◌==◌, ◌||◌, ◌∷◌,
}
use sigvara.Prelude.Text.{Text, lower, text_eq, text_le}
use sigvara.Event.{Event}
use sigvara.Prelude.Decimal.{decimal}
use sigvara.Payments.{by_payer}
use sigvara.Prelude.Dict.{has}

abbrev pub cut_quantum_ms : ℕ
cut_quantum_ms = 60_000

abbrev pub audit_window_ms : ℕ
audit_window_ms = 1_800_000

-- What `readConfig` makes of one chain's settings; `is_on` is its mode.
pub record Chain : Type 0 where
  pub chain_id : ℕ
  pub from_block : ℕ
  pub fee_unit : ℕ
  pub min_amount : ℕ
  pub delay_ms : ℕ
  pub chunk_size : ℕ
  pub max_blocks : ℕ
  pub max_reads : ℕ
  pub is_on : Bool

-- `cfg.byId.get(id)`, over `cfg.chains`, of which each has another id.
pub by_id : List Chain → ℕ → Option Chain
by_id [] id = none
by_id (c ∷ chains) id = if c.chain_id == id then some c else by_id chains id

-- `stateKey`
pub state_key : Chain → Text
state_key c =
    if c.is_on
    then decimal c.chain_id
    else decimal c.chain_id ++ b'/' ∷ b's' ∷ b'h' ∷ b'a' ∷ b'd' ∷ b'o' ∷ b'w' ∷ []

-- The checkpoint of a chain's scan.
pub record ScanState : Type 0 where
  pub last_block : ℕ
  pub last_block_ts : Option ℕ

-- `eligibleAtMs`
pub eligible_at_ms : Event → List Chain → Option ℕ
unfolding by_id
eligible_at_ms e chains = elim e.chain_id [
  | none ↦ some e.ts
  | some id ↦ elim (by_id chains id) [
    | none ↦ none
    | some c ↦ if c.is_on then some (e.ts + c.delay_ms) else none
  ]
]

-- `active`
unfoldable pub active : List Chain → Bool
active [] = false
active (c ∷ chains) = c.is_on || active chains

-- `cutFor`; no time it is asked for is as early as the first minute.
unfoldable pub cut_for : ℕ → List Chain → ℕ
unfolding active
cut_for now_ms chains =
    if active chains then now_ms / cut_quantum_ms * cut_quantum_ms - cut_quantum_ms else now_ms

-- The loop of `coveredCut`.
unfoldable pub cap_of : ℕ → List Chain → (Text → Option ScanState) → Option ℕ
unfolding state_key
cap_of cap [] state_of = some cap
cap_of cap (c ∷ chains) state_of =
    if not c.is_on then cap_of cap chains state_of else elim (state_of (state_key c)) [
      | none ↦ none
      | some s ↦ elim s.last_block_ts [
        | none ↦ none
        | some ts ↦ cap_of (min cap (ts * 1000 + c.delay_ms - 1)) chains state_of
      ]
    ]

-- `coveredCut`
unfoldable pub covered_cut : ℕ → ℕ → List Chain → (Text → Option ScanState) → Option ℕ
unfolding cap_of
covered_cut want_ms scored_reach_ms chains state_of =
    elim (cap_of (min want_ms (scored_reach_ms - 1)) chains state_of) [
      | none ↦ none
      | some cap ↦ if cap == 0 then none else some (cap / cut_quantum_ms * cut_quantum_ms)
    ]

-- `auditCuts`, with a step for each minute of the window.
pub cuts_from : ℕ → ℕ → ℕ → List ℕ
cuts_from zero t at_ms = []
cuts_from (suc fuel) t at_ms =
    let rest = cuts_from fuel (t - cut_quantum_ms) at_ms in
    if ltb at_ms (t + audit_window_ms) then t ∷ rest else []

pub audit_cuts : ℕ → List Chain → List ℕ
unfolding cuts_from cut_for active
audit_cuts at_ms chains = if active chains then cuts_from 30 (cut_for at_ms chains) at_ms else []

abbrev pub or_zero : Option ℕ → ℕ
or_zero none = 0
or_zero (some n) = n

-- `evidenceOrder`, as whether an event does not come after another.
pub in_order : Event → Event → Bool
unfolding lower text_eq text_le
in_order a b =
    let by_payer = text_le (lower a.payer) (lower b.payer) in
    let by_tx =
      if text_eq (lower a.tx_hash) (lower b.tx_hash)
      then by_payer
      else text_le (lower a.tx_hash) (lower b.tx_hash) in
    let by_chain =
      if or_zero a.chain_id == or_zero b.chain_id
      then by_tx
      else ltb (or_zero a.chain_id) (or_zero b.chain_id) in
    if a.ts == b.ts then by_chain else ltb a.ts b.ts

-- The sort, which keeps the order of equal events.
pub insert_event : Event → List Event → List Event
unfolding in_order
insert_event x [] = x ∷ []
insert_event x (y ∷ ys) =
    let rest = insert_event x ys in if in_order x y then x ∷ y ∷ ys else y ∷ rest

pub sort_events : List Event → List Event
unfolding insert_event
sort_events [] = []
sort_events (x ∷ xs) = insert_event x (sort_events xs)

-- `x <= atMs`, where nothing is as late as `Infinity`
abbrev pub by_time : Option ℕ → ℕ → Bool
by_time none at_ms = false
by_time (some t) at_ms = leb t at_ms

-- The two lists of `eventsAt`.
pub is_scored : ℕ → List Chain → Event → Bool
unfolding active
is_scored at_ms chains e = elim e.chain_id [
  | none ↦ not (active chains) || leb e.ts at_ms
  | some id ↦ false
]

pub is_from_chain : ℕ → List Chain → Event → Bool
unfolding eligible_at_ms
is_from_chain at_ms chains e = elim e.chain_id [
  | none ↦ false
  | some id ↦ by_time (eligible_at_ms e chains) at_ms
]

-- `eventsAt` without what it remembers: the events that count, those of the scored chain first.
pub events_at : List Event → ℕ → List Chain → List Event
unfolding is_scored is_from_chain sort_events
events_at events at_ms chains =
    sort_events (keep (is_scored at_ms chains) events)
    ++ sort_events (keep (is_from_chain at_ms chains) events)

-- The size that a remembered answer must have to be given again.
pub size_at : List Event → ℕ → List Chain → ℕ
unfolding is_scored is_from_chain
size_at events at_ms chains =
    length (keep (is_scored at_ms chains) events)
    + length (keep (is_from_chain at_ms chains) events)

-- An array of events, as `eventsAt` is called with it: its identity, and whether it is frozen.
pub record Array : Type 0 where
  pub id : ℕ
  pub frozen : Bool
  pub events : List Event

-- What `eventsAt` remembers under one configuration: an answer for each frozen array.
abbrev pub Remembered : Type 0
Remembered = List (ℕ × List Event)

pub recall : ℕ → Remembered → Option (List Event)
recall id [] = none
recall id ((k, answer) ∷ more) = let rest = recall id more in if k == id then some answer else rest

-- `eventsAt` where nothing fitting is remembered.
pub compute_events_at : Array → ℕ → List Chain → Remembered → List Event × Remembered
unfolding events_at
compute_events_at a at_ms chains memo =
    let answer = events_at a.events at_ms chains in
    (answer, if a.frozen then (a.id, answer) ∷ memo else memo)

-- `eventsAt`
pub events_at_with : Array → ℕ → List Chain → Remembered → List Event × Remembered
unfolding size_at recall compute_events_at
events_at_with a at_ms chains memo =
    let hit = if a.frozen then recall a.id memo else none in
    elim hit [
      | none ↦ compute_events_at a at_ms chains memo
      | some answer ↦
          if length answer == size_at a.events at_ms chains
          then (answer, memo)
          else compute_events_at a at_ms chains memo
    ]

-- `forScoring`: amounts in units of the scored chain's fee.
pub for_scoring : List Event → ℕ → List Chain → List Event
unfolding by_id
for_scoring events unit chains =
    map
      (λ e. elim e.chain_id [
        | none ↦ e
        | some id ↦ elim (by_id chains id) [
          | none ↦ record e { amount = 0 }
          | some c ↦ record e { amount = e.amount * unit / c.fee_unit }
        ]
      ])
      events

pub record Behind : Type 0 where
  pub chain_id : ℕ
  pub reached_ms : Option ℕ

-- `behind`: the chains that are not scanned up to their delay before now.
pub behind : List Chain → (Text → Option ScanState) → ℕ → List Behind
unfolding state_key
behind [] state_of now_ms = []
behind (c ∷ chains) state_of now_ms =
    let rest = behind chains state_of now_ms in
    let reached : Option ℕ = elim (state_of (state_key c)) [
      | none ↦ none
      | some s ↦ elim s.last_block_ts [ none ↦ none | some ts ↦ some (ts * 1000) ]
    ] in
    if c.is_on && (elim reached [ none ↦ true | some r ↦ leb (r + c.delay_ms) now_ms ])
    then record { chain_id = c.chain_id; reached_ms = reached } ∷ rest
    else rest

-- `recipientCodeOk`: no code, or a delegation.
all_hex : Text → Bool
all_hex [] = true
all_hex (c ∷ s) = ((leb b'0' c && leb c b'9') || (leb b'a' c && leb c b'f')) && all_hex s

pub recipient_code_ok : Text → Bool
unfolding text_eq lower all_hex
recipient_code_ok code =
    let c = lower code in
    text_eq c []
    || text_eq c (b'0' ∷ b'x' ∷ [])
    || (text_eq (take 8 c) (b'0' ∷ b'x' ∷ b'e' ∷ b'f' ∷ b'0' ∷ b'1' ∷ b'0' ∷ b'0' ∷ [])
        && length (drop 8 c) == 40
        && all_hex (drop 8 c))

-- The agents paid in each block, in the order of the blocks.
pub add_agent : Text → List Text → List Text
unfolding has
add_agent did dids = if has did dids then dids else did ∷ dids

pub add_block : ℕ → Text → List (ℕ × List Text) → List (ℕ × List Text)
unfolding add_agent
add_block block did [] = (block, did ∷ []) ∷ []
add_block block did ((b, dids) ∷ m) =
    let rest = add_block block did m in
    if b == block
    then (b, add_agent did dids) ∷ m
    else if ltb block b
    then (block, did ∷ []) ∷ (b, dids) ∷ m
    else (b, dids) ∷ rest

pub agents_at : List (ℕ × Text) → List (ℕ × List Text)
unfolding add_block
agents_at [] = []
agents_at ((block, did) ∷ credits) = add_block block did (agents_at credits)

-- The loop of `scanEnd`.
pub end_from : ℕ → Bool → List (ℕ × List Text) → ℕ → ℕ → ℕ
end_from reads first [] to max_reads = to
end_from reads first ((block, dids) ∷ m) to max_reads =
    let rest = end_from (reads + length dids + 1) false m to max_reads in
    if ltb max_reads (reads + length dids + 1) && not first then block - 1 else rest

-- `scanEnd`, of the block and the agent of each credit.
pub scan_end : List (ℕ × Text) → ℕ → ℕ → ℕ
unfolding agents_at end_from
scan_end credits to max_reads = end_from 0 true (agents_at credits) to max_reads
