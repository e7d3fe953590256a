-- ===== src/PaymentScan.antt =====
-- oracle/payment-scan.js: the transfers that a scan of the chain credits as payments, the spans it
-- reads them in, and how far a scan that could not resolve everything may advance.
pub mod Sums
pub mod Credits
pub mod Ranges
pub mod Checkpoints
mod Tests
use sigvara.Prelude.{
  ℕ, Bool, List, Option, [], drop, false, if◌then◌else◌, leb, ltb, min, none, not, some, suc, take,
  zero, ◌&&◌, ◌++◌, ◌+◌, ◌-◌, ◌==◌, ◌∷◌,
}
use sigvara.Prelude.Text.{Text, lower, text_eq}
use sigvara.Prelude.Spans.{spans}
use sigvara.Event.{Event}

-- `recipientBatches`
pub recipient_batches {ℓ} : {A : Type ℓ} → ℕ → ℕ → List A → List (List A)
recipient_batches zero size addresses = []
recipient_batches (suc fuel) size [] = []
recipient_batches (suc fuel) size (a ∷ addresses) =
    take size (a ∷ addresses) ∷ recipient_batches fuel size (drop size (a ∷ addresses))

-- `blockRanges`, of chunks of a block or more.
pub block_ranges : ℕ → ℕ → ℕ → List (ℕ × ℕ)
unfolding spans
block_ranges from_block to_block chunk_size =
    spans (to_block + 1 - from_block) from_block to_block chunk_size

pub record Transfer : Type 0 where
  pub tx_hash : Text
  pub block_number : ℕ
  pub from : Text
  pub to : Text
  pub amount : ℕ

-- An entry of `grouped`: the transfers of one transaction between the same two parties.
pub record Group : Type 0 where
  pub did_hash : Text
  pub transfer : Transfer

-- `opts`
pub record Options : Type 0 where
  pub did_hash_of : Text → Option Text
  pub operator_of : Text → ℕ → Option Text
  pub is_used : Text → Text → Text → Bool
  pub min_amount : ℕ
  pub registered_block_of : Text → Option ℕ

pub data SkipReason : Type 0 where
  already_credited zero_value below_minimum self_payment before_registration : SkipReason

pub group_key : Transfer → Text
unfolding lower
group_key t = lower t.tx_hash ++ b'|' ∷ lower t.to ++ b'|' ∷ lower t.from

abbrev pub add_to : Transfer → Group → Group
add_to t g = record g { transfer = record g.transfer { amount = g.transfer.amount + t.amount } }

-- `grouped.set(key, …)`: the first transfer of a key makes the group, the others add to it.
pub add_transfer : Text → Text → Transfer → List (Text × Group) → List (Text × Group)
unfolding text_eq
add_transfer key did t [] = (key, record { did_hash = did; transfer = t }) ∷ []
add_transfer key did t ((k, g) ∷ groups) =
    let rest = add_transfer key did t groups in
    if text_eq k key then (k, add_to t g) ∷ groups else (k, g) ∷ rest

-- The first loop of `planCredits`.
pub group_transfers : Options → List (Option Transfer) → List (Text × Group) → List (Text × Group)
unfolding add_transfer group_key
group_transfers opts [] groups = groups
group_transfers opts (none ∷ ts) groups = group_transfers opts ts groups
group_transfers opts (some t ∷ ts) groups = elim (opts.did_hash_of t.to) [
  | none ↦ group_transfers opts ts groups
  | some did ↦ group_transfers opts ts (add_transfer (group_key t) did t groups)
]

-- Whether the operator is known and is the payer.
abbrev pub is_operator : Option Text → Text → Bool
is_operator none payer = false
is_operator (some o) payer = text_eq (lower payer) (lower o)

-- Whether the block of registration is known and the payment came before it.
abbrev pub is_before : ℕ → Option ℕ → Bool
is_before block none = false
is_before block (some registered) = ltb block registered

-- `countsAsPayment`
abbrev pub counts_as_payment : ℕ → ℕ → Bool
counts_as_payment amount min_amount = ltb 0 amount && leb min_amount amount

-- What the second loop does with a group: the reason to skip it, or none to credit it.
pub rejection : Options → Group → Option SkipReason
unfolding lower text_eq
rejection opts g =
    let t = g.transfer in
    if opts.is_used t.tx_hash g.did_hash t.from
    then some already_credited
    else if not (counts_as_payment t.amount opts.min_amount)
    then (if t.amount == 0 then some zero_value else some below_minimum)
    else if text_eq (lower t.from) (lower t.to)
    then some self_payment
    else if is_operator (opts.operator_of g.did_hash t.block_number) t.from
    then some self_payment
    else if is_before t.block_number (opts.registered_block_of g.did_hash)
    then some before_registration
    else none

pub judge_groups : Options → List (Text × Group) → List Group × List (Group × SkipReason)
unfolding rejection
judge_groups opts [] = ([], [])
judge_groups opts ((k, g) ∷ groups) =
    let (credits, skipped) = judge_groups opts groups in
    elim (rejection opts g) [
      | none ↦ (g ∷ credits, skipped)
      | some reason ↦ (credits, (g, reason) ∷ skipped)
    ]

-- `planCredits`
pub plan_credits : List (Option Transfer) → Options → List Group × List (Group × SkipReason)
unfolding judge_groups group_transfers
plan_credits decoded opts = judge_groups opts (group_transfers opts decoded [])

-- `safeHead`: `Math.max(0, head - confirmations)`
pub safe_head : ℕ → ℕ → ℕ
safe_head head confirmations = head - confirmations

pub data Canary : Type 0 where
  not_run passed failed unavailable : Canary

-- `Math.min` over the blocks of the credits.
pub earliest : ℕ → List ℕ → ℕ
earliest b [] = b
earliest b (c ∷ cs) = min b (earliest c cs)

-- `checkpointAfter`, of the blocks of the credits that were not resolved. `earliest - 1` is
-- negative where the earliest block is 0, and then below `from`.
pub checkpoint_after : List ℕ → ℕ → ℕ → Canary → Option ℕ
unfolding earliest
checkpoint_after unresolved from to failed = none
checkpoint_after [] from to canary = some to
checkpoint_after (b ∷ bs) from to canary =
    if leb (from + 1) (earliest b bs) then some (earliest b bs - 1) else none

pub record Tenure : Type 0 where
  pub operator : Text
  pub from_block : ℕ

-- `operatorAt`, over `agent.operators`; an agent without that list has one operator throughout.
pub operator_from : Text → List Tenure → ℕ → Text
operator_from current [] block = current
operator_from current (o ∷ operators) block =
    operator_from (if leb o.from_block block then o.operator else current) operators block

pub data Agent : Type 0 where
  unknown : Agent
  always : Option Text → Agent
  changed : Tenure → List Tenure → Agent

pub operator_at : Agent → ℕ → Option Text
unfolding operator_from
operator_at unknown block = none
operator_at (always operator) block = operator
operator_at (changed o operators) block = some (operator_from o.operator (o ∷ operators) block)

-- `canaryVerdict`, over the transaction hashes of the logs; `none` where the answer is no array.
pub canary_verdict : Option (List Text) → Text → Canary
unfolding text_eq lower
canary_verdict none expected = failed
canary_verdict (some []) expected = failed
canary_verdict (some (tx ∷ logs)) expected =
    let rest = canary_verdict (some logs) expected in
    if text_eq (lower tx) (lower expected) then passed else rest

-- `pickCanary`: the newest payment of an agent whose address is known.
pub record Pick : Type 0 where
  pub did_hash : Text
  pub recipient : Text
  pub tx_hash : Text
  pub block_number : Option ℕ
  pub at : ℕ

pub last_with_tx : List Event → Option Event
last_with_tx [] = none
last_with_tx (e ∷ events) = elim (last_with_tx events) [
  | some found ↦ some found
  | none ↦ elim e.tx_hash [ [] ↦ none | c ∷ s ↦ some e ]
]

-- The pick so far, or the event if it is later.
abbrev pub newer : Text → Text → Event → Option Pick → Option Pick
newer did recipient e none = some (record {
  did_hash = did;
  recipient = recipient;
  tx_hash = e.tx_hash;
  block_number = e.block_number;
  at = e.ts;
})
newer did recipient e (some p) =
    if ltb p.at e.ts
    then some (record {
      did_hash = did;
      recipient = recipient;
      tx_hash = e.tx_hash;
      block_number = e.block_number;
      at = e.ts;
    })
    else some p

pub pick_from : Option Pick → List (Text × List Event) → (Text → Option Text) → Option Pick
unfolding last_with_tx
pick_from newest [] address_of = newest
pick_from newest ((did, events) ∷ rest) address_of = elim (address_of did) [
  | none ↦ pick_from newest rest address_of
  | some recipient ↦ elim (last_with_tx events) [
    | none ↦ pick_from newest rest address_of
    | some e ↦ pick_from (newer did recipient e newest) rest address_of
  ]
]

pub pick_canary : List (Text × List Event) → (Text → Option Text) → Option Pick
unfolding pick_from
pick_canary events_by_did address_of = pick_from none events_by_did address_of
