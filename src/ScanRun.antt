-- ===== src/ScanRun.antt =====
-- oracle/index.js: a run of the payment scan over the store, with the reads of scanRange in
-- oracle/payment-scan.js. A read is `none` where it throws, retries included.
pub mod Covers
pub mod Runs
mod Tests
use sigvara.PaymentScan.{
  Agent, Canary, Group, Options, Pick, SkipReason, Transfer, block_ranges, canary_verdict,
  checkpoint_after, operator_at, pick_canary, plan_credits, recipient_batches, safe_head, not_run,
}
use sigvara.LogSpans.{Answer, read_splitting, join_halves, too_big, read_failed}
use sigvara.Store.{Store, Payment, credit_payment, is_credited}
use sigvara.PaymentChains.{Chain, ScanState, active}
use sigvara.Prelude.Dict.{lookup, insert}
use sigvara.LinkScan.{last_block}
use sigvara.Prelude.{
  Bool, List, Option, [], false, if◌then◌else◌, keep, length, ltb, map, none, not, some, true, ℕ,
  ◌&&◌, ◌*◌, ◌++◌, ◌+◌, ◌-◌, ◌==◌, ◌∷◌,
}
use sigvara.Prelude.Text.{Text, lower, text_eq}
use sigvara.Event.{Event}

abbrev pub max_recipients_per_call : ℕ
max_recipients_per_call = 50

pub record Registered : Type 0 where
  pub did_hash : Text
  pub agent_address : Text
  pub operators : Agent
  pub registered_block : Option ℕ

-- What the node of the scored chain answers. Logs are decoded.
pub record Node : Type 0 where
  pub head : Option ℕ
  pub transfers : List Text → ℕ → ℕ → Answer (Option Transfer)
  pub block_time : ℕ → Option (Option ℕ)
  pub receipt_block : Text → Option (Option ℕ)
  pub canary_logs : Text → ℕ → Option (Option (List Text))

-- `paymentScanCfg`, and of `paymentCfg` whether there is an asset and the minimum.
pub record Config : Type 0 where
  pub enabled : Bool
  pub has_asset : Bool
  pub from_block : ℕ
  pub confirmations : ℕ
  pub chunk_size : ℕ
  pub min_amount : ℕ
  pub chains : List Chain

pub record State : Type 0 where
  pub store : Store
  pub checkpoint : Option ScanState

module _ (node : Node) where
  -- The reads of `scanRange` for one batch, and for all.
  pub read_ranges : List Text → List (ℕ × ℕ) → Answer (Option Transfer)
  read_ranges batch [] = Answer.logs []
  read_ranges batch ((start, end) ∷ ranges) =
      join_halves (read_splitting (node.transfers batch) (end - start) start end)
        (read_ranges batch ranges)

  pub read_batches : List (List Text) → List (ℕ × ℕ) → Answer (Option Transfer)
  unfolding read_ranges
  read_batches [] ranges = Answer.logs []
  read_batches (batch ∷ batches) ranges =
      join_halves (read_ranges batch ranges) (read_batches batches ranges)

  -- `scanRange`
  pub scan_range : List Text → ℕ → ℕ → ℕ → Answer (Option Transfer)
  unfolding read_batches
  scan_range recipients from to chunk_size =
      read_batches (recipient_batches (length recipients) max_recipients_per_call recipients)
        (block_ranges from to chunk_size)

  -- The times of the blocks, in milliseconds; a block that the node does not have has none.
  pub read_times : List ℕ → Option (List (ℕ × ℕ))
  read_times [] = some []
  read_times (n ∷ ns) = elim (read_times ns) [
    | none ↦ none
    | some times ↦ elim (node.block_time n) [
      | none ↦ none
      | some none ↦ some times
      | some (some t) ↦ some ((n, t * 1000) ∷ times)
    ]
  ]

-- `byAddress`, of the agents that have an address, and `byDid`.
pub by_address : List Registered → List (Text × Registered) → List (Text × Registered)
unfolding insert lower
by_address [] m = m
by_address (a ∷ agents) m = elim a.agent_address [
  | [] ↦ by_address agents m
  | c ∷ s ↦ by_address agents (insert (lower (c ∷ s)) a m)
]

pub by_did : List Registered → List (Text × Registered) → List (Text × Registered)
unfolding insert
by_did [] m = m
by_did (a ∷ agents) m = by_did agents (insert a.did_hash a m)

abbrev did_of : Option Registered → Option Text
did_of none = none
did_of (some a) = some a.did_hash

abbrev operators_of : Option Registered → Agent
operators_of none = Agent.unknown
operators_of (some a) = a.operators

abbrev block_of : Option Registered → Option ℕ
block_of none = none
block_of (some a) = a.registered_block

-- The options of `planCredits`.
pub options : List Registered → Store → ℕ → Options
unfolding by_address by_did lookup lower
options agents store min_amount =
    let addresses = by_address agents [] in
    let dids = by_did agents [] in
    record {
      did_hash_of = λ address. did_of (lookup (lower address) addresses);
      operator_of = λ did block. operator_at (operators_of (lookup did dids)) block;
      is_used = λ tx did payer. is_credited store tx did payer none;
      min_amount = min_amount;
      registered_block_of = λ did. block_of (lookup did dids);
    }

pub payment_of : Group → ℕ → Payment
payment_of g ts = record {
  did_hash = g.did_hash;
  tx_hash = g.transfer.tx_hash;
  amount = g.transfer.amount;
  payer = g.transfer.from;
  success = none;
  now = ts;
  packet_id = none;
  block_number = some g.transfer.block_number;
  chain_id = none;
}

pub time_at : ℕ → List (ℕ × ℕ) → Option ℕ
time_at n [] = none
time_at n ((m, t) ∷ times) = if m == n then some t else time_at n times

-- The counts and the store of the loop that credits, and the blocks of what it could not resolve.
pub record Tally : Type 0 where
  pub store : Store
  pub credited : ℕ
  pub refused : ℕ
  pub unresolved : List ℕ

pub count_credit : Bool × Store → Tally → Tally
count_credit (true, store) tally = record tally { store = store; credited = tally.credited + 1 }
count_credit (false, store) tally = record tally { store = store; refused = tally.refused + 1 }

pub credit_group : List (ℕ × ℕ) → Group → Tally → Tally
unfolding time_at count_credit payment_of
credit_group times g tally = elim (time_at g.transfer.block_number times) [
  | none ↦ record tally { unresolved = tally.unresolved ++ g.transfer.block_number ∷ [] }
  | some ts ↦ count_credit (credit_payment (payment_of g ts) tally.store) tally
]

pub credit_groups : List (ℕ × ℕ) → List Group → Tally → Tally
unfolding credit_group
credit_groups times [] tally = tally
credit_groups times (g ∷ groups) tally = credit_groups times groups (credit_group times g tally)

-- `runScanCanary`
pub canary_at : Node → Pick → Option ℕ → Canary
canary_at node pick none = Canary.unavailable
canary_at node pick (some block) = elim (node.canary_logs pick.recipient block) [
  | none ↦ Canary.unavailable
  | some ls ↦ canary_verdict ls pick.tx_hash
]

abbrev flat : Option (Option ℕ) → Option ℕ
flat none = none
flat (some n) = n

pub on_scored_chain : List (Text × List Event) → List (Text × List Event)
on_scored_chain [] = []
on_scored_chain ((did, events) ∷ rest) =
    let here = keep (λ e. elim e.chain_id [ none ↦ true | some c ↦ false ]) events in
    let more = on_scored_chain rest in elim here [ [] ↦ more | e ∷ es ↦ (did, e ∷ es) ∷ more ]

pub address_in : Text → List (Text × Registered) → Option Text
address_in did [] = none
address_in did ((k, a) ∷ m) = elim (address_in did m) [
  | some later ↦ some later
  | none ↦ if text_eq a.did_hash did then some a.agent_address else none
]

pub run_scan_canary : Node → List Registered → Store → Canary
unfolding canary_at on_scored_chain address_in by_address
run_scan_canary node agents store =
    elim (pick_canary (on_scored_chain store.payment_events)
      (λ did. address_in did (by_address agents []))) [
        | none ↦ Canary.unavailable
        | some pick ↦ elim pick.block_number [
          | some block ↦ canary_at node pick (some block)
          | none ↦ canary_at node pick (flat (node.receipt_block pick.tx_hash))
        ]
      ]

pub data Run : Type 0 where
  disabled threw up_to_date : Run
  scanned : Tally → Canary → Option ℕ → Run

module _ (cfg : Config) (node : Node) where
  -- The end of a run: the checkpoint, with its time where payment chains are on.
  pub set_checkpoint : Tally → Canary → Option ℕ → State → State × Run
  set_checkpoint tally canary none s = (record s { store = tally.store }, scanned tally canary none)
  set_checkpoint tally canary (some c) s =
      let at : Option ℕ → State = λ ts. record {
        store = tally.store;
        checkpoint = some (record { last_block = c; last_block_ts = ts });
      } in
      let run : Run = scanned tally canary (some c) in
      if not (active cfg.chains) then (at none, run) else elim (node.block_time c) [
        | none ↦ (record s { store = tally.store }, threw)
        | some ts ↦ (at ts, run)
      ]

  pub credit_plan :
      List Registered → ℕ → ℕ → List Group → Option (List (ℕ × ℕ)) → State → State × Run
  unfolding set_checkpoint credit_groups run_scan_canary
  credit_plan agents from to groups none s = (s, threw)
  credit_plan agents from to groups (some times) s =
      let tally =
        credit_groups times groups
          (record { store = s.store; credited = 0; refused = 0; unresolved = [] }) in
      let canary =
        if tally.credited == 0 then run_scan_canary node agents tally.store else Canary.not_run in
      set_checkpoint tally canary (checkpoint_after tally.unresolved from to canary) s

  pub plan_range : List Registered → ℕ → ℕ → Answer (Option Transfer) → State → State × Run
  unfolding credit_plan read_times options
  plan_range agents from to Answer.too_big s = (s, threw)
  plan_range agents from to Answer.read_failed s = (s, threw)
  plan_range agents from to (Answer.logs transfers) s =
      let groups = (plan_credits transfers (options agents s.store cfg.min_amount)).0 in
      credit_plan agents from to groups
        (read_times node (map (λ g. g.transfer.block_number) groups)) s

  -- Nothing to scan: the checkpoint gets a time where it has none and payment chains are on.
  pub time_checkpoint : Option ScanState → State → State × Run
  time_checkpoint none s = (s, up_to_date)
  time_checkpoint (some k) s = elim k.last_block_ts [
    | some t ↦ (s, up_to_date)
    | none ↦
        if not (active cfg.chains) then (s, up_to_date) else elim (node.block_time k.last_block) [
          | none ↦ (s, threw)
          | some none ↦ (s, up_to_date)
          | some (some t) ↦
              (record s { checkpoint = some (record k { last_block_ts = some t }) }, up_to_date)
        ]
  ]

  abbrev pub scan_from : Option ScanState → ℕ
  scan_from none = cfg.from_block
  scan_from (some k) = k.last_block + 1

  pub addresses : List (Text × Registered) → List Text
  addresses m = map (λ a. a.1.agent_address) m

  pub scan_to : List Registered → State → Option ℕ → State × Run
  unfolding time_checkpoint plan_range scan_range by_address addresses
  scan_to agents s none = (s, threw)
  scan_to agents s (some head) =
      let to = safe_head head cfg.confirmations in
      let from = scan_from s.checkpoint in
      if ltb to from
      then time_checkpoint s.checkpoint s
      else plan_range agents from to
          (scan_range node (addresses (by_address agents [])) from to cfg.chunk_size) s

  -- `runPaymentScan`
  pub run_payment_scan : List Registered → State → State × Run
  unfolding scan_to
  run_payment_scan agents s =
      if cfg.enabled && cfg.has_asset then scan_to agents s node.head else (s, disabled)
