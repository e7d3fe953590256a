-- ===== src/LinkScan.antt =====
-- oracle/link-scan.js: the scan of the logs that link agents, which goes on from where it stopped.
pub mod Progress
pub mod Runs
pub mod Resume
mod Tests
use sigvara.LinkClaims.{
  NewClaim, add_claim, candidates_at, claim_from_log, is_before_cursor, scan_covers, Claim,
}
use sigvara.Prelude.Dict.{has}
use sigvara.Prelude.{
  Bool, List, Option, [], false, if◌then◌else◌, length, ltb, min, none, not, some, suc, true, zero,
  ℕ, ◌&&◌, ◌+◌, ◌-◌, ◌/◌, ◌==◌, ◌||◌, ◌∷◌,
}
use sigvara.Prelude.Text.{Text, lower, text_eq}

pub record LinkLog : Type 0 where
  pub block : ℕ
  pub index : ℕ
  pub agent_id : Text
  pub value : Text

-- What a read ends in; `transient` is an error that `isTransientReadError` recognizes.
pub data Answer (A : Type 0) : Type 0 where
  ok : A → Answer A
  transient permanent : Answer A

-- What a read of logs ends in; `span_too_big` is an error that `spanTooBig` recognizes.
pub data SpanRead : Type 0 where
  logs : List LinkLog → SpanRead
  span_too_big failed : SpanRead

-- What the scan asks of the chain and of the registry, retries included.
pub record Deps : Type 0 where
  pub operator_of : Text → ℕ → Answer Text
  pub owner_at : Text → ℕ → Answer Text
  pub claim_holds : Text → Text → Text → Option ℕ → Answer Bool
  pub read_link_logs : ℕ → ℕ → SpanRead

-- The end of reads of one span, and of a scan; `unfinished` is what too little fuel gives.
pub data Spanned : Type 0 where
  read_to : List LinkLog → ℕ → Spanned
  not_read unfinished : Spanned

pub data Ending : Type 0 where
  complete stopped out_of_fuel : Ending

pub record Cursor : Type 0 where
  pub block : ℕ
  pub index : ℕ

pub record State : Type 0 where
  pub cursor : Cursor
  pub claims : List (Text × List Claim)
  pub found : ℕ

-- /^0x0{40}$/i
zeros_only : Text → Bool
zeros_only [] = true
zeros_only (c ∷ s) = c == b'0' && zeros_only s

pub is_zero_operator : Text → Bool
unfolding zeros_only
is_zero_operator [] = false
is_zero_operator (c ∷ []) = false
is_zero_operator (c ∷ x ∷ s) =
    c == b'0' && (x == b'x' || x == b'X') && length s == 40 && zeros_only s

-- What the handler of an error makes of it: `none` where it is thrown again.
abbrev pub answered : {A : Type 0} → Answer A → (A → Option Bool) → Option Bool
answered (ok a) f = f a
answered transient f = none
answered permanent f = some false

module _ (deps : Deps) where
  -- `claimMadeByOperator`, without the cache of its reads
  pub claim_made_by_operator : NewClaim → Option Bool
  unfolding is_zero_operator text_eq lower
  claim_made_by_operator new =
      let agent_id = new.claim.agent_id in
      let block = new.claim.block in
      answered (deps.operator_of new.did_hash block) (λ operator.
        if is_zero_operator operator
        then some false
        else answered (deps.owner_at agent_id (block - 1)) (λ before.
          if not (text_eq (lower before) (lower operator))
          then some false
          else answered (deps.claim_holds agent_id new.did_hash operator (some block))
              (λ b. some b)))

  -- The rounds of `eachLinkSpan` that start at one block: the span is halved while it is too big.
  pub read_span : ℕ → ℕ → ℕ → ℕ → Spanned
  read_span zero start span to = unfinished
  read_span (suc fuel) start span to =
      let end = min (start + span - 1) to in
      let half = read_span fuel start ((end - start + 2) / 2) to in
      elim (deps.read_link_logs start end) [
        | logs ls ↦ read_to ls end
        | span_too_big ↦ if ltb start end then half else not_read
        | failed ↦ not_read
      ]

module _ {S : Type 0} (deps : Deps) (chunk_size : ℕ)
    (on_logs : S → List LinkLog → ℕ → S × Bool) where
  -- `eachLinkSpan`; `on_logs` says with its state whether it went through.
  pub each_link_span : ℕ → ℕ → ℕ → S → S × Ending
  unfolding read_span
  each_link_span zero start to s = (s, if ltb to start then complete else out_of_fuel)
  each_link_span (suc fuel) start to s =
      if ltb to start then (s, complete) else elim (read_span deps chunk_size start chunk_size to) [
        | read_to ls end ↦
            let next = on_logs s ls end in
            let rest = each_link_span fuel (end + 1) to next.0 in
            if next.1 then rest else (next.0, stopped)
        | not_read ↦ (s, stopped)
        | unfinished ↦ (s, out_of_fuel)
      ]

abbrev pub is_known : Option (List Text) → Text → Bool
is_known none did = true
is_known (some known) did = has did known

abbrev pub after_log : LinkLog → Cursor
after_log log = record { block = log.block; index = log.index + 1 }

module _ (deps : Deps) (known : Option (List Text)) where
  -- One log in the loop of `scan`, and the loop; `false` where a read throws.
  pub take_claim : State → LinkLog → NewClaim → Option Bool → State × Bool
  take_claim s log new none = (s, false)
  take_claim s log new (some false) = (record s { cursor = after_log log }, true)
  take_claim s log new (some true) = (
    record s { cursor = after_log log; claims = add_claim new s.claims; found = s.found + 1 },
    true,
  )

  pub take_log : State → LinkLog → Option NewClaim → State × Bool
  unfolding claim_made_by_operator take_claim
  take_log s log none = (record s { cursor = after_log log }, true)
  take_log s log (some new) =
      if is_known known new.did_hash
      then take_claim s log new (claim_made_by_operator deps new)
      else (record s { cursor = after_log log }, true)

  pub handle_log : State → LinkLog → State × Bool
  unfolding take_log
  handle_log s log =
      if is_before_cursor log.block log.index s.cursor.block s.cursor.index
      then (s, true)
      else take_log s log (claim_from_log log.agent_id log.value log.block log.index)

  pub handle_logs : State → List LinkLog → State × Bool
  unfolding handle_log
  handle_logs s [] = (s, true)
  handle_logs s (log ∷ ls) =
      let next = handle_log s log in
      let rest = handle_logs next.0 ls in if next.1 then rest else (next.0, false)

  -- The handler of a span's logs: the cursor goes past the span where all went through.
  pub end_span : ℕ → State × Bool → State × Bool
  end_span end (s, true) = (record s { cursor = record { block = end + 1; index = 0 } }, true)
  end_span end (s, false) = (s, false)

  pub handle_span : State → List LinkLog → ℕ → State × Bool
  unfolding handle_logs end_span
  handle_span s ls end = end_span end (handle_logs s ls)

abbrev pub start_state : ℕ → Option State → State
start_state from_block none = record {
  cursor = record { block = from_block; index = 0 };
  claims = [];
  found = 0;
}
start_state from_block (some s) = record s { found = 0 }

-- The block that a scan goes up to; `none` is no limit.
abbrev pub last_block : ℕ → Option ℕ → ℕ
last_block head none = head
last_block head (some up_to) = min head up_to

-- `scan`, at the head that the registry's chain has; A step of fuel is for each block.
pub scan : Deps → ℕ → ℕ → Option State → Option (List Text) → ℕ → Option ℕ → State × Ending
unfolding each_link_span handle_span
scan deps from_block chunk_size state known head up_to =
    let s = start_state from_block state in
    let to : ℕ = last_block head up_to in
    each_link_span deps chunk_size (handle_span deps known) (to + 1 - s.cursor.block) s.cursor.block
      to s

-- `uncheckedAgents`: the agents that a log past the cursor names.
pub named_in : Cursor → List LinkLog → List Text → List Text
named_in cursor [] named = named
named_in cursor (log ∷ ls) named =
    let skip = named_in cursor ls named in
    if is_before_cursor log.block log.index cursor.block cursor.index
    then skip
    else elim (claim_from_log log.agent_id log.value log.block log.index) [
      | none ↦ skip
      | some new ↦
          named_in cursor ls (if has new.did_hash named then named else new.did_hash ∷ named)
    ]

pub unchecked_agents : Deps → ℕ → ℕ → Option State → ℕ → List Text × Ending
unfolding each_link_span named_in
unchecked_agents deps from_block chunk_size state block =
    let cursor = (start_state from_block state).cursor in
    each_link_span deps chunk_size (λ named ls end. (named_in cursor ls named, true))
      (block + 1 - cursor.block) cursor.block block []

-- `claimedAgentAt`: the first candidate whose claim holds; `none` where a read throws.
pub first_holding : Deps → Text → Text → Option ℕ → List Text → Option (Option Text)
first_holding deps did operator at [] = some none
first_holding deps did operator at (agent_id ∷ ids) =
    let rest = first_holding deps did operator at ids in
    elim (deps.claim_holds agent_id did operator at) [
      | ok holds ↦ if holds then some (some agent_id) else rest
      | transient ↦ none
      | permanent ↦ rest
    ]

pub claimed_agent_at :
    Deps → List (Text × List Claim) → Text → Text → Option ℕ → Option (Option Text)
unfolding first_holding
claimed_agent_at deps claims did operator at =
    first_holding deps did operator at (candidates_at claims did at)
