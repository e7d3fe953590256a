-- ===== src/EpochRun.antt =====
-- oracle/index.js: what an epoch does with each agent, from the guards to the proposal, for the
-- operator that proposes and for the one that checks. What a read or a transaction gives for the
-- agent at its turn is a field of `Asks`; an error is the kind that the code tests it for.
pub mod Sending
pub mod Checking
pub mod Rounds
pub mod Proposals
pub mod Stops
pub mod Gates
pub mod Unconfirmed
pub mod Turns
pub mod Halts
mod Tests
use sigvara.EpochPolicy.{
  Action, CheckerAction, Factors, Grace, Pending, decide_action, decide_checker_action,
  defer_propose, defer_finalize, finalize_then_propose,
}
use sigvara.PaymentChains.{Chain, ScanState, active, audit_window_ms, covered_cut, cut_for, behind}
use sigvara.Prelude.Dict.{lookup, insert, erase, has}
use sigvara.Prelude.{
  Bool, List, Option, [], false, if◌then◌else◌, ltb, none, not, some, true, ℕ, ◌&&◌, ◌*◌, ◌-◌, ◌||◌,
  ◌∷◌, max, ◌++◌, ◌+◌, length,
}
use sigvara.Prelude.Text.{Text, text_eq}

pub data Error : Type 0 where
  slot_taken rate_limit fee_cap unconfirmed proposer_not_authorized already_charged unknown_error :
      Error

pub data Try (A : Type 0) : Type 0 where
  ok : A → Try A
  thrown : Error → Try A

-- What `evidenceCutFor` finds after its scans.
pub record CutReads : Type 0 where
  pub time : ℕ
  pub scored_reach_ms : ℕ
  pub state_of : Text → Option ScanState

pub record Guard : Type 0 where
  pub slashed : Bool
  pub bonded : Bool

-- What the epoch asks about one agent.
pub record Asks : Type 0 where
  pub did_hash : Text
  pub registered_at : ℕ
  pub pending : Pending
  pub guard : Try Guard
  pub link_unchecked : Bool
  pub cut_before_finalize : Try CutReads
  pub cut_reads : Try CutReads
  pub finalize : Try Unit
  pub still_pending : Try Bool
  pub live_total : Try ℕ
  pub scores : Try Factors
  pub fresh_pending : Try Pending
  pub can_cover : Try Bool
  pub scans_passed_proposal : Bool
  pub audit_scores : Try Factors
  pub last_updated : Try ℕ
  pub latest_time : Try ℕ
  pub can_propose : Try Bool
  pub charge : Try Unit
  pub propose : Try Unit

pub record Config : Type 0 where
  pub checker_mode : Bool
  pub chains : List Chain
  pub gating_active : Bool
  pub challenge_window : ℕ
  pub chain_now : ℕ
  pub tolerance : Option ℕ
  pub grace_seconds : ℕ
  pub propose_margin_ms : ℕ

-- What an epoch carries from agent to agent, and from epoch to epoch.
pub record State : Type 0 where
  pub stopped : Bool
  pub agents_held : ℕ
  pub empty_seen_at : List (Text × ℕ)
  pub covering_late : List Text

-- What an epoch does on chain and in the store; a proposal is of the evidence up to its cut.
pub data Effect : Type 0 where
  pruned finalized charged recorded_divergence : Text → Effect
  proposed : Text → ℕ → Effect

abbrev pub Visit : Type 0
Visit = State × List Effect

abbrev pub is_unconfirmed : Error → Bool
is_unconfirmed unconfirmed = true
is_unconfirmed _ = false

-- `isRateLimited` and `isProposerNotAuthorized`
abbrev pub is_rate_limit : Error → Bool
is_rate_limit rate_limit = true
is_rate_limit _ = false

abbrev pub is_not_authorized : Error → Bool
is_not_authorized proposer_not_authorized = true
is_not_authorized _ = false

-- `isAlreadyCharged`
abbrev pub is_already_charged : Error → Bool
is_already_charged already_charged = true
is_already_charged _ = false

-- The handler of an error that ends the turn of an agent.
pub fail : Error → State → Visit
fail e s = (record s { stopped = s.stopped || is_unconfirmed e }, [])

abbrev pub done : State → Visit
done s = (s, [])

abbrev pub then_effect : Effect → Visit → Visit
then_effect e v = (v.0, e ∷ v.1)

abbrev pub absent : Pending
absent = record { exists = false; finalizable_at = 0; proposed_at = 0; scores = λ f. none }

-- `probe.ok`, of a probe that may throw.
pub covers : Try Bool → Bool
covers (ok allowed) = allowed
covers (thrown e) = false

-- `coveringLate` and `emptySeenAt`
pub add_late : Text → State → State
unfolding has
add_late did s = record s {
  covering_late = if has did s.covering_late then s.covering_late else did ∷ s.covering_late;
}

pub remove : Text → List Text → List Text
unfolding text_eq
remove did [] = []
remove did (d ∷ dids) = let rest = remove did dids in if text_eq d did then rest else d ∷ rest

pub forget_empty : Text → State → State
unfolding remove erase
forget_empty did s = record s {
  empty_seen_at = erase did s.empty_seen_at;
  covering_late = remove did s.covering_late;
}

pub seen_at : Text → List (Text × ℕ) → ℕ
unfolding lookup
seen_at did seen = elim (lookup did seen) [ none ↦ 0 | some t ↦ t ]

pub note_empty : Text → ℕ → State → State
unfolding lookup insert
note_empty did now s = elim (lookup did s.empty_seen_at) [
  | some t ↦ s
  | none ↦ record s { empty_seen_at = insert did now s.empty_seen_at }
]

pub record Info : Type 0 where
  pub asks : Asks
  pub failed : Bool
  pub slashed : Bool
  pub covered : Bool
