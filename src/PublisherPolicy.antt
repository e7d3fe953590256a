-- ===== src/PublisherPolicy.antt =====
-- oracle/publisher-policy.js: which feedback the publisher posts and revokes, and when it may.
pub mod Updates
mod Tests
use sigvara.Prelude.{
  ℕ, Bool, List, Option, [], false, if◌then◌else◌, keep, length, ltb, map, none, not, some, true,
  ◌&&◌, ◌*◌, ◌/◌, ◌==◌, ◌^◌, ◌||◌, ◌∷◌,
}
use sigvara.Prelude.Text.{Text, lower, text_eq}

abbrev pub day_seconds : ℕ
day_seconds = 86_400

-- `utcDay`
pub utc_day : ℕ → ℕ
utc_day seconds = seconds / day_seconds

-- A feedback that stands: its value is `value / 10 ^ decimals`.
pub record Feedback : Type 0 where
  pub index : ℕ
  pub value : ℕ
  pub decimals : ℕ

-- `valueOf(f) === spendable`, over exact ratios
pub is_value : ℕ → Feedback → Bool
is_value spendable f = f.value == spendable * 10 ^ f.decimals

-- `live.find(…)`, and `live.filter((f) => f !== keep)`, which leaves out that one feedback.
pub find_value : ℕ → List Feedback → Option Feedback
unfolding is_value
find_value spendable [] = none
find_value spendable (f ∷ live) = if is_value spendable f then some f else find_value spendable live

pub others : ℕ → List Feedback → List Feedback
unfolding is_value
others spendable [] = []
others spendable (f ∷ live) = if is_value spendable f then live else f ∷ others spendable live

pub record Plan : Type 0 where
  pub revoke : List ℕ
  pub post : Bool

-- `planUpdate`
pub plan_update : Option ℕ → List Feedback → Plan
unfolding find_value others
plan_update none live = record { revoke = map (λ f. f.index) live; post = false }
plan_update (some spendable) live = elim (find_value spendable live) [
  | none ↦ record { revoke = map (λ f. f.index) live; post = true }
  | some keep ↦ record { revoke = map (λ f. f.index) (others spendable live); post = false }
]

-- `mayPostNow`; `lastDay` is null before the first post.
pub may_post_now : Option ℕ → ℕ → Bool → Bool
unfolding utc_day
may_post_now last_day now_seconds zeroed =
    zeroed || (elim last_day [ none ↦ true | some day ↦ not (day == utc_day now_seconds) ])

pub data GateProblem : Type 0 where
  no_wallet wallet_differs no_answer signer_differs low_balance txs_pending : GateProblem

-- /^0x0{40}$/i
all_zero : Text → Bool
all_zero [] = true
all_zero (c ∷ s) = c == b'0' && all_zero s

pub is_zero_address : Text → Bool
unfolding all_zero
is_zero_address [] = false
is_zero_address (a ∷ []) = false
is_zero_address (a ∷ x ∷ s) = a == b'0' && (x == b'x' || x == b'X') && length s == 40 && all_zero s

abbrev pub no_wallet_set : Option Text → Bool
no_wallet_set none = true
no_wallet_set (some []) = true
no_wallet_set (some (c ∷ s)) = is_zero_address (c ∷ s)

abbrev same : Option Text → Text → Bool
same a b = text_eq (lower (elim a [ none ↦ [] | some x ↦ x ])) (lower b)

abbrev problem_if : Bool → GateProblem → List GateProblem → List GateProblem
problem_if test p ps = if test then p ∷ ps else ps

-- `liveGateProblems`
pub live_gate_problems : Text → Option Text → Option Text → ℕ → ℕ → ℕ → List GateProblem
unfolding is_zero_address text_eq lower
live_gate_problems publisher agent_wallet signer balance min_balance pending_txs =
    let pending = problem_if (ltb 0 pending_txs) txs_pending [] in
    let low = problem_if (ltb balance min_balance) low_balance pending in
    let signs : List GateProblem = elim signer [
      | none ↦ no_answer ∷ low
      | some s ↦ problem_if (not (same (some s) publisher)) signer_differs low
    ] in
    if no_wallet_set agent_wallet
    then no_wallet ∷ signs
    else problem_if (not (same agent_wallet publisher)) wallet_differs signs
