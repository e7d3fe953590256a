-- ===== src/EpochPolicy.antt =====
-- oracle/epoch-policy.js: what an epoch does about a pending proposal, for the operator that
-- proposes and for the one that checks; the settings that it refuses; chunked reads.
pub mod Decisions
pub mod Divergences
pub mod Agreements
pub mod Chunks
mod Tests
use sigvara.Prelude.{
  Bool, List, Option, [], drop, false, if◌then◌else◌, leb, length, ltb, map, max, none, not, some,
  suc, take, true, zero, ℕ, ◌*◌, ◌++◌, ◌+◌, ◌-◌, ◌/◌, ◌==◌, ◌||◌, ◌∷◌,
}

-- `SCORE_FACTORS`
pub data Factor : Type 0 where
  fee success age external community propagation : Factor

abbrev pub score_factors : List Factor
score_factors = fee ∷ success ∷ age ∷ external ∷ community ∷ propagation ∷ []

-- Scores by factor; `none` where the value is not a finite number.
abbrev pub Factors : Type 0
Factors = Factor → Option ℕ

pub record Pending : Type 0 where
  pub exists : Bool
  pub finalizable_at : ℕ
  pub proposed_at : ℕ
  pub scores : Factors

pub data Action : Type 0 where
  propose finalize_then_propose skip : Action

-- `finalizableAtOf`: a proposal with no stored time was made before they were kept.
unfoldable pub finalizable_at_of : Pending → ℕ → ℕ
finalizable_at_of p window =
    if ltb 0 p.finalizable_at then p.finalizable_at else p.proposed_at + window

-- `decideAction`
unfoldable pub decide_action : Option Pending → ℕ → ℕ → Action
decide_action none window now = propose
decide_action (some p) window now =
    if not p.exists
    then propose
    else if leb (finalizable_at_of p window) now
    then finalize_then_propose
    else skip

-- `epochIntervalError`, for an interval in milliseconds; `none` where the setting is no number.
pub data IntervalError : Type 0 where
  not_a_number too_short too_long : IntervalError

abbrev pub max_timer_ms : ℕ
max_timer_ms = 2_147_483_647

abbrev pub min_epoch_ms : ℕ
min_epoch_ms = 60_000

pub epoch_interval_error : Option ℕ → Option IntervalError
epoch_interval_error none = some not_a_number
epoch_interval_error (some ms) =
    if ltb ms min_epoch_ms
    then some too_short
    else if ltb max_timer_ms ms
    then some too_long
    else none

pub record Divergence : Type 0 where
  pub total : ℕ
  pub max_factor : ℕ
  pub pending_total : ℕ
  pub own_total : ℕ
  pub factors : List (Factor × ℕ × ℕ)
  pub comparable : Bool

-- `Math.abs(a - b)`
abbrev pub abs_diff : ℕ → ℕ → ℕ
abs_diff a b = (a - b) + (b - a)

abbrev pub agreed : Divergence
agreed = record {
  total = 0;
  max_factor = 0;
  pending_total = 0;
  own_total = 0;
  factors = [];
  comparable = true;
}

-- One round of the loop of `scoreDivergence`, and of the maximum that it takes of the factors.
pub compare_factor : Factor → Option ℕ → Option ℕ → Divergence → Divergence
compare_factor f (some p) (some o) d = record d {
  pending_total = p + d.pending_total;
  own_total = o + d.own_total;
  factors = if p == o then d.factors else (f, p, o) ∷ d.factors;
  max_factor = if p == o then d.max_factor else max (abs_diff o p) d.max_factor;
}
compare_factor f none o d = record d { comparable = false }
compare_factor f (some p) none d = record d { comparable = false }

pub compare_factors : List Factor → Factors → Factors → Divergence
unfolding compare_factor
compare_factors [] pending own = agreed
compare_factors (f ∷ fs) pending own =
    compare_factor f (pending f) (own f) (compare_factors fs pending own)

-- `scoreDivergence`
pub score_divergence : Factors → Factors → Divergence
unfolding compare_factors
score_divergence pending own =
    let d = compare_factors score_factors pending own in
    record d { total = abs_diff d.own_total d.pending_total }

abbrev pub max_divergence_tolerance : ℕ
max_divergence_tolerance = 10

pub data CheckerAction : Type 0 where
  propose defer_propose diverged skip finalize defer_finalize : CheckerAction

-- `decideCheckerAction`; a tolerance of `none` is one that is not a finite number.
pub record Grace : Type 0 where
  pub grace_seconds : ℕ
  pub empty_since : ℕ

pub out_of_tolerance : Divergence → Option ℕ → Bool
out_of_tolerance d none = true
out_of_tolerance d (some tolerance) =
    not d.comparable || ltb tolerance d.total || ltb tolerance d.max_factor

pub decide_checker_action : Option Pending → Factors → ℕ → ℕ → Option ℕ → Grace → CheckerAction
unfolding out_of_tolerance
decide_checker_action none own window now tolerance g =
    if leb (g.empty_since + g.grace_seconds) now
    then CheckerAction.propose
    else CheckerAction.defer_propose
decide_checker_action (some p) own window now tolerance g =
    if not p.exists
    then if leb (g.empty_since + g.grace_seconds) now
      then CheckerAction.propose
      else CheckerAction.defer_propose
    else if out_of_tolerance (score_divergence p.scores own) tolerance
    then CheckerAction.diverged
    else if ltb now (finalizable_at_of p window)
    then CheckerAction.skip
    else if leb (finalizable_at_of p window + g.grace_seconds) now
    then CheckerAction.finalize
    else CheckerAction.defer_finalize

-- `CHECKER_GRACE_MINUTES` as it was read, a number of minutes being counted in milliseconds.
pub data GraceSetting : Type 0 where
  unset invalid : GraceSetting
  minutes_ms : ℕ → GraceSetting

-- `checkerGraceMs`; `none` is the error.
pub checker_grace_ms : GraceSetting → ℕ → Option ℕ
checker_grace_ms unset epoch_ms = some (2 * epoch_ms)
checker_grace_ms invalid epoch_ms = none
checker_grace_ms (minutes_ms ms) epoch_ms = if ltb ms epoch_ms then none else some ms

-- `mapChunked`: the slices that are read together, in order.
pub slices {ℓ} : {A : Type ℓ} → ℕ → ℕ → List A → List (List A)
slices zero size items = []
slices (suc fuel) size [] = []
slices (suc fuel) size (x ∷ xs) = take size (x ∷ xs) ∷ slices fuel size (drop size (x ∷ xs))

pub map_slices {ℓ κ} : {A : Type ℓ} {B : Type κ} → (A → B) → List (List A) → List B
map_slices f [] = []
map_slices f (s ∷ ss) = map f s ++ map_slices f ss

-- `none` is the TypeError of a size that is no positive integer.
pub map_chunked {ℓ κ} : {A : Type ℓ} {B : Type κ} → List A → ℕ → (A → B) → Option (List B)
unfolding slices map_slices
map_chunked items size f =
    if size == 0 then none else some (map_slices f (slices (length items) size items))

-- `clockSkewError`: whether the chain's clock is too far from the host's.
pub clock_skew_error : Option ℕ → ℕ → ℕ → Bool
clock_skew_error none host_ms max_skew_ms = true
clock_skew_error (some chain_sec) host_ms max_skew_ms =
    not (leb (abs_diff (chain_sec * 1000) host_ms) max_skew_ms)

-- `scoringIsStale`
pub scoring_is_stale : Option ℕ → ℕ → ℕ → ℕ → Bool
scoring_is_stale none now_ms uptime_ms epoch_ms = leb (epoch_ms * 2) uptime_ms
scoring_is_stale (some last_ms) now_ms uptime_ms epoch_ms = leb (epoch_ms * 2) (now_ms - last_ms)

abbrev pub max_batch_calls : ℕ
max_batch_calls = 20

-- `chunkForReads`, of a positive number of reads.
pub chunk_for_reads : ℕ → ℕ
chunk_for_reads reads_per_item = max 1 (max_batch_calls / reads_per_item)
