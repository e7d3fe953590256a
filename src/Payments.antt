-- ===== src/Payments.antt =====
-- oracle/payments.js: decayed weights, the volume and outcomes of each payer, and what they are
-- capped to. BigInt amounts and weights are natural numbers; a trust weight is in thousandths.
pub mod Groups
pub mod Limits
pub mod Trust
mod Tests
use sigvara.Prelude.{
  ℕ, zero, suc, ◌+◌, ◌-◌, ◌*◌, ◌/◌, ◌≤◌, ◌≡◌, min, Option, none, some, Bool, true, false, List, [],
  ◌∷◌, ltb, leb, ◌==◌, if◌then◌else◌, ◌||◌, length,
}
use sigvara.Prelude.Text.{Text, lower, text_eq}
use sigvara.Event.{Event}
use sigvara.Scoring.Caps

-- `WEIGHT_SCALE`, `TRUST_SCALE`, `MAX_HARD_SCORE`
abbrev pub weight_scale : ℕ
weight_scale = 1_000_000

abbrev pub trust_scale : ℕ
trust_scale = 1_000

abbrev pub max_hard_score : ℕ
max_hard_score = Caps.external

-- `Math.round(Math.pow(0.5, age / half_life) * 1e6)`, of the host's floating point.
pub record HalfLife : Type 0 where
  pub half_pow : ℕ → ℕ → ℕ
  pub half_pow-le : (age half_life : ℕ) → half_pow age half_life ≤ weight_scale

-- `hasOutcome`
pub has_outcome : Event → Bool
has_outcome e = elim e.success [ none ↦ false | some _ ↦ true ]

pub succeeded : Event → Bool
succeeded e = elim e.success [ none ↦ false | some b ↦ b ]

-- What `byPayer` adds up for one payer.
pub record Account : Type 0 where
  pub volume : ℕ
  pub weight : ℕ
  pub success_weight : ℕ

abbrev pub no_account : Account
no_account = record { volume = 0; weight = 0; success_weight = 0 }

-- A `Map` from payers to accounts, in insertion order.
abbrev pub Accounts : Type 0
Accounts = List (Text × Account)

-- `map.set(key, f(map.get(key) ?? none))`
pub update : Text → (Account → Account) → Accounts → Accounts
update key f [] = (key, f no_account) ∷ []
update key f ((k, a) ∷ m) = if text_eq k key then (k, f a) ∷ m else (k, a) ∷ update key f m

-- The settings that scoring reads.
pub record Config : Type 0 where
  pub fee_unit : ℕ
  pub half_life_ms : ℕ
  pub max_per_payer : ℕ
  pub trust_weight : ℕ

-- `payerScores`, by lower-case address; `none` where the source passes null.
abbrev pub PayerScores : Type 0
PayerScores = Option (Text → ℕ)

-- `Math.max(0, Math.min(MAX_HARD_SCORE, payerScores[key] || 0))`
abbrev pub hard_score : (Text → ℕ) → Text → ℕ
hard_score scores payer = min max_hard_score (scores (lower payer))

-- `Math.round(trustMultiplier(...) * 1000)`: one and the clamped hard score's share of the trust
-- weight, rounded half up.
pub trust_multiplier : Text → PayerScores → ℕ → ℕ
trust_multiplier payer none trust_weight = trust_scale
trust_multiplier payer (some scores) trust_weight =
    (2 * (trust_scale * max_hard_score + hard_score scores payer * trust_weight) + max_hard_score)
    / (2 * max_hard_score)

-- `cappedAt`
pub capped_at : ℕ → Text → PayerScores → ℕ → ℕ
capped_at base payer scores trust_weight =
    base * trust_multiplier payer scores trust_weight / trust_scale

-- Successful and total outcomes in thousandths.
pub record Attestations : Type 0 where
  pub successful : ℕ
  pub total : ℕ

abbrev pub in_thousandths : ℕ × ℕ → Attestations
in_thousandths (successful, total) = record {
  successful = successful / 1_000;
  total = total / 1_000;
}

-- The smaller of a payer's volume and its cap, over the whole map.
pub capped_volume : (Text → ℕ) → Accounts → ℕ
capped_volume limit [] = 0
capped_volume limit ((payer, a) ∷ m) =
    (if ltb (limit payer) a.volume then limit payer else a.volume) + capped_volume limit m

-- The loop of `diversifiedAttestations`: a payer over its cap keeps its rate of success.
pub capped_outcomes : (Text → ℕ) → Accounts → ℕ × ℕ
capped_outcomes limit [] = (0, 0)
capped_outcomes limit ((payer, a) ∷ m) =
    let (successful, total) = capped_outcomes limit m in
    if leb a.weight (limit payer)
    then (a.success_weight + successful, a.weight + total)
    else (a.success_weight * limit payer / a.weight + successful, limit payer + total)

-- `feeScoreFromVolume`
pub fee_score_from_volume : ℕ → ℕ → ℕ → ℕ
fee_score_from_volume volume fee_unit top =
    if fee_unit == 0 then 0 else if ltb top (volume / fee_unit) then top else volume / fee_unit

-- `propagationScore`: the trust of each payer counts once.
pub seen_has : Text → List Text → Bool
seen_has key [] = false
seen_has key (k ∷ seen) = text_eq k key || seen_has key seen

pub trust_sum : (Text → ℕ) → List Text → List Event → ℕ
unfolding seen_has
trust_sum scores seen [] = 0
trust_sum scores seen (e ∷ es) =
    let key = lower e.payer in
    let skipped = trust_sum scores seen es in
    let counted = hard_score scores key + trust_sum scores (key ∷ seen) es in
    if seen_has key seen then skipped else counted

pub propagation_score : List Event → PayerScores → ℕ → ℕ
propagation_score events none top = 0
propagation_score events (some scores) top = min top (trust_sum scores [] events / max_hard_score)

module _ (hl : HalfLife) where
  -- `decayWeight`
  pub decay_weight : ℕ → ℕ → ℕ
  decay_weight age half_life =
      if half_life == 0
      then weight_scale
      else if age == 0
      then weight_scale
      else hl.half_pow age half_life

  -- One event's share of `decayedVolume`.
  pub decayed_amount : ℕ → ℕ → Event → ℕ
  unfolding decay_weight
  decayed_amount half_life now e = e.amount * decay_weight (now - e.ts) half_life / weight_scale

  -- `decayedVolume`
  pub decayed_volume : List Event → ℕ → ℕ → ℕ
  unfolding decayed_amount
  decayed_volume [] half_life now = 0
  decayed_volume (e ∷ es) half_life now =
      decayed_amount half_life now e + decayed_volume es half_life now

  -- The weight of an event's outcome, and of its success; both 0 where none was reported.
  pub outcome_weight : ℕ → ℕ → Event → ℕ
  unfolding has_outcome
  outcome_weight half_life now e = if has_outcome e then decay_weight (now - e.ts) half_life else 0

  pub success_weight_of : ℕ → ℕ → Event → ℕ
  unfolding succeeded
  success_weight_of half_life now e = if succeeded e then decay_weight (now - e.ts) half_life else 0

  pub decayed_outcomes : List Event → ℕ → ℕ → ℕ × ℕ
  unfolding outcome_weight success_weight_of
  decayed_outcomes [] half_life now = (0, 0)
  decayed_outcomes (e ∷ es) half_life now =
      let (successful, total) = decayed_outcomes es half_life now in
      (success_weight_of half_life now e + successful, outcome_weight half_life now e + total)

  -- `decayedAttestations`
  pub decayed_attestations : List Event → ℕ → ℕ → Attestations
  decayed_attestations events half_life now = in_thousandths (decayed_outcomes events half_life now)

  -- The body of the loop of `byPayer`.
  pub add_event : ℕ → ℕ → Event → Account → Account
  unfolding decayed_amount outcome_weight success_weight_of
  add_event half_life now e a = record {
    volume = a.volume + decayed_amount half_life now e;
    weight = a.weight + outcome_weight half_life now e;
    success_weight = a.success_weight + success_weight_of half_life now e;
  }

  pub by_payer_from : Accounts → List Event → ℕ → ℕ → Accounts
  unfolding add_event update
  by_payer_from m [] half_life now = m
  by_payer_from m (e ∷ es) half_life now =
      by_payer_from (update (lower e.payer) (add_event half_life now e) m) es half_life now

  -- `byPayer`
  pub by_payer : List Event → ℕ → ℕ → Accounts
  unfolding by_payer_from
  by_payer events half_life now = by_payer_from [] events half_life now

  -- `diversifiedVolume`
  pub diversified_volume : List Event → Config → ℕ → PayerScores → ℕ
  unfolding decayed_volume by_payer capped_volume capped_at
  diversified_volume events cfg now scores =
      if cfg.max_per_payer == 0
      then decayed_volume events cfg.half_life_ms now
      else capped_volume
          (λ payer. capped_at (cfg.fee_unit * cfg.max_per_payer) payer scores cfg.trust_weight)
          (by_payer events cfg.half_life_ms now)

  -- `diversifiedAttestations`
  pub diversified_attestations : List Event → Config → ℕ → PayerScores → Attestations
  unfolding decayed_attestations by_payer capped_outcomes capped_at
  diversified_attestations events cfg now scores =
      if cfg.max_per_payer == 0
      then decayed_attestations events cfg.half_life_ms now
      else in_thousandths (
          capped_outcomes
            (λ payer. capped_at (cfg.max_per_payer * weight_scale) payer scores cfg.trust_weight)
            (by_payer events cfg.half_life_ms now))

  -- `distinctPayers`
  pub distinct_payers : List Event → ℕ → ℕ → ℕ
  unfolding by_payer
  distinct_payers events half_life now = length (by_payer events half_life now)
