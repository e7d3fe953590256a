-- ===== src/Payments/Limits.antt =====
-- What a set of payers can be worth at most.
use sigvara.Prelude.{
  ℕ, ◌+◌, ◌*◌, ◌/◌, ◌≤◌, ◌<◌, ◌≡◌, none, some, false, List, [], ◌∷◌, arith, inl, inr, Bool-cases,
  length, ltb, ◌==◌,
}
use native.Mathlib.Nat.{
  mul-le-mul_right, mul-le-mul_left, div-le_of_le-mul, div-mul-le_self, le_trans, min-le_left,
}
use sigvara.Prelude.Text.{Text, lower}
use sigvara.Event.{Event}
use sigvara.Payments.{
  Accounts, Config, PayerScores, HalfLife, capped_volume, capped_outcomes, capped_at,
  trust_multiplier, trust_scale, weight_scale, max_hard_score, decayed_volume, by_payer,
  diversified_volume, diversified_attestations, distinct_payers, fee_score_from_volume,
  decayed_outcomes, decayed_attestations,
}
use sigvara.Payments.Groups.{
  total_volume, total_volume-by_payer, IsSound, by_payer-IsSound, success_weight_of-le,
}

capped_volume-le-total : (limit : Text → ℕ) (m : Accounts) → capped_volume limit m ≤ total_volume m
unfolding capped_volume total_volume
capped_volume-le-total limit [] = omega arith
capped_volume-le-total limit ((p, a) ∷ m) = ground (arith, capped_volume-le-total limit m)

capped_volume-le-length :
    (limit : Text → ℕ) (top : ℕ) (m : Accounts)
    → ((payer : Text) → limit payer ≤ top)
    → capped_volume limit m ≤ length m * top
unfolding capped_volume
capped_volume-le-length limit top [] h = omega arith
capped_volume-le-length limit top ((p, a) ∷ m) h =
    ground (arith, capped_volume-le-length limit top m h, h p)

-- A payer's own standing raises its cap by at most the trust weight.
pub trust_multiplier-le :
    (payer : Text) (scores : PayerScores) (trust_weight : ℕ)
    → trust_multiplier payer scores trust_weight ≤ trust_scale + trust_weight
unfolding trust_multiplier
trust_multiplier-le payer none tw = omega arith
trust_multiplier-le payer (some s) tw =
    omega (arith, mul-le-mul_right tw (min-le_left max_hard_score (s (lower payer))))

pub trust_scale-le-trust_multiplier :
    (payer : Text) (scores : PayerScores) (trust_weight : ℕ)
    → trust_scale ≤ trust_multiplier payer scores trust_weight
unfolding trust_multiplier
trust_scale-le-trust_multiplier payer none tw = omega arith
trust_scale-le-trust_multiplier payer (some s) tw = omega arith

abbrev pub top_cap : Config → ℕ
top_cap cfg = cfg.fee_unit * cfg.max_per_payer * (trust_scale + cfg.trust_weight)

capped_at-le :
    (base : ℕ) (payer : Text) (scores : PayerScores) (trust_weight : ℕ)
    → capped_at base payer scores trust_weight ≤ base * (trust_scale + trust_weight) / trust_scale
unfolding capped_at
capped_at-le base payer scores tw =
    omega (arith, mul-le-mul_left base (trust_multiplier-le payer scores tw))

-- The successes that count are among the outcomes that count, whatever the limits.
capped_outcomes-le :
    (limit : Text → ℕ) (m : Accounts)
    → IsSound m
    → (capped_outcomes limit m).0 ≤ (capped_outcomes limit m).1
unfolding capped_outcomes
capped_outcomes-le limit [] h = omega arith
capped_outcomes-le limit ((p, a) ∷ m) h = ground (
  arith,
  capped_outcomes-le limit m h.1,
  div-le_of_le-mul a.weight (mul-le-mul_right (limit p) h.0),
)

-- A score's factor from a volume: `feeScoreFromVolume` pays one point for each whole unit.
pub fee_score_from_volume-le :
    (volume fee_unit top : ℕ)
    → (fee_score_from_volume volume fee_unit top ≤ top)
      × (fee_score_from_volume volume fee_unit top * fee_unit ≤ volume)
unfolding fee_score_from_volume
fee_score_from_volume-le volume fee_unit top = elim (Bool-cases (ltb top (volume / fee_unit))) [
  | inl over ↦ ground (
    arith,
    div-mul-le_self volume fee_unit,
    mul-le-mul_right {m = top} {n = volume / fee_unit} fee_unit,
  )
  | inr under ↦ ground (arith, div-mul-le_self volume fee_unit)
]

decayed_outcomes_ordered :
    (hl : HalfLife) (es : List Event) (half_life now : ℕ)
    → (decayed_outcomes hl es half_life now).0 ≤ (decayed_outcomes hl es half_life now).1
unfolding decayed_outcomes
decayed_outcomes_ordered hl [] half_life now = omega arith
decayed_outcomes_ordered hl (e ∷ es) half_life now =
    omega
      (arith, decayed_outcomes_ordered hl es half_life now, success_weight_of-le hl half_life now e)

div_mono : (a b : ℕ) → a ≤ b → a / 1_000 ≤ b / 1_000
div_mono a b h = omega arith

module _ (hl : HalfLife) (events : List Event) (cfg : Config) (now : ℕ) (scores : PayerScores) where
  -- The cap only ever takes away: diversified volume is at most the decayed volume.
  pub diversified_volume-le-decayed :
      diversified_volume hl events cfg now scores ≤ decayed_volume hl events cfg.half_life_ms now
  unfolding diversified_volume
  diversified_volume-le-decayed = ground (
    arith,
    total_volume-by_payer hl cfg.half_life_ms now events,
    capped_volume-le-total
        (λ payer. capped_at (cfg.fee_unit * cfg.max_per_payer) payer scores cfg.trust_weight)
        (by_payer hl events cfg.half_life_ms now),
  )

  -- With a cap per payer, the volume that counts is at most the number of distinct payers times
  -- the cap at its highest multiplier, however much each of them pays and however often.
  pub diversified_volume-le-payers :
      0 < cfg.max_per_payer
      → diversified_volume hl events cfg now scores * trust_scale
        ≤ distinct_payers hl events cfg.half_life_ms now * top_cap cfg
  unfolding diversified_volume distinct_payers
  diversified_volume-le-payers capped =
      let base : ℕ = cfg.fee_unit * cfg.max_per_payer in
      let groups : Accounts = by_payer hl events cfg.half_life_ms now in
      let limit : Text → ℕ = λ payer. capped_at base payer scores cfg.trust_weight in
      let top : ℕ = base * (trust_scale + cfg.trust_weight) / trust_scale in
      let on : (cfg.max_per_payer == 0) ≡ false = ground arith in
      rw on (
        le_trans
          (mul-le-mul_right trust_scale (
            capped_volume-le-length limit top groups
              (λ p. capped_at-le base p scores cfg.trust_weight)))
          (omega (
            arith,
            mul-le-mul_left (length groups)
                (div-mul-le_self (base * (trust_scale + cfg.trust_weight)) trust_scale),
          )))

  -- What `computeScore` is given: the successes are never more than the outcomes.
  pub diversified_attestations_ordered :
      let outcomes = diversified_attestations hl events cfg now scores in
      outcomes.successful ≤ outcomes.total
  unfolding diversified_attestations decayed_attestations
  diversified_attestations_ordered =
      let groups : Accounts = by_payer hl events cfg.half_life_ms now in
      let limit : Text → ℕ =
        λ payer. capped_at (cfg.max_per_payer * weight_scale) payer scores cfg.trust_weight in
      elim (Bool-cases (cfg.max_per_payer == 0)) [
        | inl off ↦ rw off (div_mono _ _ (decayed_outcomes_ordered hl events cfg.half_life_ms now))
        | inr on ↦ rw on (
            div_mono _ _
              (capped_outcomes-le limit groups (by_payer-IsSound hl cfg.half_life_ms now events)))
      ]
