-- ===== src/Payments/Trust.antt =====
-- Trust inherited from payers, and what a set of identities can buy of the fee factor.
use sigvara.Prelude.{
  ℕ, suc, ◌+◌, ◌*◌, ◌≤◌, ◌<◌, ◌≡◌, refl, none, some, false, List, [], ◌∷◌, arith, inl, inr,
  Bool-cases, length, Bool, if◌then◌else◌, ◌||◌, ◌∙◌,
}
use native.Mathlib.Nat.{min-le_left, mul-le-mul_right, le_of_mul-le-mul_right, zero-add}
use sigvara.Prelude.Text.{Text, lower, text_eq, text_eq_sound}
use sigvara.Event.{Event}
use sigvara.Scoring.Caps
use sigvara.Payments.{
  Config, PayerScores, HalfLife, max_hard_score, trust_sum, propagation_score, seen_has,
  diversified_volume, distinct_payers, fee_score_from_volume, trust_scale, Accounts, update,
  by_payer_from, Account, add_event, by_payer,
}
use sigvara.Payments.Limits.{fee_score_from_volume-le, diversified_volume-le-payers}

-- The payers that `trust_sum` counts: each lower-case address once.
pub new_payers : List Text → List Event → ℕ
new_payers seen [] = 0
new_payers seen (e ∷ es) =
    let rest = new_payers seen es in
    let more = suc (new_payers (lower e.payer ∷ seen) es) in
    if seen_has (lower e.payer) seen then rest else more

trust_sum-le :
    (scores : Text → ℕ) (seen : List Text) (es : List Event)
    → trust_sum scores seen es ≤ max_hard_score * new_payers seen es
unfolding trust_sum new_payers
trust_sum-le scores seen [] = omega arith
trust_sum-le scores seen (e ∷ es) = ground (
  arith,
  trust_sum-le scores seen es,
  trust_sum-le scores (lower e.payer ∷ seen) es,
  min-le_left max_hard_score (scores (lower (lower e.payer))),
)

holds : Text → Accounts → Bool
holds key [] = false
holds key ((k, a) ∷ m) = text_eq k key || holds key m

holds-update :
    (key k : Text) (f : Account → Account) (m : Accounts)
    → holds key (update k f m) ≡ (text_eq k key || holds key m)
unfolding holds update
holds-update key k f [] = ground arith
holds-update key k f ((j, a) ∷ m) = ground (arith, holds-update key k f m, text_eq_sound j k)

length-update :
    (k : Text) (f : Account → Account) (m : Accounts)
    → length (update k f m) ≡ (if holds k m then length m else suc (length m))
unfolding holds update
length-update k f [] = refl
length-update k f ((j, a) ∷ m) = ground (arith, length-update k f m)

length-by_payer_from :
    (hl : HalfLife) (m : Accounts) (seen : List Text) (es : List Event) (half_life now : ℕ)
    → ((key : Text) → seen_has key seen ≡ holds key m)
    → length (by_payer_from hl m es half_life now) ≡ length m + new_payers seen es
unfolding by_payer_from new_payers seen_has
length-by_payer_from hl m seen [] half_life now same = omega arith
length-by_payer_from hl m seen (e ∷ es) half_life now same =
    let key : Text = lower e.payer in
    let add : Account → Account = add_event hl half_life now e in
    elim (Bool-cases (seen_has key seen)) [
      | inl old ↦ rw old (
          length-by_payer_from hl (update key add m) seen es half_life now
            (λ k. ground (arith, same k, holds-update k key add m, text_eq_sound key k))
          ∙ ground (arith, length-update key add m, same key))
      | inr new ↦ rw new (
          length-by_payer_from hl (update key add m) (key ∷ seen) es half_life now
            (λ k. ground (arith, same k, holds-update k key add m))
          ∙ ground (arith, length-update key add m, same key))
    ]

pub distinct_payers-eq-new_payers :
    (hl : HalfLife) (es : List Event) (half_life now : ℕ)
    → distinct_payers hl es half_life now ≡ new_payers [] es
unfolding distinct_payers by_payer seen_has holds
distinct_payers-eq-new_payers hl es half_life now =
    length-by_payer_from hl [] [] es half_life now (λ key. refl) ∙ zero-add _

-- Inherited trust is capped, and each distinct payer adds at most one point, however often it
-- pays and whatever its score.
pub propagation_score-le-payers :
    (hl : HalfLife) (events : List Event) (scores : PayerScores) (top half_life now : ℕ)
    → (propagation_score events scores top ≤ top)
      × (propagation_score events scores top ≤ distinct_payers hl events half_life now)
unfolding propagation_score
propagation_score-le-payers hl es none top half_life now = (omega arith, omega arith)
propagation_score-le-payers hl es (some scores) top half_life now =
    rw (distinct_payers-eq-new_payers hl es half_life now)
      (omega arith, omega (arith, trust_sum-le scores [] es))

-- The fee factor that `computeScore` is given is at most its cap, and it costs: each point takes a
-- fee unit of volume from payers whose number times the cap bounds the whole.
pub fee_points-le-payers :
    (hl : HalfLife) (events : List Event) (cfg : Config) (now : ℕ) (scores : PayerScores)
    → 0 < cfg.max_per_payer
    → 0 < cfg.fee_unit
    → let points =
        fee_score_from_volume (diversified_volume hl events cfg now scores) cfg.fee_unit Caps.fee in
      (points ≤ Caps.fee)
      × (points * trust_scale
          ≤ distinct_payers hl events cfg.half_life_ms now
            * (cfg.max_per_payer * (trust_scale + cfg.trust_weight)))
fee_points-le-payers hl events cfg now scores capped unit =
    let volume : ℕ = diversified_volume hl events cfg now scores in
    let points : ℕ = fee_score_from_volume volume cfg.fee_unit Caps.fee in
    let payers : ℕ = distinct_payers hl events cfg.half_life_ms now in
    let each : ℕ = cfg.max_per_payer * (trust_scale + cfg.trust_weight) in
    let (low, paid) = fee_score_from_volume-le volume cfg.fee_unit Caps.fee in
    (
      low,
      le_of_mul-le-mul_right {m = points * trust_scale} {n = payers * each} {k = cfg.fee_unit}
          (omega (
            arith,
            mul-le-mul_right trust_scale paid,
            diversified_volume-le-payers hl events cfg now scores capped,
          ))
          unit,
    )
