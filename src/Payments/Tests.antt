-- ===== src/Payments/Tests.antt =====
-- Volumes of concrete payments, and the theorems at an input that meets their hypotheses.
use sigvara.Prelude.{
  Bool, List, Option, [], arith, false, min, none, refl, some, true, ℕ, ◌*◌, ◌/◌, ◌^◌, ◌∷◌, ◌≡◌,
  ◌≤◌,
}
use sigvara.Prelude.Text.{Text, lower, text_eq}
use sigvara.Payments.{
  distinct_payers, diversified_volume, trust_multiplier, by_payer, weight_scale, trust_scale,
  HalfLife, Config,
}
use sigvara.Payments.Groups.{volume_from, account_of, volume-account_of-by_payer}
use sigvara.Payments.Limits.{top_cap, diversified_volume-le-payers}
use sigvara.Event.{Event}
use native.Mathlib.Nat.{div-le_self}

-- Halves of the weight by whole half-lives: a half-life function that the theorems accept.
abbrev step_half : ℕ → ℕ → ℕ
step_half age half_life = weight_scale / 2 ^ min (age / half_life) 20

step_half-le : (age half_life : ℕ) → step_half age half_life ≤ weight_scale
step_half-le age half_life = div-le_self weight_scale (2 ^ min (age / half_life) 20)

abbrev whole_steps : HalfLife
whole_steps = record { half_pow = step_half; half_pow-le = step_half-le }

abbrev paid : Text → ℕ → ℕ → Option Bool → Event
paid payer amount ts success = record {
  tx_hash = [];
  ts = ts;
  amount = amount;
  payer = payer;
  success = success;
  packet_id = none;
  block_number = none;
  chain_id = none;
  payer_outcome = none;
}

-- The first payer's address comes in two cases, and its volume passes the cap of 400.
abbrev payments : List Event
payments =
    paid (b'A' ∷ []) 300 1_000 (some true)
    ∷ paid (b'b' ∷ []) 90 1_000 none
    ∷ paid (b'a' ∷ []) 900 0 (some false)
    ∷ []

abbrev config : Config
config = record { fee_unit = 100; half_life_ms = 1_000; max_per_payer = 4; trust_weight = 1_000 }

diversified_volume-payments :
    (diversified_volume whole_steps payments config 1_000 none ≡ 490)
    × (distinct_payers whole_steps payments 1_000 1_000 ≡ 2)
unfolding diversified_volume distinct_payers lower text_eq trust_multiplier
diversified_volume-payments = (refl, refl)

diversified_volume-le-payers_example :
    diversified_volume whole_steps payments config 1_000 none * trust_scale
    ≤ distinct_payers whole_steps payments 1_000 1_000 * top_cap config
diversified_volume-le-payers_example =
    diversified_volume-le-payers whole_steps payments config 1_000 none (omega arith)

volume-account_of-by_payer_example :
    (account_of (b'a' ∷ []) (by_payer whole_steps payments 1_000 1_000)).volume
    ≡ volume_from whole_steps 1_000 1_000 (b'a' ∷ []) payments
volume-account_of-by_payer_example =
    volume-account_of-by_payer whole_steps 1_000 1_000 (b'a' ∷ []) payments
