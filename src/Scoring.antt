-- ===== src/Scoring.antt =====
-- oracle/scoring.js and oracle/score-caps.js: the six factors of a score.
-- JavaScript's fractions are exact rationals here: an outcome count is in thousandths, as
-- `decayedAttestations` makes it, a flag count and a recency in millionths, a time in milliseconds.
pub mod Caps
pub mod Age
pub mod Bounds
pub mod Success
mod Tests
use sigvara.Prelude.{
  ℕ, zero, suc, ◌+◌, ◌-◌, ◌*◌, ◌/◌, ◌^◌, min, Option, none, some, Bool, ltb, leb, ◌==◌, ◌||◌,
  if◌then◌else◌,
}

abbrev pub millionth : ℕ
millionth = 1_000_000

abbrev pub day_ms : ℕ
day_ms = 86_400_000

abbrev pub success_prior : ℕ
success_prior = 5

-- `feeScore`
pub fee_score : ℕ → ℕ
fee_score attestation_total = min Caps.fee (attestation_total / 10)

-- `successScore`, of thousandths.
pub success_score : ℕ → ℕ → ℕ → ℕ
success_score successful total prior =
    if total == 0 then 0 else successful * Caps.success / (total + prior * 1000)

-- The largest `k` up to the bound with `2 ^ k ≤ num / den`: `min(bound, floor(log2(num / den)))`.
pub floor_log2 : ℕ → ℕ → ℕ → ℕ
floor_log2 zero num den = 0
floor_log2 (suc k) num den =
    let lower = floor_log2 k num den in if leb (2 ^ suc k * den) num then suc k else lower

-- `ageCurve`, of a span in milliseconds: three times the logarithm of a number of days is the
-- logarithm of its cube.
pub age_curve : ℕ → ℕ
age_curve span = if span == 0 then 0 else floor_log2 Caps.age ((span + day_ms) ^ 3) (day_ms ^ 3)

pub record Activity : Type 0 where
  pub first_activity_sec : ℕ
  pub last_activity_sec : ℕ
  pub recency : Option ℕ

-- `activity.recency ?? 0`
abbrev pub or_zero : Option ℕ → ℕ
or_zero none = 0
or_zero (some r) = r

-- `ageScore`: without an activity the span runs from the registration.
pub age_score : ℕ → Option Activity → ℕ → ℕ
unfolding age_curve
age_score registered_at none now_ms = age_curve (now_ms - registered_at * 1000)
age_score registered_at (some a) now_ms =
    if a.first_activity_sec == 0 || a.last_activity_sec == 0
    then 0
    else age_curve ((a.last_activity_sec - a.first_activity_sec) * 1000)
      * min millionth (or_zero a.recency)
      / millionth

-- `communityScore`, of millionths of a flag.
pub community_score : ℕ → ℕ
community_score unresolved_flags = (Caps.community * millionth - unresolved_flags * 2) / millionth

-- A JavaScript number: a rational, or one of the three values that are none.
pub data Number : Type 0 where
  nan infinity minus_infinity : Number
  ratio minus_ratio : ℕ → ℕ → Number

-- `Math.max(0, Math.min(cap, Math.trunc(x) || 0))`
pub clamp_trunc : ℕ → Number → ℕ
clamp_trunc cap nan = 0
clamp_trunc cap infinity = cap
clamp_trunc cap minus_infinity = 0
clamp_trunc cap (ratio n d) = min cap (n / d)
clamp_trunc cap (minus_ratio n d) = 0

pub record Evidence : Type 0 where
  pub registered_at : ℕ
  pub successful : ℕ
  pub total : ℕ
  pub flags : Option ℕ
  pub external : Number
  pub measured_fee : Option ℕ
  pub prior : ℕ
  pub activity : Option Activity
  pub propagation : Number
  pub now_ms : ℕ

pub record Score : Type 0 where
  pub fee : ℕ
  pub success : ℕ
  pub age : ℕ
  pub external : ℕ
  pub community : ℕ
  pub propagation : ℕ
  pub total : ℕ

-- The fee factor of `computeScore`: measured volume if there is any, else the count of whole
-- attestations.
pub fee_factor : Option ℕ → ℕ → ℕ
unfolding fee_score
fee_factor none total = min Caps.fee (total / 10_000)
fee_factor (some measured) total = min Caps.fee measured

-- `computeScore`
pub compute_score : Evidence → Score
compute_score e =
    let fs = fee_factor e.measured_fee e.total in
    let ss = success_score e.successful e.total e.prior in
    let as' = age_score e.registered_at e.activity e.now_ms in
    let es = clamp_trunc Caps.external e.external in
    let cs = community_score (or_zero e.flags) in
    let ps = clamp_trunc Caps.propagation e.propagation in
    record {
      fee = fs;
      success = ss;
      age = as';
      external = es;
      community = cs;
      propagation = ps;
      total = fs + ss + as' + es + cs + ps;
    }
