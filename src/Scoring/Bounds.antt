-- ===== src/Scoring/Bounds.antt =====
-- No factor of a score passes the cap that the contract enforces.
use sigvara.Prelude.{ℕ, ◌+◌, ◌-◌, ◌*◌, ◌/◌, ◌≤◌, ◌≡◌, Option, none, some, arith, min}
use native.Mathlib.Nat.{mul-le-mul, div-le_of_le-mul, min-le_left}
use sigvara.Scoring.Caps
use sigvara.Scoring.{
  Evidence, Score, Activity, Number, nan, infinity, minus_infinity, ratio, minus_ratio, age_score,
  age_curve, clamp_trunc, fee_factor, community_score, compute_score, millionth, or_zero,
}
use sigvara.Scoring.Age.{age_curve-le}
use sigvara.Scoring.Success.{success_score-le}

scaled-le : (x r cap : ℕ) → x ≤ cap → x * min millionth r / millionth ≤ cap
scaled-le x r cap h =
    div-le_of_le-mul millionth (omega (arith, mul-le-mul h (min-le_left millionth r)))

age_score-le :
    (registered_at : ℕ) (activity : Option Activity) (now_ms : ℕ)
    → age_score registered_at activity now_ms ≤ Caps.age
unfolding age_score
age_score-le r none now = age_curve-le _
age_score-le r (some a) now = ground (
  arith,
  scaled-le (age_curve ((a.last_activity_sec - a.first_activity_sec) * 1000)) (or_zero a.recency) 30
      (age_curve-le ((a.last_activity_sec - a.first_activity_sec) * 1000)),
)

clamp_trunc-le : (cap : ℕ) (x : Number) → clamp_trunc cap x ≤ cap
unfolding clamp_trunc
clamp_trunc-le cap nan = omega arith
clamp_trunc-le cap infinity = omega arith
clamp_trunc-le cap minus_infinity = omega arith
clamp_trunc-le cap (ratio n d) = omega arith
clamp_trunc-le cap (minus_ratio n d) = omega arith

fee_factor-le : (measured : Option ℕ) (total : ℕ) → fee_factor measured total ≤ Caps.fee
unfolding fee_factor
fee_factor-le none total = omega arith
fee_factor-le (some m) total = omega arith

community_score-le : (flags : ℕ) → community_score flags ≤ Caps.community
unfolding community_score
community_score-le flags = omega arith

-- Each factor lies within the contract's cap, and the total is their sum.
pub record IsProposable (s : Score) : Type 0 where
  pub fee : s.fee ≤ Caps.fee
  pub success : s.success ≤ Caps.success
  pub age : s.age ≤ Caps.age
  pub external : s.external ≤ Caps.external
  pub community : s.community ≤ Caps.community
  pub propagation : s.propagation ≤ Caps.propagation
  pub adds_up : s.total ≡ s.fee + s.success + s.age + s.external + s.community + s.propagation
  pub in_range : s.total ≤ 100

-- For any evidence with no more successes than outcomes, every factor of the score is within its
-- cap, the total is the sum of the six factors, and it is at most 100.
pub compute_score-IsProposable :
    (e : Evidence) → e.successful ≤ e.total → IsProposable (compute_score e)
unfolding compute_score
compute_score-IsProposable e h = omega (
  arith,
  fee_factor-le e.measured_fee e.total,
  success_score-le e.successful e.total e.prior h,
  age_score-le e.registered_at e.activity e.now_ms,
  clamp_trunc-le Caps.external e.external,
  community_score-le (or_zero e.flags),
  clamp_trunc-le Caps.propagation e.propagation,
)
