-- ===== src/Scoring/Success.antt =====
-- The success rate stays within its cap, and moves with what is reported.
use sigvara.Prelude.{
  ℕ, zero, suc, ◌+◌, ◌*◌, ◌/◌, ◌≤◌, ◌<◌, ◌≡◌, refl, inl, inr, arith, ◌==◌, Bool-cases,
}
use native.Mathlib.Nat.{
  mul-le-mul_right, mul-le-mul_left, le_trans, le-div_iff_mul-le, div-mul-le_self,
  le_of_mul-le-mul_right, div-le_of_le-mul,
}
use sigvara.Scoring.Caps
use sigvara.Scoring.{success_score}

-- Fractions compare crosswise.
div_le_div : (a b c d : ℕ) → 0 < b → 0 < d → a * d ≤ c * b → a / b ≤ c / d
div_le_div a b c d pb pd h =
    let low : a / b * d * b ≤ c * b =
      le_trans (omega (arith, mul-le-mul_right d (div-mul-le_self a b))) h in
    (le-div_iff_mul-le pd).1 (le_of_mul-le-mul_right low pb)

pub success_score-le :
    (successful total prior : ℕ)
    → successful ≤ total
    → success_score successful total prior ≤ Caps.success
unfolding success_score
success_score-le s t p h = elim (Bool-cases (t == 0)) [
  | inl z ↦ rw z (omega arith)
  | inr n ↦ rw n (div-le_of_le-mul (t + p * 1000) (omega arith))
]

success_score_pos :
    (successful total prior : ℕ)
    → 0 < total
    → success_score successful total prior ≡ successful * 15 / (total + prior * 1000)
unfolding success_score
success_score_pos s t p h = ground arith

success_score_zero : (successful prior : ℕ) → success_score successful 0 prior ≡ 0
unfolding success_score
success_score_zero s p = refl

-- With no more successes than outcomes, one more success of any weight never lowers the factor.
pub success_score_add_success :
    (successful total prior weight : ℕ)
    → successful ≤ total
    → success_score successful total prior
      ≤ success_score (successful + weight) (total + weight) prior
success_score_add_success s zero p w h = rw (success_score_zero s p) (omega arith)
success_score_add_success s (suc t) p w h =
    rw
      (
        success_score_pos s (suc t) p (omega arith),
        success_score_pos (s + w) (suc t + w) p (omega arith),
      )
      (div_le_div (s * 15) (suc t + p * 1000) ((s + w) * 15) (suc t + w + p * 1000) (omega arith)
        (omega arith) (omega (arith, mul-le-mul_left w h)))

-- One more failure of any weight never raises it.
pub success_score_add_failure :
    (successful total prior weight : ℕ)
    → 0 < total
    → success_score successful (total + weight) prior ≤ success_score successful total prior
success_score_add_failure s t p w h =
    rw (success_score_pos s t p h, success_score_pos s (t + w) p (omega arith))
      (div_le_div (s * 15) (t + w + p * 1000) (s * 15) (t + p * 1000) (omega arith) (omega arith)
        (mul-le-mul_left (s * 15) (omega arith)))
