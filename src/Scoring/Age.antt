-- ===== src/Scoring/Age.antt =====
-- The tenure curve is the logarithm that it is meant to be.
use sigvara.Prelude.{
  ℕ, zero, suc, ◌+◌, ◌*◌, ◌^◌, ◌≤◌, ◌<◌, ◌≡◌, ◌↔◌, inl, inr, arith, leb, false, ◌==◌, if◌then◌else◌,
  ap, subst, leb→le, leb-false→lt, Bool-cases,
}
use native.Mathlib.Nat.{
  pow-le-pow_right, mul-le-mul_right, pow-le-pow_left, le_trans, le_refl, zero-add,
}
use native.Mathlib.Decide.{dec_le}
use sigvara.Scoring.Caps
use sigvara.Scoring.{floor_log2, age_curve, day_ms}

pub floor_log2-le : (bound num den : ℕ) → floor_log2 bound num den ≤ bound
unfolding floor_log2
floor_log2-le zero num den = omega arith
floor_log2-le (suc k) num den = ground (arith, floor_log2-le k num den)

pow_mono : (j k d : ℕ) → j ≤ k → 2 ^ j * d ≤ 2 ^ k * d
pow_mono j k d h = mul-le-mul_right d (pow-le-pow_right (omega arith) h)

floor_log2_sound : (bound num den : ℕ) → den ≤ num → 2 ^ floor_log2 bound num den * den ≤ num
unfolding floor_log2
floor_log2_sound zero num den h = omega arith
floor_log2_sound (suc k) num den h = elim (Bool-cases (leb (2 ^ suc k * den) num)) [
  | inl p ↦ rw (p, floor_log2) (leb→le _ _ p)
  | inr p ↦ rw (p, floor_log2) (floor_log2_sound k num den h)
]

floor_log2_complete :
    (bound num den k : ℕ) → k ≤ bound → 2 ^ k * den ≤ num → k ≤ floor_log2 bound num den
unfolding floor_log2
floor_log2_complete zero num den k h fits = h
floor_log2_complete (suc b) num den k h fits = elim (Bool-cases (leb (2 ^ suc b * den) num)) [
  | inl p ↦ rw (p, floor_log2) h
  | inr p ↦ rw (p, floor_log2) (floor_log2_complete b num den k (below p) fits)
]
  where
    below : leb (2 ^ suc b * den) num ≡ false → k ≤ b
    below p = elim (dec_le k b) [
      | yes q ↦ q
      | no q ↦
          let e : k ≡ suc b = omega arith in
          absurd (omega (arith, leb-false→lt _ _ p, subst (λ t. 2 ^ t * den ≤ num) e fits))
    ]

curve_iff :
    (top span day k : ℕ)
    → 0 < day
    → k ≤ top
    → (k ≤ (if span == 0 then 0 else floor_log2 top ((span + day) ^ 3) (day ^ 3)))
      ↔ (2 ^ k * day ^ 3 ≤ (span + day) ^ 3)
curve_iff top zero day zero pos h =
    (λ _. omega (arith, ap (λ t. t ^ 3) (zero-add day)), λ _. omega arith)
curve_iff top zero day (suc k) pos h = (
  λ n. absurd (omega arith),
  λ fits. omega (
    arith,
    pow_mono 1 (suc k) (day ^ 3) (omega arith),
    fits,
    ap (λ t. t ^ 3) (zero-add day),
    pow-le-pow_left pos 3,
  ),
)
curve_iff top (suc span) day k pos h =
    let den≤num : day ^ 3 ≤ (suc span + day) ^ 3 = pow-le-pow_left (omega arith) 3 in
    let some_time : (suc span == 0) ≡ false = ground arith in
    rw some_time (
      λ n.
          le_trans (pow_mono k (floor_log2 top ((suc span + day) ^ 3) (day ^ 3)) (day ^ 3) n)
            (floor_log2_sound top ((suc span + day) ^ 3) (day ^ 3) den≤num),
      λ fits. floor_log2_complete top ((suc span + day) ^ 3) (day ^ 3) k h fits,
    )

-- Up to the cap, the curve reaches `k` points exactly when the number of days plus one, cubed,
-- reaches `2 ^ k`: it is `floor(3 * log2(days + 1))`.
pub age_curve_iff :
    (span k : ℕ) → k ≤ Caps.age → (k ≤ age_curve span) ↔ (2 ^ k * day_ms ^ 3 ≤ (span + day_ms) ^ 3)
unfolding age_curve
age_curve_iff span k h = curve_iff Caps.age span day_ms k (omega arith) h

pub age_curve-le : (span : ℕ) → age_curve span ≤ Caps.age
unfolding age_curve
age_curve-le span = ground (arith, floor_log2-le Caps.age ((span + day_ms) ^ 3) (day_ms ^ 3))

-- A longer span never scores lower.
pub age_curve_mono : (a b : ℕ) → a ≤ b → age_curve a ≤ age_curve b
age_curve_mono a b h =
    let reached = (age_curve_iff a (age_curve a) (age_curve-le a)).0 (le_refl _) in
    (age_curve_iff b (age_curve a) (age_curve-le a)).1
      (le_trans reached (pow-le-pow_left (omega arith) 3))
