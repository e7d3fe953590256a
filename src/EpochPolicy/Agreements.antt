-- ===== src/EpochPolicy/Agreements.antt =====
-- When the checker finalizes, in terms of the factors that the two operators have.
use sigvara.EpochPolicy.{
  decide_checker_action, finalizable_at_of, score_factors, compare_factor, compare_factors,
  abs_diff, score_divergence, Divergence, Factor, Pending, Factors, Grace, CheckerAction,
}
use sigvara.EpochPolicy.Divergences.{Differs, compare_factors-Shows, every_factor}
use sigvara.EpochPolicy.Decisions.{decide_checker_action-finalize}
use sigvara.Prelude.{
  Bool-cases, List, Option, [], arith, inl, inr, leb, none, refl, some, true, ℕ, ◌+◌, ◌↔◌, ◌∷◌, ◌≡◌,
  ◌≤◌, ◌⊎◌, leb-false→lt, leb→le,
}

-- Both sides have a number for the factor, and the two differ by no more than the tolerance.
abbrev pub Agrees : Option ℕ → Option ℕ → ℕ → Type 0
Agrees p o tolerance = (a b : ℕ) × (p ≡ some a) × (o ≡ some b) × (abs_diff b a ≤ tolerance)

-- The six factors of one side together.
abbrev pub number : Option ℕ → ℕ
number none = 0
number (some n) = n

abbrev pub sum_of : Factors → ℕ
sum_of s =
    number (s Factor.fee)
    + number (s Factor.success)
    + number (s Factor.age)
    + number (s Factor.external)
    + number (s Factor.community)
    + number (s Factor.propagation)

Agrees-or-Differs : (p o : Option ℕ) (tolerance : ℕ) → Agrees p o tolerance ⊎ Differs p o tolerance
Agrees-or-Differs none o t = inr tt
Agrees-or-Differs (some a) none t = inr tt
Agrees-or-Differs (some a) (some b) t = elim (Bool-cases (leb (abs_diff b a) t)) [
  | inl near ↦ inl (a, b, refl, refl, leb→le (abs_diff b a) t near)
  | inr far ↦ inr (leb-false→lt (abs_diff b a) t far)
]

sum_over : List Factor → Factors → ℕ
sum_over [] s = 0
sum_over (f ∷ fs) s = number (s f) + sum_over fs s

abbrev IsNear : ℕ → Divergence → ℕ → ℕ → Type 0
IsNear tolerance d own pending =
    (d.comparable ≡ true)
    × (d.max_factor ≤ tolerance)
    × (d.own_total ≡ own)
    × (d.pending_total ≡ pending)

compare_factor-IsNear :
    (f : Factor) (p o : Option ℕ) (d : Divergence) (tolerance own pending : ℕ)
    → Agrees p o tolerance
    → IsNear tolerance d own pending
    → IsNear tolerance (compare_factor f p o d) (number o + own) (number p + pending)
unfolding compare_factor
compare_factor-IsNear f none o d t own pending (a, b, h, k, le) near = absurd (ground (arith, h))
compare_factor-IsNear f (some p) none d t own pending (a, b, h, k, le) near =
    absurd (ground (arith, k))
compare_factor-IsNear f (some p) (some o) d t own pending (a, b, h, k, le) near =
    let same : (p ≡ a) × (o ≡ b) = ground (arith, h, k) in
    (
      near.0,
      ground (arith, le, near.1, same.0, same.1),
      omega (arith, near.2),
      omega (arith, near.3),
    )

compare_factors-IsNear :
    (fs : List Factor) (pending own : Factors) (tolerance : ℕ)
    → ((f : Factor) → Agrees (pending f) (own f) tolerance)
    → IsNear tolerance (compare_factors fs pending own) (sum_over fs own) (sum_over fs pending)
unfolding compare_factors sum_over
compare_factors-IsNear [] pending own t h = (refl, omega arith, refl, refl)
compare_factors-IsNear (f ∷ fs) pending own t h =
    compare_factor-IsNear f (pending f) (own f) (compare_factors fs pending own) t (sum_over fs own)
      (sum_over fs pending) (h f) (compare_factors-IsNear fs pending own t h)

score_divergence-near :
    (pending own : Factors) (tolerance : ℕ)
    → ((f : Factor) → Agrees (pending f) (own f) tolerance)
    → let d = score_divergence pending own in
      (d.comparable ≡ true)
      × (d.max_factor ≤ tolerance)
      × (d.total ≡ abs_diff (sum_of own) (sum_of pending))
unfolding score_divergence sum_over
score_divergence-near pending own t h =
    let near = compare_factors-IsNear score_factors pending own t h in
    (near.0, near.1, omega (arith, near.2, near.3))

score_divergence-Agrees :
    (pending own : Factors) (tolerance : ℕ)
    → (score_divergence pending own).comparable ≡ true
    → (score_divergence pending own).max_factor ≤ tolerance
    → (f : Factor) → Agrees (pending f) (own f) tolerance
unfolding score_divergence
score_divergence-Agrees pending own t whole near f =
    elim (Agrees-or-Differs (pending f) (own f) t) [
      | inl agrees ↦ agrees
      | inr differs ↦
          let shown =
            compare_factors-Shows score_factors pending own f t (every_factor f) differs in
          absurd (ground (arith, whole, near, shown))
    ]

-- The checker finalizes a pending proposal exactly where both sides have a number for each factor,
-- these differ by no more than the tolerance in each factor and in their sum, and the proposal
-- could be finalized a grace or more ago.
pub decide_checker_action-Agrees :
    (p : Pending) (own : Factors) (window now tolerance : ℕ) (g : Grace)
    → (decide_checker_action (some p) own window now (some tolerance) g ≡ CheckerAction.finalize)
      ↔ ((p.exists ≡ true)
          × ((f : Factor) → Agrees (p.scores f) (own f) tolerance)
          × (abs_diff (sum_of own) (sum_of p.scores) ≤ tolerance)
          × (finalizable_at_of p window + g.grace_seconds ≤ now))
decide_checker_action-Agrees p own window now tolerance g =
    let flat = decide_checker_action-finalize p own window now tolerance g in
    (
      λ h.
          let (there, whole, total, near, due) = flat.0 h in
          let agree = score_divergence-Agrees p.scores own tolerance whole near in
          let sums = score_divergence-near p.scores own tolerance agree in
          (there, agree, omega (arith, total, sums.2), due),
      λ (there, agree, total, due).
          let near = score_divergence-near p.scores own tolerance agree in
          flat.1 (there, near.0, omega (arith, total, near.2), near.1, due),
    )
