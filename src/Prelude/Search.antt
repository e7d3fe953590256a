-- ===== src/Prelude/Search.antt =====
-- Binary search for the first index at which a test passes.
use sigvara.Prelude.{
  Bool, Bool-cases, arith, false, if◌then◌else◌, inl, inr, ltb, suc, true, zero, ℕ, ◌+◌, ◌-◌, ◌/◌,
  ◌<◌, ◌≡◌, ◌≤◌,
}
use native.Mathlib.Decide.{dec_lt}

-- `while (lo < hi) { mid = (lo + hi) >> 1; if (test(mid)) hi = mid; else lo = mid + 1; }`
unfoldable pub first_passing : ℕ → (ℕ → Bool) → ℕ → ℕ → ℕ
first_passing zero test lo hi = lo
first_passing (suc fuel) test lo hi =
    let mid = (lo + hi) / 2 in
    let below = first_passing fuel test lo mid in
    let above = first_passing fuel test (mid + 1) hi in
    if ltb lo hi then (if test mid then below else above) else lo

-- A test that passes from some index on.
abbrev pub IsMonotone : (ℕ → Bool) → Type 0
IsMonotone test = (i j : ℕ) → i ≤ j → test i ≡ true → test j ≡ true

-- The first index of a range at which a test passes, or the range's end.
pub record IsFirst (test : ℕ → Bool) (lo hi k : ℕ) : Type 0 where
  pub low : lo ≤ k
  pub high : k ≤ hi
  pub before : (i : ℕ) → lo ≤ i → i < k → test i ≡ false
  pub after : (i : ℕ) → k ≤ i → i < hi → test i ≡ true

false_below :
    (test : ℕ → Bool) (mid i : ℕ) → IsMonotone test → test mid ≡ false → i ≤ mid → test i ≡ false
false_below test mid i mono h le = elim (Bool-cases (test i)) [
  | inr no_pass ↦ no_pass
  | inl pass ↦ cc (mono i mid le pass)
]

pub first_passing-IsFirst :
    (fuel : ℕ) (test : ℕ → Bool) (lo hi : ℕ)
    → IsMonotone test
    → lo ≤ hi
    → hi - lo ≤ fuel
    → IsFirst test lo hi (first_passing fuel test lo hi)
unfolding first_passing
first_passing-IsFirst zero test lo hi mono le enough = record {
  low = omega arith;
  high = omega arith;
  before = λ i l h. absurd (omega arith);
  after = λ i l h. absurd (omega arith);
}
first_passing-IsFirst (suc fuel) test lo hi mono le enough = elim (Bool-cases (ltb lo hi)) [
  | inr empty ↦
      rw (empty, first_passing)
        (record {
          low = omega arith;
          high = le;
          before = λ i l h. absurd (omega arith);
          after = λ i l h. absurd (ground arith);
        })
  | inl more ↦
      let mid : ℕ = (lo + hi) / 2 in
      let inside : (lo ≤ mid) × (mid < hi) = ground arith in
      elim (Bool-cases (test mid)) [
        | inl pass ↦
            let r = first_passing-IsFirst fuel test lo mid mono inside.0 (omega arith) in
            rw (more, pass, first_passing)
              (record {
                low = r.low;
                high = omega (arith, r.high);
                before = r.before;
                after = λ i l h. elim (dec_lt i mid) [
                  | yes q ↦ r.after i l q
                  | no q ↦ mono mid i (omega arith) pass
                ];
              })
        | inr fails ↦
            let r = first_passing-IsFirst fuel test (mid + 1) hi mono (omega arith) (omega arith) in
            rw (more, fails, first_passing)
              (record {
                low = omega (arith, r.low);
                high = r.high;
                before = λ i l h. elim (dec_lt mid i) [
                  | yes q ↦ r.before i (omega arith) h
                  | no q ↦ false_below test mid i mono fails (omega arith)
                ];
                after = r.after;
              })
      ]
]
