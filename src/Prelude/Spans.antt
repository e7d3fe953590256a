-- ===== src/Prelude/Spans.antt =====
-- `for (start = from; start <= to; start += chunk)` over [start, min(start + chunk - 1, to)], and
-- what these spans cover.
use sigvara.Prelude.Tests.{leb, if◌then◌else◌}
use sigvara.Prelude.{List, [], arith, min, refl, suc, zero, ℕ, ◌&&◌, ◌+◌, ◌-◌, ◌<◌, ◌∷◌, ◌≡◌, ◌≤◌}

unfoldable pub spans : ℕ → ℕ → ℕ → ℕ → List (ℕ × ℕ)
spans zero from to chunk = []
spans (suc fuel) from to chunk =
    let rest = spans fuel (from + chunk) to chunk in
    if leb from to then (from, min (from + chunk - 1) to) ∷ rest else []

-- A block is in this many spans.
unfoldable pub times_in : ℕ → List (ℕ × ℕ) → ℕ
times_in b [] = 0
times_in b ((start, end) ∷ ss) = (if leb start b && leb b end then 1 else 0) + times_in b ss

pub times_in-spans_below :
    (fuel from to chunk b : ℕ) → b < from → times_in b (spans fuel from to chunk) ≡ 0
unfolding spans times_in
times_in-spans_below zero from to chunk b lt = refl
times_in-spans_below (suc fuel) from to chunk b lt =
    ground (arith, times_in-spans_below fuel (from + chunk) to chunk b)

-- With a step for each block, every block of the range is in one span and no other block is.
pub times_in-spans :
    (fuel from to chunk b : ℕ)
    → 0 < chunk
    → to + 1 - from ≤ fuel
    → times_in b (spans fuel from to chunk) ≡ (if leb from b && leb b to then 1 else 0)
unfolding spans times_in
times_in-spans zero from to chunk b pos enough = ground arith
times_in-spans (suc fuel) from to chunk b pos enough = ground (
  arith,
  times_in-spans fuel (from + chunk) to chunk b,
  times_in-spans_below fuel (from + chunk) to chunk b,
)
