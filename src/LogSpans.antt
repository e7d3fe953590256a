-- ===== src/LogSpans.antt =====
-- oracle/log-spans.js: a span of blocks that the node refuses as too big is read in halves.
pub mod Reads
mod Tests
use sigvara.Prelude.{ℕ, List, if◌then◌else◌, leb, suc, zero, ◌++◌, ◌+◌, ◌-◌, ◌/◌}

-- What a read ends in: its logs, a refusal that `tooBig` accepts as one of size, or another error.
pub data Answer (A : Type 0) : Type 0 where
  logs : List A → Answer A
  too_big read_failed : Answer A

module _ {A : Type 0} where
  -- `join`, and the error of a half as that of the whole.
  pub join_halves : Answer A → Answer A → Answer A
  join_halves (logs l) (logs r) = logs (l ++ r)
  join_halves (logs l) too_big = too_big
  join_halves (logs l) read_failed = read_failed
  join_halves too_big r = too_big
  join_halves read_failed r = read_failed

  -- `readSplitting`; each half is shorter, so as many steps as the span has blocks are enough. The
  -- right half is read only where the left one was, which reads of a fixed chain do not show.
  pub read_splitting : (ℕ → ℕ → Answer A) → ℕ → ℕ → ℕ → Answer A
  unfolding join_halves
  read_splitting read zero from to = read from to
  read_splitting read (suc fuel) from to =
      let mid = from + (to - from) / 2 in
      let left = read_splitting read fuel from mid in
      let right = read_splitting read fuel (mid + 1) to in
      elim (read from to) [
        | logs l ↦ logs l
        | read_failed ↦ read_failed
        | too_big ↦ if leb to from then too_big else join_halves left right
      ]
