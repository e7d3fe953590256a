-- ===== src/LogSpans/Reads.antt =====
-- What is read in halves is what a node without a limit would give.
use mathlib.Core.List.{append_assoc}
use sigvara.LogSpans.{Answer, read_splitting}
use sigvara.Prelude.{
  List, [], suc, zero, ℕ, ◌++◌, ◌+◌, ◌-◌, ◌≡◌, arith, inl, inr, refl, ◌/◌, ◌<◌, ◌≤◌, ◌⊎◌, sym,
}

module _ {A : Type 0} (at_block : ℕ → List A) where
  -- The logs of so many blocks from one on.
  unfoldable pub logs_of : ℕ → ℕ → List A
  logs_of from zero = []
  logs_of from (suc n) = at_block from ++ logs_of (from + 1) n

  -- The logs of a span, both ends included.
  abbrev pub span_logs : ℕ → ℕ → List A
  span_logs from to = logs_of from (to + 1 - from)

  logs_of-append :
      (from m n k next : ℕ)
      → k ≡ m + n
      → next ≡ from + m
      → logs_of from k ≡ logs_of from m ++ logs_of next n
  unfolding logs_of
  logs_of-append from zero n k next total at =
      let same : k ≡ n = omega arith in let here : next ≡ from = omega arith in rw (same, here) refl
  logs_of-append from (suc m) n zero next total at = ground arith
  logs_of-append from (suc m) n (suc k) next total at =
      rw (logs_of-append (from + 1) m n k next (omega arith) (omega arith))
        (sym (append_assoc (at_block from) (logs_of (from + 1) m) (logs_of next n)))

  span_logs-split :
      (from mid to : ℕ)
      → from ≤ mid
      → mid < to
      → span_logs from to ≡ span_logs from mid ++ span_logs (mid + 1) to
  span_logs-split from mid to low high =
      logs_of-append from (mid + 1 - from) (to + 1 - (mid + 1)) (to + 1 - from) (mid + 1)
        (omega arith) (omega arith)

  -- A node with a limit: it gives a span's logs or refuses it as too big, never a single block.
  unfoldable pub IsNode : (ℕ → ℕ → Answer A) → Type 0
  IsNode read =
      (a b : ℕ)
      → a ≤ b
      → (read a b ≡ Answer.logs (span_logs a b)) ⊎ ((a < b) × (read a b ≡ Answer.too_big))

  -- Whatever limit a node has, the splitting reads the whole span: from a node that refuses spans
  -- but no single block, with as many steps as the span has blocks after its first, it returns the
  -- logs of every block of the span, in order and once.
  pub read_splitting-IsNode :
      (read : ℕ → ℕ → Answer A) (fuel from to : ℕ)
      → IsNode read
      → from ≤ to
      → to - from ≤ fuel
      → read_splitting read fuel from to ≡ Answer.logs (span_logs from to)
  unfolding read_splitting IsNode
  read_splitting-IsNode read zero from to node le enough = elim (node from to le) [
    | inl whole ↦ whole
    | inr refused ↦ ground (arith, refused.0)
  ]
  read_splitting-IsNode read (suc fuel) from to node le enough = elim (node from to le) [
    | inl whole ↦ rw (read_splitting, whole) refl
    | inr refused ↦
        let mid : ℕ = from + (to - from) / 2 in
        let left =
          read_splitting-IsNode read fuel from mid node (omega arith) (omega (arith, refused.0)) in
        let right =
          read_splitting-IsNode read fuel (mid + 1) to node (omega (arith, refused.0))
            (omega (arith, refused.0)) in
        let whole = span_logs-split from mid to (omega arith) (omega (arith, refused.0)) in
        rw (read_splitting, refused.1) (ground (arith, left, right, whole, refused.0))
  ]
