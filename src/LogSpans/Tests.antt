-- ===== src/LogSpans/Tests.antt =====
-- A node that answers for two blocks at most.
use sigvara.LogSpans.{Answer, read_splitting}
use sigvara.LogSpans.Reads.{IsNode, logs_of, span_logs, read_splitting-IsNode}
use sigvara.Prelude.{
  Bool-cases, List, [], arith, if◌then◌else◌, inl, inr, ltb, refl, ℕ, ◌+◌, ◌∷◌, ◌≡◌,
}

abbrev itself : ℕ → List ℕ
itself block = block ∷ []

abbrev two_at_most : ℕ → ℕ → Answer ℕ
two_at_most a b = if ltb (a + 1) b then Answer.too_big else Answer.logs (span_logs itself a b)

two_at_most-IsNode : IsNode itself two_at_most
unfolding IsNode
two_at_most-IsNode a b le = elim (Bool-cases (ltb (a + 1) b)) [
  | inl big ↦ rw big (inr (ground arith, refl))
  | inr small ↦ rw small (inl refl)
]

read_splitting_runs : read_splitting two_at_most 4 3 7 ≡ Answer.logs (3 ∷ 4 ∷ 5 ∷ 6 ∷ 7 ∷ [])
unfolding read_splitting logs_of
read_splitting_runs = refl

read_splitting-IsNode_example :
    read_splitting two_at_most 4 3 7 ≡ Answer.logs (span_logs itself 3 7)
read_splitting-IsNode_example =
    read_splitting-IsNode itself two_at_most 4 3 7 two_at_most-IsNode (omega arith) (omega arith)
