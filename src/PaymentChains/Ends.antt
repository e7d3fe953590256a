-- ===== src/PaymentChains/Ends.antt =====
-- How many agents a scan has to look up.
use sigvara.PaymentChains.{end_from, add_block, scan_end, agents_at}
use sigvara.Prelude.{
  All, Bool-cases, List, [], arith, false, if◌then◌else◌, inl, inr, leb, length, ltb, ltb-false→le,
  ltb→lt, lt→ltb, max, refl, true, ℕ, ◌+◌, ◌-◌, ◌<◌, ◌==◌, ◌∷◌, ◌≡◌, ◌≤◌,
}
use sigvara.Prelude.Text.{Text}
use native.Mathlib.Decide.{dec_lt}

-- The reads that the blocks up to an end need: one for each and one for each agent paid in it.
pub reads_to : ℕ → List (ℕ × List Text) → ℕ
reads_to end [] = 0
reads_to end ((block, dids) ∷ m) =
    if leb block end then length dids + 1 + reads_to end m else reads_to end m

-- Blocks in ascending order, above one.
pub IsAscending : ℕ → List (ℕ × List Text) → Type 0
IsAscending low [] = Unit
IsAscending low ((block, dids) ∷ m) = (low < block) × IsAscending block m

reads_to_below :
    (end low : ℕ) (m : List (ℕ × List Text)) → IsAscending low m → end ≤ low → reads_to end m ≡ 0
unfolding reads_to IsAscending
reads_to_below end low [] asc le = refl
reads_to_below end low ((block, dids) ∷ m) asc le =
    ground (arith, asc.0, reads_to_below end block m asc.1)

end_from-over :
    (reads block to max_reads : ℕ) (dids : List Text) (m : List (ℕ × List Text))
    → ltb max_reads (reads + length dids + 1) ≡ true
    → end_from reads false ((block, dids) ∷ m) to max_reads ≡ block - 1
unfolding end_from
end_from-over reads block to max_reads dids m over = ground (arith, over)

end_from-fits :
    (reads block to max_reads : ℕ) (dids : List Text) (m : List (ℕ × List Text))
    → ltb max_reads (reads + length dids + 1) ≡ false
    → end_from reads false ((block, dids) ∷ m) to max_reads
      ≡ end_from (reads + length dids + 1) false m to max_reads
unfolding end_from
end_from-fits reads block to max_reads dids m fits = ground (arith, fits)

reads_to-nil : (end : ℕ) → reads_to end [] ≡ 0
unfolding reads_to
reads_to-nil end = refl

reads_to-cons :
    (end block : ℕ) (dids : List Text) (m : List (ℕ × List Text))
    → reads_to end ((block, dids) ∷ m) ≤ length dids + 1 + reads_to end m
unfolding reads_to
reads_to-cons end block dids m = ground arith

-- An end just below the first block leaves nothing to read.
reads_to_before :
    (end block : ℕ) (dids : List Text) (m : List (ℕ × List Text))
    → end ≡ block - 1
    → 0 < block
    → IsAscending block m
    → reads_to end ((block, dids) ∷ m) ≡ 0
unfolding IsAscending
reads_to_before end block dids m at pos asc =
    reads_to_below end (block - 1) ((block, dids) ∷ m) (omega arith, asc) (omega arith)

reads_to-end_from :
    (reads low to max_reads : ℕ) (m : List (ℕ × List Text))
    → IsAscending low m
    → reads ≤ max_reads
    → reads + reads_to (end_from reads false m to max_reads) m ≤ max_reads
unfolding IsAscending
reads_to-end_from reads low to max_reads [] asc le =
    omega (arith, reads_to-nil (end_from reads false [] to max_reads))
reads_to-end_from reads low to max_reads ((block, dids) ∷ m) asc le =
    let end : ℕ = end_from reads false ((block, dids) ∷ m) to max_reads in
    elim (Bool-cases (ltb max_reads (reads + length dids + 1))) [
      | inl over ↦ omega (
        arith,
        reads_to_before end block dids m (end_from-over reads block to max_reads dids m over)
            (omega (arith, asc.0)) asc.1,
      )
      | inr fits ↦
          let rest =
            reads_to-end_from (reads + length dids + 1) block to max_reads m asc.1
              (ltb-false→le max_reads (reads + length dids + 1) fits) in
          rw (end_from-fits reads block to max_reads dids m fits) (
            omega (
              arith,
              rest,
              reads_to-cons (end_from (reads + length dids + 1) false m to max_reads) block dids m,
            ))
    ]

-- Past the limit nothing more is read.
reads_to-end_from_over :
    (reads low to max_reads : ℕ) (m : List (ℕ × List Text))
    → IsAscending low m
    → max_reads < reads
    → reads_to (end_from reads false m to max_reads) m ≡ 0
unfolding IsAscending
reads_to-end_from_over reads low to max_reads [] asc lt =
    reads_to-nil (end_from reads false [] to max_reads)
reads_to-end_from_over reads low to max_reads ((block, dids) ∷ m) asc lt =
    reads_to_before (end_from reads false ((block, dids) ∷ m) to max_reads) block dids m
      (end_from-over reads block to max_reads dids m
        (lt→ltb max_reads (reads + length dids + 1) (omega arith)))
      (omega (arith, asc.0)) asc.1

-- What the first block alone needs.
pub first_reads : List (ℕ × List Text) → ℕ
first_reads [] = 0
first_reads ((block, dids) ∷ m) = length dids + 1

end_from_first :
    (block to max_reads : ℕ) (dids : List Text) (m : List (ℕ × List Text))
    → end_from 0 true ((block, dids) ∷ m) to max_reads
      ≡ end_from (0 + length dids + 1) false m to max_reads
unfolding end_from
end_from_first block to max_reads dids m = ground arith

reads_to-end_first :
    (to max_reads : ℕ) (m : List (ℕ × List Text))
    → IsAscending 0 m
    → reads_to (end_from 0 true m to max_reads) m ≤ max max_reads (first_reads m)
unfolding IsAscending first_reads
reads_to-end_first to max_reads [] asc =
    omega (arith, reads_to-nil (end_from 0 true [] to max_reads))
reads_to-end_first to max_reads ((block, dids) ∷ m) asc =
    let end : ℕ = end_from (0 + length dids + 1) false m to max_reads in
    let parts = reads_to-cons end block dids m in
    rw (end_from_first block to max_reads dids m) (elim (dec_lt max_reads (length dids + 1)) [
      | yes over ↦ omega (
        arith,
        parts,
        reads_to-end_from_over (0 + length dids + 1) block to max_reads m asc.1 (omega arith),
      )
      | no fits ↦ omega (
        arith,
        parts,
        reads_to-end_from (0 + length dids + 1) block to max_reads m asc.1 (omega arith),
      )
    ])

add_block-IsAscending :
    (low block : ℕ) (did : Text) (m : List (ℕ × List Text))
    → low < block
    → IsAscending low m
    → IsAscending low (add_block block did m)
unfolding add_block IsAscending
add_block-IsAscending low block did [] lt asc = (lt, tt)
add_block-IsAscending low block did ((b, dids) ∷ m) lt asc = elim (Bool-cases (b == block)) [
  | inl same ↦ rw (add_block, same) asc
  | inr other ↦ elim (Bool-cases (ltb block b)) [
    | inl before ↦ rw (add_block, other, before) (lt, (ltb→lt block b before, asc.1))
    | inr after ↦
        rw (add_block, other, after)
          (asc.0, add_block-IsAscending b block did m (ground (arith, other, after)) asc.1)
  ]
]

agents_at-IsAscending :
    (credits : List (ℕ × Text)) → All (λ c. 0 < c.0) credits → IsAscending 0 (agents_at credits)
unfolding agents_at IsAscending
agents_at-IsAscending [] h = tt
agents_at-IsAscending ((block, did) ∷ credits) h =
    add_block-IsAscending 0 block did (agents_at credits) h.0 (agents_at-IsAscending credits h.1)

-- A scan stays within the reads it is allowed: up to the end that is chosen, where no credit is of
-- block 0, the credited blocks and the agents paid in each need no more reads than the limit, or no
-- more than the first credited block needs alone.
pub scan_end_bound :
    (credits : List (ℕ × Text)) (to max_reads : ℕ)
    → All (λ c. 0 < c.0) credits
    → reads_to (scan_end credits to max_reads) (agents_at credits)
      ≤ max max_reads (first_reads (agents_at credits))
unfolding scan_end
scan_end_bound credits to max_reads h =
    reads_to-end_first to max_reads (agents_at credits) (agents_at-IsAscending credits h)
