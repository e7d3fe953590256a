-- ===== src/PaymentScan/Checkpoints.antt =====
-- How far a scan advances.
use sigvara.PaymentScan.{
  Canary, checkpoint_after, earliest, Agent, Tenure, operator_at, operator_from,
}
use sigvara.Prelude.{
  List, [], arith, inl, inr, some, ℕ, ◌<◌, ◌∈◌, ◌∷◌, ◌≡◌, ◌≢◌, ◌≤◌, ap, if◌then◌else◌, leb, none,
  refl, ◌++◌, ◌+◌, ◌-◌,
}
use sigvara.Prelude.Text.{Text}

earliest-le : (b c : ℕ) (bs : List ℕ) → c ∈ (b ∷ bs) → earliest b bs ≤ c
unfolding earliest
earliest-le b c [] (inl same) = omega arith
earliest-le b c [] (inr x) = elim x [ ]
earliest-le b c (d ∷ bs) (inl same) = omega arith
earliest-le b c (d ∷ bs) (inr later) = omega (arith, earliest-le d c bs later)

below_earliest :
    (b : ℕ) (bs : List ℕ) (from to checkpoint : ℕ)
    → ((c : ℕ) → c ∈ (b ∷ bs) → c ≤ to)
    → (if leb (from + 1) (earliest b bs) then some (earliest b bs - 1) else none) ≡ some checkpoint
    → (from ≤ checkpoint) × (checkpoint ≤ to) × ((c : ℕ) → c ∈ (b ∷ bs) → checkpoint < c)
below_earliest b bs from to checkpoint within h =
    let first = earliest-le b b bs (inl refl) in
    let top = within b (inl refl) in
    (ground arith, ground (arith, first, top), λ c at. ground (arith, earliest-le b c bs at))

-- Past a block that is unresolved, a scan does not advance.
pub checkpoint_after-below :
    (unresolved : List ℕ) (from to c : ℕ) (canary : Canary) (b : ℕ)
    → checkpoint_after unresolved from to canary ≡ some c
    → b ∈ unresolved
    → c < b
unfolding checkpoint_after
checkpoint_after-below [] from to c canary b h at = elim at [ ]
checkpoint_after-below (x ∷ xs) from to c Canary.failed b h at = ground arith
checkpoint_after-below (x ∷ xs) from to c Canary.not_run b h at =
    ground (arith, earliest-le x b xs at)
checkpoint_after-below (x ∷ xs) from to c Canary.passed b h at =
    ground (arith, earliest-le x b xs at)
checkpoint_after-below (x ∷ xs) from to c Canary.unavailable b h at =
    ground (arith, earliest-le x b xs at)

operator_from-later :
    (current : Text) (after : List Tenure) (block : ℕ)
    → ((t : Tenure) → t ∈ after → block < t.from_block)
    → operator_from current after block ≡ current
unfolding operator_from
operator_from-later current [] block later = refl
operator_from-later current (t ∷ after) block later =
    let not_yet = later t (inl refl) in
    let rest = operator_from-later current after block (λ u at. later u (inr at)) in
    ground (arith, not_yet, rest)

operator_from-append :
    (current : Text) (before : List Tenure) (last : Tenure) (after : List Tenure) (block : ℕ)
    → last.from_block ≤ block
    → ((t : Tenure) → t ∈ after → block < t.from_block)
    → operator_from current (before ++ last ∷ after) block ≡ last.operator
unfolding operator_from
operator_from-append current [] last after block since later =
    ground (arith, operator_from-later last.operator after block later)
operator_from-append current (t ∷ before) last after block since later =
    operator_from-append (if leb t.from_block block then t.operator else current) before last after
      block since later

-- The next scan sees every payment that this one did not resolve: wherever the checkpoint is set,
-- those payments lie above it, it is in the range that was scanned, and the canary did not fail.
pub checkpoint_after_below :
    (unresolved : List ℕ) (from to checkpoint : ℕ) (canary : Canary)
    → from ≤ to
    → ((b : ℕ) → b ∈ unresolved → b ≤ to)
    → checkpoint_after unresolved from to canary ≡ some checkpoint
    → (canary ≢ Canary.failed)
      × (from ≤ checkpoint)
      × (checkpoint ≤ to)
      × ((b : ℕ) → b ∈ unresolved → checkpoint < b)
unfolding checkpoint_after
checkpoint_after_below unresolved from to checkpoint Canary.failed le within h = ground arith
checkpoint_after_below [] from to checkpoint Canary.not_run le within h =
    (λ e. ground arith, ground arith, ground arith, λ b x. elim x [ ])
checkpoint_after_below [] from to checkpoint Canary.passed le within h =
    (λ e. ground arith, ground arith, ground arith, λ b x. elim x [ ])
checkpoint_after_below [] from to checkpoint Canary.unavailable le within h =
    (λ e. ground arith, ground arith, ground arith, λ b x. elim x [ ])
checkpoint_after_below (b ∷ bs) from to checkpoint Canary.not_run le within h =
    let (low, high, below) = below_earliest b bs from to checkpoint within h in
    (λ e. ground arith, low, high, below)
checkpoint_after_below (b ∷ bs) from to checkpoint Canary.passed le within h =
    let (low, high, below) = below_earliest b bs from to checkpoint within h in
    (λ e. ground arith, low, high, below)
checkpoint_after_below (b ∷ bs) from to checkpoint Canary.unavailable le within h =
    let (low, high, below) = below_earliest b bs from to checkpoint within h in
    (λ e. ground arith, low, high, below)

-- An agent's operator at a block is the one that was appointed last by then: appointments are in
-- the order of their blocks, a later one of the list decides, and before the second the first is.
pub operator_at_last :
    (o : Tenure) (before : List Tenure) (last : Tenure) (after : List Tenure) (block : ℕ)
    → last.from_block ≤ block
    → ((t : Tenure) → t ∈ after → block < t.from_block)
    → operator_at (Agent.changed o (before ++ last ∷ after)) block ≡ some last.operator
unfolding operator_at
operator_at_last o before last after block since later =
    ap some (operator_from-append o.operator (o ∷ before) last after block since later)

-- A node that failed the check holds the checkpoint.
pub checkpoint_after_failed :
    (unresolved : List ℕ) (from to : ℕ) → checkpoint_after unresolved from to Canary.failed ≡ none
unfolding checkpoint_after
checkpoint_after_failed [] from to = refl
checkpoint_after_failed (b ∷ bs) from to = refl
