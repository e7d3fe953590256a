-- ===== src/PayerOutcome/Tests.antt =====
-- A limiter that is full, and an outcome whose times pass.
use sigvara.PayerOutcome.{SeenKeys, note, Signed, delivered}
use sigvara.PayerOutcome.Limits.{length-note}
use sigvara.Prelude.{[], length, ◌∷◌, ◌≤◌, arith}

abbrev two_keys : SeenKeys
two_keys =
    (b'a' ∷ [], record { count = 1; since = 10 })
    ∷ (b'b' ∷ [], record { count = 1; since = 20 })
    ∷ []

length-note_example : length (note 100 2 (b'c' ∷ []) 50 two_keys) ≤ 2
length-note_example = length-note 100 2 (b'c' ∷ []) 50 two_keys (omega arith)

abbrev vote : Signed
vote = record {
  payer = b'p' ∷ [];
  outcome = delivered;
  evidence = [];
  signed_at = 2_000;
  deadline = 9_000;
  signature = [];
}
