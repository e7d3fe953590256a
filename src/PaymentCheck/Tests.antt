-- ===== src/PaymentCheck/Tests.antt =====
-- A receipt with two transfers of one sender, and the theorem at it.
use sigvara.Prelude.Text.{lower, text_eq, Text}
use sigvara.PaymentCheck.{
  Ethers, Leg, Read, Receipt, ReceiptLog, Settings, Verdict, Verified, verify_payment, total,
}
use sigvara.PaymentCheck.Legs.{verify_payment-verified}
use sigvara.Prelude.{[], length, refl, some, true, ◌++◌, ◌+◌, ◌<◌, ◌∈◌, ◌∷◌, ◌≡◌, ◌≤◌}

-- Addresses that are their own topics, and amounts that are the length of their data.
abbrev plain : Ethers
plain = record {
  get_address = λ a. a;
  address_topic = λ a. a;
  topic_address = λ t. t;
  big_int = λ d. length d;
  transfer_topic = b't' ∷ [];
}

abbrev eight : Text
eight = b'0' ∷ b'1' ∷ b'2' ∷ b'3' ∷ b'c' ∷ b'd' ∷ b'e' ∷ b'f' ∷ []

abbrev hash : Text
hash = b'0' ∷ b'x' ∷ eight ++ eight ++ eight ++ eight ++ eight ++ eight ++ eight ++ eight

abbrev moved : Text → Text → ReceiptLog
moved from data_hex = record {
  address = b'u' ∷ [];
  topics = (b't' ∷ []) ∷ from ∷ (b'a' ∷ []) ∷ [];
  data_hex = data_hex;
}

abbrev mined : Receipt
mined = record {
  succeeded = true;
  block_number = 90;
  logs =
      moved (b'p' ∷ []) (0 ∷ 0 ∷ []) ∷ moved (b'P' ∷ []) (0 ∷ []) ∷ moved (b'q' ∷ []) (0 ∷ []) ∷ [];
}

abbrev settings : Settings
settings = record { asset = some (b'U' ∷ []); min_confirmations = 6; min_amount = 2 }

abbrev payment : Verified
payment = record {
  payer = b'p' ∷ [];
  amount = 3;
  legs = record { payer = b'p' ∷ []; amount = 3 } ∷ [];
  block_number = 90;
  settled_at = 7_000;
  tx_hash = hash;
}

verify_payment_runs :
    verify_payment plain settings hash
      (b'a' ∷ [])
      (Read.answer (some mined))
      (Read.answer (some 95))
      (Read.answer (some 7))
    ≡ Verdict.verified payment
unfolding verify_payment lower text_eq
verify_payment_runs = refl

verify_payment-verified_example :
    (mined.succeeded ≡ true)
    × (6 + 90 ≤ 95 + 1)
    × (payment.amount ≡ total payment.legs)
    × ((l : Leg) → l ∈ payment.legs → (0 < l.amount) × (2 ≤ l.amount))
verify_payment-verified_example =
    verify_payment-verified plain settings hash (b'a' ∷ []) mined 95 (Read.answer (some 7)) payment
      verify_payment_runs
