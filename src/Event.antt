-- ===== src/Event.antt =====
-- A verified payment as oracle/store.js keeps it and oracle/payments.js and oracle/merkle.js read
-- it: times in milliseconds, the amount in the asset's units, texts as the program stores them.
use sigvara.Prelude.{ℕ, Bool, Option}
use sigvara.Prelude.Text.{Text}

-- A payer's signed outcome: what was signed, and when this store took it.
pub record PayerOutcome : Type 0 where
  pub signed : Text
  pub accepted_at : ℕ

pub record Event : Type 0 where
  pub tx_hash : Text
  pub ts : ℕ
  pub amount : ℕ
  pub payer : Text
  pub success : Option Bool
  pub packet_id : Option Text
  pub block_number : Option ℕ
  pub chain_id : Option ℕ
  pub payer_outcome : Option PayerOutcome
