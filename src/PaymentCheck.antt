-- ===== src/PaymentCheck.antt =====
-- oracle/payments.js, `transfersTo` and `verifyPayment`: whether a transaction settled a payment to
-- an agent, and who paid how much in it.
pub mod Legs
mod Tests
use sigvara.Prelude.{
  ℕ, Bool, List, Option, [], false, if◌then◌else◌, keep, leb, length, ltb, map, none, not, some,
  true, ◌&&◌, ◌*◌, ◌+◌, ◌==◌, ◌||◌, ◌∷◌,
}
use sigvara.PaymentScan.{counts_as_payment}
use sigvara.Prelude.Text.{Text, lower, text_eq}

-- What ethers makes of addresses and data: `getAddress`, `zeroPadValue(getAddress(a), 32)`, the
-- address in a topic, and `BigInt`.
pub record Ethers : Type 0 where
  pub get_address : Text → Text
  pub address_topic : Text → Text
  pub topic_address : Text → Text
  pub big_int : Text → ℕ
  pub transfer_topic : Text

pub record ReceiptLog : Type 0 where
  pub address : Text
  pub topics : List Text
  pub data_hex : Text

pub record Receipt : Type 0 where
  pub succeeded : Bool
  pub block_number : ℕ
  pub logs : List ReceiptLog

-- A read of the node: an error, or what it answers, `none` being null.
pub data Read (A : Type 0) : Type 0 where
  read_error : Read A
  answer : Option A → Read A

pub data PaymentError : Type 0 where
  bad_tx_hash not_configured rpc_error no_receipt reverted unconfirmed : PaymentError
  no_transfer below_minimum : PaymentError

pub record Settings : Type 0 where
  pub asset : Option Text
  pub min_confirmations : ℕ
  pub min_amount : ℕ

pub record Leg : Type 0 where
  pub payer : Text
  pub amount : ℕ

pub record Verified : Type 0 where
  pub payer : Text
  pub amount : ℕ
  pub legs : List Leg
  pub block_number : ℕ
  pub settled_at : ℕ
  pub tx_hash : Text

pub data Verdict : Type 0 where
  refused : PaymentError → Verdict
  verified : Verified → Verdict

abbrev is_hex_char : ℕ → Bool
is_hex_char c =
    (leb b'0' c && leb c b'9') || (leb b'a' c && leb c b'f') || (leb b'A' c && leb c b'F')

all_hex : Text → Bool
all_hex [] = true
all_hex (c ∷ s) = is_hex_char c && all_hex s

-- /^0x[0-9a-fA-F]{64}$/
pub is_tx_hash : Text → Bool
unfolding all_hex
is_tx_hash [] = false
is_tx_hash (c ∷ []) = false
is_tx_hash (c ∷ d ∷ s) = c == b'0' && d == b'x' && length s == 64 && all_hex s

-- `bySender`
pub add_sender : Text → ℕ → List (Text × ℕ) → List (Text × ℕ)
unfolding text_eq
add_sender key value [] = (key, value) ∷ []
add_sender key value ((k, v) ∷ m) =
    let rest = add_sender key value m in if text_eq k key then (k, v + value) ∷ m else (k, v) ∷ rest

pub by_sender : List Leg → List (Text × ℕ) → List (Text × ℕ)
unfolding add_sender lower
by_sender [] m = m
by_sender (c ∷ credits) m = by_sender credits (add_sender (lower c.payer) c.amount m)

-- The sort of the legs, the largest first and equal ones in the order they had.
pub insert_leg : Leg → List Leg → List Leg
insert_leg x [] = x ∷ []
insert_leg x (y ∷ ys) =
    let rest = insert_leg x ys in if ltb y.amount x.amount then x ∷ y ∷ ys else y ∷ rest

pub sort_legs : List Leg → List Leg → List Leg
unfolding insert_leg
sort_legs sorted [] = sorted
sort_legs sorted (x ∷ xs) = sort_legs (insert_leg x sorted) xs

pub total : List Leg → ℕ
total [] = 0
total (l ∷ ls) = l.amount + total ls

module _ (e : Ethers) where
  -- `transfersTo`
  pub is_transfer_to : Text → Text → ReceiptLog → Option Text
  unfolding lower text_eq
  is_transfer_to asset pay_to log = elim log.topics [
    | [] ↦ none
    | a ∷ more ↦ elim more [
      | [] ↦ none
      | b ∷ more' ↦ elim more' [
        | [] ↦ none
        | c ∷ more'' ↦ elim more'' [
          | d ∷ more''' ↦ none
          | [] ↦
              if text_eq (lower log.address) (lower asset)
                && text_eq (lower a) (lower e.transfer_topic)
                && text_eq (lower c) (lower (e.address_topic pay_to))
              then some b
              else none
        ]
      ]
    ]
  ]

  pub transfers_to : List ReceiptLog → Text → Text → List Leg
  unfolding is_transfer_to
  transfers_to [] asset pay_to = []
  transfers_to (log ∷ logs) asset pay_to = elim (is_transfer_to asset pay_to log) [
    | none ↦ transfers_to logs asset pay_to
    | some sender ↦
        record { payer = e.topic_address sender; amount = e.big_int log.data_hex }
        ∷ transfers_to logs asset pay_to
  ]

  -- The senders, with their own spelling of the address.
  pub senders_of : List Leg → List Leg
  unfolding by_sender
  senders_of credits =
      map (λ s. record { payer = e.get_address s.0; amount = s.1 }) (by_sender credits [])

  -- The end of `verifyPayment`, on the legs that count and the block's time.
  pub settle : List Leg → ℕ → Text → Read ℕ → Verdict
  unfolding total lower
  settle [] block_number tx_hash time = refused below_minimum
  settle (l ∷ legs) block_number tx_hash read_error = refused rpc_error
  settle (l ∷ legs) block_number tx_hash (answer none) = refused rpc_error
  settle (l ∷ legs) block_number tx_hash (answer (some seconds)) = verified (record {
    payer = l.payer;
    amount = total (l ∷ legs);
    legs = l ∷ legs;
    block_number = block_number;
    settled_at = seconds * 1000;
    tx_hash = lower tx_hash;
  })

  pub legs_of : List Leg → ℕ → List Leg
  unfolding sort_legs senders_of
  legs_of credits min_amount =
      sort_legs [] (keep (λ s. counts_as_payment s.amount min_amount) (senders_of credits))

  pub check_receipt : Settings → Text → Text → Text → Receipt → Read ℕ → Read ℕ → Verdict
  unfolding transfers_to legs_of settle total senders_of
  check_receipt cfg asset tx_hash pay_to receipt head time =
      let credits = transfers_to receipt.logs asset pay_to in
      let legs = legs_of credits cfg.min_amount in
      if not receipt.succeeded then refused reverted else elim head [
        | read_error ↦ refused rpc_error
        | answer none ↦ refused rpc_error
        | answer (some h) ↦
            if ltb (h + 1) (cfg.min_confirmations + receipt.block_number)
            then refused unconfirmed
            else if length credits == 0
            then refused no_transfer
            else if length legs == 0 && total (senders_of credits) == 0
            then refused no_transfer
            else settle legs receipt.block_number tx_hash time
      ]

  -- `verifyPayment`, of the answers for the receipt, the head, and the time of the block, which is
  -- null where it is not a finite number.
  pub verify_payment : Settings → Text → Text → Read Receipt → Read ℕ → Read ℕ → Verdict
  unfolding is_tx_hash check_receipt
  verify_payment cfg tx_hash pay_to receipt head time =
      if not (is_tx_hash tx_hash) then refused bad_tx_hash else elim cfg.asset [
        | none ↦ refused not_configured
        | some asset ↦ elim receipt [
          | read_error ↦ refused rpc_error
          | answer none ↦ refused no_receipt
          | answer (some r) ↦ check_receipt cfg asset tx_hash pay_to r head time
        ]
      ]
