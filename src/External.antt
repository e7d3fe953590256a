-- ===== src/External.antt =====
-- oracle/external.js: an agent's feedback in the registry of ERC-8004, read as of a block.
pub mod Rows
pub mod Clients
mod Tests
use sigvara.Prelude.{
  ℕ, Bool, List, Option, [], false, if◌then◌else◌, map, max, none, some, suc, take, true, zero,
  ◌&&◌, ◌++◌, ◌+◌, ◌-◌, ◌∷◌,
}
use sigvara.Prelude.Text.{Text, lower, text_eq}

-- A whole number with a sign.
pub data ℤ : Type 0 where
  pos : ℕ → ℤ
  negsuc : ℕ → ℤ

-- What `read` gives: an answer, a refusal of the registry, or an error of the node.
pub data Answer (A : Type 0) : Type 0 where
  read : A → Answer A
  refused : Answer A
  unread : Answer A

pub record Feedback : Type 0 where
  pub value : ℤ
  pub value_decimals : ℕ
  pub tag1 : Text
  pub is_revoked : Bool

-- A row; its value stands over `10 ** value_decimals`.
pub record Row : Type 0 where
  pub client : Text
  pub value : ℤ
  pub value_decimals : ℕ
  pub tag : Text

-- The answers of the registry about one agent as of one block.
pub record Registry : Type 0 where
  pub owner_of : Answer Text
  pub get_clients : Answer (List Text)
  pub get_last_index : Text → Answer ℕ
  pub read_feedback : Text → ℕ → Answer Feedback

abbrev pub max_clients_read : ℕ
max_clients_read = 100

abbrev pub max_rows_per_client : ℕ
max_rows_per_client = 10

-- `named.get`: the last client posted that is written so in lower case
pub named : Text → List Text → Option Text
unfolding text_eq lower
named payer [] = none
named payer (c ∷ posted) =
    let later = named payer posted in
    elim later [ some d ↦ some d | none ↦ if text_eq (lower c) payer then some c else none ]

-- The payers who posted, in the payers' order.
pub payers_named : List Text → List Text → List Text
unfolding named
payers_named posted [] = []
payers_named posted (p ∷ payers) =
    let rest = payers_named posted payers in
    elim (named p posted) [ none ↦ rest | some c ↦ c ∷ rest ]

pub clients_read : List Text → Option (List Text) → List Text
unfolding payers_named
clients_read posted none = take max_clients_read posted
clients_read posted (some payers) = take max_clients_read (payers_named posted payers)

-- `count` indices from `i` on.
pub indices : ℕ → ℕ → List ℕ
indices i zero = []
indices i (suc count) = i ∷ indices (suc i) count

-- The indices of a client's newest rows.
pub newest_indices : ℕ → List ℕ
unfolding indices
newest_indices last =
    let first = max 1 (last + 1 - max_rows_per_client) in indices first (last + 1 - first)

abbrev pub row_of : Text → Feedback → Row
unfolding lower
row_of c fb = record {
  client = c;
  value = fb.value;
  value_decimals = fb.value_decimals;
  tag = lower fb.tag1;
}

-- Rows before those that are read later.
abbrev pub with_rows : List Row → Option (List Row) → Option (List Row)
with_rows rows none = none
with_rows rows (some more) = some (rows ++ more)

module _ (registry : Registry) where
  -- The rows of a client; `none` is an error of the node.
  pub client_rows : Text → List ℕ → Option (List Row)
  client_rows c [] = some []
  client_rows c (i ∷ is) =
      let rest = client_rows c is in
      elim (registry.read_feedback c i) [
        | unread ↦ none
        | refused ↦ rest
        | read fb ↦ if fb.is_revoked then rest else with_rows (row_of c fb ∷ []) rest
      ]

  pub all_rows : List Text → Option (List Row)
  unfolding client_rows newest_indices
  all_rows [] = some []
  all_rows (c ∷ clients) =
      let rest = all_rows clients in
      elim (registry.get_last_index c) [
        | unread ↦ none
        | refused ↦ rest
        | read last ↦ elim (client_rows c (newest_indices last)) [
          | none ↦ none
          | some rows ↦ with_rows rows rest
        ]
      ]

  -- The reads of the clients posted; what the registry refuses here is the caller's to take.
  pub rows_of_posted : Option (List Text) → Answer (List Row)
  unfolding all_rows clients_read
  rows_of_posted payers = elim registry.get_clients [
    | unread ↦ unread
    | refused ↦ refused
    | read posted ↦ elim (all_rows (clients_read posted payers)) [
      | none ↦ unread
      | some rows ↦ read rows
    ]
  ]

  -- `readFeedbackRows`
  pub read_feedback_rows : Option (List Text) → Answer (List Row)
  unfolding rows_of_posted
  read_feedback_rows none = rows_of_posted none
  read_feedback_rows (some []) = read []
  read_feedback_rows (some (p ∷ payers)) = rows_of_posted (some (p ∷ payers))

  -- `verifyOwnership`; `none` is an error of the node.
  pub verify_ownership : Bool → Text → Option Bool
  unfolding text_eq lower
  verify_ownership false expected_owner = some false
  verify_ownership true expected_owner = elim registry.owner_of [
    | unread ↦ none
    | refused ↦ some false
    | read owner ↦ some (text_eq (lower owner) (lower expected_owner))
  ]

  -- What `externalScoreFor` makes of the rows.
  pub score_of_rows : (List Row → Option ℕ) → Answer (List Row) → Option ℕ
  score_of_rows judge unread = none
  score_of_rows judge refused = some 0
  score_of_rows judge (read rows) = judge rows

  -- `externalScoreFor`; `none` is an error of the node or of the judgment.
  pub external_score_for : Bool → Text → (List Row → Option ℕ) → Option (List Text) → Option ℕ
  unfolding verify_ownership score_of_rows read_feedback_rows
  external_score_for enabled expected_owner judge payers =
      if enabled
      then elim (verify_ownership enabled expected_owner) [
        | none ↦ none
        | some owned ↦ if owned then score_of_rows judge (read_feedback_rows payers) else some 0
      ]
      else some 0

-- `claimHolds`, of what the registry holds under the key and of the owner; `none` is an error.
pub claim_holds : Option Text → Option Text → Text → Text → Option Bool
unfolding text_eq lower
claim_holds none owner did_hash operator = none
claim_holds (some value) none did_hash operator = none
claim_holds (some value) (some owner) did_hash operator =
    some (text_eq (lower value) (lower did_hash) && text_eq (lower owner) (lower operator))
