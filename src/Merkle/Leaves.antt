-- ===== src/Merkle/Leaves.antt =====
-- The leaf of one payment, as the ABI encoder makes it; `none` where the source throws.
use sigvara.Merkle.{Ethers, build_tree}
use sigvara.Event.{Event}
use sigvara.Prelude.{
  Bool, List, Option, [], false, if◌then◌else◌, leb, ltb, none, some, true, ℕ, ◌&&◌, ◌++◌, ◌/◌, ◌∷◌,
}
use sigvara.Prelude.Text.{Text, lower}

pub data Word : Type 0 where
  bytes32 address : Text → Word
  uint256 uint8 : ℕ → Word

-- What a leaf takes from the ethers package, besides the hash: a checksummed address, the ABI
-- encoding of a tuple, and the bytes of a hex string.
pub record Abi : Type 0 where
  pub get_address : Text → Option Text
  pub encode : List Word → List ℕ
  pub get_bytes : Text → List ℕ

-- `settledSeconds`
pub settled_seconds : Event → ℕ
settled_seconds e = e.ts / 1000

-- `outcomeCode`
pub outcome_code : Option Bool → ℕ
outcome_code none = 2
outcome_code (some true) = 1
outcome_code (some false) = 0

abbrev max_safe_integer : ℕ
max_safe_integer = 9_007_199_254_740_991

-- `chainIdOf`
pub chain_words : Option ℕ → Option (List Word)
chain_words none = some []
chain_words (some id) = if ltb 0 id && leb id max_safe_integer then some (uint256 id ∷ []) else none

module _ (e : Ethers) (abi : Abi) where
  -- `leafByAbi`
  pub leaf_by_abi : Event → Option Text
  unfolding settled_seconds outcome_code chain_words lower
  leaf_by_abi event = elim event.tx_hash [
    | [] ↦ none
    | c ∷ s ↦ elim (abi.get_address event.payer) [
      | none ↦ none
      | some payer ↦ elim (chain_words event.chain_id) [
        | none ↦ none
        | some chain ↦
            let fields =
              bytes32 (lower event.tx_hash)
              ∷ address payer
              ∷ uint256 event.amount
              ∷ uint256 (settled_seconds event)
              ∷ uint8 (outcome_code event.success)
              ∷ [] in
            some (e.keccak256 (abi.get_bytes (e.keccak256 (abi.encode (chain ++ fields)))))
      ]
    ]
  ]

  pub leaves_of : List Event → Option (List Text)
  unfolding leaf_by_abi
  leaves_of [] = some []
  leaves_of (event ∷ events) = elim (leaf_by_abi event) [
    | none ↦ none
    | some leaf ↦ elim (leaves_of events) [ none ↦ none | some leaves ↦ some (leaf ∷ leaves) ]
  ]

  -- `rootFor`
  unfoldable pub root_for : List Event → Option Text
  unfolding leaves_of
  root_for events = elim (leaves_of events) [
    | none ↦ none
    | some leaves ↦ some (build_tree e leaves).root
  ]
