-- ===== src/Merkle.antt =====
-- oracle/merkle.js: the tree over the evidence leaves, the sibling path of one leaf, and the check
-- of such a path. A leaf is the hex string that `leafFor` returns.
pub mod Hashes
pub mod Paths
pub mod Binding
pub mod Leaves
mod Tests
use sigvara.Prelude.{
  ℕ, zero, suc, ◌+◌, ◌-◌, ◌/◌, ◌%◌, Bool, true, false, Option, none, some, List, [], ◌∷◌, ltb, ◌==◌,
  if◌then◌else◌, length, get_elem?,
}
use sigvara.Prelude.Text.{Text, lower, text_eq, text_le}

-- What the tree takes from the ethers package: `keccak256` and `concat` of two hex strings.
pub record Ethers : Type 0 where
  pub keccak256 : List ℕ → Text
  pub concat : Text → Text → List ℕ
  pub zero_hash : Text

pub record Tree : Type 0 where
  pub root : Text
  pub leaves : List Text
  pub layers : List (List Text)

-- `pairIdx` in `proofFor`
pub pair_index : ℕ → ℕ
pair_index idx = if idx % 2 == 0 then idx + 1 else idx - 1

-- The loop of `proofFor`, over every layer but the last.
pub proof_from : List (List Text) → ℕ → List Text
unfolding pair_index
proof_from [] idx = []
proof_from (layer ∷ []) idx = []
proof_from (layer ∷ next ∷ above) idx =
    let rest = proof_from (next ∷ above) (idx / 2) in
    elim (get_elem? layer (pair_index idx)) [ none ↦ rest | some sibling ↦ sibling ∷ rest ]

pub proof_for : Tree → ℕ → List Text
unfolding proof_from
proof_for tree index = proof_from tree.layers index

first_or : Text → List Text → Text
first_or d [] = d
first_or d (x ∷ xs) = x

module _ (e : Ethers) where
  -- `hashPair`
  pub hash_pair : Text → Text → Text
  hash_pair a b =
      if text_le (lower a) (lower b) then e.keccak256 (e.concat a b) else e.keccak256 (e.concat b a)

  -- One layer from the one below: an odd node is promoted.
  pub next_layer : List Text → List Text
  next_layer [] = []
  next_layer (a ∷ []) = a ∷ []
  next_layer (a ∷ b ∷ level) = hash_pair a b ∷ next_layer level

  -- The `while (level.length > 1)` loop: the layers from this level on, and the level it ends at.
  pub climb : ℕ → List Text → List (List Text) × List Text
  climb zero level = (level ∷ [], level)
  climb (suc fuel) level = elim (ltb 1 (length level)) [
    | true ↦ let (above, top) = climb fuel (next_layer level) in (level ∷ above, top)
    | false ↦ (level ∷ [], level)
  ]

  -- `buildTree`, over the leaves of the events.
  unfoldable pub build_tree : List Text → Tree
  unfolding climb first_or
  build_tree [] = record { root = e.zero_hash; leaves = []; layers = [] }
  build_tree (x ∷ xs) =
      let (layers, top) = climb (length (x ∷ xs)) (x ∷ xs) in
      record { root = first_or e.zero_hash top; leaves = x ∷ xs; layers = layers }

  pub fold_path : Text → List Text → Text
  fold_path computed [] = computed
  fold_path computed (sibling ∷ proof) = fold_path (hash_pair computed sibling) proof

  pub verify_proof : Text → List Text → Text → Bool
  unfolding fold_path
  verify_proof leaf proof root = text_eq (lower (fold_path leaf proof)) (lower root)
