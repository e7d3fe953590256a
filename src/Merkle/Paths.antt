-- ===== src/Merkle/Paths.antt =====
-- `buildTree` ends in one root, and every path that `proofFor` gives leads there.
use sigvara.Prelude.{
  ℕ, zero, suc, ◌/◌, ◌≤◌, ◌≡◌, refl, sym, ap, ◌∙◌, inl, inr, true, false, ◌≢◌, some, List, [], ◌∷◌,
  arith, ltb, length, get_elem?, Bool-cases, Option-cases,
}
use sigvara.Prelude.Text.{Text, lower, text_eq_self}
use sigvara.Merkle.{
  Ethers, next_layer, climb, build_tree, pair_index, proof_from, proof_for, fold_path, verify_proof,
}
use sigvara.Merkle.Hashes.{IgnoresCase, join, next_layer-join, length-next_layer}

module _ (e : Ethers) where
  climb-head :
      (fuel : ℕ) (level : List Text)
      → (above : List (List Text)) × ((climb e fuel level).0 ≡ level ∷ above)
  unfolding climb
  climb-head zero level = ([], refl)
  climb-head (suc fuel) level = elim (Bool-cases (ltb 1 (length level))) [
    | inl h ↦ ((climb e fuel (next_layer e level)).0, rw (h, climb))
    | inr h ↦ ([], rw (h, climb))
  ]

  -- The loop of `proofFor` at a layer that is not the last.
  fold_path-proof_from :
      (level : List Text) (layers : List (List Text)) (i : ℕ) (x : Text)
      → layers ≢ []
      → fold_path e x (proof_from (level ∷ layers) i)
        ≡ fold_path e (join e x (get_elem? level (pair_index i))) (proof_from layers (i / 2))
  unfolding proof_from fold_path join
  fold_path-proof_from level [] i x h = absurd (h refl)
  fold_path-proof_from level (next ∷ above) i x h =
      elim (Option-cases (get_elem? level (pair_index i))) [
        | inl n ↦ rw (n, proof_from, join)
        | inr (s, n) ↦ rw (n, proof_from, join)
      ]

  climb_small :
      (fuel : ℕ) (level : List Text)
      → ltb 1 (length level) ≡ false
      → climb e fuel level ≡ (level ∷ [], level)
  unfolding climb
  climb_small zero level h = refl
  climb_small (suc fuel) level h = rw (h, climb)

  climb_large :
      (fuel : ℕ) (level : List Text)
      → ltb 1 (length level) ≡ true
      → climb e (suc fuel) level
        ≡ (level ∷ (climb e fuel (next_layer e level)).0, (climb e fuel (next_layer e level)).1)
  unfolding climb
  climb_large fuel level h = rw (h, climb)

only_element :
    {A : Type 0} (level : List A) (i : ℕ) {x : A}
    → length level ≤ 1
    → get_elem? level i ≡ some x
    → level ≡ x ∷ []
only_element [] i small at = cc
only_element (a ∷ []) zero small at = cc
only_element (a ∷ []) (suc i) small at = cc
only_element (a ∷ b ∷ level) i small at = absurd (omega arith)

module _ (e : Ethers) (hex : IgnoresCase e) where
  climb_small-path :
      (fuel : ℕ) (level : List Text) (i : ℕ) (x : Text)
      → ltb 1 (length level) ≡ false
      → get_elem? level i ≡ some x
      → (climb e fuel level).1 ≡ fold_path e x (proof_from (climb e fuel level).0 i) ∷ []
  unfolding proof_from fold_path
  climb_small-path fuel level i x small at =
      rw (climb_small e fuel level small) (only_element level i (ground arith) at)

  -- Folding the path of leaf `i` ends at the only node of the last level.
  climb-path :
      (fuel : ℕ) (level : List Text) (i : ℕ) (x : Text)
      → length level ≤ suc fuel
      → get_elem? level i ≡ some x
      → (climb e fuel level).1 ≡ fold_path e x (proof_from (climb e fuel level).0 i) ∷ []
  climb-path zero level i x small at = climb_small-path zero level i x (ground arith) at
  climb-path (suc fuel) level i x small at = elim (Bool-cases (ltb 1 (length level))) [
    | inr done ↦ climb_small-path (suc fuel) level i x done at
    | inl more ↦
        let (above, split) = climb-head e fuel (next_layer e level) in
        let node : Text = join e x (get_elem? level (pair_index i)) in
        rw (climb_large e fuel level more) (
          climb-path fuel (next_layer e level) (i / 2) node
            (ground (arith, length-next_layer e level)) (next_layer-join e hex level i at)
          ∙ ap (λ t. t ∷ [])
              (sym (
                fold_path-proof_from e level (climb e fuel (next_layer e level)).0 i x
                  (λ n. cc split))))
  ]

  -- Every leaf of a tree has a path that verifies against the tree's root: `verifyProof` accepts
  -- what `proofFor` gives for any position in the list of leaves.
  pub verify_proof-proof_for :
      (leaves : List Text) (i : ℕ) (leaf : Text)
      → get_elem? leaves i ≡ some leaf
      → let tree = build_tree e leaves in verify_proof e leaf (proof_for tree i) tree.root ≡ true
  unfolding build_tree proof_for verify_proof
  verify_proof-proof_for [] i leaf at = cc
  verify_proof-proof_for (a ∷ rest) i leaf at =
      rw (climb-path (length (a ∷ rest)) (a ∷ rest) i leaf (omega arith) at) (
        text_eq_self
          (lower (fold_path e leaf (proof_from (climb e (length (a ∷ rest)) (a ∷ rest)).0 i))))
