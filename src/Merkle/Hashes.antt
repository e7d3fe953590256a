-- ===== src/Merkle/Hashes.antt =====
-- What a sorted-pair hash gives, and how a layer relates to the one above it.
use sigvara.Prelude.{
  ℕ, zero, suc, ◌+◌, ◌/◌, ◌≡◌, sym, ap, inl, inr, Option, none, some, List, [], ◌∷◌, arith, length,
  get_elem?, Bool-cases,
}
use sigvara.Prelude.Text.{Text, lower, text_le, text_le_antisym, text_le_total}
use sigvara.Merkle.{Ethers, hash_pair, next_layer, pair_index}

-- `ethers.concat` decodes its hex strings, so the case of a digit does not matter.
abbrev pub IgnoresCase : Ethers → Type 0
IgnoresCase e =
    (a b c d : Text) → lower a ≡ lower c → lower b ≡ lower d → e.concat a b ≡ e.concat c d

pair_index_add_two : (i : ℕ) → pair_index (suc (suc i)) ≡ suc (suc (pair_index i))
unfolding pair_index
pair_index_add_two i = ground arith

half_add_two : (i : ℕ) → suc (suc i) / 2 ≡ suc (i / 2)
half_add_two i = omega arith

-- A node with its sibling, if it has one.
unfoldable pub join : Ethers → Text → Option Text → Text
join e x none = x
join e x (some s) = hash_pair e x s

module _ (e : Ethers) (hex : IgnoresCase e) where
  pub hash_pair_comm : (a b : Text) → hash_pair e a b ≡ hash_pair e b a
  unfolding hash_pair
  hash_pair_comm a b = elim (Bool-cases (text_le (lower a) (lower b))) [
    | inl p ↦ elim (Bool-cases (text_le (lower b) (lower a))) [
      | inl q ↦
          let s : lower a ≡ lower b = text_le_antisym (lower a) (lower b) p q in
          rw (p, q) (ap e.keccak256 (hex a b b a s (sym s)))
      | inr q ↦ rw (p, q)
    ]
    | inr p ↦ rw (p, text_le_total (lower a) (lower b) p)
  ]

  -- The node above position `i` is node `i` joined with its sibling.
  pub next_layer-join :
      (level : List Text) (i : ℕ) {x : Text}
      → get_elem? level i ≡ some x
      → get_elem? (next_layer e level) (i / 2) ≡ some (join e x (get_elem? level (pair_index i)))
  unfolding next_layer join pair_index
  next_layer-join [] i h = cc
  next_layer-join (a ∷ []) zero h = ground arith
  next_layer-join (a ∷ []) (suc i) h = cc
  next_layer-join (a ∷ b ∷ level) zero h = cc
  next_layer-join (a ∷ b ∷ level) (suc zero) h = cc (hash_pair_comm a b)
  next_layer-join (a ∷ b ∷ level) (suc (suc i)) {x} h =
      rw (half_add_two i, pair_index_add_two i) (next_layer-join level i h)

pub length-next_layer :
    (e : Ethers) (level : List Text) → length (next_layer e level) ≡ (length level + 1) / 2
unfolding next_layer
length-next_layer e [] = omega arith
length-next_layer e (a ∷ []) = omega arith
length-next_layer e (a ∷ b ∷ level) = omega (arith, length-next_layer e level)
