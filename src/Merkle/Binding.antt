-- ===== src/Merkle/Binding.antt =====
-- A path binds: two leaves that it leads to one root are one leaf, or the hash has a collision.
use sigvara.Merkle.{Ethers, hash_pair, fold_path, verify_proof}
use sigvara.Prelude.Text.{Text, lower, text_eq, text_eq_sound, text_eq_iff, text_le}
use sigvara.Prelude.{
  All, Bool-cases, List, [], ap, arith, inl, inr, length, refl, sym, true, ◌∙◌, ◌∷◌, ◌≡◌, ◌⊎◌,
}

-- The length of a hash in hex, `0x` and sixty-four digits.
abbrev pub IsWord : Text → Type 0
IsWord t = length t ≡ 66

-- `keccak256` gives 32 bytes, whatever it hashes.
abbrev pub HashesToWords : Ethers → Type 0
HashesToWords e = (bytes : Text) → IsWord (e.keccak256 bytes)

-- Two pairs of words that differ, not only in the case of a digit, and have one hash.
pub record Collision (e : Ethers) : Type 0 where
  pub a : Text
  pub b : Text
  pub c : Text
  pub d : Text
  pub words : IsWord a × IsWord b × IsWord c × IsWord d
  pub same : lower (e.keccak256 (e.concat a b)) ≡ lower (e.keccak256 (e.concat c d))
  pub differ : ¬ ((lower a ≡ lower c) × (lower b ≡ lower d))

module _ (e : Ethers) (hashes : HashesToWords e) where
  hash_pair-IsWord : (a b : Text) → IsWord (hash_pair e a b)
  unfolding hash_pair
  hash_pair-IsWord a b = elim (Bool-cases (text_le (lower a) (lower b))) [
    | inl le ↦ rw le (hashes (e.concat a b))
    | inr gt ↦ rw gt (hashes (e.concat b a))
  ]

  -- The pair in the order in which it is hashed.
  hash_pair-order :
      (x s : Text)
      → (a b : Text) × (hash_pair e x s ≡ e.keccak256 (e.concat a b))
        × (((a ≡ x) × (b ≡ s)) ⊎ ((a ≡ s) × (b ≡ x)))
  unfolding hash_pair
  hash_pair-order x s = elim (Bool-cases (text_le (lower x) (lower s))) [
    | inl le ↦ (x, s, rw le refl, inl (refl, refl))
    | inr gt ↦ (s, x, rw gt refl, inr (refl, refl))
  ]

  hash_pair_cancel :
      (x y s : Text)
      → IsWord x
      → IsWord y
      → IsWord s
      → lower (hash_pair e x s) ≡ lower (hash_pair e y s)
      → (lower x ≡ lower y) ⊎ Collision e
  hash_pair_cancel x y s wx wy ws h = elim (Bool-cases (text_eq (lower x) (lower y))) [
    | inl same ↦ inl (text_eq_sound (lower x) (lower y) same)
    | inr other ↦
        let (a, b, hash_x, at_x) = hash_pair-order x s in
        let (c, d, hash_y, at_y) = hash_pair-order y s in
        inr (record {
          a = a;
          b = b;
          c = c;
          d = d;
          words = ground (arith, at_x, at_y, wx, wy, ws);
          same = sym (ap lower hash_x) ∙ h ∙ ap lower hash_y;
          differ =
              λ (p, q). ground (arith, at_x, at_y, p, q, other, text_eq_iff (lower x) (lower y));
        })
  ]

  fold_path_cancel :
      (x y : Text) (proof : List Text)
      → IsWord x
      → IsWord y
      → All IsWord proof
      → lower (fold_path e x proof) ≡ lower (fold_path e y proof)
      → (lower x ≡ lower y) ⊎ Collision e
  unfolding fold_path
  fold_path_cancel x y [] wx wy w h = inl h
  fold_path_cancel x y (s ∷ proof) wx wy w h =
      elim (fold_path_cancel (hash_pair e x s) (hash_pair e y s) proof (hash_pair-IsWord x s)
        (hash_pair-IsWord y s) w.1 h) [
          | inl same ↦ hash_pair_cancel x y s wx wy w.0 same
          | inr found ↦ inr found
        ]

-- A path of words that verifies two leaves against one root verifies one leaf, up to the case of
-- its hex digits, or else two pairs of words are at hand that differ and have one hash: whoever
-- proves another leaf has found a collision.
pub verify_proof_binds :
    (e : Ethers) (leaf other root : Text) (proof : List Text)
    → HashesToWords e
    → IsWord leaf
    → IsWord other
    → All IsWord proof
    → verify_proof e leaf proof root ≡ true
    → verify_proof e other proof root ≡ true
    → (lower leaf ≡ lower other) ⊎ Collision e
unfolding verify_proof
verify_proof_binds e leaf other root proof hashes wl wo w mine others =
    fold_path_cancel e hashes leaf other proof wl wo w (
      text_eq_sound (lower (fold_path e leaf proof)) (lower root) mine
      ∙ sym (text_eq_sound (lower (fold_path e other proof)) (lower root) others))
