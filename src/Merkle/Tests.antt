-- ===== src/Merkle/Tests.antt =====
-- Runs of the tree over a readable stand-in for the hash.
use sigvara.Prelude.{
  ℕ, ◌+◌, ◌≡◌, refl, true, List, [], ◌∷◌, ◌++◌, arith, length-append, length-take, suc, take, zero,
  ◌⊎◌,
}
use sigvara.Prelude.Text.{text_eq, text_le, Text, lower}
use sigvara.Merkle.{Ethers, build_tree, next_layer, hash_pair, proof_for, verify_proof}
use sigvara.Merkle.Hashes.{IgnoresCase}
use sigvara.Merkle.Paths.{verify_proof-proof_for}
use sigvara.Merkle.Binding.{Collision, HashesToWords, verify_proof_binds}

-- Past the letters, where `lower` changes nothing, and with an end mark after the first text.
abbrev shift : Text → Text
shift [] = []
shift (c ∷ s) = (c + 300) ∷ shift s

abbrev paired : Text → Text → List ℕ
paired a b = shift (lower a) ++ 200 ∷ shift (lower b)

abbrev readable : Ethers
readable = record { keccak256 = λ bytes. bytes; concat = paired; zero_hash = [] }

readable-IgnoresCase : IgnoresCase readable
readable-IgnoresCase a b c d h k = rw (h, k)

abbrev repeat : ℕ → ℕ → Text
repeat zero c = []
repeat (suc n) c = c ∷ repeat n c

abbrev three_leaves : List Text
three_leaves = (b'a' ∷ []) ∷ (b'B' ∷ []) ∷ (b'c' ∷ []) ∷ []

-- An odd leaf is promoted, so its path is one step shorter.
proof_for_promoted :
    proof_for (build_tree readable three_leaves) 2 ≡ paired (b'a' ∷ []) (b'B' ∷ []) ∷ []
unfolding proof_for build_tree next_layer hash_pair lower text_le
proof_for_promoted = refl

verify_proof-proof_for_example :
    let tree = build_tree readable three_leaves in
    verify_proof readable (b'B' ∷ []) (proof_for tree 1) tree.root ≡ true
verify_proof-proof_for_example =
    verify_proof-proof_for readable readable-IgnoresCase three_leaves 1 (b'B' ∷ []) refl

-- A stand-in whose hashes are words: the beginning of what is hashed.
abbrev padding : Text
padding = repeat 66 (b'0')

abbrev short_hash : Ethers
short_hash = record {
  keccak256 = λ bytes. take 66 (bytes ++ padding);
  concat = λ a b. lower a ++ lower b;
  zero_hash = padding;
}

short_hash-IsWord : HashesToWords short_hash
short_hash-IsWord bytes =
    omega (arith, length-take 66 (bytes ++ padding), length-append bytes padding)

abbrev word : ℕ → Text
word c = repeat 66 c

verify_proof_binds_example : (lower (word b'B') ≡ lower (word b'b')) ⊎ Collision short_hash
unfolding verify_proof hash_pair lower text_eq text_le
verify_proof_binds_example =
    verify_proof_binds short_hash (word b'B') (word b'b') (word b'b') (word b'c' ∷ [])
      short_hash-IsWord refl refl (refl, tt) refl refl
