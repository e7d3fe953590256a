-- ===== src/EvidenceAsOf/Tests.antt =====
-- A proposal of one event, whose payer signed an outcome only later.
use sigvara.EvidenceAsOf.{AsOf, Options, evidence_as_of, readings, unmatched}
use sigvara.EvidenceAsOf.Matches.{evidence_as_of-IsCommitted, IsCommitted}
use sigvara.Merkle.{Ethers, build_tree}
use sigvara.Merkle.Leaves.{Abi, Word, root_for}
use sigvara.Event.{Event}
use sigvara.Prelude.{List, [], none, refl, some, true, ℕ, ◌++◌, ◌∈◌, ◌∷◌, ◌≡◌, ◌⊎◌}
use sigvara.Prelude.Text.{lower, text_eq}

abbrev plain_hash : Ethers
plain_hash = record { keccak256 = λ bytes. bytes; concat = λ a b. a ++ b; zero_hash = [] }

-- The last word alone, which is the outcome.
abbrev last_word : List Word → List ℕ
last_word [] = []
last_word (Word.uint8 n ∷ ws) = n ∷ last_word ws
last_word (Word.uint256 n ∷ ws) = last_word ws
last_word (Word.bytes32 t ∷ ws) = last_word ws
last_word (Word.address t ∷ ws) = last_word ws

abbrev plain_abi : Abi
plain_abi = record { get_address = λ a. some a; encode = λ ws. last_word ws; get_bytes = λ t. t }

abbrev signed_later : Event
signed_later = record {
  tx_hash = b't' ∷ [];
  ts = 5_000;
  amount = 9;
  payer = b'p' ∷ [];
  success = some true;
  packet_id = none;
  block_number = none;
  chain_id = none;
  payer_outcome = some (record { signed = []; accepted_at = 8_000 });
}

abbrev by_time : Options
by_time = record { eligible_at = λ e. some e.ts; cuts = []; stored = none }

abbrev found : AsOf
found = record {
  events = record signed_later { payer_outcome = none; success = none } ∷ [];
  matched_root = true;
}

found_then :
    evidence_as_of plain_hash plain_abi (signed_later ∷ []) 6_000 (some (2 ∷ [])) by_time
    ≡ some found
unfolding evidence_as_of root_for build_tree text_eq lower
found_then = refl

evidence_as_of-IsCommitted_example :
    ((found.matched_root ≡ true)
      × (found.events ∈ readings by_time (signed_later ∷ []) 6_000)
      × IsCommitted plain_hash plain_abi (2 ∷ []) found.events)
    ⊎ ((found ≡ unmatched plain_hash plain_abi by_time (signed_later ∷ []) 6_000)
        × ((reading : List Event)
            → reading ∈ readings by_time (signed_later ∷ []) 6_000
            → ¬ IsCommitted plain_hash plain_abi (2 ∷ []) reading))
evidence_as_of-IsCommitted_example =
    evidence_as_of-IsCommitted plain_hash plain_abi (signed_later ∷ []) 6_000 2 [] by_time found
      found_then
