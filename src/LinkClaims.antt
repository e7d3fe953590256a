-- ===== src/LinkClaims.antt =====
-- oracle/link-claims.js: the claims of external agents on an agent, kept by its hash, the newest
-- last.
pub mod Candidates
mod Tests
use sigvara.Prelude.{
  ℕ, Bool, List, Option, [], drop, false, if◌then◌else◌, leb, length, ltb, none, some, true, ◌&&◌,
  ◌++◌, ◌-◌, ◌==◌, ◌||◌, ◌∷◌,
}
use sigvara.Prelude.Text.{Text, lower}
use sigvara.Prelude.Dict.{lookup, has, insert}

pub record Claim : Type 0 where
  pub agent_id : Text
  pub block : ℕ
  pub log_index : ℕ

pub record NewClaim : Type 0 where
  pub did_hash : Text
  pub claim : Claim

abbrev is_hex_digit : ℕ → Bool
is_hex_digit c = (leb b'0' c && leb c b'9') || (leb b'a' c && leb c b'f')

hex_digits : Text → Bool
hex_digits [] = true
hex_digits (c ∷ s) = is_hex_digit c && hex_digits s

-- `DID_HASH`: /^0x[0-9a-f]{64}$/
unfoldable pub is_did_hash : Text → Bool
unfolding hex_digits
is_did_hash [] = false
is_did_hash (c ∷ []) = false
is_did_hash (c ∷ d ∷ s) = c == b'0' && d == b'x' && length s == 64 && hex_digits s

-- `claimFromLog`
unfoldable pub claim_from_log : Text → Text → ℕ → ℕ → Option NewClaim
unfolding is_did_hash lower
claim_from_log agent_id value block_number log_index =
    if is_did_hash (lower value)
    then some (record {
      did_hash = lower value;
      claim = record { agent_id = agent_id; block = block_number; log_index = log_index };
    })
    else none

abbrev pub max_claims_per_agent : ℕ
max_claims_per_agent = 64

abbrev pub claims_of : Option (List Claim) → List Claim
claims_of none = []
claims_of (some list) = list

-- `addClaim`: the list keeps its last claims.
pub add_claim : NewClaim → List (Text × List Claim) → List (Text × List Claim)
unfolding lookup insert
add_claim new claims =
    let list = claims_of (lookup new.did_hash claims) ++ new.claim ∷ [] in
    insert new.did_hash (drop (length list - max_claims_per_agent) list) claims

abbrev pub is_after : Option ℕ → ℕ → Bool
is_after none block = false
is_after (some at_block) block = ltb at_block block

-- The loop of `candidatesAt`, over the claims from the newest on.
pub candidates : List Claim → Option ℕ → List Text → List Text
unfolding has
candidates [] at_block seen = []
candidates (c ∷ claims) at_block seen =
    let skipped = candidates claims at_block seen in
    let taken = candidates claims at_block (c.agent_id ∷ seen) in
    if is_after at_block c.block || has c.agent_id seen then skipped else c.agent_id ∷ taken

pub newest_first : List Claim → List Claim → List Claim
newest_first done [] = done
newest_first done (c ∷ claims) = newest_first (c ∷ done) claims

-- `candidatesAt`
pub candidates_at : List (Text × List Claim) → Text → Option ℕ → List Text
unfolding candidates newest_first lookup lower
candidates_at claims did_hash at_block =
    candidates (newest_first [] (claims_of (lookup (lower did_hash) claims))) at_block []

-- `isBefore`, of a block and log index and those of a cursor
unfoldable pub is_before_cursor : ℕ → ℕ → ℕ → ℕ → Bool
is_before_cursor block index cursor_block cursor_index =
    ltb block cursor_block || (block == cursor_block && ltb index cursor_index)

-- `scanCovers`
pub scan_covers : Option ℕ → ℕ → ℕ → Bool
scan_covers none from_block block = ltb block from_block
scan_covers (some cursor_block) from_block block = ltb block cursor_block
