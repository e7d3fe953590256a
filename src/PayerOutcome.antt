-- ===== src/PayerOutcome.antt =====
-- oracle/payer-outcome.js: a payer's signed outcome of a payment, the checks that it has to pass,
-- and the limit on bad signatures. Times are seconds unless their name ends in ms.
pub mod Limits
pub mod Times
mod Tests
use sigvara.Prelude.{
  ℕ, Bool, List, Option, [], false, if◌then◌else◌, leb, length, ltb, none, not, some, suc, take,
  true, zero, ◌%◌, ◌&&◌, ◌*◌, ◌+◌, ◌-◌, ◌/◌, ◌==◌, ◌||◌, ◌∷◌,
}
use sigvara.Prelude.Text.{Text, lower, text_eq}
use sigvara.Prelude.Dict.{lookup, erase, insert}

abbrev pub delivered : ℕ
delivered = 1

abbrev pub not_delivered : ℕ
not_delivered = 2

abbrev pub max_deadline_seconds : ℕ
max_deadline_seconds = 2_592_000

abbrev pub max_future_skew_seconds : ℕ
max_future_skew_seconds = 300

abbrev pub max_check_lag_seconds : ℕ
max_check_lag_seconds = 3_600

abbrev pub max_signature_bytes : ℕ
max_signature_bytes = 4_096

-- What the module takes from the ethers package.
pub record Ethers : Type 0 where
  pub is_address : Text → Bool
  pub get_address : Text → Text
  pub zero_hash : Text

-- The fields of a body, `none` where one is absent or of another type.
pub record Raw : Type 0 where
  pub payer : Option Text
  pub outcome : Option ℕ
  pub evidence : Option Text
  pub signed_at : Option ℕ
  pub deadline : Option ℕ
  pub signature : Option Text

pub record Signed : Type 0 where
  pub payer : Text
  pub outcome : ℕ
  pub evidence : Text
  pub signed_at : ℕ
  pub deadline : ℕ
  pub signature : Text

pub data ParseError : Type 0 where
  bad_payer bad_outcome bad_evidence bad_times bad_signature : ParseError

pub data Parsed : Type 0 where
  rejected : ParseError → Parsed
  accepted : Signed → Parsed

abbrev pub is_hex : ℕ → Bool
is_hex c = (leb b'0' c && leb c b'9') || (leb b'a' c && leb c b'f') || (leb b'A' c && leb c b'F')

pub all_hex : Text → Bool
all_hex [] = true
all_hex (c ∷ s) = is_hex c && all_hex s

abbrev pub after_0x : Text → Option Text
after_0x [] = none
after_0x (c ∷ []) = none
after_0x (c ∷ d ∷ s) = if c == b'0' && d == b'x' then some s else none

-- `BYTES32`: /^0x[0-9a-fA-F]{64}$/
pub is_bytes32 : Text → Bool
unfolding all_hex
is_bytes32 s = elim (after_0x s) [ none ↦ false | some h ↦ length h == 64 && all_hex h ]

-- /^0x([0-9a-fA-F]{2})+$/, of at most so many bytes
pub is_signature : Text → Bool
unfolding all_hex
is_signature s = elim (after_0x s) [
  | none ↦ false
  | some h ↦
      all_hex h && ltb 0 (length h) && length h % 2 == 0 && leb (length h / 2) max_signature_bytes
]

-- `isUint64`: a whole number that JavaScript holds exactly
abbrev pub max_safe_integer : ℕ
max_safe_integer = 9_007_199_254_740_991

abbrev pub is_uint64 : ℕ → Bool
is_uint64 n = leb n max_safe_integer

module _ (e : Ethers) where
  -- The last checks of `parse`, on fields of the right type.
  pub parse_signature : Text → ℕ → Text → ℕ → ℕ → Option Text → Parsed
  unfolding is_signature lower
  parse_signature payer outcome evidence signed_at deadline none = rejected bad_signature
  parse_signature payer outcome evidence signed_at deadline (some signature) =
      if not (is_signature signature)
      then rejected bad_signature
      else accepted (record {
        payer = e.get_address payer;
        outcome = outcome;
        evidence = lower evidence;
        signed_at = signed_at;
        deadline = deadline;
        signature = lower signature;
      })

  pub parse_times : Text → ℕ → Text → Option ℕ → Option ℕ → Option Text → Parsed
  unfolding parse_signature
  parse_times payer outcome evidence none deadline signature = rejected bad_times
  parse_times payer outcome evidence (some s) none signature = rejected bad_times
  parse_times payer outcome evidence (some s) (some d) signature =
      if is_uint64 s && is_uint64 d
      then parse_signature payer outcome evidence s d signature
      else rejected bad_times

  -- `parse`, of an object
  pub parse : Raw → Parsed
  unfolding parse_times is_bytes32
  parse raw = elim raw.payer [
    | none ↦ rejected bad_payer
    | some payer ↦
        let evidence : Text = elim raw.evidence [ none ↦ e.zero_hash | some x ↦ x ] in
        if not (e.is_address payer) then rejected bad_payer else elim raw.outcome [
          | none ↦ rejected bad_outcome
          | some outcome ↦
              if not (outcome == delivered || outcome == not_delivered)
              then rejected bad_outcome
              else if not (is_bytes32 evidence)
              then rejected bad_evidence
              else parse_times payer outcome evidence raw.signed_at raw.deadline raw.signature
        ]
  ]

pub data TimingProblem : Type 0 where
  signed_early signed_ahead deadline_far : TimingProblem

-- `timingProblem`
pub timing_problem : Signed → ℕ → ℕ → Option TimingProblem
timing_problem v settled_at_ms now_ms =
    if ltb (v.signed_at * 1000) settled_at_ms
    then some signed_early
    else if ltb (now_ms / 1000 + max_future_skew_seconds) v.signed_at
    then some signed_ahead
    else if ltb (v.signed_at + max_deadline_seconds) v.deadline
    then some deadline_far
    else none

pub data BlockProblem : Type 0 where
  checked_early deadline_passed : BlockProblem

-- `checkedBlockProblem`
pub checked_block_problem : Signed → ℕ → Option BlockProblem
checked_block_problem v checked_at_ms =
    if ltb (checked_at_ms / 1000 + max_check_lag_seconds) v.signed_at
    then some checked_early
    else if leb v.deadline (checked_at_ms / 1000)
    then some deadline_passed
    else none

-- `importLateProblem`, as whether there is one
pub import_late_problem : Signed → ℕ → ℕ → Bool
import_late_problem v arrived_at_ms grace_ms = ltb (v.deadline * 1000 + grace_ms) arrived_at_ms

-- What `recover` reads of a signature: its number of bytes, its `s` and its `v`.
pub record Ecdsa : Type 0 where
  pub size : ℕ
  pub s : ℕ
  pub v : ℕ

abbrev pub half_order : ℕ
half_order = 0x7fff_ffff_ffff_ffff_ffff_ffff_ffff_ffff_5d57_6e73_57a4_501d_dfe9_2f46_681b_20a0

-- `canonicalEcdsa`
pub canonical_ecdsa : Ecdsa → Bool
canonical_ecdsa g = g.size == 65 && leb g.s half_order && (g.v == 27 || g.v == 28)

pub data Signer : Type 0 where
  eoa contract : Signer

-- What a read of the node ends in; `refused` is a call that `accountRefused` recognizes.
pub data Answer : Type 0 where
  node_error refused : Answer
  answer : Option Text → Answer

-- `none` is the RpcError.
pub record Checked : Type 0 where
  pub valid : Bool
  pub signer : Signer

-- `recover`; `none` where `verifyTypedData` throws
pub recover : Ecdsa → Option Text → Text → Checked
unfolding text_eq canonical_ecdsa
recover g recovered payer = elim recovered [
  | none ↦ record { valid = false; signer = eoa }
  | some r ↦ record { valid = canonical_ecdsa g && text_eq r payer; signer = eoa }
]

abbrev pub has_no_code : Option Text → Bool
has_no_code none = true
has_no_code (some []) = true
has_no_code (some (c ∷ d ∷ [])) = c == b'0' && d == b'x'
has_no_code (some (c ∷ [])) = false
has_no_code (some (c ∷ d ∷ f ∷ s)) = false

pub zeros : ℕ → Text
zeros zero = []
zeros (suc n) = b'0' ∷ zeros n

-- `ERC1271_MAGIC` and the rest of the word.
abbrev pub magic_word : Text
magic_word = b'0' ∷ b'x' ∷ b'1' ∷ b'6' ∷ b'2' ∷ b'6' ∷ b'b' ∷ b'a' ∷ b'7' ∷ b'e' ∷ zeros 56

-- The end of `verifySignature`, on what the account's contract answers.
pub contract_answer : Answer → Option Checked
unfolding text_eq lower zeros
contract_answer node_error = none
contract_answer refused = some (record { valid = false; signer = contract })
contract_answer (answer none) = some (record { valid = false; signer = contract })
contract_answer (answer (some a)) = some (record {
  valid = leb 66 (length a) && text_eq (lower (take 66 a)) magic_word;
  signer = contract;
})

-- `verifySignature`, of the payer's code and its account's answer at the block.
pub verify_signature : Answer → Answer → Ecdsa → Option Text → Text → Option Checked
unfolding recover contract_answer
verify_signature node_error called g recovered payer = none
verify_signature refused called g recovered payer = none
verify_signature (answer code) called g recovered payer =
    if has_no_code code then some (recover g recovered payer) else contract_answer called

-- `verifyImported`, which asks for the code at the head first.
pub verify_imported : Answer → Answer → Answer → Ecdsa → Option Text → Text → Option Checked
unfolding verify_signature recover
verify_imported node_error code called g recovered payer = none
verify_imported refused code called g recovered payer = none
verify_imported (answer head_code) code called g recovered payer =
    if has_no_code head_code
    then some (recover g recovered payer)
    else verify_signature code called g recovered payer

-- The entries of `badSignatureLimiter`, in the order they were added.
pub record Noted : Type 0 where
  pub count : ℕ
  pub since : ℕ

abbrev pub SeenKeys : Type 0
SeenKeys = List (Text × Noted)

-- `blocked`: an entry whose window is over is dropped.
pub blocked : ℕ → ℕ → Text → ℕ → SeenKeys → Bool × SeenKeys
unfolding lookup erase
blocked limit window_ms key now seen = elim (lookup key seen) [
  | none ↦ (false, seen)
  | some n ↦
      if ltb window_ms (now - n.since) then (false, erase key seen) else (leb limit n.count, seen)
]

pub drop_expired : ℕ → ℕ → SeenKeys → SeenKeys
drop_expired window_ms now [] = []
drop_expired window_ms now ((k, n) ∷ seen) =
    let rest = drop_expired window_ms now seen in
    if ltb window_ms (now - n.since) then rest else (k, n) ∷ rest

-- The loop that makes room: the oldest entries go until there are fewer than the limit.
pub make_room : ℕ → SeenKeys → SeenKeys
make_room max_keys [] = []
make_room max_keys ((k, n) ∷ seen) =
    let rest = make_room max_keys seen in
    if ltb (length ((k, n) ∷ seen)) max_keys then (k, n) ∷ seen else rest

-- `note`
pub note : ℕ → ℕ → Text → ℕ → SeenKeys → SeenKeys
unfolding drop_expired make_room lookup insert
note window_ms max_keys key now seen =
    let kept =
      if leb max_keys (length seen)
      then make_room max_keys (drop_expired window_ms now seen)
      else seen in
    let fresh : Noted = record { count = 1; since = now } in
    elim (lookup key kept) [
      | none ↦ insert key fresh kept
      | some n ↦
          if ltb window_ms (now - n.since)
          then insert key fresh kept
          else insert key (record n { count = n.count + 1 }) kept
    ]
