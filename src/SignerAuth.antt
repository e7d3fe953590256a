-- ===== src/SignerAuth.antt =====
-- oracle/signer-auth.js: the authentication of a request to the signer, and its replay guard.
pub mod Replays
pub mod Headers
mod Tests
use sigvara.Prelude.{
  ℕ, Bool, List, Option, [], if◌then◌else◌, leb, length, ltb, none, not, some, true, ◌&&◌, ◌*◌, ◌+◌,
  ◌-◌, ◌==◌, ◌||◌, ◌∷◌, ◌++◌,
}
use sigvara.Prelude.Text.{Text, text_eq}
use sigvara.Prelude.Decimal.{all_of, decimal, digits_value, is_digit}
use sigvara.Prelude.Dict.{lookup, insert}

abbrev pub max_skew_seconds : ℕ
max_skew_seconds = 60

abbrev pub is_hex : ℕ → Bool
is_hex c = is_digit c || (leb b'a' c && leb c b'f')

-- The texts before and after the first dot.
pub split_dot : Text → Option (Text × Text)
split_dot [] = none
split_dot (c ∷ s) = elim (split_dot s) [
  | none ↦ if c == b'.' then some ([], s) else none
  | some (before, after) ↦ if c == b'.' then some ([], s) else some (c ∷ before, after)
]

-- The match of /^(\d{1,12})\.([0-9a-f]{64})$/: the time and the signature. Digits hold no dot, so
-- the first one ends them.
pub parse_header : Text → Option (ℕ × Text)
unfolding split_dot all_of digits_value
parse_header header = elim (split_dot header) [
  | none ↦ none
  | some (digits, signature) ↦
      if leb 1 (length digits)
        && leb (length digits) 12
        && all_of is_digit digits
        && length signature == 64
        && all_of is_hex signature
      then some (digits_value 0 digits, signature)
      else none
]

pub data Problem : Type 0 where
  malformed out_of_time mismatch already_seen : Problem

-- `seen`: signatures and the time until which they are kept.
abbrev pub Seen : Type 0
Seen = List (Text × ℕ)

-- `for (const [k, until] of seen) if (until < nowSec) seen.delete(k)`
pub forget_old : ℕ → Seen → Seen
forget_old now [] = []
forget_old now ((k, until) ∷ seen) =
    if ltb until now then forget_old now seen else (k, until) ∷ forget_old now seen

-- A request that passed the other checks: refused if seen, and kept otherwise.
pub admit : ℕ → ℕ → Text → Seen → Option Problem × Seen
unfolding forget_old lookup insert
admit ts now signature seen =
    let kept = forget_old now seen in
    elim (lookup signature kept) [
      | some until ↦ (some already_seen, kept)
      | none ↦ (none, insert signature (ts + max_skew_seconds) kept)
    ]

-- `crypto`'s HMAC of a secret, a time and a body, in 64 lower-case hex digits; two of these are the
-- same bytes when they are the same text.
module _ (mac : Text → ℕ → Text → Text) where
  -- `authProblem`
  pub auth_problem : Text → Text → Text → ℕ → Seen → Option Problem × Seen
  unfolding parse_header admit text_eq
  auth_problem secret header body now seen = elim (parse_header header) [
    | none ↦ (some malformed, seen)
    | some (ts, signature) ↦
        if ltb max_skew_seconds ((now - ts) + (ts - now))
        then (some out_of_time, seen)
        else if not (text_eq (mac secret ts body) signature)
        then (some mismatch, seen)
        else admit ts now signature seen
  ]

  -- `authHeader`
  pub auth_header : Text → Text → ℕ → Text
  auth_header secret body now = decimal now ++ b'.' ∷ mac secret now body

  -- What is seen after a run of requests, each a header, a body and the time it came.
  pub seen_after : Text → List (Text × Text × ℕ) → Seen → Seen
  unfolding auth_problem
  seen_after secret [] seen = seen
  seen_after secret ((header, body, now) ∷ requests) seen =
      seen_after secret requests (auth_problem secret header body now seen).1
