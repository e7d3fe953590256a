-- ===== src/Access.antt =====
-- oracle/http-helpers.js: who a caller is, by its bearer token, and what it may do.
mod Tests
use sigvara.Prelude.{
  ℕ, Bool, List, Option, [], false, if◌then◌else◌, keep, length, ltb, map, none, some, true, ◌&&◌,
  ◌∷◌,
}
use sigvara.Prelude.Text.{Text, text_eq}
use sigvara.Prelude.Dict.{lookup, has}

-- The loop of `identifyCaller`: the first credential whose token is the one presented.
first_match : Text → List (Text × Text) → Option Text
unfolding text_eq
first_match presented [] = none
first_match presented ((name, token) ∷ credentials) =
    let rest = first_match presented credentials in
    if text_eq presented (b'B' ∷ b'e' ∷ b'a' ∷ b'r' ∷ b'e' ∷ b'r' ∷ b' ' ∷ token)
    then some name
    else rest

abbrev pub unauthenticated : Text
unauthenticated =
    b'u' ∷ b'n' ∷ b'a' ∷ b'u' ∷ b't' ∷ b'h' ∷ b'e' ∷ b'n' ∷ b't' ∷ b'i' ∷ b'c' ∷ b'a' ∷ b't' ∷ b'e'
    ∷ b'd' ∷ []

-- `identifyCaller`, of the authorization header, empty where there is none
pub identify_caller : Text → List (Text × Text) → Option Text
unfolding first_match
identify_caller authorization [] = some unauthenticated
identify_caller authorization (c ∷ credentials) = first_match authorization (c ∷ credentials)

-- `mayAttestUnauthenticated`
pub may_attest_unauthenticated : Option Bool → Bool → Bool
may_attest_unauthenticated none payments_required = false
may_attest_unauthenticated (some success) payments_required = success && payments_required

-- `mayUse`
pub may_use : List (Text × List Text) → Text → Text → Bool
unfolding lookup has
may_use scopes caller scope = elim (lookup caller scopes) [
  | none ↦ true
  | some allowed ↦ has scope allowed
]

abbrev pub min_token_length : ℕ
min_token_length = 32

-- `weakCredentials`
pub weak_credentials : List (Text × Text) → List Text
weak_credentials credentials =
    map (λ c. c.0) (keep (λ c. ltb (length c.1) min_token_length) credentials)
