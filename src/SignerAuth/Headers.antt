-- ===== src/SignerAuth/Headers.antt =====
-- A header that the signer's client makes is one that the signer reads.
use sigvara.SignerAuth.{
  Seen, auth_header, auth_problem, parse_header, split_dot, admit, forget_old, max_skew_seconds,
  is_hex,
}
use sigvara.Prelude.Decimal.{
  all_of, decimal, decimal_from, digits_value, is_digit, digits_value-decimal_from,
  decimal_from-all_of, length-decimal_from, decimal_from_nonempty,
}
use sigvara.Prelude.Dict.{lookup}
use sigvara.Prelude.{
  Option-cases, [], arith, inl, inr, length, refl, some, true, ℕ, ◌++◌, ◌<◌, ◌^◌, ◌∷◌, ◌≡◌, ap,
  false, leb, ltb, none, ◌+◌, ◌-◌, ◌∙◌, ◌≤◌,
}
use sigvara.Prelude.Text.{Text, text_eq_self}

split_dot-digits :
    (digits rest : Text)
    → all_of is_digit digits ≡ true
    → split_dot (digits ++ b'.' ∷ rest) ≡ some (digits, rest)
unfolding split_dot all_of
split_dot-digits [] rest h = elim (Option-cases (split_dot rest)) [
  | inl no_dot ↦ rw no_dot refl
  | inr (parts, found) ↦ rw found refl
]
split_dot-digits (c ∷ digits) rest h =
    let ih = split_dot-digits digits rest (ground (arith, h)) in rw ih (ground (arith, h))

parse_header-parts :
    (digits code : Text)
    → all_of is_digit digits ≡ true
    → 0 < length digits
    → length digits ≤ 12
    → length code ≡ 64
    → all_of is_hex code ≡ true
    → parse_header (digits ++ b'.' ∷ code) ≡ some (digits_value 0 digits, code)
unfolding parse_header
parse_header-parts digits code number some_digits few long hex =
    let one : leb 1 (length digits) ≡ true = ground (arith, some_digits) in
    let twelve : leb (length digits) 12 ≡ true = ground (arith, few) in
    rw (split_dot-digits digits code number, parse_header, one, twelve, number, long, hex) refl

parse_header-decimal :
    (now : ℕ) (code : Text)
    → now < 10 ^ 12
    → length code ≡ 64
    → all_of is_hex code ≡ true
    → parse_header (decimal now ++ b'.' ∷ code) ≡ some (now, code)
unfolding decimal
parse_header-decimal now code lt long hex =
    parse_header-parts (decimal_from 16 now) code (decimal_from-all_of 16 now)
      (decimal_from_nonempty 15 now) (length-decimal_from 16 11 now lt) long hex
    ∙ ap (λ n. some (n, code)) (digits_value-decimal_from 16 now (omega (arith, lt)))

-- A request that the client signs is let through, once, by a signer with the same secret: the
-- header that is made at a time of at most twelve digits is read back, and passes at any time within
-- the skew at which the code is not among those seen. A code is 64 digits of hex.
pub auth_problem-auth_header :
    (mac : Text → ℕ → Text → Text) (secret body : Text) (now at : ℕ) (seen : Seen)
    → length (mac secret now body) ≡ 64
    → all_of is_hex (mac secret now body) ≡ true
    → now < 10 ^ 12
    → (at ≤ now + max_skew_seconds) × (now ≤ at + max_skew_seconds)
    → lookup (mac secret now body) (forget_old at seen) ≡ none
    → (parse_header (auth_header mac secret body now) ≡ some (now, mac secret now body))
      × ((auth_problem mac secret (auth_header mac secret body now) body at seen).0 ≡ none)
unfolding auth_problem auth_header admit
auth_problem-auth_header mac secret body now at seen long hex lt near fresh =
    let parsed = parse_header-decimal now (mac secret now body) lt long hex in
    let skew : ltb max_skew_seconds ((at - now) + (now - at)) ≡ false = ground (arith, near) in
    (parsed, rw (parsed, auth_problem, skew, text_eq_self (mac secret now body), fresh, admit) refl)
