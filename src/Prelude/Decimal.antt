-- ===== src/Prelude/Decimal.antt =====
-- Decimal digits, printed and read.
-- The decimal digits of a number; what the program prints has no more than sixteen.
use sigvara.Prelude.{
  Bool, Bool-cases, [], arith, if◌then◌else◌, inl, inr, leb, length, ltb, refl, suc, true, zero, ℕ,
  ◌%◌, ◌&&◌, ◌*◌, ◌++◌, ◌+◌, ◌-◌, ◌/◌, ◌<◌, ◌^◌, ◌∙◌, ◌∷◌, ◌≡◌, ◌≤◌, length-append,
}
use sigvara.Prelude.Text.{Text}
use native.Mathlib.Nat.{pow-suc}

unfoldable pub decimal_from : ℕ → ℕ → Text
decimal_from zero n = []
decimal_from (suc k) n =
    let more = decimal_from k (n / 10) in
    if ltb n 10 then (b'0' + n) ∷ [] else more ++ (b'0' + n % 10) ∷ []

unfoldable pub decimal : ℕ → Text
unfolding decimal_from
decimal n = decimal_from 16 n

abbrev pub is_digit : ℕ → Bool
is_digit c = leb b'0' c && leb c b'9'

-- `Number` of a text of digits, after a number read before it.
unfoldable pub digits_value : ℕ → Text → ℕ
digits_value n [] = n
digits_value n (c ∷ s) = digits_value (10 * n + (c - b'0')) s

unfoldable pub all_of : (ℕ → Bool) → Text → Bool
all_of test [] = true
all_of test (c ∷ s) = test c && all_of test s

digits_value-append :
    (n : ℕ) (s : Text) (c : ℕ) → digits_value n (s ++ c ∷ []) ≡ 10 * digits_value n s + (c - b'0')
unfolding digits_value
digits_value-append n [] c = refl
digits_value-append n (d ∷ s) c = digits_value-append (10 * n + (d - b'0')) s c

all_of-append :
    (test : ℕ → Bool) (s : Text) (c : ℕ) → all_of test (s ++ c ∷ []) ≡ (all_of test s && test c)
unfolding all_of
all_of-append test [] c = ground arith
all_of-append test (d ∷ s) c = ground (arith, all_of-append test s c)

last_digit : {n v : ℕ} → v ≡ n / 10 → 10 * v + (b'0' + n % 10 - b'0') ≡ n
last_digit h = omega (arith, h)

-- Reading what was printed gives the number again.
pub digits_value-decimal_from : (k n : ℕ) → n < 10 ^ k → digits_value 0 (decimal_from k n) ≡ n
unfolding decimal_from digits_value
digits_value-decimal_from zero n lt = omega (arith, lt)
digits_value-decimal_from (suc k) n lt = elim (Bool-cases (ltb n 10)) [
  | inl small ↦ rw (small, decimal_from) (omega arith)
  | inr large ↦
      rw (large, decimal_from)
        (digits_value-append 0 (decimal_from k (n / 10)) (b'0' + n % 10)
          ∙ last_digit (digits_value-decimal_from k (n / 10) (omega (arith, lt, pow-suc 10 k))))
]

pub decimal_from-all_of : (k n : ℕ) → all_of is_digit (decimal_from k n) ≡ true
unfolding decimal_from all_of
decimal_from-all_of zero n = refl
decimal_from-all_of (suc k) n = elim (Bool-cases (ltb n 10)) [
  | inl small ↦ rw (small, decimal_from) (ground (arith, small))
  | inr large ↦
      rw (large, decimal_from)
        (all_of-append is_digit (decimal_from k (n / 10)) (b'0' + n % 10)
          ∙ ground (arith, decimal_from-all_of k (n / 10)))
]

pub length-decimal_from : (k d n : ℕ) → n < 10 ^ suc d → length (decimal_from k n) ≤ suc d
unfolding decimal_from
length-decimal_from zero d n lt = omega arith
length-decimal_from (suc k) zero n lt = ground (arith, lt)
length-decimal_from (suc k) (suc d) n lt =
    let shorter : length (decimal_from k (n / 10)) ≤ suc d =
      length-decimal_from k d (n / 10) (omega (arith, lt, pow-suc 10 (suc d))) in
    let joined = length-append (decimal_from k (n / 10)) ((b'0' + n % 10) ∷ []) in
    elim (Bool-cases (ltb n 10)) [
      | inl small ↦ rw (small, decimal_from) (omega arith)
      | inr large ↦ rw (large, decimal_from) (omega (arith, shorter, joined))
    ]

pub decimal_from_nonempty : (k n : ℕ) → 0 < length (decimal_from (suc k) n)
unfolding decimal_from
decimal_from_nonempty k n =
    ground (arith, length-append (decimal_from k (n / 10)) ((b'0' + n % 10) ∷ []))
