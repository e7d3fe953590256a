-- ===== src/EventIndex/Order.antt =====
-- What the binary search of the event index skips.
use sigvara.EventIndex.{
  Log, Query, first_position, is_before, is_match, is_past, past_at, select_logs,
}
use sigvara.Prelude.Search.{first_passing-IsFirst, IsMonotone}
use sigvara.Prelude.{
  All, Bool, List, [], arith, drop, false, keep, length, refl, suc, true, zero, ℕ, ◌&&◌, ◌<◌, ◌∷◌,
  ◌≡◌, ◌≤◌,
}

-- Logs in the order of the chain: none comes before one that stands to its left.
unfoldable pub IsSorted : List Log → Type 0
IsSorted [] = Unit
IsSorted (l ∷ logs) = All (λ m. is_before m l ≡ false) logs × IsSorted logs

is_past-later :
    (q : Query) (a b : Log) → is_before b a ≡ false → is_past q a ≡ true → is_past q b ≡ true
unfolding is_past is_before
is_past-later q a b order h = ground arith

past_at-later :
    (q : Query) (a : Log) (logs : List Log) (j : ℕ)
    → All (λ m. is_before m a ≡ false) logs
    → is_past q a ≡ true
    → past_at q logs j ≡ true
unfolding past_at
past_at-later q a [] j order h = refl
past_at-later q a (b ∷ logs) zero order h = is_past-later q a b order.0 h
past_at-later q a (b ∷ logs) (suc j) order h = past_at-later q a logs j order.1 h

past_at-IsMonotone : (q : Query) (logs : List Log) → IsSorted logs → IsMonotone (past_at q logs)
unfolding past_at IsSorted
past_at-IsMonotone q [] order i j le h = refl
past_at-IsMonotone q (l ∷ logs) order zero zero le h = h
past_at-IsMonotone q (l ∷ logs) order zero (suc j) le h = past_at-later q l logs j order.0 h
past_at-IsMonotone q (l ∷ logs) order (suc i) zero le h = ground arith
past_at-IsMonotone q (l ∷ logs) order (suc i) (suc j) le h =
    past_at-IsMonotone q logs order.1 i j (omega arith) h

abbrev is_wanted : Query → Log → Bool
is_wanted q l = is_match q l && is_past q l

keep-drop :
    (q : Query) (k : ℕ) (logs : List Log)
    → ((i : ℕ) → i < k → past_at q logs i ≡ false)
    → ((i : ℕ) → k ≤ i → i < length logs → past_at q logs i ≡ true)
    → keep (is_match q) (drop k logs) ≡ keep (is_wanted q) logs
unfolding past_at
keep-drop q zero [] before after = refl
keep-drop q (suc k) [] before after = refl
keep-drop q zero (l ∷ logs) before after =
    let first : is_past q l ≡ true = after 0 (omega arith) (omega arith) in
    let rest =
      keep-drop q zero logs (λ i h. absurd (omega arith))
        (λ i h lt. after (suc i) (omega arith) (omega arith)) in
    ground (arith, first, rest)
keep-drop q (suc k) (l ∷ logs) before after =
    let first : is_past q l ≡ false = before 0 (omega arith) in
    let rest =
      keep-drop q k logs (λ i h. before (suc i) (omega arith))
        (λ i h lt. after (suc i) (omega arith) (omega arith)) in
    ground (arith, first, rest)

-- The binary search loses nothing: on logs in the order of the chain, what is served for a query
-- is every log that matches it and lies past its block and its cursor, in that order.
pub select_logs-eq-keep :
    (logs : List Log) (q : Query)
    → IsSorted logs
    → select_logs logs q ≡ keep (λ l. is_match q l && is_past q l) logs
unfolding select_logs first_position
select_logs-eq-keep logs q order =
    let first =
      first_passing-IsFirst (length logs) (past_at q logs) 0 (length logs)
        (past_at-IsMonotone q logs order) (omega arith) (omega arith) in
    keep-drop q (first_position logs q) logs (λ i h. first.before i (omega arith) h) first.after
