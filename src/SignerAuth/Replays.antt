-- ===== src/SignerAuth/Replays.antt =====
-- A request is let through once.
use sigvara.SignerAuth.{
  Seen, admit, auth_problem, forget_old, max_skew_seconds, parse_header, seen_after, out_of_time,
  mismatch,
}
use sigvara.Prelude.Dict.{lookup-insert, lookup}
use sigvara.Prelude.{
  List, Option-cases, [], arith, inl, inr, refl, some, ℕ, ◌+◌, ◌<◌, ◌∈◌, ◌∷◌, ◌≡◌, ◌≤◌, ◌⊎◌,
  Bool-cases, if◌then◌else◌, ltb, none, not, ◌-◌, ◌≢◌,
}
use sigvara.Prelude.Text.{Text, text_eq_iff, text_eq, text_eq_self}
use native.Mathlib.Decide.{dec_lt}

-- A signature that is kept while a clock may come to `later`: seen, or too old by then.
abbrev IsGuarded : Text → ℕ → ℕ → Seen → Type 0
IsGuarded signature until later seen = (lookup signature seen ≡ some until) ⊎ (until < later)

lookup-forget_old :
    (signature : Text) (until now : ℕ) (seen : Seen)
    → lookup signature seen ≡ some until
    → now ≤ until
    → lookup signature (forget_old now seen) ≡ some until
unfolding lookup forget_old
lookup-forget_old signature until now [] found le = found
lookup-forget_old signature until now ((k, u) ∷ seen) found le =
    ground (arith, lookup-forget_old signature until now seen)

admit-IsGuarded :
    (signature other : Text) (until later ts now : ℕ) (seen : Seen)
    → now ≤ later
    → IsGuarded signature until later seen
    → IsGuarded signature until later (admit ts now other seen).1
unfolding admit
admit-IsGuarded signature other until later ts now seen le (inr old) = inr old
admit-IsGuarded signature other until later ts now seen le (inl found) =
    let kept : Seen = forget_old now seen in
    elim (dec_lt until now) [
      | yes gone ↦ inr (omega arith)
      | no here ↦
          let still = lookup-forget_old signature until now seen found (omega arith) in
          inl (
            ground (
              arith,
              still,
              lookup-insert other signature (ts + max_skew_seconds) kept,
              text_eq_iff other signature,
            ))
    ]

-- A signature that is let through is kept from then on.
admit-lookup :
    (ts now : ℕ) (signature : Text) (seen : Seen)
    → (admit ts now signature seen).0 ≡ none
    → lookup signature (admit ts now signature seen).1 ≡ some (ts + max_skew_seconds)
unfolding admit
admit-lookup ts now signature seen h =
    let added = lookup-insert signature signature (ts + max_skew_seconds) (forget_old now seen) in
    ground (arith, added, text_eq_self signature)

module _ (mac : Text → ℕ → Text → Text) (secret : Text) where
  checked-IsGuarded :
      (signature : Text) (until later ts now : ℕ) (secret body other : Text) (seen : Seen)
      → IsGuarded signature until later (admit ts now other seen).1
      → IsGuarded signature until later seen
      → IsGuarded signature until later
          (if ltb max_skew_seconds ((now - ts) + (ts - now))
            then (some out_of_time, seen)
            else if not (text_eq (mac secret ts body) other)
            then (some mismatch, seen)
            else admit ts now other seen).1
  checked-IsGuarded signature until later ts now secret body other seen next g =
      elim (Bool-cases (ltb max_skew_seconds ((now - ts) + (ts - now)))) [
        | inl off ↦ rw off g
        | inr on ↦ elim (Bool-cases (text_eq (mac secret ts body) other)) [
          | inl same ↦ rw (on, same) next
          | inr different ↦ rw (on, different) g
        ]
      ]

  auth_problem-IsGuarded :
      (signature : Text) (until later : ℕ) (header body : Text) (now : ℕ) (seen : Seen)
      → now ≤ later
      → IsGuarded signature until later seen
      → IsGuarded signature until later (auth_problem mac secret header body now seen).1
  unfolding auth_problem
  auth_problem-IsGuarded signature until later header body now seen le g =
      elim (Option-cases (parse_header header)) [
        | inl bad ↦ rw (auth_problem, bad) g
        | inr ((ts, other), parsed) ↦
            let next = admit-IsGuarded signature other until later ts now seen le g in
            rw (auth_problem, parsed)
              (checked-IsGuarded signature until later ts now secret body other seen next g)
      ]

  checked-lookup :
      (ts now : ℕ) (body signature : Text) (seen : Seen)
      → (if ltb max_skew_seconds ((now - ts) + (ts - now))
          then (some out_of_time, seen)
          else if not (text_eq (mac secret ts body) signature)
          then (some mismatch, seen)
          else admit ts now signature seen).0
        ≡ none
      → lookup signature
          (if ltb max_skew_seconds ((now - ts) + (ts - now))
            then (some out_of_time, seen)
            else if not (text_eq (mac secret ts body) signature)
            then (some mismatch, seen)
            else admit ts now signature seen).1
        ≡ some (ts + max_skew_seconds)
  checked-lookup ts now body signature seen =
      elim (Bool-cases (ltb max_skew_seconds ((now - ts) + (ts - now)))) [
        | inl off ↦ rw off (λ h. ground arith)
        | inr on ↦ elim (Bool-cases (text_eq (mac secret ts body) signature)) [
          | inl same ↦ rw (on, same) (admit-lookup ts now signature seen)
          | inr different ↦ rw (on, different) (λ h. ground arith)
        ]
      ]

  -- A request that passes leaves its signature kept for as long as its time may be accepted.
  passed-lookup :
      (header body : Text) (now : ℕ) (seen : Seen)
      → (auth_problem mac secret header body now seen).0 ≡ none
      → (ts : ℕ) × (signature : Text) × (parse_header header ≡ some (ts, signature))
        × (lookup signature (auth_problem mac secret header body now seen).1
            ≡ some (ts + max_skew_seconds))
  unfolding auth_problem admit
  passed-lookup header body now seen passed = elim (Option-cases (parse_header header)) [
    | inl bad ↦ ground (arith, bad)
    | inr ((ts, signature), parsed) ↦
        let kept : (auth_problem mac secret header body now seen).0 ≡ none
            → lookup signature (auth_problem mac secret header body now seen).1
              ≡ some (ts + max_skew_seconds) =
          rw (auth_problem, parsed) (checked-lookup ts now body signature seen) in
        (ts, signature, parsed, kept passed)
  ]

  -- A header whose signature is kept, or whose time is past, is refused.
  refused :
      (header body : Text) (now ts : ℕ) (signature : Text) (seen : Seen)
      → parse_header header ≡ some (ts, signature)
      → IsGuarded signature (ts + max_skew_seconds) now seen
      → (auth_problem mac secret header body now seen).0 ≢ none
  unfolding auth_problem admit
  refused header body now ts signature seen parsed (inr old) =
      rw (auth_problem, parsed) (λ h. ground arith)
  refused header body now ts signature seen parsed (inl found) =
      let still = lookup-forget_old signature (ts + max_skew_seconds) now seen found in
      rw (auth_problem, parsed) (λ h. ground (arith, still))

  seen_after-IsGuarded :
      (signature : Text) (until later : ℕ) (requests : List (Text × Text × ℕ)) (seen : Seen)
      → ((r : Text × Text × ℕ) → r ∈ requests → r.2 ≤ later)
      → IsGuarded signature until later seen
      → IsGuarded signature until later (seen_after mac secret requests seen)
  unfolding seen_after
  seen_after-IsGuarded signature until later [] seen times g = g
  seen_after-IsGuarded signature until later ((header, body, now) ∷ requests) seen times g =
      seen_after-IsGuarded signature until later requests
        (auth_problem mac secret header body now seen).1 (λ r at. times r (inr at))
        (auth_problem-IsGuarded signature until later header body now seen
          (times (header, body, now) (inl refl)) g)

  -- A header that was let through is not let through again: whatever requests come in between and
  -- whatever body comes with it, at any time that is not before any of theirs.
  pub auth_problem_once :
      (header body other_body : Text) (now later : ℕ) (requests : List (Text × Text × ℕ))
      (seen : Seen)
      → (auth_problem mac secret header body now seen).0 ≡ none
      → ((r : Text × Text × ℕ) → r ∈ requests → r.2 ≤ later)
      → (auth_problem mac secret header other_body later
          (seen_after mac secret requests (auth_problem mac secret header body now seen).1)).0
        ≢ none
  auth_problem_once header body other_body now later requests seen passed times =
      let (ts, signature, parsed, kept) = passed-lookup header body now seen passed in
      refused header other_body later ts signature
        (seen_after mac secret requests (auth_problem mac secret header body now seen).1) parsed
        (seen_after-IsGuarded signature (ts + max_skew_seconds) later requests
          (auth_problem mac secret header body now seen).1 times (inl kept))
