-- ===== src/EvidenceAsOf/Matches.antt =====
-- When the evidence of a proposal is found, and what is found.
use sigvara.EvidenceAsOf.{
  AsOf, Options, evidence_as_of, first_match, readings, unmatched, answer_of,
}
use sigvara.Event.{Event}
use sigvara.Merkle.{Ethers}
use sigvara.Merkle.Leaves.{Abi, root_for}
use sigvara.Prelude.{
  Bool-cases, List, Option-cases, [], arith, inl, inr, none, some, subst, sym, ◌∈◌, ◌∷◌, ◌≡◌,
  Option, ap, true, ℕ, ◌∙◌, ◌⊎◌, refl,
}
use sigvara.Prelude.Text.{Text, lower, text_eq, text_eq_sound, text_eq_self}

text_of : Option Text → Text
text_of none = []
text_of (some t) = t

either : AsOf → Option AsOf → AsOf
either a none = a
either a (some b) = b

module _ (e : Ethers) (abi : Abi) (committed : Text) where
  -- A reading whose root is the committed one, in any case of its hex digits.
  abbrev pub IsCommitted : List Event → Type 0
  IsCommitted reading =
      (root : Text) × (root_for e abi reading ≡ some root) × (lower root ≡ lower committed)

  first_match-IsCommitted :
      (tried : List (List Event)) (reading : List Event)
      → first_match e abi committed tried ≡ some (some reading)
      → (reading ∈ tried) × IsCommitted reading
  unfolding first_match
  first_match-IsCommitted [] reading h = absurd (ground (arith, h))
  first_match-IsCommitted (r ∷ more) reading h = elim (Option-cases (root_for e abi r)) [
    | inl thrown ↦ absurd (ground (arith, h, thrown))
    | inr (root, found) ↦ elim (Bool-cases (text_eq (lower root) (lower committed))) [
      | inl same ↦
          let here : r ≡ reading = ground (arith, h, found, same) in
          (
            inl (sym here),
            subst IsCommitted here (root, found, text_eq_sound (lower root) (lower committed) same),
          )
      | inr other ↦
          let later = first_match-IsCommitted more reading (ground (arith, h, found, other)) in
          (inr later.0, later.1)
    ]
  ]

  first_match-none :
      (tried : List (List Event))
      → first_match e abi committed tried ≡ some none
      → (reading : List Event) → reading ∈ tried
      → ¬ IsCommitted reading
  unfolding first_match text_of
  first_match-none [] h reading at c = elim at [ ]
  first_match-none (r ∷ more) h reading at c = elim (Option-cases (root_for e abi r)) [
    | inl thrown ↦ ground (arith, h, thrown)
    | inr (root, found) ↦ elim (Bool-cases (text_eq (lower root) (lower committed))) [
      | inl same ↦ ground (arith, h, found, same)
      | inr other ↦ elim at [
        | inr later ↦ first_match-none more (ground (arith, h, found, other)) reading later c
        | inl here ↦
            let (root', found', same) = subst IsCommitted here c in
            let one : root' ≡ root = ap text_of (sym found' ∙ found) in
            let equal : text_eq (lower root) (lower committed) ≡ true =
              subst (λ t. text_eq t (lower committed) ≡ true) (sym same ∙ ap lower one)
                (text_eq_self (lower committed)) in
            ground (arith, other, equal)
      ]
    ]
  ]

-- The answer says that the root matched exactly where one of the readings has the committed root:
-- then it is a reading with that root, and otherwise it is what counted at the newest cut and no
-- reading has that root. Each event is one that has a leaf, so there is an answer.
pub evidence_as_of-IsCommitted :
    (e : Ethers) (abi : Abi) (events : List Event) (at_ms c : ℕ) (s : Text) (o : Options) (r : AsOf)
    → evidence_as_of e abi events at_ms (some (c ∷ s)) o ≡ some r
    → ((r.matched_root ≡ true)
        × (r.events ∈ readings o events at_ms)
        × IsCommitted e abi (c ∷ s) r.events)
      ⊎ ((r ≡ unmatched e abi o events at_ms)
          × ((reading : List Event)
              → reading ∈ readings o events at_ms
              → ¬ IsCommitted e abi (c ∷ s) reading))
unfolding evidence_as_of answer_of either
evidence_as_of-IsCommitted e abi events at_ms c s o r h =
    let tried : List (List Event) = readings o events at_ms in
    let missed : AsOf = unmatched e abi o events at_ms in
    elim (Option-cases (first_match e abi (c ∷ s) tried)) [
      | inl thrown ↦
          let none_answered : none ≡ some r =
            subst (λ m. answer_of e abi o events at_ms m ≡ some r) thrown h in
          absurd (ground (arith, none_answered))
      | inr (found, first) ↦ elim (Option-cases found) [
        | inl nothing ↦
            let none_found : first_match e abi (c ∷ s) tried ≡ some none =
              first ∙ ap some nothing in
            let answered : some missed ≡ some r =
              subst (λ m. answer_of e abi o events at_ms m ≡ some r) none_found h in
            inr (sym (ap (either missed) answered), first_match-none e abi (c ∷ s) tried none_found)
        | inr (reading, read) ↦
            let one_found : first_match e abi (c ∷ s) tried ≡ some (some reading) =
              first ∙ ap some read in
            let hit : AsOf = record { events = reading; matched_root = true } in
            let answered : some hit ≡ some r =
              subst (λ m. answer_of e abi o events at_ms m ≡ some r) one_found h in
            let matched = first_match-IsCommitted e abi (c ∷ s) tried reading one_found in
            inl (
              subst
                (λ x.
                  (x.matched_root ≡ true) × (x.events ∈ tried) × IsCommitted e abi (c ∷ s) x.events)
                (ap (either missed) answered) (refl, matched.0, matched.1))
      ]
    ]
