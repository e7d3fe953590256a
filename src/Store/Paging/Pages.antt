-- ===== src/Store/Paging/Pages.antt =====
-- A page of `payerOutcomesSince` is the first part of what was accepted after the time asked for.
use sigvara.Prelude.Search.{first_passing, first_passing-IsFirst, IsMonotone, IsFirst}
use sigvara.Store.Paging.{
  accepted_after, is_empty, payer_outcomes_since, outcomes_after, all_served, later_than, collect,
  Accepted, Store, served, IsIncreasing,
}
use sigvara.Prelude.{
  All, Bool, List, Option-cases, [], ap, arith, drop, false, inl, inr, keep, length, ltb, refl, suc,
  take, true, zero, ℕ, ◌<◌, ◌∷◌, ◌≡◌, ◌≤◌,
}
use sigvara.Store.Reports.{IsOrdered}

collect-take :
    (s : Store) (limit : ℕ) (order : List Accepted)
    → (collect s limit order).0 ≡ take limit (all_served s order)
unfolding collect all_served
collect-take s zero [] = refl
collect-take s (suc n) [] = refl
collect-take s zero (a ∷ rest) = refl
collect-take s (suc n) (a ∷ rest) = elim (Option-cases (served s a)) [
  | inl gone ↦ rw (gone, collect, all_served) (collect-take s (suc n) rest)
  | inr (o, there) ↦ rw (there, collect, all_served) (ap (λ t. o ∷ t) (collect-take s n rest))
]

collect-left :
    (s : Store) (limit : ℕ) (order : List Accepted)
    → is_empty (collect s limit order).1 ≡ true
    → (collect s limit order).0 ≡ all_served s order
unfolding collect all_served is_empty
collect-left s limit [] h = refl
collect-left s zero (a ∷ rest) h = cc
collect-left s (suc n) (a ∷ rest) h = elim (Option-cases (served s a)) [
  | inl gone ↦
      rw (gone, collect, all_served) (collect-left s (suc n) rest (rw (gone, collect) at h))
  | inr (o, there) ↦
      rw (there, collect, all_served)
        (ap (λ t. o ∷ t) (collect-left s n rest (rw (there, collect) at h)))
]

accepted_after-later :
    (a : Accepted) (rest : List Accepted) (since j : ℕ)
    → All (λ b. a.accepted_at < b.accepted_at) rest
    → ltb since a.accepted_at ≡ true
    → accepted_after rest since j ≡ true
unfolding accepted_after
accepted_after-later a [] since j h pass = refl
accepted_after-later a (b ∷ rest) since zero h pass = ground arith
accepted_after-later a (b ∷ rest) since (suc j) h pass =
    accepted_after-later a rest since j h.1 pass

accepted_after-IsMonotone :
    (order : List Accepted) (since : ℕ)
    → IsIncreasing order
    → IsMonotone (accepted_after order since)
unfolding accepted_after
accepted_after-IsMonotone [] since inc i j le pass = refl
accepted_after-IsMonotone (a ∷ rest) since inc zero zero le pass = pass
accepted_after-IsMonotone (a ∷ rest) since inc zero (suc j) le pass =
    accepted_after-later a rest since j inc.0 pass
accepted_after-IsMonotone (a ∷ rest) since inc (suc i) zero le pass = absurd (omega arith)
accepted_after-IsMonotone (a ∷ rest) since inc (suc i) (suc j) le pass =
    accepted_after-IsMonotone rest since inc.1 i j (omega arith) pass

drop-eq-keep :
    (order : List Accepted) (since k : ℕ)
    → ((i : ℕ) → i < k → accepted_after order since i ≡ false)
    → ((i : ℕ) → k ≤ i → i < length order → accepted_after order since i ≡ true)
    → drop k order ≡ keep (later_than since) order
unfolding accepted_after
drop-eq-keep [] since zero before after = refl
drop-eq-keep [] since (suc k) before after = refl
drop-eq-keep (a ∷ rest) since zero before after = rw (after 0 (omega arith) (omega arith)) (
    ap (λ t. a ∷ t)
      (drop-eq-keep rest since zero (λ i h. absurd (omega arith))
        (λ i l h. after (suc i) (omega arith) (omega arith))))
drop-eq-keep (a ∷ rest) since (suc k) before after = rw (before 0 (omega arith)) (
    drop-eq-keep rest since k (λ i h. before (suc i) (omega arith))
      (λ i l h. after (suc i) (omega arith) (omega arith)))

found_lo :
    (s : Store) (since : ℕ)
    → IsOrdered s
    → let size = length s.accepted_order in
      drop (first_passing size (accepted_after s.accepted_order since) 0 size) s.accepted_order
      ≡ keep (later_than since) s.accepted_order
found_lo s since o =
    let size : ℕ = length s.accepted_order in
    let test : ℕ → Bool = accepted_after s.accepted_order since in
    let r : IsFirst test 0 size (first_passing size test 0 size) =
      first_passing-IsFirst size test 0 size
        (accepted_after-IsMonotone s.accepted_order since o.increasing) (omega arith)
        (omega arith) in
    drop-eq-keep s.accepted_order since (first_passing size test 0 size)
      (λ i h. r.before i (omega arith) h) r.after

pub payer_outcomes_since-eq-take :
    (s : Store) (since limit : ℕ)
    → IsOrdered s
    → ((payer_outcomes_since s since limit).0 ≡ take limit (outcomes_after s since))
      × ((payer_outcomes_since s since limit).1 ≡ false
          → (payer_outcomes_since s since limit).0 ≡ outcomes_after s since)
unfolding payer_outcomes_since outcomes_after
payer_outcomes_since-eq-take s since limit o = rw (found_lo s since o) (
  collect-take s limit (keep (later_than since) s.accepted_order),
  λ done. collect-left s limit (keep (later_than since) s.accepted_order) (ground arith),
)
