-- ===== src/Prelude/Keep.antt =====
-- What keeping the members that pass a test makes of a list.
use sigvara.Prelude.{
  All, Bool, Bool-cases, List, [], ap, false, inl, inr, keep, refl, true, ◌++◌, ◌∙◌, ◌∷◌, ◌≡◌,
}

module _ {ℓ} {A : Type ℓ} (p : A → Bool) where
  pub keep_in : (x : A) (xs : List A) → p x ≡ true → keep p (x ∷ xs) ≡ x ∷ keep p xs
  keep_in x xs h = rw h refl

  pub keep_out : (x : A) (xs : List A) → p x ≡ false → keep p (x ∷ xs) ≡ keep p xs
  keep_out x xs h = rw h refl

  pub keep_none : (xs : List A) → All (λ x. p x ≡ false) xs → keep p xs ≡ []
  keep_none [] h = refl
  keep_none (x ∷ xs) h = keep_out x xs h.0 ∙ keep_none xs h.1

  pub keep-append : (xs ys : List A) → keep p (xs ++ ys) ≡ keep p xs ++ keep p ys
  keep-append [] ys = refl
  keep-append (x ∷ xs) ys = elim (Bool-cases (p x)) [
    | inl h ↦ rw h (ap (λ t. x ∷ t) (keep-append xs ys))
    | inr h ↦ rw h (keep-append xs ys)
  ]

  pub keep-All {κ} : (P : A → Type κ) (xs : List A) → All P xs → All P (keep p xs)
  keep-All P [] h = tt
  keep-All P (x ∷ xs) h = elim (Bool-cases (p x)) [
    | inl q ↦ rw q (h.0, keep-All P xs h.1)
    | inr q ↦ rw q (keep-All P xs h.1)
  ]

pub keep_ext {ℓ} :
    {A : Type ℓ} (p q : A → Bool) (xs : List A) → All (λ x. p x ≡ q x) xs → keep p xs ≡ keep q xs
keep_ext p q [] h = refl
keep_ext p q (x ∷ xs) h = rw (h.0, keep_ext p q xs h.1) refl
