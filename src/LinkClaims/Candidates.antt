-- ===== src/LinkClaims/Candidates.antt =====
-- The candidates of an agent are distinct.
use sigvara.Prelude.Dict.{has}
use sigvara.LinkClaims.{Claim, candidates, is_after, has}
use sigvara.Prelude.Dict.{has-cons_self}
use sigvara.Prelude.{
  Bool-cases, List, Option, [], arith, false, inl, inr, refl, true, ℕ, ◌||◌, ◌∷◌, ◌≡◌,
}
use sigvara.Prelude.Text.{Text, text_eq_iff}

-- No candidate was seen before.
candidates-has :
    (k : Text) (claims : List Claim) (at_block : Option ℕ) (seen : List Text)
    → has k seen ≡ true
    → has k (candidates claims at_block seen) ≡ false
unfolding candidates has
candidates-has k [] at_block seen h = refl
candidates-has k (c ∷ claims) at_block seen h = ground (
  arith,
  candidates-has k claims at_block seen h,
  candidates-has k claims at_block (c.agent_id ∷ seen),
  text_eq_iff c.agent_id k,
)

-- Every name stands once.
abbrev pub AreDistinct : List Text → Type 0
AreDistinct [] = Unit
AreDistinct (x ∷ xs) = (has x xs ≡ false) × AreDistinct xs

-- However often an external agent claims an agent, it is a candidate once.
pub candidates-AreDistinct :
    (claims : List Claim) (at_block : Option ℕ) (seen : List Text)
    → AreDistinct (candidates claims at_block seen)
unfolding candidates
candidates-AreDistinct [] at_block seen = tt
candidates-AreDistinct (c ∷ claims) at_block seen =
    elim (Bool-cases (is_after at_block c.block || has c.agent_id seen)) [
      | inl skip ↦ rw skip (candidates-AreDistinct claims at_block seen)
      | inr fresh ↦ rw fresh (
        candidates-has c.agent_id claims at_block (c.agent_id ∷ seen)
            (has-cons_self c.agent_id seen),
        candidates-AreDistinct claims at_block (c.agent_id ∷ seen),
      )
    ]
