-- ===== src/Upkeep/Pruning.antt =====
-- What a pruning drops.
use sigvara.Upkeep.{prune_lists}
use sigvara.Prelude.{Bool, List, [], arith, length, length-keep, refl, ℕ, ◌+◌, ◌∷◌, ◌≡◌}
use sigvara.Prelude.Text.{Text}

module _ {ℓ} {A : Type ℓ} where
  -- The entries of all lists.
  pub entries : List (Text × List A) → ℕ
  entries [] = 0
  entries ((did, list) ∷ m) = length list + entries m

  pub entries-prune_lists :
      (test : A → Bool) (m : List (Text × List A))
      → (prune_lists test m).0 + entries (prune_lists test m).1 ≡ entries m
  unfolding prune_lists entries
  entries-prune_lists test [] = refl
  entries-prune_lists test ((did, list) ∷ m) =
      ground (arith, entries-prune_lists test m, length-keep test list)
