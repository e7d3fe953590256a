-- ===== src/Upkeep/Cooldowns.antt =====
-- Pruning cooldowns changes no answer.
use sigvara.Upkeep.{check_attest_cooldown, prune_expired_cooldowns}
use sigvara.Prelude.{List, [], arith, none, refl, ℕ, ◌∷◌, ◌≡◌}
use sigvara.Prelude.Text.{Text, text_eq_iff}
use sigvara.Prelude.Dict.{lookup}

-- Every key stands once.
unfoldable pub IsDistinct : List (Text × ℕ) → Type 0
IsDistinct [] = Unit
IsDistinct ((k, t) ∷ m) = (lookup k m ≡ none) × IsDistinct m

-- Pruning adds no key.
lookup-prune_expired_cooldowns :
    (cooldown_ms now : ℕ) (key : Text) (m : List (Text × ℕ))
    → lookup key m ≡ none
    → lookup key (prune_expired_cooldowns cooldown_ms now m) ≡ none
unfolding lookup prune_expired_cooldowns
lookup-prune_expired_cooldowns cooldown_ms now key [] h = refl
lookup-prune_expired_cooldowns cooldown_ms now key ((k, t) ∷ m) h =
    ground (arith, lookup-prune_expired_cooldowns cooldown_ms now key m)

-- In a map that holds each key once, pruning at a time changes no answer at that time: whoever may attest before it may after it, and
-- whoever must wait has as long to wait.
pub check_attest_cooldown-prune_expired_cooldowns :
    (cooldown_ms now : ℕ) (key : Text) (m : List (Text × ℕ))
    → IsDistinct m
    → check_attest_cooldown cooldown_ms key now (prune_expired_cooldowns cooldown_ms now m)
      ≡ check_attest_cooldown cooldown_ms key now m
unfolding check_attest_cooldown prune_expired_cooldowns lookup IsDistinct
check_attest_cooldown-prune_expired_cooldowns cooldown_ms now key [] d = refl
check_attest_cooldown-prune_expired_cooldowns cooldown_ms now key ((k, t) ∷ m) d = ground (
  arith,
  check_attest_cooldown-prune_expired_cooldowns cooldown_ms now key m d.1,
  lookup-prune_expired_cooldowns cooldown_ms now k m d.0,
  d.0,
  text_eq_iff k key,
)
