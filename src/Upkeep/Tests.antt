-- ===== src/Upkeep/Tests.antt =====
-- Two cooldowns, one of them over, and the theorem there.
use sigvara.Prelude.Dict.{lookup, insert}
use sigvara.Prelude.Text.{text_eq, Text}
use sigvara.Upkeep.{prune_expired_cooldowns, resolve_flags}
use sigvara.Upkeep.Cooldowns.{IsDistinct}
use sigvara.Prelude.{List, [], refl, some, ℕ, ◌∷◌, ◌≡◌}

abbrev cooldowns : List (Text × ℕ)
cooldowns = (b'a' ∷ [], 100) ∷ (b'b' ∷ [], 900) ∷ []

prune_expired_cooldowns_runs : prune_expired_cooldowns 500 1_000 cooldowns ≡ (b'b' ∷ [], 900) ∷ []
unfolding prune_expired_cooldowns
prune_expired_cooldowns_runs = refl

resolve_flags_runs :
    resolve_flags (b'a' ∷ []) (some 1) ((b'a' ∷ [], 7 ∷ 9 ∷ []) ∷ [])
    ≡ (record { before = 2; after = 1; resolved = 1 }, (b'a' ∷ [], 7 ∷ []) ∷ [])
unfolding resolve_flags lookup insert text_eq
resolve_flags_runs = refl

cooldowns-IsDistinct : IsDistinct cooldowns
unfolding IsDistinct lookup text_eq
cooldowns-IsDistinct = (refl, (refl, tt))
