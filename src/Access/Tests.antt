-- ===== src/Access/Tests.antt =====
-- Callers and their scopes.
use sigvara.Prelude.Dict.{lookup, has}
use sigvara.Prelude.Text.{text_eq, Text}
use sigvara.Access.{may_use, identify_caller}
use sigvara.Prelude.{[], false, refl, some, true, ◌∷◌, ◌≡◌}

abbrev admin : Text
admin = b'a' ∷ []

may_use_runs :
    (may_use ((admin, (b's' ∷ []) ∷ []) ∷ []) admin (b'e' ∷ []) ≡ false)
    × (may_use [] admin (b'e' ∷ []) ≡ true)
unfolding may_use lookup has text_eq
may_use_runs = (refl, refl)

identify_caller_runs :
    identify_caller
      (b'B' ∷ b'e' ∷ b'a' ∷ b'r' ∷ b'e' ∷ b'r' ∷ b' ' ∷ b'k' ∷ [])
      ((admin, b'k' ∷ []) ∷ [])
    ≡ some admin
unfolding identify_caller text_eq
identify_caller_runs = refl
