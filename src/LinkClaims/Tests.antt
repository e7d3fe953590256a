-- ===== src/LinkClaims/Tests.antt =====
-- Three claims, two of one external agent.
use sigvara.Prelude.Dict.{lookup, has}
use sigvara.Prelude.Text.{lower, text_eq, Text}
use sigvara.LinkClaims.{Claim, candidates_at}
use sigvara.Prelude.{List, [], refl, some, ℕ, ◌∷◌, ◌≡◌}

abbrev claim_at : Text → ℕ → Claim
claim_at agent_id block = record { agent_id = agent_id; block = block; log_index = 0 }

abbrev claimed : List Claim
claimed = claim_at (b'1' ∷ []) 5 ∷ claim_at (b'2' ∷ []) 6 ∷ claim_at (b'1' ∷ []) 9 ∷ []

candidates_at_runs :
    candidates_at ((b'd' ∷ [], claimed) ∷ []) (b'D' ∷ []) (some 8) ≡ (b'2' ∷ []) ∷ (b'1' ∷ []) ∷ []
unfolding candidates_at lookup has lower text_eq
candidates_at_runs = refl
