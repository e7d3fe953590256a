-- ===== src/Keeper/Windows.antt =====
-- When the keeper decides to execute a slash.
use sigvara.Keeper.{Config, Decision, Proposal, SlashState, decide, has}
use sigvara.Prelude.{arith, false, ℕ, ◌+◌, ◌<◌, ◌↔◌, ◌≡◌, ◌≤◌}
use sigvara.Prelude.Text.{Text}

-- The keeper executes exactly the slashes whose challenge period and grace are over, whose
-- execution period is not, that are pending and that it was not told to skip.
pub decide_execute :
    (did : Text) (p : Proposal) (now at : ℕ) (cfg : Config)
    → (decide did p now cfg ≡ Decision.execute at) ↔ (
        (p.state ≡ SlashState.pending)
        × (p.challenge_deadline + cfg.grace_seconds < now)
        × (now ≤ p.challenge_deadline + cfg.execution_period)
        × (has did cfg.skip ≡ false)
        × (at ≡ p.challenge_deadline + cfg.execution_period))
unfolding decide
decide_execute did p now at cfg = (λ h. ground arith, λ h. ground arith)
