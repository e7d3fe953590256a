-- ===== src/WatcherPolicy/Silence.antt =====
-- When the watcher holds a checker healthy.
use sigvara.WatcherPolicy.{Health, Payload, Status, checker_status, silence_ms, is_too_long}
use sigvara.Prelude.{false, some, true, ℕ, ◌↔◌, ◌≡◌, ◌≢◌, ◌≤◌, Option, arith, none, refl}

is_too_long_iff :
    (o : Option ℕ) (max_silence_ms : ℕ)
    → (is_too_long o max_silence_ms ≡ false) ↔ ((ms : ℕ) → o ≡ some ms → ms ≤ max_silence_ms)
is_too_long_iff none max_silence_ms = (λ h ms e. ground arith, λ h. refl)
is_too_long_iff (some m) max_silence_ms = (λ h ms e. ground arith, λ h. ground (arith, h m refl))

-- A checker is healthy exactly when it says so, it is not known to have been silent for too long,
-- and its list of divergences is that of a checker which does not say it misses proposals.
pub checker_status_healthy :
    (h : Health) (p : Payload) (max_silence_ms : ℕ)
    → (checker_status (some h) (some p) max_silence_ms ≡ Status.healthy) ↔ (
        (h.ok ≡ true)
        × ((ms : ℕ) → silence_ms h ≡ some ms → ms ≤ max_silence_ms)
        × (p.is_checker ≡ true)
        × (p.sees_proposals ≢ some false))
unfolding checker_status
checker_status_healthy h p max_silence_ms =
    let silent_iff = is_too_long_iff (silence_ms h) max_silence_ms in
    (λ e. ground (arith, silent_iff), λ e. ground (arith, silent_iff))
