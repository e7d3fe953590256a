-- ===== src/WatcherPolicy/Triage.antt =====
-- What triage reports: every live divergence that was not reported before, and it accounts for the
-- rest.
use sigvara.WatcherPolicy.{
  Reported, Counts, State, classify_divergence, count_state, is_actionable, triage, alert_key, has,
}
use sigvara.EpochPolicy.{finalizable_at_of, Pending}
use sigvara.Prelude.{
  Bool, List, Option, [], arith, keep, length, map, not, refl, some, true, ℕ, ◌&&◌, ◌+◌, ◌<◌, ◌↔◌,
  ◌∷◌, ◌≡◌,
}
use sigvara.Prelude.Text.{Text}

-- A divergence can be acted on exactly while the proposal it is about stands and its window is
-- open, and the seconds left are those to the end of the window.
pub classify_divergence_actionable :
    (d : Reported) (p : Pending) (window now left : ℕ)
    → (classify_divergence d (some p) window now ≡ (State.actionable, left)) ↔ (
        (p.exists ≡ true)
        × (p.proposed_at ≡ d.proposed_at)
        × (now < finalizable_at_of p window)
        × (left + now ≡ finalizable_at_of p window))
unfolding classify_divergence
classify_divergence_actionable d p window now left = (λ h. ground arith, λ h. ground arith)

-- What a divergence has triage do: to report it, to count it as reported before, or only to count
-- its state.
pub is_reported : (Text → Option Pending) → ℕ → ℕ → List Text → Reported → Bool
is_reported pending window now seen d =
    is_actionable (classify_divergence d (pending d.did_hash) window now).0
    && not (has (alert_key d) seen)

abbrev pub total : Counts → ℕ
total c = c.actionable + c.expired + c.superseded + c.closed + c.suppressed

pub triage-eq-keep :
    (ds : List Reported) (pending : Text → Option Pending) (window now : ℕ) (seen : List Text)
    → let (alerts, counts) = triage ds pending window now seen in
      (map (λ a. a.divergence) alerts ≡ keep (is_reported pending window now seen) ds)
      × (counts.actionable ≡ length alerts)
      × (total counts ≡ length ds)
unfolding triage is_reported count_state
triage-eq-keep [] pending window now seen = (refl, refl, refl)
triage-eq-keep (d ∷ ds) pending window now seen =
    ground (arith, triage-eq-keep ds pending window now seen)
