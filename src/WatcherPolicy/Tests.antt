-- ===== src/WatcherPolicy/Tests.antt =====
-- Divergences, outages and a health report, and the theorems there.
use sigvara.WatcherPolicy.{Reported, Health, Payload, State, classify_divergence, triage}
use sigvara.WatcherPolicy.Triage.{
  classify_divergence_actionable, is_reported, total, triage-eq-keep,
}
use sigvara.EpochPolicy.{finalizable_at_of, Pending}
use sigvara.Prelude.{[], keep, length, map, none, refl, some, true, ◌+◌, ◌<◌, ◌↔◌, ◌∷◌, ◌≡◌}
use sigvara.Prelude.Text.{Text}

abbrev agent : Text
agent = b'0' ∷ b'x' ∷ b'1' ∷ []

abbrev disputed : Reported
disputed = record { did_hash = agent; proposed_at = 100 }

abbrev standing : Pending
standing = record { exists = true; finalizable_at = 500; proposed_at = 100; scores = λ f. none }

classify_divergence_runs :
    (classify_divergence disputed (some standing) 300 400 ≡ (State.actionable, 100))
    × (classify_divergence disputed (some standing) 300 500 ≡ (State.expired, 0))
unfolding classify_divergence finalizable_at_of
classify_divergence_runs = (refl, refl)

classify_divergence_actionable_example :
    (classify_divergence disputed (some standing) 300 400 ≡ (State.actionable, 100)) ↔ (
      (standing.exists ≡ true)
      × (standing.proposed_at ≡ disputed.proposed_at)
      × (400 < finalizable_at_of standing 300)
      × (100 + 400 ≡ finalizable_at_of standing 300))
classify_divergence_actionable_example =
    classify_divergence_actionable disputed standing 300 400 100

triage-eq-keep_example :
    let (alerts, counts) = triage (disputed ∷ []) (λ did. some standing) 300 400 [] in
    (map (λ a. a.divergence) alerts
      ≡ keep (is_reported (λ did. some standing) 300 400 []) (disputed ∷ []))
    × (counts.actionable ≡ length alerts)
    × (total counts ≡ length (disputed ∷ []))
triage-eq-keep_example = triage-eq-keep (disputed ∷ []) (λ did. some standing) 300 400 []

abbrev steady : Health
steady = record {
  ok = true;
  time_since_last_epoch_ms = some 1_000;
  last_epoch = some (some 7);
  uptime_seconds = some 60;
}

abbrev listed : Payload
listed = record { is_checker = true; sees_proposals = none }
