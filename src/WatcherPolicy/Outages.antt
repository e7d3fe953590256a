-- ===== src/WatcherPolicy/Outages.antt =====
-- The alerts and recoveries of a run of polls.
use sigvara.WatcherPolicy.{Outage, PollAction, track_poll_outcome, track_polls}
use sigvara.Prelude.{
  Bool, List, [], arith, false, if◌then◌else◌, leb, refl, suc, true, zero, ℕ, ◌+◌, ◌<◌, ◌∷◌, ◌≡◌,
}

abbrev pub counts_as : PollAction → PollAction → ℕ
counts_as PollAction.alert PollAction.alert = 1
counts_as PollAction.recovered PollAction.recovered = 1
counts_as _ _ = 0

pub count : PollAction → List PollAction → ℕ
count a [] = 0
count a (b ∷ actions) = counts_as a b + count a actions

abbrev pub as_number : Bool → ℕ
as_number true = 1
as_number false = 0

-- Over any run of polls, each recovery follows an alert of its own: the alerts are as many as the
-- recoveries, and one more while an outage that was reported goes on.
pub count-track_polls :
    (s : Outage) (polls : List Bool) (threshold : ℕ)
    → let (actions, last) = track_polls s polls threshold in
      as_number s.alerted + count PollAction.alert actions
      ≡ count PollAction.recovered actions + as_number last.alerted
unfolding track_polls track_poll_outcome count
count-track_polls s [] threshold = omega arith
count-track_polls s (true ∷ polls) threshold =
    ground (arith, count-track_polls (track_poll_outcome s true threshold).0 polls threshold)
count-track_polls s (false ∷ polls) threshold =
    ground (arith, count-track_polls (track_poll_outcome s false threshold).0 polls threshold)

-- So many failed polls in a row.
abbrev pub failed : ℕ → List Bool
failed zero = []
failed (suc n) = false ∷ failed n

pub count-failed_alerted :
    (f n threshold : ℕ)
    → count PollAction.alert
        (track_polls (record { failures = f; alerted = true }) (failed n) threshold).0
      ≡ 0
unfolding track_polls track_poll_outcome count
count-failed_alerted f zero threshold = refl
count-failed_alerted f (suc n) threshold = ground (arith, count-failed_alerted (f + 1) n threshold)

count-failed_from :
    (f n threshold : ℕ)
    → f < threshold
    → count PollAction.alert
        (track_polls (record { failures = f; alerted = false }) (failed n) threshold).0
      ≡ (if leb threshold (f + n) then 1 else 0)
unfolding track_polls track_poll_outcome count
count-failed_from f zero threshold lt = ground arith
count-failed_from f (suc n) threshold lt =
    ground (arith, count-failed_alerted (f + 1) n threshold, count-failed_from (f + 1) n threshold)

-- An outage is reported once: from a fresh state, failures in a row raise one alert when there are
-- as many as the threshold, however long they go on, and none before.
pub track_polls_once :
    (n threshold : ℕ)
    → 0 < threshold
    → count PollAction.alert
        (track_polls (record { failures = 0; alerted = false }) (failed n) threshold).0
      ≡ (if leb threshold n then 1 else 0)
track_polls_once n threshold lt = ground (arith, count-failed_from 0 n threshold lt)
