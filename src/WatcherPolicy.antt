-- ===== src/WatcherPolicy.antt =====
-- oracle/watcher-policy.js: which of a checker's divergences still can be acted on, which of them
-- are reported, whether the checker itself is healthy, and when its outage is reported.
pub mod Triage
pub mod Outages
pub mod Silence
mod Tests
use sigvara.Prelude.{
  ℕ, Bool, List, Option, [], false, if◌then◌else◌, leb, ltb, none, not, some, true, ◌&&◌, ◌*◌, ◌++◌,
  ◌+◌, ◌-◌, ◌==◌, ◌||◌, ◌∷◌,
}
use sigvara.Prelude.Text.{Text}
use sigvara.EpochPolicy.{Pending, finalizable_at_of}
use sigvara.Prelude.Decimal.{decimal}
use sigvara.Prelude.Dict.{has}

pub record Reported : Type 0 where
  pub did_hash : Text
  pub proposed_at : ℕ

pub data State : Type 0 where
  closed superseded expired actionable : State

-- `classifyDivergence`: the state and the seconds left to challenge.
pub classify_divergence : Reported → Option Pending → ℕ → ℕ → State × ℕ
unfolding finalizable_at_of
classify_divergence d none window now = (closed, 0)
classify_divergence d (some p) window now =
    if not p.exists
    then (closed, 0)
    else if not (p.proposed_at == d.proposed_at)
    then (superseded, 0)
    else if ltb now (finalizable_at_of p window)
    then (actionable, finalizable_at_of p window - now)
    else (expired, 0)

-- `alertKey`
pub alert_key : Reported → Text
alert_key d = d.did_hash ++ b':' ∷ decimal d.proposed_at

pub record Alert : Type 0 where
  pub key : Text
  pub seconds_left : ℕ
  pub divergence : Reported

pub record Counts : Type 0 where
  pub actionable : ℕ
  pub expired : ℕ
  pub superseded : ℕ
  pub closed : ℕ
  pub suppressed : ℕ

-- `counts[state] += 1`
pub count_state : State → Counts → Counts
count_state State.closed c = record c { closed = c.closed + 1 }
count_state State.superseded c = record c { superseded = c.superseded + 1 }
count_state State.expired c = record c { expired = c.expired + 1 }
count_state State.actionable c = record c { actionable = c.actionable + 1 }

abbrev pub no_counts : Counts
no_counts = record { actionable = 0; expired = 0; superseded = 0; closed = 0; suppressed = 0 }

abbrev pub is_actionable : State → Bool
is_actionable State.closed = false
is_actionable State.superseded = false
is_actionable State.expired = false
is_actionable State.actionable = true

-- `triage`, of the divergences in order; `pending` and `seen` do not change while it runs.
pub triage : List Reported → (Text → Option Pending) → ℕ → ℕ → List Text → List Alert × Counts
unfolding classify_divergence alert_key count_state has
triage [] pending window now seen = ([], no_counts)
triage (d ∷ ds) pending window now seen =
    let (alerts, counts) = triage ds pending window now seen in
    let (state, seconds_left) = classify_divergence d (pending d.did_hash) window now in
    let counted = count_state state counts in
    let key = alert_key d in
    if not (is_actionable state)
    then (alerts, counted)
    else if has key seen
    then (
      alerts,
      record counted { suppressed = counted.suppressed + 1; actionable = counted.actionable - 1 },
    )
    else (record { key = key; seconds_left = seconds_left; divergence = d } ∷ alerts, counted)

pub record Outage : Type 0 where
  pub failures : ℕ
  pub alerted : Bool

pub data PollAction : Type 0 where
  quiet alert recovered : PollAction

-- `trackPollOutcome`
pub track_poll_outcome : Outage → Bool → ℕ → Outage × PollAction
track_poll_outcome s true threshold =
    (record { failures = 0; alerted = false }, if s.alerted then recovered else quiet)
track_poll_outcome s false threshold =
    let raise = leb threshold (s.failures + 1) && not s.alerted in
    (
      record { failures = s.failures + 1; alerted = s.alerted || raise },
      if raise then PollAction.alert else quiet,
    )

-- The actions of a run of polls, and the state after it.
pub track_polls : Outage → List Bool → ℕ → List PollAction × Outage
unfolding track_poll_outcome
track_polls s [] threshold = ([], s)
track_polls s (ok ∷ polls) threshold =
    let (next, action) = track_poll_outcome s ok threshold in
    let (actions, last) = track_polls next polls threshold in (action ∷ actions, last)

-- A checker's health as it reports it; `last_epoch` is `none` where the field is absent, and holds
-- `none` where it is null.
pub record Health : Type 0 where
  pub ok : Bool
  pub time_since_last_epoch_ms : Option ℕ
  pub last_epoch : Option (Option ℕ)
  pub uptime_seconds : Option ℕ

abbrev pub no_epoch_yet : Option (Option ℕ) → Bool
no_epoch_yet none = false
no_epoch_yet (some none) = true
no_epoch_yet (some (some ms)) = ms == 0

-- `silenceMs`; `none` is NaN.
pub silence_ms : Health → Option ℕ
silence_ms h = elim h.time_since_last_epoch_ms [
  | some ms ↦ some ms
  | none ↦ elim h.uptime_seconds [
    | some seconds ↦ if no_epoch_yet h.last_epoch then some (seconds * 1000) else none
    | none ↦ none
  ]
]

-- What `checkerStatus` reads of the list of divergences.
pub record Payload : Type 0 where
  pub is_checker : Bool
  pub sees_proposals : Option Bool

pub data Status : Type 0 where
  healthy unreachable not_ok silent unreadable not_a_checker blind : Status

abbrev pub is_too_long : Option ℕ → ℕ → Bool
is_too_long none max_silence_ms = false
is_too_long (some ms) max_silence_ms = ltb max_silence_ms ms

-- `divergencePayload.seesProposals === false`
abbrev pub is_blind : Option Bool → Bool
is_blind none = false
is_blind (some b) = not b

-- `checkerStatus`
pub checker_status : Option Health → Option Payload → ℕ → Status
unfolding silence_ms
checker_status none payload max_silence_ms = unreachable
checker_status (some h) payload max_silence_ms =
    if not h.ok
    then not_ok
    else if is_too_long (silence_ms h) max_silence_ms
    then silent
    else elim payload [
      | none ↦ unreadable
      | some p ↦
          if not p.is_checker
          then not_a_checker
          else if is_blind p.sees_proposals
          then blind
          else healthy
    ]
