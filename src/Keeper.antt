-- ===== src/Keeper.antt =====
-- oracle/keeper.js: the keeper that executes slashes once their challenge period is over. What a
-- run reads of the chain is a record of functions, with the answer given for each agent.
pub mod Windows
pub mod Runs
pub mod Scans
mod Tests
use sigvara.Prelude.{
  ℕ, Bool, List, Option, [], false, if◌then◌else◌, leb, ltb, map, min, none, not, some, suc, true,
  zero, ◌&&◌, ◌++◌, ◌+◌, ◌-◌, ◌==◌, ◌∷◌,
}
use sigvara.Prelude.Text.{Text, lower, text_eq}
use sigvara.Prelude.Dict.{has, lookup, insert, erase}

-- The states of a proposal that the keeper tells apart; the rest it forgets.
pub data SlashState : Type 0 where
  none_yet pending executed cancelled disputed : SlashState

pub record Proposal : Type 0 where
  pub state : SlashState
  pub challenge_deadline : ℕ
  pub disputed_at : ℕ

pub record Config : Type 0 where
  pub from_block : ℕ
  pub chunk_size : ℕ
  pub dispute_period : ℕ
  pub execution_period : ℕ
  pub grace_seconds : ℕ
  pub skip : List Text
  pub live : Bool
  pub min_balance : ℕ

pub data Decision : Type 0 where
  dispute_unruled in_dispute lapsed held : ℕ → Decision
  wait execute : ℕ → Decision
  forget : SlashState → Decision

-- `decide`
pub decide : Text → Proposal → ℕ → Config → Decision
unfolding has
decide did p now cfg = elim p.state [
  | disputed ↦
      let expires_at = p.disputed_at + cfg.dispute_period in
      if ltb expires_at now then dispute_unruled expires_at else in_dispute expires_at
  | pending ↦
      let deadline = p.challenge_deadline in
      let lapses_at = deadline + cfg.execution_period in
      if leb now deadline
      then wait deadline
      else if ltb lapses_at now
      then lapsed lapses_at
      else if has did cfg.skip
      then held lapses_at
      else if leb now (deadline + cfg.grace_seconds)
      then wait (deadline + cfg.grace_seconds)
      else execute lapses_at
  | none_yet ↦ forget none_yet
  | executed ↦ forget executed
  | cancelled ↦ forget cancelled
]

-- The state that is kept on disk; `watch` is its `open`.
pub record State : Type 0 where
  pub scan_block : ℕ
  pub watch : List (Text × Bool)
  pub alerted : List (Text × ℕ)
  pub executed_txs : List (Text × Text)

-- Who is told what: the key of an alert, or that a watched slash came to an end.
pub data Notice : Type 0 where
  alert : Text → Notice
  sent done_elsewhere dropped : Text → Notice

abbrev pub alert_again_seconds : ℕ
alert_again_seconds = 86_400

-- `raise`: an alert of the same key is not repeated for a day.
pub raise : ℕ → Text → State → State × List Notice
unfolding lookup insert
raise now key s =
    let told : State × List Notice =
      (record s { alerted = insert key now s.alerted }, alert key ∷ []) in
    elim (lookup key s.alerted) [
      | none ↦ told
      | some at ↦ if ltb (now - at) alert_again_seconds then (s, []) else told
    ]

-- The error that a simulated execution ends in, by name.
pub data Refusal : Type 0 where
  no_active_pending_slash : Refusal
  other_error : Text → Refusal

-- What a run reads and does, by agent: the proposal, the name of the error that executing it would
-- end in, our pending transactions, and the hash of the execution, `none` where it failed.
pub record Chain : Type 0 where
  pub proposal : Text → Proposal
  pub simulate : Text → Option Refusal
  pub pending_txs : Text → ℕ
  pub send : Text → Option Text

-- An entry of one of the lists of a run's report, tagged with the list.
pub data Entry : Type 0 where
  waiting held_back lapsed_at disputed_until : ℕ → Entry
  refused : Text → Entry
  would_execute blocked failed : Entry
  executed_by : Text → Entry

-- What a step leaves: the state, the notices and the entries of the report.
pub record Step : Type 0 where
  pub state : State
  pub notices : List Notice
  pub report : List Entry

-- The kinds of alert, as their keys begin.
abbrev pub refused_key : Text
refused_key = b'r' ∷ b'e' ∷ b'f' ∷ b'u' ∷ b's' ∷ b'e' ∷ b'd' ∷ []

abbrev pub failed_key : Text
failed_key = b'f' ∷ b'a' ∷ b'i' ∷ b'l' ∷ b'e' ∷ b'd' ∷ []

abbrev pub unruled_key : Text
unruled_key =
    b'd' ∷ b'i' ∷ b's' ∷ b'p' ∷ b'u' ∷ b't' ∷ b'e' ∷ b'-' ∷ b'u' ∷ b'n' ∷ b'r' ∷ b'u' ∷ b'l' ∷ b'e'
    ∷ b'd' ∷ []

abbrev pub balance_key : Text
balance_key = b'b' ∷ b'a' ∷ b'l' ∷ b'a' ∷ b'n' ∷ b'c' ∷ b'e' ∷ []

abbrev pub disputed_key : Text
disputed_key = b'd' ∷ b'i' ∷ b's' ∷ b'p' ∷ b'u' ∷ b't' ∷ b'e' ∷ b'd' ∷ []

abbrev pub lapsed_key : Text
lapsed_key = b'l' ∷ b'a' ∷ b'p' ∷ b's' ∷ b'e' ∷ b'd' ∷ []

abbrev pub key_of : Text → Text → Text
key_of kind did = kind ++ b':' ∷ did

abbrev pub reported : Entry → State × List Notice → Step
reported e (s, notices) = record { state = s; notices = notices; report = e ∷ [] }

-- `act`
pub act : Chain → Config → ℕ → Text → State → Step
unfolding raise insert
act chain cfg now did s = elim (chain.simulate did) [
  | some no_active_pending_slash ↦ record { state = s; notices = []; report = [] }
  | some (other_error name) ↦
      reported (refused name) (raise now (key_of refused_key (key_of did name)) s)
  | none ↦
      if not cfg.live
      then reported would_execute (s, [])
      else if ltb 0 (chain.pending_txs did)
      then reported blocked (s, [])
      else elim (chain.send did) [
        | some hash ↦
            reported (executed_by hash)
              (record s { executed_txs = insert did hash s.executed_txs }, sent did ∷ [])
        | none ↦ reported failed (raise now (key_of failed_key did) s)
      ]
]

-- A slash that is over: what is said of it if it was watched and not ours.
pub farewell : Text → SlashState → State → List Notice
unfolding lookup
farewell did state s = elim (lookup did s.watch) [
  | some true ↦ elim (lookup did s.executed_txs) [
    | some hash ↦ []
    | none ↦ elim state [
      | executed ↦ done_elsewhere did ∷ []
      | cancelled ↦ dropped did ∷ []
      | none_yet ↦ []
      | pending ↦ []
      | disputed ↦ []
    ]
  ]
  | some false ↦ []
  | none ↦ []
]

-- The body of the loop of `runOnce` over the open slashes.
pub visit : Chain → Config → ℕ → Text → State → Step
unfolding decide raise act farewell insert erase lookup
visit chain cfg now did s =
    let watched = record s { watch = insert did true s.watch } in
    elim (decide did (chain.proposal did) now cfg) [
      | forget state ↦ record {
        state = record s { watch = erase did s.watch; executed_txs = erase did s.executed_txs };
        notices = farewell did state s;
        report = [];
      }
      | in_dispute at ↦
          reported (disputed_until at) (elim (lookup (key_of disputed_key did) s.alerted) [
            | none ↦ raise now (key_of disputed_key did) watched
            | some told ↦
                if told == 0 then raise now (key_of disputed_key did) watched else (watched, [])
          ])
      | dispute_unruled at ↦
          reported (disputed_until at) (raise now (key_of unruled_key did) watched)
      | wait until ↦ reported (waiting until) (watched, [])
      | held at ↦ reported (held_back at) (watched, [])
      | lapsed at ↦ reported (lapsed_at at) (raise now (key_of lapsed_key did) watched)
      | execute at ↦ act chain cfg now did watched
    ]

-- The loop, over the agents that are open as it starts.
pub visit_all : Chain → Config → ℕ → List Text → State → Step
unfolding visit
visit_all chain cfg now [] s = record { state = s; notices = []; report = [] }
visit_all chain cfg now (did ∷ dids) s =
    let first = visit chain cfg now did s in
    let rest = visit_all chain cfg now dids first.state in
    record {
      state = rest.state;
      notices = first.notices ++ rest.notices;
      report = first.report ++ rest.report;
    }

abbrev pub scan_margin : ℕ
scan_margin = 20

-- `s.watch[d] = s.watch[d] ?? false`
pub open_all : List Text → List (Text × Bool) → List (Text × Bool)
unfolding lookup insert lower
open_all [] watch = watch
open_all (did ∷ dids) watch =
    let d = lower did in
    open_all dids (elim (lookup d watch) [ some b ↦ watch | none ↦ insert d false watch ])

-- The loop that scans for new slashes, `initiated` being what the chain answers for a span.
pub scan : ℕ → (ℕ → ℕ → List Text) → Config → ℕ → ℕ → State → State
unfolding open_all
scan zero initiated cfg safe_head start s = s
scan (suc fuel) initiated cfg safe_head start s =
    let end = min (start + cfg.chunk_size - 1) safe_head in
    let found = open_all (initiated start end) s.watch in
    let rest =
      scan fuel initiated cfg safe_head (start + cfg.chunk_size)
        (record s { scan_block = end + 1; watch = found }) in
    if leb start safe_head then rest else s

-- `runOnce`: the scan, the open slashes, and in live mode the balance.
pub run_once : Chain → (ℕ → ℕ → List Text) → Config → ℕ → ℕ → ℕ → State → Step
unfolding scan visit_all raise
run_once chain initiated cfg head now balance s =
    let safe_head = head - scan_margin in
    let scanned =
      if ltb head scan_margin
      then s
      else scan (safe_head + 1) initiated cfg safe_head s.scan_block s in
    let visited = visit_all chain cfg now (map (λ x. x.0) scanned.watch) scanned in
    let low = raise now balance_key visited.state in
    if cfg.live && ltb balance cfg.min_balance
    then record visited { state = low.0; notices = visited.notices ++ low.1 }
    else visited

abbrev pub failed_runs_alert : ℕ
failed_runs_alert = 6

-- `runFailed`: the count of failed runs in a row, and whether this one is reported.
pub run_failed : ℕ → ℕ × Bool
run_failed failed_runs = (failed_runs + 1, failed_runs + 1 == failed_runs_alert)
