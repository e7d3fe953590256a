-- ===== src/Keeper/Tests.antt =====
-- A run over one slash that is ready, and the theorems there.
use sigvara.Keeper.{
  Chain, Config, Decision, Entry, Proposal, SlashState, State, decide, raise, scan, visit_all, has,
  lookup,
}
use sigvara.Prelude.Dict.{has, lookup}
use sigvara.Keeper.Windows.{decide_execute}
use sigvara.Keeper.Runs.{IsExecuted, visit_all-IsExecuted}
use sigvara.Keeper.Scans.{IsComplete, scan_finds}
use sigvara.Prelude.{
  List, [], arith, false, if◌then◌else◌, leb, none, refl, some, true, ℕ, ◌&&◌, ◌+◌, ◌<◌, ◌↔◌, ◌∈◌,
  ◌∷◌, ◌≡◌, ◌≢◌, ◌≤◌,
}
use sigvara.Prelude.Text.{Text, lower}

abbrev ready : Proposal
ready = record { state = SlashState.pending; challenge_deadline = 1_000; disputed_at = 0 }

abbrev settings : Config
settings = record {
  from_block = 100;
  chunk_size = 10;
  dispute_period = 500;
  execution_period = 300;
  grace_seconds = 60;
  skip = [];
  live = true;
  min_balance = 5;
}

abbrev slashed : Text
slashed = b'0' ∷ b'x' ∷ b'a' ∷ []

abbrev receipt : Text
receipt = b'h' ∷ []

abbrev chain : Chain
chain = record {
  proposal = λ did. ready;
  simulate = λ did. none;
  pending_txs = λ did. 0;
  send = λ did. some receipt;
}

abbrev fresh : State
fresh = record { scan_block = 100; watch = (slashed, false) ∷ []; alerted = []; executed_txs = [] }

decide_runs :
    (decide slashed ready 1_060 settings ≡ Decision.wait 1_060)
    × (decide slashed ready 1_061 settings ≡ Decision.execute 1_300)
    × (decide slashed ready 1_301 settings ≡ Decision.lapsed 1_300)
unfolding decide has
decide_runs = (refl, refl, refl)

decide_execute_example : (decide slashed ready 1_061 settings ≡ Decision.execute 1_300) ↔ (
    (SlashState.pending ≡ SlashState.pending)
    × (1_000 + 60 < 1_061)
    × (1_061 ≤ 1_000 + 300)
    × (has slashed [] ≡ false)
    × (1_300 ≡ 1_000 + 300))
decide_execute_example = decide_execute slashed ready 1_061 1_300 settings

visit_all-IsExecuted_example :
    (Entry.executed_by receipt ∈ (visit_all chain settings 1_061 (slashed ∷ []) fresh).report)
    ↔ ((did : Text) × (did ∈ (slashed ∷ [])) × IsExecuted chain settings 1_061 did receipt)
visit_all-IsExecuted_example =
    visit_all-IsExecuted chain settings 1_061 receipt (slashed ∷ []) fresh

raise_tells : (raise 1_000 slashed fresh).1 ≢ []
unfolding raise lookup
raise_tells h = cc

-- A chain that answers every span around block 117 with the one agent.
abbrev answers : ℕ → ℕ → List Text
answers a b = if leb a 117 && leb b 116 then [] else if leb a 117 then slashed ∷ [] else []

abbrev SlashedIn : ℕ → Text → Type 0
SlashedIn n did = (n ≡ 117) × (did ≡ slashed)

answers-IsComplete : IsComplete answers SlashedIn
unfolding IsComplete
answers-IsComplete a b n did slash low high = ground arith

scan_finds_example : lookup (lower slashed) (scan 25 answers settings 120 100 fresh).watch ≢ none
scan_finds_example =
    scan_finds 25 answers SlashedIn settings 120 100 117 slashed fresh answers-IsComplete
      (omega arith) (omega arith) (refl, refl) (omega arith) (omega arith)
