-- ===== src/Jobs.antt =====
-- oracle/jobs.js: jobs assembled from the events of the registry, and the evidence that a
-- provider's settled jobs give.
pub mod Evidence
mod Tests
use sigvara.Prelude.{
  ℕ, Bool, List, Option, [], false, if◌then◌else◌, map, none, not, some, true, ◌*◌, ◌∷◌,
}
use sigvara.Prelude.Text.{Text, lower, text_eq}

pub data JobState : Type 0 where
  pending completed rejected expired refunded : JobState

pub record Job : Type 0 where
  pub job_id : Text
  pub client : Option Text
  pub provider : Option Text
  pub evaluator : Option Text
  pub funded : Option ℕ
  pub released : Option ℕ
  pub state : JobState
  pub verdict_by : Option Text
  pub verdict_tx_hash : Option Text
  pub verdict_block : Option ℕ
  pub settled_at : Option ℕ

abbrev pub new_job : Text → Job
new_job id = record {
  job_id = id;
  client = none;
  provider = none;
  evaluator = none;
  funded = none;
  released = none;
  state = pending;
  verdict_by = none;
  verdict_tx_hash = none;
  verdict_block = none;
  settled_at = none;
}

-- The decoded events, with the arguments that are read.
pub data JobEvent : Type 0 where
  job_created : Text → Text → Text → JobEvent
  job_funded : Text → ℕ → JobEvent
  payment_released : Text → ℕ → JobEvent
  job_completed job_rejected : Text → JobEvent
  job_expired refund_made job_submitted : JobEvent

pub record Decoded : Type 0 where
  pub job_id : Text
  pub event : JobEvent
  pub tx_hash : Option Text
  pub block_number : Option ℕ

-- The state unless the job is still open.
abbrev pub if_open : JobState → JobState → JobState
if_open pending next = next
if_open completed next = completed
if_open rejected next = rejected
if_open expired next = expired
if_open refunded next = refunded

-- The `switch` of `assembleJobs`.
pub apply_event : Decoded → Job → Job
apply_event d j = elim d.event [
  | job_created client provider evaluator ↦ record j {
    client = some client;
    provider = some provider;
    evaluator = some evaluator;
  }
  | job_funded client amount ↦ record j { client = some client; funded = some amount }
  | payment_released provider amount ↦ record j { provider = some provider; released = some amount }
  | job_completed evaluator ↦ record j {
    state = completed;
    verdict_by = some evaluator;
    verdict_tx_hash = d.tx_hash;
    verdict_block = d.block_number;
  }
  | job_rejected rejector ↦ record j {
    state = rejected;
    verdict_by = some rejector;
    verdict_tx_hash = d.tx_hash;
    verdict_block = d.block_number;
  }
  | job_expired ↦ record j { state = if_open j.state expired }
  | refund_made ↦ record j { state = if_open j.state refunded }
  | job_submitted ↦ j
]

-- `get(d.jobId)`, and what is done to that job; a new one goes to the end.
pub change_job : Decoded → List Job → List Job
unfolding apply_event text_eq
change_job d [] = apply_event d (new_job d.job_id) ∷ []
change_job d (j ∷ jobs) =
    if text_eq j.job_id d.job_id then apply_event d j ∷ jobs else j ∷ change_job d jobs

pub apply_events : List (Option Decoded) → List Job → List Job
unfolding change_job
apply_events [] jobs = jobs
apply_events (none ∷ ds) jobs = apply_events ds jobs
apply_events (some d ∷ ds) jobs = apply_events ds (change_job d jobs)

-- The time of the block of the verdict, in milliseconds, where that time is known.
pub settle : (ℕ → Option ℕ) → Job → Job
settle block_times j = elim j.verdict_block [
  | none ↦ j
  | some block ↦ elim (block_times block) [
    | none ↦ j
    | some seconds ↦ record j { settled_at = some (seconds * 1000) }
  ]
]

-- `assembleJobs`
pub assemble_jobs : List (Option Decoded) → (ℕ → Option ℕ) → List Job
unfolding apply_events settle
assemble_jobs decoded block_times = map (settle block_times) (apply_events decoded [])

-- `same`: two addresses that are there and the same up to case; an empty one counts as none.
pub same : Option Text → Option Text → Bool
unfolding text_eq lower
same none b = false
same (some a) none = false
same (some []) (some b) = false
same (some (c ∷ a)) (some []) = false
same (some (c ∷ a)) (some (d ∷ b)) = text_eq (lower (c ∷ a)) (lower (d ∷ b))

-- `!x`, for an address
abbrev pub missing : Option Text → Bool
missing none = true
missing (some []) = true
missing (some (c ∷ a)) = false

pub data JobRejection : Type 0 where
  not_terminal : JobState → JobRejection
  no_provider no_client self_paid self_evaluated no_settled_at : JobRejection

abbrev pub is_terminal : JobState → Bool
is_terminal pending = false
is_terminal completed = true
is_terminal rejected = true
is_terminal expired = false
is_terminal refunded = false

abbrev pub is_none : Option ℕ → Bool
is_none none = true
is_none (some n) = false

-- `rejectionReason`, of a job that is there.
pub rejection_reason : Job → Option JobRejection
unfolding same
rejection_reason j =
    if not (is_terminal j.state)
    then some (not_terminal j.state)
    else if missing j.provider
    then some no_provider
    else if missing j.client
    then some no_client
    else if same j.client j.provider
    then some self_paid
    else if same j.verdict_by j.provider
    then some self_evaluated
    else if is_none j.settled_at
    then some no_settled_at
    else none

abbrev pub is_completed : JobState → Bool
is_completed pending = false
is_completed completed = true
is_completed rejected = false
is_completed expired = false
is_completed refunded = false

pub record JobEvidence : Type 0 where
  pub tx_hash : Option Text
  pub payer : Option Text
  pub amount : ℕ
  pub settled_at : Option ℕ
  pub success : Bool
  pub independent_evaluator : Bool
  pub job_id : Text

abbrev pub or_else : Option ℕ → ℕ → ℕ
or_else none n = n
or_else (some m) n = m

pub evidence_of : Job → JobEvidence
unfolding same
evidence_of j = record {
  tx_hash = j.verdict_tx_hash;
  payer = j.client;
  amount = if is_completed j.state then or_else j.released (or_else j.funded 0) else 0;
  settled_at = j.settled_at;
  success = is_completed j.state;
  independent_evaluator = not (same j.verdict_by j.client);
  job_id = j.job_id;
}

-- `toEvidence`: the evidence, and the jobs that are dropped with the reason.
pub to_evidence : List Job → Option Text → List JobEvidence × List (Text × JobRejection)
unfolding rejection_reason evidence_of same
to_evidence [] provider_address = ([], [])
to_evidence (j ∷ jobs) provider_address =
    let (kept, dropped) = to_evidence jobs provider_address in
    if not (same j.provider provider_address) then (kept, dropped) else elim (rejection_reason j) [
      | some why ↦ (kept, (j.job_id, why) ∷ dropped)
      | none ↦ (evidence_of j ∷ kept, dropped)
    ]
