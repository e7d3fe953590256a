-- ===== src/Jobs/Tests.antt =====
-- A job from its events, and the theorem about its evidence.
use sigvara.Prelude.Text.{lower, text_eq, Text}
use sigvara.Jobs.{
  Decoded, Job, JobEvent, JobEvidence, JobState, assemble_jobs, evidence_of, rejection_reason, same,
  to_evidence,
}
use sigvara.Jobs.Evidence.{IsFair, to_evidence-IsFair}
use sigvara.Prelude.{List, Option, [], none, refl, some, true, ℕ, ◌↔◌, ◌∈◌, ◌∷◌, ◌≡◌}

abbrev client : Text
client = b'c' ∷ []

abbrev provider : Text
provider = b'p' ∷ []

abbrev judge : Text
judge = b'e' ∷ []

abbrev at_block : ℕ → JobEvent → Option Decoded
at_block block event = some (record {
  job_id = b'1' ∷ [];
  event = event;
  tx_hash = some (b't' ∷ []);
  block_number = some block;
})

-- The job is completed, and a refund that follows changes nothing.
abbrev history : List (Option Decoded)
history =
    at_block 5 (JobEvent.job_created client provider judge)
    ∷ at_block 6 (JobEvent.job_funded client 40)
    ∷ none
    ∷ at_block 9 (JobEvent.job_completed judge)
    ∷ at_block 12 JobEvent.refund_made
    ∷ []

abbrev settled_job : Job
settled_job = record {
  job_id = b'1' ∷ [];
  client = some client;
  provider = some provider;
  evaluator = some judge;
  funded = some 40;
  released = none;
  state = JobState.completed;
  verdict_by = some judge;
  verdict_tx_hash = some (b't' ∷ []);
  verdict_block = some 9;
  settled_at = some 9_000;
}

assemble_jobs_runs : assemble_jobs history (λ block. some block) ≡ settled_job ∷ []
unfolding assemble_jobs text_eq
assemble_jobs_runs = refl

abbrev earned : JobEvidence
earned = record {
  tx_hash = some (b't' ∷ []);
  payer = some client;
  amount = 40;
  settled_at = some 9_000;
  success = true;
  independent_evaluator = true;
  job_id = b'1' ∷ [];
}

to_evidence_runs : to_evidence (settled_job ∷ []) (some provider) ≡ (earned ∷ [], [])
unfolding to_evidence rejection_reason same evidence_of lower text_eq
to_evidence_runs = refl

to_evidence-IsFair_example : (earned ∈ (to_evidence (settled_job ∷ []) (some provider)).0) ↔ (
    (j : Job) × (j ∈ (settled_job ∷ []))
    × (same j.provider (some provider) ≡ true)
    × IsFair j
    × (earned ≡ evidence_of j))
to_evidence-IsFair_example = to_evidence-IsFair earned (settled_job ∷ []) (some provider)
