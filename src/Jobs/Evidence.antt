-- ===== src/Jobs/Evidence.antt =====
-- Which jobs become evidence about a provider.
use sigvara.Jobs.{
  Job, JobEvidence, JobState, evidence_of, is_none, is_terminal, missing, rejection_reason, same,
  to_evidence,
}
use sigvara.Prelude.{
  Bool-cases, List, Option, Option-cases, [], ap, arith, false, inl, inr, none, refl, true, ℕ, ◌↔◌,
  ◌∈◌, ◌∙◌, ◌∷◌, ◌≡◌, ◌≢◌, ◌⊎◌, subst,
}
use sigvara.Prelude.Text.{Text}

-- A job that counts: over, with both parties known, neither paid nor judged by the provider
-- itself, and settled at a known time.
pub record IsFair (j : Job) : Type 0 where
  pub over : (j.state ≡ JobState.completed) ⊎ (j.state ≡ JobState.rejected)
  pub has_provider : missing j.provider ≡ false
  pub has_client : missing j.client ≡ false
  pub not_self_paid : same j.client j.provider ≡ false
  pub not_self_judged : same j.verdict_by j.provider ≡ false
  pub settled : j.settled_at ≢ none

is_terminal_iff :
    (s : JobState) → (is_terminal s ≡ true) ↔ ((s ≡ JobState.completed) ⊎ (s ≡ JobState.rejected))
is_terminal_iff s = (λ h. ground arith, λ h. ground arith)

is_none_iff : (o : Option ℕ) → (is_none o ≡ false) ↔ (o ≢ none)
is_none_iff o = (λ h. ground arith, λ h. ground arith)

rejection_reason-IsFair : (j : Job) → (rejection_reason j ≡ none) ↔ IsFair j
unfolding rejection_reason
rejection_reason-IsFair j =
    let terminal = is_terminal_iff j.state in
    let timed = is_none_iff j.settled_at in
    (
      λ h. record {
        over = terminal.0 (ground arith);
        has_provider = ground arith;
        has_client = ground arith;
        not_self_paid = ground arith;
        not_self_judged = ground arith;
        settled = timed.0 (ground arith);
      },
      λ f.
          let over = terminal.1 f.over in
          let settled = timed.1 f.settled in
          ground (
            arith, over, settled, f.has_provider, f.has_client, f.not_self_paid, f.not_self_judged,
          ),
    )

-- The evidence about a provider is that of exactly the fair jobs it provided: an entry is there if
-- and only if it is what such a job of the list gives.
pub to_evidence-IsFair :
    (x : JobEvidence) (jobs : List Job) (provider : Option Text)
    → (x ∈ (to_evidence jobs provider).0) ↔ (
        (j : Job) × (j ∈ jobs) × (same j.provider provider ≡ true) × IsFair j × (x ≡ evidence_of j))
unfolding to_evidence
to_evidence-IsFair x [] provider = (λ h. elim h [ ], λ h. elim h.1 [ ])
to_evidence-IsFair x (j ∷ jobs) provider =
    let rest = to_evidence-IsFair x jobs provider in
    let fair = rejection_reason-IsFair j in
    elim (Bool-cases (same j.provider provider)) [
      | inr other ↦
          rw (to_evidence, other)
            (
              λ at. let (k, m, s, f, e) = rest.0 at in (k, inr m, s, f, e),
              λ h. elim h.1 [
                | inl is_j ↦
                    let ours = subst (λ k. same k.provider provider ≡ true) is_j h.2 in
                    ground (arith, ours)
                | inr later ↦ rest.1 (h.0, later, h.2, h.3, h.4)
              ],
            )
      | inl ours ↦ elim (Option-cases (rejection_reason j)) [
        | inl kept ↦
            rw (to_evidence, ours, kept)
              (
                λ at. elim at [
                  | inl here ↦ (j, inl refl, ours, fair.0 kept, here)
                  | inr later ↦ let (k, m, s, f, e) = rest.0 later in (k, inr m, s, f, e)
                ],
                λ h. elim h.1 [
                  | inl is_j ↦ inl (h.4 ∙ ap evidence_of is_j)
                  | inr later ↦ inr (rest.1 (h.0, later, h.2, h.3, h.4))
                ],
              )
        | inr (why, dropped) ↦
            rw (to_evidence, ours, dropped)
              (
                λ at. let (k, m, s, f, e) = rest.0 at in (k, inr m, s, f, e),
                λ h. elim h.1 [
                  | inl is_j ↦
                      let kept = fair.1 (subst (λ k. IsFair k) is_j h.3) in ground (arith, kept)
                  | inr later ↦ rest.1 (h.0, later, h.2, h.3, h.4)
                ],
              )
      ]
    ]
