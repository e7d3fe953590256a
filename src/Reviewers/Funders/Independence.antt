-- ===== src/Reviewers/Funders/Independence.antt =====
-- That feedback that counts comes from another party.
use sigvara.Reviewers.{
  Agent, is_own, first_payment, Event, funder_of_found, trace_funding, judge_traces, Judgment,
  reviewer_min_tenure_days, reviewer_min_score, verdict_for, day_ms, last_paid, Deps,
}
use sigvara.Prelude.Text.{Text, lower}
use sigvara.Prelude.{
  All, Bool, List, Option-cases, arith, false, inl, inr, none, some, true, ℕ, ◌∈◌, ◌≡◌, ◌≢◌,
  All-map, ◌*◌, ◌+◌, ◌≤◌,
}
use sigvara.Reviewers.Funders.{
  is_own-IsOther, IsOther, judge_traces-IsClean, trace_funding-IsClean', trace_funding-IsClean,
  first_payment-∈, is_own-IsOther,
}

-- The reviewer is of another party than the scored agent: nobody among the keys that it counts
-- under, which are itself, its operator and the wallets that funded the two, is the agent or its
-- operator; and it paid the agent, when somebody known had funded it.
pub record IsIndependent (client : Text) (agent : Agent) (events : List Event) (deps : Deps)
    (keys : List Text) : Type 0 where
  pub apart : All (IsOther agent) keys
  pub itself : lower client ∈ keys
  pub operator : lower (deps.standing_of client).operator ∈ keys
  pub paid :
      (e : Event) × (e ∈ events)
      × (lower e.payer ≡ lower client)
      × ((f : Text × ℕ) × (funder_of_found (deps.funder_of (lower client) (deps.payment_block e))
            ≡ some f))

-- The reviewer's standing when the feedback is judged.
abbrev pub IsEligible : ℕ → Deps → Text → Type 0
IsEligible now_ms deps client =
    let s = deps.standing_of client in
    (s.registered ≡ true)
    × (s.is_active ≡ true)
    × (s.bonded ≡ true)
    × (reviewer_min_tenure_days * day_ms + s.registered_at * 1000 ≤ now_ms)
    × (reviewer_min_score ≤ s.matured)

counts_paid :
    (client : Text) (agent : Agent) (events : List Event) (now_ms : ℕ) (deps : Deps) (last_ms : ℕ)
    (keys : List Text) (first : Event)
    → verdict_for client agent events now_ms deps ≡ Judgment.counts last_ms keys
    → first_payment (lower client) none events ≡ some first
    → let operator = lower (deps.standing_of client).operator in
      let own = is_own agent in
      (own (lower client) ≡ false)
      × (own operator ≡ false)
      × IsEligible now_ms deps client
      × (judge_traces
            (lower client)
            operator
            (last_paid (lower client) events)
            (trace_funding own deps.is_public deps.funder_of
              (lower client)
              (deps.payment_block first))
            (trace_funding own deps.is_public deps.funder_of operator deps.snapshot_block)
          ≡ Judgment.counts last_ms keys)
unfolding verdict_for
counts_paid client agent events now_ms deps last_ms keys first h paid = ground (arith, h, paid)

counts_unpaid :
    (client : Text) (agent : Agent) (events : List Event) (now_ms : ℕ) (deps : Deps) (last_ms : ℕ)
    (keys : List Text)
    → verdict_for client agent events now_ms deps ≡ Judgment.counts last_ms keys
    → first_payment (lower client) none events ≢ none
unfolding verdict_for
counts_unpaid client agent events now_ms deps last_ms keys h unpaid = ground (arith, h, unpaid)

pub verdict_for-IsIndependent :
    (client : Text) (agent : Agent) (events : List Event) (now_ms : ℕ) (deps : Deps) (last_ms : ℕ)
    (keys : List Text)
    → verdict_for client agent events now_ms deps ≡ Judgment.counts last_ms keys
    → IsEligible now_ms deps client × IsIndependent client agent events deps keys
verdict_for-IsIndependent client agent events now_ms deps last_ms keys h =
    let c : Text = lower client in
    let own : Text → Bool = is_own agent in
    elim (Option-cases (first_payment c none events)) [
      | inl unpaid ↦ absurd (counts_unpaid client agent events now_ms deps last_ms keys h unpaid)
      | inr (first, paid) ↦
          let (mine, theirs, eligible, judged) =
            counts_paid client agent events now_ms deps last_ms keys first h paid in
          let (clean, at, by, (shown, wallets)) =
            judge_traces-IsClean own c (lower (deps.standing_of client).operator)
              (last_paid c events) last_ms _ _ keys judged mine theirs
              (trace_funding-IsClean' own deps.is_public deps.funder_of c
                (deps.payment_block first))
              (trace_funding-IsClean' own deps.is_public deps.funder_of
                (lower (deps.standing_of client).operator) deps.snapshot_block) in
          let funded =
            trace_funding-IsClean own deps.is_public deps.funder_of c (deps.payment_block first)
              shown wallets in
          elim (first_payment-∈ c none events first paid) [
            | inl none_before ↦ absurd (ground (arith, none_before))
            | inr (among, payer) ↦ (
              eligible,
              record {
                apart =
                    All-map (λ k. own k ≡ false) (IsOther agent) keys (is_own-IsOther agent) clean;
                itself = at;
                operator = by;
                paid = (first, among, payer, funded.1);
              },
            )
          ]
    ]
