-- ===== src/Keeper/Runs.antt =====
-- What a run of the keeper may do: what it executes, and how often it raises an alert.
use sigvara.Keeper.{
  Chain, Config, Entry, SlashState, State, act, alert_again_seconds, raise, has, visit_all, insert,
  visit, Decision, Proposal, decide,
}
use sigvara.Prelude.Dict.{lookup-insert}
use sigvara.Prelude.{
  [], arith, false, none, some, true, ℕ, ◌+◌, ◌<◌, ◌↔◌, ◌∈◌, ◌≡◌, ◌≢◌, ◌≤◌, List, inl, inr, refl,
  subst, ◌++◌, ◌∷◌, ◌⊎◌,
}
use sigvara.Prelude.Text.{Text, text_eq_self}
use sigvara.Keeper.Windows.{decide_execute}

-- An alert that was raised is not raised again under its key within a day.
pub raise_again :
    (now later : ℕ) (key : Text) (s : State)
    → (raise now key s).1 ≢ []
    → later < now + alert_again_seconds
    → (raise later key (raise now key s).0).1 ≡ []
unfolding raise
raise_again now later key s told soon =
    ground (arith, lookup-insert key key now s.alerted, text_eq_self key)

-- Everything that has to hold for a slash to be executed in a run, and the hash it gets.
pub record IsExecuted (chain : Chain) (cfg : Config) (now : ℕ) (did hash : Text) : Type 0 where
  pub is_pending : (chain.proposal did).state ≡ SlashState.pending
  pub after_grace : (chain.proposal did).challenge_deadline + cfg.grace_seconds < now
  pub before_lapse : now ≤ (chain.proposal did).challenge_deadline + cfg.execution_period
  pub not_skipped : has did cfg.skip ≡ false
  pub simulated : chain.simulate did ≡ none
  pub live : cfg.live ≡ true
  pub none_in_flight : chain.pending_txs did ≡ 0
  pub confirmed : chain.send did ≡ some hash

act-executed :
    (chain : Chain) (cfg : Config) (now : ℕ) (did hash : Text) (s : State)
    → (Entry.executed_by hash ∈ (act chain cfg now did s).report) ↔ (
        (chain.simulate did ≡ none)
        × (cfg.live ≡ true)
        × (chain.pending_txs did ≡ 0)
        × (chain.send did ≡ some hash))
unfolding act
act-executed chain cfg now did hash s = (λ h. ground arith, λ h. ground arith)

abbrev watching : Text → State → State
watching did s = record s { watch = insert did true s.watch }

-- Only a decision to execute has anything reported as executed.
visit-report :
    (chain : Chain) (cfg : Config) (now : ℕ) (did hash : Text) (s : State) (d : Decision)
    → decide did (chain.proposal did) now cfg ≡ d
    → (Entry.executed_by hash ∈ (visit chain cfg now did s).report) ↔ (
        ((at : ℕ) × (d ≡ Decision.execute at))
        × (Entry.executed_by hash ∈ (act chain cfg now did (watching did s)).report))
unfolding visit
visit-report chain cfg now did hash s (Decision.execute at) e =
    rw (◌∈◌, visit, e) (λ h. ((at, refl), h), λ h. h.1)
visit-report chain cfg now did hash s (Decision.wait at) e =
    rw (◌∈◌, visit, e) (λ h. ground arith, λ h. ground arith)
visit-report chain cfg now did hash s (Decision.held at) e =
    rw (◌∈◌, visit, e) (λ h. ground arith, λ h. ground arith)
visit-report chain cfg now did hash s (Decision.lapsed at) e =
    rw (◌∈◌, visit, e) (λ h. ground arith, λ h. ground arith)
visit-report chain cfg now did hash s (Decision.forget st) e =
    rw (◌∈◌, visit, e) (λ h. ground arith, λ h. ground arith)
visit-report chain cfg now did hash s (Decision.in_dispute at) e =
    rw (◌∈◌, visit, e) (λ h. ground arith, λ h. ground arith)
visit-report chain cfg now did hash s (Decision.dispute_unruled at) e =
    rw (◌∈◌, visit, e) (λ h. ground arith, λ h. ground arith)

visit-IsExecuted :
    (chain : Chain) (cfg : Config) (now : ℕ) (did hash : Text) (s : State)
    → (Entry.executed_by hash ∈ (visit chain cfg now did s).report)
      ↔ IsExecuted chain cfg now did hash
visit-IsExecuted chain cfg now did hash s =
    let p : Proposal = chain.proposal did in
    let report = visit-report chain cfg now did hash s (decide did p now cfg) refl in
    let acted = act-executed chain cfg now did hash (watching did s) in
    (
      λ h.
          let ((at, e), in_act) = report.0 h in
          let (is_pending, after_grace, before_lapse, not_skipped, at_is) =
            (decide_execute did p now at cfg).0 e in
          let (simulated, live, none_in_flight, confirmed) = acted.0 in_act in
          record {
            is_pending = is_pending;
            after_grace = after_grace;
            before_lapse = before_lapse;
            not_skipped = not_skipped;
            simulated = simulated;
            live = live;
            none_in_flight = none_in_flight;
            confirmed = confirmed;
          },
      λ x.
          let at : ℕ = p.challenge_deadline + cfg.execution_period in
          report.1 (
            (
              at,
              (decide_execute did p now at cfg).1
                  (x.is_pending, x.after_grace, x.before_lapse, x.not_skipped, refl),
            ),
            acted.1 (x.simulated, x.live, x.none_in_flight, x.confirmed),
          ),
    )

member-append : (e : Entry) (xs ys : List Entry) → (e ∈ (xs ++ ys)) ↔ ((e ∈ xs) ⊎ (e ∈ ys))
member-append e [] ys = (λ h. inr h, λ h. elim h [ inl x ↦ elim x [ ] | inr y ↦ y ])
member-append e (x ∷ xs) ys =
    let (split, join) = member-append e xs ys in
    (λ h. ground (arith, split), λ h. ground (arith, join))

-- A run executes exactly this: a transaction is reported as executed if and only if it is the
-- confirmed execution of one of the open slashes, whose proposal is pending, past its challenge
-- period and the grace, not lapsed and not skipped, which a simulation lets through, in live mode
-- and with no transaction of ours in flight.
pub visit_all-IsExecuted :
    (chain : Chain) (cfg : Config) (now : ℕ) (hash : Text) (dids : List Text) (s : State)
    → (Entry.executed_by hash ∈ (visit_all chain cfg now dids s).report)
      ↔ ((did : Text) × (did ∈ dids) × IsExecuted chain cfg now did hash)
unfolding visit_all
visit_all-IsExecuted chain cfg now hash [] s = (λ h. elim h [ ], λ h. elim h.1 [ ])
visit_all-IsExecuted chain cfg now hash (d ∷ dids) s =
    let first = visit chain cfg now d s in
    let rest = visit_all-IsExecuted chain cfg now hash dids first.state in
    let here = visit-IsExecuted chain cfg now d hash s in
    let parts =
      member-append (Entry.executed_by hash) first.report
        (visit_all chain cfg now dids first.state).report in
    (
      λ h. elim (parts.0 h) [
        | inl x ↦ (d, inl refl, here.0 x)
        | inr y ↦ let (did, at, ok) = rest.0 y in (did, inr at, ok)
      ],
      λ h. parts.1 (elim h.1 [
        | inl same ↦ inl (here.1 (subst (λ x. IsExecuted chain cfg now x hash) same h.2))
        | inr later ↦ inr (rest.1 (h.0, later, h.2))
      ]),
    )
