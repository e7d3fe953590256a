-- ===== src/LinkScan/Progress.antt =====
-- A scan goes on from where one stopped: what it has claimed are the claims of the logs behind its
-- cursor, each taken once, however its runs end.
use sigvara.LinkScan.{
  Cursor, Deps, LinkLog, State, after_log, claim_made_by_operator, handle_log, is_known, take_log,
  take_claim,
}
use sigvara.LinkClaims.{NewClaim, add_claim, claim_from_log, is_before_cursor, Claim}
use sigvara.Prelude.{
  All, Bool, Bool-cases, List, Option, Option-cases, [], false, if◌then◌else◌, inl, inr, none, refl,
  some, true, ◌&&◌, ◌++◌, ◌<◌, ◌∷◌, ◌≡◌, ◌⊎◌, arith, sym,
}
use sigvara.Prelude.Text.{Text}

abbrev pub is_behind : Cursor → LinkLog → Bool
is_behind c log = is_before_cursor log.block log.index c.block c.index

-- In the order of the chain, each log after those before it.
abbrev pub IsLater : LinkLog → LinkLog → Type 0
IsLater a b = (a.block < b.block) ⊎ ((a.block ≡ b.block) × (a.index < b.index))

abbrev pub IsSorted : List LinkLog → Type 0
IsSorted [] = Unit
IsSorted (a ∷ ls) = All (IsLater a) ls × IsSorted ls

module _ (is_made : NewClaim → Bool) (known : Option (List Text)) where
  -- What one log adds to the claims.
  pub claims_with_new : List (Text × List Claim) → Option NewClaim → List (Text × List Claim)
  claims_with_new claims none = claims
  claims_with_new claims (some new) =
      if is_known known new.did_hash && is_made new then add_claim new claims else claims

  pub claims_with : List (Text × List Claim) → LinkLog → List (Text × List Claim)
  unfolding claims_with_new
  claims_with claims log =
      claims_with_new claims (claim_from_log log.agent_id log.value log.block log.index)

  -- The claims of a list of logs, in its order.
  unfoldable pub claims_of_logs : List (Text × List Claim) → List LinkLog → List (Text × List Claim)
  unfolding claims_with
  claims_of_logs claims [] = claims
  claims_of_logs claims (log ∷ ls) = claims_of_logs (claims_with claims log) ls

  -- The logs of the chain, split at the cursor: those behind it have been taken and no other.
  pub record IsSplit (all : List LinkLog) (first : List (Text × List Claim)) (s : State)
      (done rest : List LinkLog) : Type 0 where
    pub whole : all ≡ done ++ rest
    pub behind : All (λ l. is_behind s.cursor l ≡ true) done
    pub ahead : All (λ l. is_behind s.cursor l ≡ false) rest
    pub sorted : IsSorted rest
    pub taken : s.claims ≡ claims_of_logs first done

  abbrev pub IsUpTo : List LinkLog → List (Text × List Claim) → State → Type 0
  IsUpTo all first s = (done : List LinkLog) × (rest : List LinkLog) × IsSplit all first s done rest

  -- The reads say what is so where they answer.
  abbrev pub IsTrue : Deps → Type 0
  IsTrue deps =
      (new : NewClaim) (b : Bool) → claim_made_by_operator deps new ≡ some b → b ≡ is_made new

  pub claims_of_logs-append :
      (claims : List (Text × List Claim)) (ls : List LinkLog) (log : LinkLog)
      → claims_of_logs claims (ls ++ log ∷ []) ≡ claims_with (claims_of_logs claims ls) log
  unfolding claims_of_logs
  claims_of_logs-append claims [] log = refl
  claims_of_logs-append claims (l ∷ ls) log = claims_of_logs-append (claims_with claims l) ls log

  module _ (deps : Deps) (true_reads : IsTrue deps) where
    take_claim_taken :
        (s : State) (log : LinkLog) (new : NewClaim) (o : Option Bool)
        → claim_made_by_operator deps new ≡ o
        → (take_claim deps known s log new o).1 ≡ true
        → ((take_claim deps known s log new o).0.cursor ≡ after_log log)
          × ((take_claim deps known s log new o).0.claims
              ≡ (if is_made new then add_claim new s.claims else s.claims))
    unfolding take_claim
    take_claim_taken s log new none says through = ground (arith, through)
    take_claim_taken s log new (some true) says through =
        rw (sym (true_reads new true says)) (refl, refl)
    take_claim_taken s log new (some false) says through =
        rw (sym (true_reads new false says)) (refl, refl)

    take_log_taken :
        (s : State) (log : LinkLog) (o : Option NewClaim)
        → (take_log deps known s log o).1 ≡ true
        → ((take_log deps known s log o).0.cursor ≡ after_log log)
          × ((take_log deps known s log o).0.claims ≡ claims_with_new s.claims o)
    unfolding take_log claims_with_new
    take_log_taken s log none through = (refl, refl)
    take_log_taken s log (some new) through = elim (Bool-cases (is_known known new.did_hash)) [
      | inr unknown ↦ rw unknown (refl, refl)
      | inl is_in ↦ rw is_in (
          take_claim_taken s log new (claim_made_by_operator deps new) refl
            (ground (arith, through, is_in)))
    ]

    -- A log that goes through is taken, and the cursor is just after it.
    pub handle_log_taken :
        (s : State) (log : LinkLog)
        → is_behind s.cursor log ≡ false
        → (handle_log deps known s log).1 ≡ true
        → ((handle_log deps known s log).0.cursor ≡ after_log log)
          × ((handle_log deps known s log).0.claims ≡ claims_with s.claims log)
    unfolding handle_log claims_with
    handle_log_taken s log h through =
        let through' : (take_log deps known s log
              (claim_from_log log.agent_id log.value log.block log.index)).1
            ≡ true =
          ground (arith, through, h) in
        rw h (
          take_log_taken s log (claim_from_log log.agent_id log.value log.block log.index) through')

    take_log_stopped :
        (s : State) (log : LinkLog) (o : Option NewClaim)
        → (take_log deps known s log o).1 ≡ false
        → (take_log deps known s log o).0 ≡ s
    unfolding take_log take_claim
    take_log_stopped s log none stopped = ground (arith, stopped)
    take_log_stopped s log (some new) stopped =
        elim (Option-cases (claim_made_by_operator deps new)) [
          | inl thrown ↦ ground (arith, stopped, thrown)
          | inr (made, says) ↦ ground (arith, stopped, says)
        ]

    pub handle_log_stopped :
        (s : State) (log : LinkLog)
        → (handle_log deps known s log).1 ≡ false
        → (handle_log deps known s log).0 ≡ s
    unfolding handle_log
    handle_log_stopped s log stopped = elim (Bool-cases (is_behind s.cursor log)) [
      | inl back ↦ rw back refl
      | inr front ↦ rw front (take_log_stopped s log _ (ground (arith, stopped, front)))
    ]

-- A log behind the cursor is passed over.
pub handle_log_behind :
    (deps : Deps) (known : Option (List Text)) (s : State) (log : LinkLog)
    → is_behind s.cursor log ≡ true
    → handle_log deps known s log ≡ (s, true)
unfolding handle_log
handle_log_behind deps known s log h = rw h
