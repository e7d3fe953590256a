-- ===== src/LinkScan/Runs.antt =====
-- The logs of one span, handled from a cursor in it.
use sigvara.LinkScan.Progress.{
  IsSplit, IsTrue, IsLater, is_behind, claims_with, claims_of_logs-append, handle_log_taken,
  handle_log_stopped,
}
use sigvara.Prelude.Keep.{keep_none, keep_in}
use sigvara.LinkScan.{handle_logs, after_log, handle_log, Cursor, LinkLog, Deps, State}
use sigvara.LinkClaims.{is_before_cursor, NewClaim, Claim}
use sigvara.Prelude.{
  All, All-append, All-map, Bool, Bool-cases, List, Option, [], ap, append_assoc, arith, false, inl,
  inr, keep, leb, refl, sym, true, ℕ, ◌++◌, ◌<◌, ◌∙◌, ◌∷◌, ◌≡◌, ◌≤◌,
}
use sigvara.Prelude.Text.{Text}

is_behind_after :
    (c : Cursor) (l log : LinkLog)
    → is_behind c l ≡ true
    → is_behind c log ≡ false
    → is_behind (after_log log) l ≡ true
unfolding is_before_cursor
is_behind_after c l log h n = ground (arith, h, n)

is_ahead_after : (l log : LinkLog) → IsLater log l → is_behind (after_log log) l ≡ false
unfolding is_before_cursor
is_ahead_after l log h = ground (arith, h)

is_behind_self : (log : LinkLog) → is_behind (after_log log) log ≡ true
unfolding is_before_cursor
is_behind_self log = ground arith

-- In order, the logs past one that is past the end are past it too.
past_end :
    {e : ℕ} (log : LinkLog) (rest : List LinkLog)
    → leb log.block e ≡ false
    → All (IsLater log) rest
    → All (λ l. e < l.block) (log ∷ rest)
past_end {e} log rest over later = (
  ground (arith, over),
  All-map (IsLater log) (λ l. e < l.block) rest (λ l h. ground (arith, over, h)) later,
)

handle_logs_halted :
    (deps : Deps) (known : Option (List Text)) (s : State) (log : LinkLog) (ls : List LinkLog)
    → (handle_log deps known s log).1 ≡ false
    → handle_logs deps known s (log ∷ ls) ≡ ((handle_log deps known s log).0, false)
unfolding handle_logs
handle_logs_halted deps known s log ls halted = rw halted refl

handle_logs_through :
    (deps : Deps) (known : Option (List Text)) (s : State) (log : LinkLog) (ls : List LinkLog)
    → (handle_log deps known s log).1 ≡ true
    → handle_logs deps known s (log ∷ ls)
      ≡ handle_logs deps known (handle_log deps known s log).0 ls
unfolding handle_logs
handle_logs_through deps known s log ls through = rw through refl

module _ (is_made : NewClaim → Bool) (known : Option (List Text)) (all : List LinkLog)
    (first : List (Text × List Claim)) where
  advance :
      (s t : State) (done rest : List LinkLog) (log : LinkLog)
      → IsSplit is_made known all first s done (log ∷ rest)
      → t.cursor ≡ after_log log
      → t.claims ≡ claims_with is_made known s.claims log
      → IsSplit is_made known all first t (done ++ log ∷ []) rest
  advance s t done rest log p cursor claims = record {
    whole = p.whole ∙ sym (append_assoc done (log ∷ []) rest);
    behind = rw cursor (
        All-append (λ l. is_behind (after_log log) l ≡ true) done log
          (All-map (λ l. is_behind s.cursor l ≡ true) (λ l. is_behind (after_log log) l ≡ true) done
            (λ l h. is_behind_after s.cursor l log h p.ahead.0) p.behind)
          (is_behind_self log));
    ahead = rw cursor (
        All-map (IsLater log) (λ l. is_behind (after_log log) l ≡ false) rest
          (λ l h. is_ahead_after l log h) p.sorted.0);
    sorted = p.sorted.1;
    taken =
        claims
        ∙ ap (λ c. claims_with is_made known c log) p.taken
        ∙ sym (claims_of_logs-append is_made known first done log);
  }

  -- Where the logs up to a block were handled: all of them, or those before one that stopped it.
  abbrev pub IsHandled : ℕ → State × Bool → Type 0
  IsHandled e r =
      (r.0.cursor.block ≤ e)
      × (done : List LinkLog) × (rest : List LinkLog) × IsSplit is_made known all first r.0 done
          rest
      × (r.1 ≡ true → All (λ l. e < l.block) rest)

  module _ (deps : Deps) (true_reads : IsTrue is_made known deps) (e : ℕ) where
    pub handle_logs-IsHandled :
        (s : State) (done rest : List LinkLog)
        → s.cursor.block ≤ e
        → IsSplit is_made known all first s done rest
        → IsHandled e (handle_logs deps known s (keep (λ l. leb l.block e) rest))
    unfolding handle_logs
    handle_logs-IsHandled s done [] le p = (le, done, [], p, λ h. tt)
    handle_logs-IsHandled s done (log ∷ rest) le p = elim (Bool-cases (leb log.block e)) [
      | inr over ↦
          let past : All (λ l. e < l.block) (log ∷ rest) = past_end log rest over p.sorted.0 in
          rw
            (keep_none (λ l. leb l.block e) (log ∷ rest)
              (All-map (λ l. e < l.block) (λ l. leb l.block e ≡ false) (log ∷ rest)
                (λ l h. ground (arith, h)) past))
            (le, done, log ∷ rest, p, λ h. past)
      | inl within ↦
          rw (keep_in (λ l. leb l.block e) log rest within)
            (elim (Bool-cases ((handle_log deps known s log).1)) [
              | inr halted ↦
                  rw
                    (
                      handle_logs_halted deps known s log (keep (λ l. leb l.block e) rest) halted,
                      handle_log_stopped is_made known deps true_reads s log halted,
                    )
                    (le, done, log ∷ rest, p, λ h. ground (arith, h))
              | inl through ↦
                  let t : State = (handle_log deps known s log).0 in
                  let taken =
                    handle_log_taken is_made known deps true_reads s log p.ahead.0 through in
                  rw (handle_logs_through deps known s log (keep (λ l. leb l.block e) rest) through)
                    (handle_logs-IsHandled t (done ++ log ∷ []) rest
                      (rw (taken.0) (ground (arith, within)))
                      (advance s t done rest log p taken.0 taken.1))
            ])
    ]
