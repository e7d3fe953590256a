-- ===== src/LinkScan/Tests.antt =====
-- A scan that is stopped by a read that fails, and the one that goes on from there.
use sigvara.LinkScan.{
  LinkLog, Deps, SpanRead, Ending, scan, start_state, claim_made_by_operator, Answer,
}
use sigvara.LinkScan.Progress.{IsUpTo, IsTrue, claims_of_logs}
use sigvara.LinkScan.Resume.{scan-IsUpTo, IsNode, IsEnded}
use sigvara.Prelude.{
  Bool-cases, List, [], arith, false, if◌then◌else◌, inl, inr, keep, leb, ltb, none, refl, some, ℕ,
  ◌&&◌, ◌+◌, ◌∷◌, ◌≡◌, ap, sym, ◌∙◌,
}
use sigvara.LinkClaims.{claim_from_log, is_before_cursor}

abbrev first_log : LinkLog
first_log = record { block = 5; index = 1; agent_id = b'7' ∷ []; value = b'x' ∷ [] }

abbrev second_log : LinkLog
second_log = record { block = 8; index = 0; agent_id = b'9' ∷ []; value = b'y' ∷ [] }

abbrev two_logs : List LinkLog
two_logs = first_log ∷ second_log ∷ []

-- A node that refuses spans of more than two blocks and fails past block 7.
abbrev node_answer : ℕ → ℕ → SpanRead
node_answer start end =
    if ltb (start + 1) end
    then SpanRead.span_too_big
    else if ltb 7 end
    then SpanRead.failed
    else SpanRead.logs (keep (λ l. leb start l.block && leb l.block end) two_logs)

abbrev failing_node : Deps
failing_node = record {
  operator_of = λ did block. Answer.permanent;
  owner_at = λ agent block. Answer.permanent;
  claim_holds = λ agent did operator block. Answer.permanent;
  read_link_logs = node_answer;
}

logs_of : SpanRead → List LinkLog
logs_of (SpanRead.logs ls) = ls
logs_of SpanRead.span_too_big = []
logs_of SpanRead.failed = []

answers :
    (start end : ℕ)
    → ltb (start + 1) end ≡ false
    → ltb 7 end ≡ false
    → node_answer start end
      ≡ SpanRead.logs (keep (λ l. leb start l.block && leb l.block end) two_logs)
answers start end small early = rw (small, early) refl

failing_node-IsNode : IsNode two_logs failing_node
unfolding logs_of
failing_node-IsNode start end ls h = elim (Bool-cases (ltb (start + 1) end)) [
  | inl big ↦ ground (arith, h, big)
  | inr small ↦ elim (Bool-cases (ltb 7 end)) [
    | inl late ↦ ground (arith, h, small, late)
    | inr early ↦ sym (ap logs_of (sym (answers start end small early) ∙ h))
  ]
]

failing_node-IsTrue : IsTrue (λ new. false) none failing_node
unfolding claim_made_by_operator
failing_node-IsTrue new b h = ground (arith, h)

nothing_taken : IsUpTo (λ new. false) none two_logs [] (start_state 4 none)
unfolding is_before_cursor claims_of_logs
nothing_taken = (
  [],
  two_logs,
  record {
    whole = refl;
    behind = tt;
    ahead = (refl, (refl, tt));
    sorted = ((inl (omega arith), tt), (tt, tt));
    taken = refl;
  },
)

scan-IsUpTo_example :
    let r = scan failing_node 4 3 none none 9 none in
    IsUpTo (λ new. false) none two_logs [] (start_state 4 (some r.0)) × IsEnded 9 r.0 r.1
scan-IsUpTo_example =
    scan-IsUpTo (λ new. false) none two_logs [] failing_node failing_node-IsTrue failing_node-IsNode
      4 3 9 none none (omega arith) nothing_taken

scan_stops : (scan failing_node 4 3 none none 9 none).1 ≡ Ending.stopped
unfolding scan claim_from_log is_before_cursor
scan_stops = refl

scan_stays : (scan failing_node 4 3 none none 9 none).0.cursor ≡ record { block = 8; index = 0 }
unfolding scan claim_from_log is_before_cursor
scan_stays = refl
