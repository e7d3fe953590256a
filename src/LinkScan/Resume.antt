-- ===== src/LinkScan/Resume.antt =====
-- A whole scan: its spans follow each other, and it ends at its last block or where it was stopped.
use sigvara.LinkScan.Progress.{IsUpTo, IsTrue, is_behind, handle_log_behind}
use sigvara.LinkScan.Runs.{handle_logs-IsHandled, IsHandled}
use sigvara.LinkScan.{
  LinkLog, Deps, State, SpanRead, Spanned, Cursor, Ending, read_span, handle_logs, handle_span,
  each_link_span, scan, start_state, NewClaim, Claim, end_span, last_block,
}
use sigvara.Prelude.Keep.{keep-append, keep-All, keep_ext}
use sigvara.Prelude.{
  All, Bool, List, Option, [], keep, leb, refl, suc, true, zero, ℕ, ◌&&◌, ◌++◌, ◌+◌, ◌<◌, ◌∷◌, ◌≡◌,
  ◌≤◌, All-map, Bool-cases, ap, arith, false, inl, inr, ltb, ltb→lt, min, ◌-◌, ◌/◌, ◌∙◌, ◌⊎◌,
  ltb-false→le, subst, some,
}
use sigvara.Prelude.Text.{Text}
use sigvara.LinkClaims.{is_before_cursor}

abbrev in_span : ℕ → ℕ → LinkLog → Bool
in_span start end l = leb start l.block && leb l.block end

-- A node that answers gives the logs of the span, in their order.
abbrev pub IsNode : List LinkLog → Deps → Type 0
IsNode all deps =
    (start end : ℕ) (ls : List LinkLog)
    → deps.read_link_logs start end ≡ SpanRead.logs ls
    → ls ≡ keep (in_span start end) all

-- What the reads of one span end in: its logs, up to an end that is not before its start.
abbrev IsRead : List LinkLog → ℕ → ℕ → Spanned → Type 0
IsRead all start to (Spanned.read_to ls end) =
    (start ≤ end) × (end ≤ to) × (ls ≡ keep (in_span start end) all)
IsRead all start to Spanned.not_read = Unit
IsRead all start to Spanned.unfinished = ⊥

SpanRead-cases :
    (r : SpanRead)
    → ((ls : List LinkLog) × (r ≡ SpanRead.logs ls))
      ⊎ ((r ≡ SpanRead.span_too_big) ⊎ (r ≡ SpanRead.failed))
SpanRead-cases (SpanRead.logs ls) = inl (ls, refl)
SpanRead-cases SpanRead.span_too_big = inr (inl refl)
SpanRead-cases SpanRead.failed = inr (inr refl)

read_span-IsRead :
    (all : List LinkLog) (deps : Deps) (node : IsNode all deps) (fuel start span to : ℕ)
    → start ≤ to
    → 0 < span
    → span ≤ fuel
    → IsRead all start to (read_span deps fuel start span to)
unfolding read_span
read_span-IsRead all deps node zero start span to le pos enough = omega (arith, pos, enough)
read_span-IsRead all deps node (suc fuel) start span to le pos enough =
    let end : ℕ = min (start + span - 1) to in
    elim (SpanRead-cases (deps.read_link_logs start end)) [
      | inl (ls, read) ↦
          rw (read, read_span) (omega (arith, le, pos), omega (arith), node start end ls read)
      | inr (inr broken) ↦ rw (broken, read_span) tt
      | inr (inl big) ↦ elim (Bool-cases (ltb start end)) [
        | inr single ↦ rw (big, single, read_span) tt
        | inl more ↦
            let lt : start < end = ltb→lt start end more in
            rw (big, more, read_span)
              (read_span-IsRead all deps node fuel start ((end - start + 2) / 2) to le
                (omega (arith, lt)) (omega (arith, lt, enough)))
      ]
    ]

handle_logs_skip :
    (deps : Deps) (known : Option (List Text)) (s : State) (ls more : List LinkLog)
    → All (λ l. is_behind s.cursor l ≡ true) ls
    → handle_logs deps known s (ls ++ more) ≡ handle_logs deps known s more
unfolding handle_logs
handle_logs_skip deps known s [] more h = refl
handle_logs_skip deps known s (l ∷ ls) more h =
    rw (handle_log_behind deps known s l h.0) (handle_logs_skip deps known s ls more h.1)

is_behind_end :
    (c : Cursor) (end : ℕ) (l : LinkLog)
    → c.block ≤ end
    → is_behind c l ≡ true
    → is_behind (record { block = end + 1; index = 0 }) l ≡ true
unfolding is_before_cursor
is_behind_end c end l le h = ground (arith, le, h)

is_ahead_end :
    (end : ℕ) (l : LinkLog)
    → end < l.block
    → is_behind (record { block = end + 1; index = 0 }) l ≡ false
unfolding is_before_cursor
is_ahead_end end l lt = ground (arith, lt)

in_span_ahead :
    (c : Cursor) (end : ℕ) (l : LinkLog)
    → is_behind c l ≡ false
    → in_span c.block end l ≡ leb l.block end
unfolding is_before_cursor
in_span_ahead c end l h = ground (arith, h)

abbrev pub IsEnded : ℕ → State → Ending → Type 0
IsEnded to s Ending.complete = to < s.cursor.block
IsEnded to s Ending.stopped = Unit
IsEnded to s Ending.out_of_fuel = ⊥

Spanned-cases :
    (r : Spanned)
    → ((ls : List LinkLog) × (end : ℕ) × (r ≡ Spanned.read_to ls end))
      ⊎ ((r ≡ Spanned.not_read) ⊎ (r ≡ Spanned.unfinished))
Spanned-cases (Spanned.read_to ls end) = inl (ls, end, refl)
Spanned-cases Spanned.not_read = inr (inl refl)
Spanned-cases Spanned.unfinished = inr (inr refl)

module _ (is_made : NewClaim → Bool) (known : Option (List Text)) (all : List LinkLog)
    (first : List (Text × List Claim)) (deps : Deps) (true_reads : IsTrue is_made known deps)
    (node : IsNode all deps) where
  end_span-IsUpTo :
      (end : ℕ) (r : State × Bool)
      → IsHandled is_made known all first end r
      → IsUpTo is_made known all first (end_span deps known end r).0
        × ((end_span deps known end r).1 ≡ true
            → (end_span deps known end r).0.cursor.block ≡ end + 1)
  unfolding end_span
  end_span-IsUpTo end (s, false) (le, done, rest, p, past) =
      ((done, rest, p), λ h. ground (arith, h))
  end_span-IsUpTo end (s, true) (le, done, rest, p, past) = (
    (
      done,
      rest,
      record {
        whole = p.whole;
        behind =
            All-map (λ l. is_behind s.cursor l ≡ true)
              (λ l. is_behind (record { block = end + 1; index = 0 }) l ≡ true) done
              (λ l h. is_behind_end s.cursor end l le h) p.behind;
        ahead =
            All-map (λ l. end < l.block)
              (λ l. is_behind (record { block = end + 1; index = 0 }) l ≡ false) rest
              (λ l h. is_ahead_end end l h) (past refl);
        sorted = p.sorted;
        taken = p.taken;
      },
    ),
    λ h. refl,
  )

  -- Where a span was handled: everything up to its end, or up to what stopped it.
  handle_span-IsUpTo :
      (s : State) (ls : List LinkLog) (end : ℕ)
      → s.cursor.block ≤ end
      → ls ≡ keep (in_span s.cursor.block end) all
      → IsUpTo is_made known all first s
      → let r = handle_span deps known s ls end in
        IsUpTo is_made known all first r.0 × (r.1 ≡ true → r.0.cursor.block ≡ end + 1)
  unfolding handle_span
  handle_span-IsUpTo s ls end le logs (done, rest, p) =
      let same : keep (in_span s.cursor.block end) all
          ≡ keep (in_span s.cursor.block end) done ++ keep (λ l. leb l.block end) rest =
        ap (keep (in_span s.cursor.block end)) p.whole
        ∙ keep-append (in_span s.cursor.block end) done rest
        ∙ ap (λ k. keep (in_span s.cursor.block end) done ++ k)
            (keep_ext (in_span s.cursor.block end) (λ l. leb l.block end) rest
              (All-map (λ l. is_behind s.cursor l ≡ false)
                (λ l. in_span s.cursor.block end l ≡ leb l.block end) rest
                (λ l h. in_span_ahead s.cursor end l h) p.ahead)) in
      let steps : handle_logs deps known s ls
          ≡ handle_logs deps known s (keep (λ l. leb l.block end) rest) =
        ap (handle_logs deps known s) (logs ∙ same)
        ∙ handle_logs_skip deps known s (keep (in_span s.cursor.block end) done) _ (
            keep-All (in_span s.cursor.block end) (λ l. is_behind s.cursor l ≡ true) done
              p.behind) in
      let handled =
        handle_logs-IsHandled is_made known all first deps true_reads end s done rest le p in
      rw steps
        (end_span-IsUpTo end (handle_logs deps known s (keep (λ l. leb l.block end) rest)) handled)

  each_link_span-IsUpTo :
      (chunk_size fuel start to : ℕ) (s : State)
      → 0 < chunk_size
      → s.cursor.block ≡ start
      → to + 1 - start ≤ fuel
      → IsUpTo is_made known all first s
      → let r = each_link_span deps chunk_size (handle_span deps known) fuel start to s in
        IsUpTo is_made known all first r.0 × IsEnded to r.0 r.1
  unfolding each_link_span
  each_link_span-IsUpTo chunk_size zero start to s pos at enough up =
      let past : ltb to start ≡ true = ground (arith, enough) in
      rw past (up, omega (arith, at, enough))
  each_link_span-IsUpTo chunk_size (suc fuel) start to s pos at enough up =
      elim (Bool-cases (ltb to start)) [
        | inl past ↦ rw past (up, rw at (ltb→lt to start past))
        | inr within ↦
            let le : start ≤ to = ltb-false→le to start within in
            let is_read =
              read_span-IsRead all deps node chunk_size start chunk_size to le pos (omega arith) in
            elim (Spanned-cases (read_span deps chunk_size start chunk_size to)) [
              | inr (inl broken) ↦ rw (within, broken, each_link_span) (up, tt)
              | inr (inr short) ↦ absurd (subst (IsRead all start to) short is_read)
              | inl (ls, end, read) ↦
                  let span = subst (IsRead all start to) read is_read in
                  let next = handle_span-IsUpTo s ls end (rw at (span.0)) (rw at (span.2)) up in
                  elim (Bool-cases ((handle_span deps known s ls end).1)) [
                    | inr halted ↦ rw (within, read, each_link_span, halted) (next.0, tt)
                    | inl through ↦
                        rw (within, read, each_link_span, through)
                          (each_link_span-IsUpTo chunk_size fuel (end + 1) to
                            (handle_span deps known s ls end).0 pos (next.1 through)
                            (omega (arith, enough, span.0)) next.0)
                  ]
            ]
      ]

  IsUpTo-found :
      (s : State) (n : ℕ)
      → IsUpTo is_made known all first s
      → IsUpTo is_made known all first (record s { found = n })
  IsUpTo-found s n (done, rest, p) = (
    done,
    rest,
    record {
      whole = p.whole;
      behind = p.behind;
      ahead = p.ahead;
      sorted = p.sorted;
      taken = p.taken;
    },
  )

  -- However a scan ends, the claims it keeps are those of the logs behind the cursor it keeps, each
  -- taken once and in the order of the chain, if so they were when it started; so the next scan goes
  -- on from there. It ends past its last block, or where a read threw. The node answers with the
  -- logs of the span asked for, chunks are of a block or more, and a claim's reads say what is so.
  pub scan-IsUpTo :
      (from_block chunk_size head : ℕ) (state : Option State) (up_to : Option ℕ)
      → 0 < chunk_size
      → IsUpTo is_made known all first (start_state from_block state)
      → let r = scan deps from_block chunk_size state known head up_to in
        IsUpTo is_made known all first (start_state from_block (some r.0))
        × IsEnded (last_block head up_to) r.0 r.1
  unfolding scan
  scan-IsUpTo from_block chunk_size head state up_to pos up =
      let s : State = start_state from_block state in
      let to : ℕ = last_block head up_to in
      let r =
        each_link_span-IsUpTo chunk_size (to + 1 - s.cursor.block) s.cursor.block to s pos refl
          (omega arith) up in
      (IsUpTo-found _ 0 r.0, r.1)
