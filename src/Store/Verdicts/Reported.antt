-- ===== src/Store/Verdicts/Reported.antt =====
-- That a report that was taken stays, in terms of what a later report is answered.
use sigvara.Store.{
  Store, Event, Report, record_payer_outcome, accept, reported, find_event, not_found, already_set,
}
use sigvara.Store.Steps.{Reach}
use sigvara.Store.Marks.{IsValid, IsMarked}
use sigvara.Store.Reports.{
  names, list_of, record_payer_outcome-cases, record_payer_outcome-IsValid, names-lower, is_taken,
  accept-found, record_payer_outcome-reported,
}
use sigvara.Store.Outcomes.{find_event-test}
use sigvara.Prelude.Text.{lower}
use sigvara.Prelude.{
  All-map, arith, inl, inr, some, subst, sym, true, ℕ, ◌≡◌, Option-cases, max, refl, ◌+◌, ◌∙◌, ◌⊎◌,
}
use sigvara.Store.Verdicts.{
  IsSettled, IsFinal, names-is_credited, IsReported, Reach-IsSettled, found-All,
  reported-IsReported, found_only,
}

-- In the store that takes the report, the payment is credited and has the outcome.
taken-IsSettled :
    (r : Report) (host_now : ℕ) (s : Store)
    → IsValid s
    → is_taken (record_payer_outcome r host_now s).0 ≡ true
    → IsSettled r (max host_now (s.last_accepted_at + 1)) (record_payer_outcome r host_now s).1
taken-IsSettled r host_now s v taken = elim (record_payer_outcome-cases r host_now s) [
  | inl (_, refused) ↦ absurd (ground (arith, taken, refused))
  | inr (e, result, (found, _, eq)) ↦
      let at : ℕ = max host_now (s.last_accepted_at + 1) in
      let t : Store = (accept r host_now e result s).1 in
      let x : Event = reported r at e in
      let there : find_event (names r) (list_of r t) ≡ some x =
        accept-found r host_now e result s found in
      let valid : IsValid t =
        subst (λ o. IsValid o.1) eq (record_payer_outcome-IsValid r host_now s v) in
      subst (λ o. IsSettled r at o.1) (sym eq)
        (
          valid,
          names-is_credited r t x (find_event-test (names r) x (list_of r t) there) (
              found-All (IsMarked t (lower r.did_hash)) (names r) x (list_of r t) there
                (valid.marked (lower r.did_hash))),
          All-map (λ y. names r y ≡ true → y ≡ x) (λ y. names r y ≡ true → IsReported r at y)
              (list_of r t)
              (λ y only h. subst (IsReported r at) (sym (only h)) (reported-IsReported r at e))
              (found_only r x (list_of r t) (valid.distinct (lower r.did_hash)) there),
        )
]

-- A report that names the same payment finds it reported, or does not find it.
report_answer :
    (r q : Report) (at later : ℕ) (t : Store)
    → IsSettled r at t
    → find_event (names q) (list_of q t) ≡ find_event (names r) (list_of r t)
    → (record_payer_outcome q later t ≡ (already_set, t))
      ⊎ (record_payer_outcome q later t ≡ (not_found, t))
unfolding record_payer_outcome
report_answer r q at later t (v, credited, f) same =
    elim (Option-cases (find_event (names r) (list_of r t))) [
      | inl missing ↦ inr (rw (same ∙ missing, record_payer_outcome) refl)
      | inr (e, found) ↦
          let held : IsReported r at e =
            found-All (λ y. names r y ≡ true → IsReported r at y) (names r) e (list_of r t) found f
              (find_event-test (names r) e (list_of r t) found) in
          inl (record_payer_outcome-reported q later t e (same ∙ found) held.0)
    ]

-- Once a payer's outcome was taken it is final. Whatever credits, outcomes, reports and prunings
-- follow, a later report for the payment, with whatever verdict, terms or clock, and in whatever
-- case it writes the payment, is answered `already_set`, or `not_found` where pruning dropped the
-- payment, and changes nothing; and while the payment is held it has the verdict, the signed terms
-- and the time of acceptance of the report that was taken.
pub record_payer_outcome_settled :
    (r q : Report) (host_now later : ℕ) (s : Store) {t : Store}
    → IsValid s
    → is_taken (record_payer_outcome r host_now s).0 ≡ true
    → Reach (record_payer_outcome r host_now s).1 t
    → lower q.did_hash ≡ lower r.did_hash
    → lower q.tx_hash ≡ lower r.tx_hash
    → lower q.payer ≡ lower r.payer
    → q.chain_id ≡ r.chain_id
    → ((record_payer_outcome q later t ≡ (already_set, t))
        ⊎ (record_payer_outcome q later t ≡ (not_found, t)))
      × IsFinal r (max host_now (s.last_accepted_at + 1)) t
record_payer_outcome_settled r q host_now later s {t} v taken calls did tx payer chain =
    let at : ℕ = max host_now (s.last_accepted_at + 1) in
    let settled : IsSettled r at t =
      Reach-IsSettled r at calls (taken-IsSettled r host_now s v taken) in
    (report_answer r q at later t settled (names-lower r q t did tx payer chain), settled.2)
