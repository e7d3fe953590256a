-- ===== src/Reviewers/Funders.antt =====
-- Who is found to have funded an address, and when the traces of two count.
pub mod Independence
use sigvara.Reviewers.{
  Agent, is_own, first_payment, Event, Funder, Trace, add_wallet, funder_of_found, trace_from,
  trace_funding, funder_hops, judge_traces, Judgment, reviewer_min_tenure_days, reviewer_min_score,
  verdict_for, day_ms, last_paid, Deps, unknown_funder, own_side,
}
use sigvara.Prelude.Text.{Text, lower, text_eq, text_eq_iff, text_eq_sound}
use sigvara.Prelude.{
  All, Bool, Bool-cases, List, Option, Option-cases, [], arith, false, inl, inr, ltb, none, some,
  subst, suc, sym, true, zero, ℕ, ◌&&◌, ◌∈◌, ◌∷◌, ◌≡◌, ◌≢◌, ◌⊎◌, refl, ◌++◌, All-map, ◌*◌, ◌+◌, ◌≤◌,
}

-- Neither the scored agent nor its operator.
abbrev pub IsOther : Agent → Text → Type 0
IsOther agent x = (x ≢ lower agent.agent_address) × (x ≢ lower agent.operator)

is_own-IsOther : (agent : Agent) (x : Text) → is_own agent x ≡ false → IsOther agent x
unfolding is_own
is_own-IsOther agent x h = (
  λ same. ground (arith, h, same, text_eq_iff (lower agent.agent_address) x),
  λ same. ground (arith, h, same, text_eq_iff (lower agent.operator) x),
)

-- The first payment is one of the events, and the reviewer's.
first_payment-∈ :
    (c : Text) (first : Option Event) (events : List Event) (e : Event)
    → first_payment c first events ≡ some e
    → (first ≡ some e) ⊎ ((e ∈ events) × (lower e.payer ≡ c))
unfolding first_payment
first_payment-∈ c first [] e h = inl h
first_payment-∈ c none (x ∷ events) e h = elim (Bool-cases (text_eq (lower x.payer) c)) [
  | inl here ↦ elim (first_payment-∈ c (some x) events e (ground (arith, h, here))) [
    | inl same ↦
        let at : x ≡ e = ground (arith, same) in
        inr (inl (sym at), subst (λ y. lower y.payer ≡ c) at (text_eq_sound (lower x.payer) c here))
    | inr later ↦ inr (inr later.0, later.1)
  ]
  | inr other ↦ elim (first_payment-∈ c none events e (ground (arith, h, other))) [
    | inl same ↦ absurd (ground (arith, same))
    | inr later ↦ inr (inr later.0, later.1)
  ]
]
first_payment-∈ c (some f) (x ∷ events) e h =
    elim (Bool-cases (text_eq (lower x.payer) c && ltb x.ts f.ts)) [
      | inl earlier ↦ elim (first_payment-∈ c (some x) events e (ground (arith, h, earlier))) [
        | inl same ↦
            let at : x ≡ e = ground (arith, same) in
            let mine : text_eq (lower x.payer) c ≡ true = ground (arith, earlier) in
            inr (
              inl (sym at),
              subst (λ y. lower y.payer ≡ c) at (text_eq_sound (lower x.payer) c mine),
            )
        | inr later ↦ inr (inr later.0, later.1)
      ]
      | inr other ↦ elim (first_payment-∈ c (some f) events e (ground (arith, h, other))) [
        | inl same ↦ inl same
        | inr later ↦ inr (inr later.0, later.1)
      ]
    ]

-- Whoever a trace names, it names nobody of the scored agent's side.
abbrev IsClean : (Text → Bool) → Trace → Type 0
IsClean own Trace.own_side = Unit
IsClean own Trace.unknown_funder = Unit
IsClean own (Trace.wallets keys) = All (λ k. own k ≡ false) keys

add_wallet-IsClean :
    (own : Text → Bool) (f : Text) (t : Trace)
    → own f ≡ false
    → IsClean own t
    → IsClean own (add_wallet f t)
add_wallet-IsClean own f Trace.own_side h c = tt
add_wallet-IsClean own f Trace.unknown_funder h c = tt
add_wallet-IsClean own f (Trace.wallets keys) h c = (h, c)

module _ (own stop : Text → Bool) (funder_of : Text → ℕ → Option Funder) where
  trace_from-IsClean :
      (hops : ℕ) (at : Text) (before : ℕ)
      → IsClean own (trace_from hops own stop funder_of at before)
  unfolding trace_from
  trace_from-IsClean zero at before = tt
  trace_from-IsClean (suc hops) at before =
      elim (Option-cases (funder_of_found (funder_of at before))) [
        | inl ended ↦
            let eq : trace_from (suc hops) own stop funder_of at before ≡ Trace.wallets [] =
              ground (arith, ended) in
            rw eq tt
        | inr ((f, block), found) ↦ elim (Bool-cases (stop f)) [
          | inl public ↦
              let eq : trace_from (suc hops) own stop funder_of at before ≡ Trace.wallets [] =
                ground (arith, found, public) in
              rw eq tt
          | inr private ↦ elim (Bool-cases (own f)) [
            | inl self ↦
                let eq : trace_from (suc hops) own stop funder_of at before ≡ Trace.own_side =
                  ground (arith, found, private, self) in
                rw eq tt
            | inr other ↦
                let further : Trace = trace_from hops own stop funder_of f block in
                let eq : trace_from (suc hops) own stop funder_of at before ≡ add_wallet f further =
                  ground (arith, found, private, other) in
                rw eq (add_wallet-IsClean own f further other (trace_from-IsClean hops f block))
          ]
        ]
      ]

  -- A trace that shows wallets begins at a funder that is known.
  trace_funding-IsClean :
      (address : Text) (last : ℕ) (keys : List Text)
      → trace_funding own stop funder_of address last ≡ Trace.wallets keys
      → All (λ k. own k ≡ false) keys
        × ((f : Text × ℕ) × (funder_of_found (funder_of address last) ≡ some f))
  unfolding trace_funding
  trace_funding-IsClean address last keys h =
      elim (Option-cases (funder_of_found (funder_of address last))) [
        | inl missing ↦ absurd (ground (arith, h, missing))
        | inr ((f, block), found) ↦
            let shown : trace_from funder_hops own stop funder_of address last
                ≡ Trace.wallets keys =
              ground (arith, h, found) in
            (
              subst (IsClean own) shown (trace_from-IsClean funder_hops address last),
              ((f, block), found),
            )
      ]

All-join {κ} :
    {A : Type 0} (P : A → Type κ) (xs ys : List A) → All P xs → All P ys → All P (xs ++ ys)
All-join P [] ys h k = k
All-join P (x ∷ xs) ys h k = (h.0, All-join P xs ys h.1 k)

-- Where two traces are judged to count, the keys are clean and the first trace shows wallets.
judge_traces-IsClean :
    (own : Text → Bool) (c operator : Text) (last_ms last : ℕ) (mine theirs : Trace)
    (keys : List Text)
    → judge_traces c operator last_ms mine theirs ≡ Judgment.counts last keys
    → own c ≡ false
    → own operator ≡ false
    → IsClean own mine
    → IsClean own theirs
    → All (λ k. own k ≡ false) keys
      × (c ∈ keys)
      × (operator ∈ keys)
      × ((shown : List Text) × (mine ≡ Trace.wallets shown))
unfolding judge_traces
judge_traces-IsClean own c o n m Trace.own_side theirs keys h p q a b = absurd (ground (arith, h))
judge_traces-IsClean own c o n m Trace.unknown_funder theirs keys h p q a b =
    absurd (ground (arith, h))
judge_traces-IsClean own c o n m (Trace.wallets xs) Trace.own_side keys h p q a b =
    absurd (ground (arith, h))
judge_traces-IsClean own c o n m (Trace.wallets xs) Trace.unknown_funder keys h p q a b =
    let same : c ∷ o ∷ xs ≡ keys = ground (arith, h) in
    subst
      (λ t.
        All (λ k. own k ≡ false) t
        × (c ∈ t)
        × (o ∈ t)
        × ((shown : List Text) × (Trace.wallets xs ≡ Trace.wallets shown)))
      same ((p, (q, a)), inl refl, inr (inl refl), (xs, refl))
judge_traces-IsClean own c o n m (Trace.wallets xs) (Trace.wallets ys) keys h p q a b =
    let same : c ∷ o ∷ xs ++ ys ≡ keys = ground (arith, h) in
    subst
      (λ t.
        All (λ k. own k ≡ false) t
        × (c ∈ t)
        × (o ∈ t)
        × ((shown : List Text) × (Trace.wallets xs ≡ Trace.wallets shown)))
      same ((p, (q, All-join (λ k. own k ≡ false) xs ys a b)), inl refl, inr (inl refl), (xs, refl))

trace_funding-IsClean' :
    (own stop : Text → Bool) (funder_of : Text → ℕ → Option Funder) (address : Text) (last : ℕ)
    → IsClean own (trace_funding own stop funder_of address last)
unfolding trace_funding
trace_funding-IsClean' own stop funder_of address last =
    elim (Option-cases (funder_of_found (funder_of address last))) [
      | inl missing ↦
          let eq : trace_funding own stop funder_of address last ≡ Trace.unknown_funder =
            ground (arith, missing) in
          rw eq tt
      | inr ((f, block), found) ↦
          let eq : trace_funding own stop funder_of address last
              ≡ trace_from funder_hops own stop funder_of address last =
            ground (arith, found) in
          rw eq (trace_from-IsClean own stop funder_of funder_hops address last)
    ]
