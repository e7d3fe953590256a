-- ===== src/PaymentChains/Cuts.antt =====
-- What a cut is covered by.
use sigvara.PaymentChains.{
  Chain, ScanState, by_id, cap_of, covered_cut, eligible_at_ms, state_key, Event,
}
use sigvara.Prelude.{
  List, Option, [], arith, some, true, ℕ, ◌*◌, ◌+◌, ◌<◌, ◌∈◌, ◌∷◌, ◌≡◌, ◌≤◌, Bool-cases,
  Option-cases, ap, inl, inr, min, subst, sym, ◌-◌, ◌==◌,
}
use sigvara.Prelude.Text.{Text}

-- A chain was scanned to a block after a time.
pub record IsScanned (state_of : Text → Option ScanState) (c : Chain) (out : ℕ) : Type 0 where
  pub state : ScanState
  pub ts : ℕ
  pub kept : state_of (state_key c) ≡ some state
  pub timed : state.last_block_ts ≡ some ts
  pub later : out < ts * 1000 + c.delay_ms

-- The cap is at most the one before, and lies below what each chain in use was scanned to.
cap_of-IsScanned :
    (cap : ℕ) (chains : List Chain) (state_of : Text → Option ScanState) (out : ℕ)
    → cap_of cap chains state_of ≡ some out
    → (out ≤ cap)
      × ((c : Chain) → c ∈ chains → c.is_on ≡ true → 0 < c.delay_ms → IsScanned state_of c out)
unfolding cap_of
cap_of-IsScanned cap [] state_of out h = (ground arith, λ c at. elim at [ ])
cap_of-IsScanned cap (c ∷ chains) state_of out h = elim (Bool-cases c.is_on) [
  | inr off ↦
      let rest = cap_of-IsScanned cap chains state_of out (ground (arith, h, off)) in
      (
        rest.0,
        λ d at on delay. elim at [
          | inl same ↦ absurd (ground (arith, ap (λ x. x.is_on) same, on, off))
          | inr later ↦ rest.1 d later on delay
        ],
      )
  | inl on ↦ elim (Option-cases (state_of (state_key c))) [
    | inl none_kept ↦ absurd (ground (arith, h, on, none_kept))
    | inr (s, kept) ↦ elim (Option-cases s.last_block_ts) [
      | inl untimed ↦ absurd (ground (arith, h, on, kept, untimed))
      | inr (ts, timed) ↦
          let rest =
            cap_of-IsScanned (min cap (ts * 1000 + c.delay_ms - 1)) chains state_of out
              (ground (arith, h, on, kept, timed)) in
          (
            omega (arith, rest.0),
            λ d at d_on delay. elim at [
              | inl same ↦
                  subst (λ x. IsScanned state_of x out) (sym same)
                    (record {
                      state = s;
                      ts = ts;
                      kept = kept;
                      timed = timed;
                      later = omega (arith, rest.0, subst (λ x. 0 < x.delay_ms) same delay);
                    })
              | inr later ↦ rest.1 d later d_on delay
            ],
          )
    ]
  ]
]

by_id-member : (chains : List Chain) (id : ℕ) (c : Chain) → by_id chains id ≡ some c → c ∈ chains
unfolding by_id
by_id-member [] id c h = ground arith
by_id-member (d ∷ chains) id c h = elim (Bool-cases (d.chain_id == id)) [
  | inl same ↦ inl (ground (arith, h, same))
  | inr other ↦ inr (by_id-member chains id c (ground (arith, h, other)))
]

covered_cut-IsScanned :
    (want reach cut : ℕ) (chains : List Chain) (state_of : Text → Option ScanState)
    → covered_cut want reach chains state_of ≡ some cut
    → (cut ≤ want)
      × (cut < reach)
      × ((c : Chain) → c ∈ chains → c.is_on ≡ true → 0 < c.delay_ms → IsScanned state_of c cut)
unfolding covered_cut
covered_cut-IsScanned want reach cut chains state_of h =
    elim (Option-cases (cap_of (min want (reach - 1)) chains state_of)) [
      | inl uncovered ↦ absurd (ground (arith, h, uncovered))
      | inr (cap, found) ↦
          let covers = cap_of-IsScanned (min want (reach - 1)) chains state_of cap found in
          let below : (cut ≤ cap) × (0 < cap) =
            (ground (arith, h, found), ground (arith, h, found)) in
          (
            omega (arith, covers.0, below),
            omega (arith, covers.0, below),
            λ c at on delay.
                let s = covers.1 c at on delay in
                record {
                  state = s.state;
                  ts = s.ts;
                  kept = s.kept;
                  timed = s.timed;
                  later = omega (arith, s.later, below);
                },
          )
    ]

-- Evidence at a covered cut is complete: where a cut is given, every event that may count by then
-- and comes from another chain is from before the last block that this chain was scanned to, where
-- chains delay their events, and on the scored chain the cut lies before the time scanned to.
pub covered_cut-eligible :
    (want reach cut : ℕ) (chains : List Chain) (state_of : Text → Option ScanState) (e : Event)
    (id t : ℕ)
    → covered_cut want reach chains state_of ≡ some cut
    → ((c : Chain) → c ∈ chains → 0 < c.delay_ms)
    → e.chain_id ≡ some id
    → eligible_at_ms e chains ≡ some t
    → t ≤ cut
    → (cut < reach)
      × ((c : Chain) × (s : ScanState) × (ts : ℕ) × (by_id chains id ≡ some c)
          × (state_of (state_key c) ≡ some s)
          × (s.last_block_ts ≡ some ts)
          × (e.ts < ts * 1000))
unfolding eligible_at_ms
covered_cut-eligible want reach cut chains state_of e id t h delays from eligible le =
    let covered = covered_cut-IsScanned want reach cut chains state_of h in
    elim (Option-cases (by_id chains id)) [
      | inl unknown ↦ absurd (ground (arith, eligible, from, unknown))
      | inr (c, known) ↦
          let at = by_id-member chains id c known in
          let on : c.is_on ≡ true = ground (arith, eligible, from, known) in
          let time : e.ts + c.delay_ms ≡ t = ground (arith, eligible, from, known) in
          let s = covered.2 c at on (delays c at) in
          (covered.1, (c, s.state, s.ts, known, s.kept, s.timed, omega (arith, time, s.later)))
    ]
