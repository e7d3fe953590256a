-- ===== src/PaymentScan/Credits.antt =====
-- What a group has to satisfy to be credited.
use sigvara.PaymentScan.{
  Group, Options, Transfer, is_before, is_operator, judge_groups, plan_credits, rejection,
  group_transfers,
}
use sigvara.Prelude.{
  List, Option, Option-cases, [], arith, false, inl, inr, map, none, refl, some, subst, sym, ℕ, ◌<◌,
  ◌↔◌, ◌∈◌, ◌∷◌, ◌≡◌, ◌≢◌, ◌≤◌,
}
use sigvara.Prelude.Text.{Text, lower, text_eq_iff}

-- A group that may be credited: not credited before, an amount that counts, neither the agent nor
-- its operator paying itself, and not from before the agent was registered.
pub record IsCreditable (opts : Options) (g : Group) : Type 0 where
  pub fresh : opts.is_used g.transfer.tx_hash g.did_hash g.transfer.from ≡ false
  pub counts : (0 < g.transfer.amount) × (opts.min_amount ≤ g.transfer.amount)
  pub not_itself : lower g.transfer.from ≢ lower g.transfer.to
  pub not_operator :
      (o : Text)
      → opts.operator_of g.did_hash g.transfer.block_number ≡ some o
      → lower g.transfer.from ≢ lower o
  pub registered :
      (block : ℕ)
      → opts.registered_block_of g.did_hash ≡ some block
      → block ≤ g.transfer.block_number

is_operator_iff :
    (known : Option Text) (payer : Text)
    → (is_operator known payer ≡ false) ↔ ((o : Text) → known ≡ some o → lower payer ≢ lower o)
is_operator_iff none payer = (λ h o e same. cc e, λ h. refl)
is_operator_iff (some o) payer = (
  λ h x e same.
      ground
        (arith, e, same, text_eq_iff (lower payer) (lower o), text_eq_iff (lower payer) (lower x)),
  λ h. ground (arith, h o refl, text_eq_iff (lower payer) (lower o)),
)

is_before_iff :
    (block : ℕ) (known : Option ℕ)
    → (is_before block known ≡ false) ↔ ((b : ℕ) → known ≡ some b → b ≤ block)
is_before_iff block none = (λ h b e. ground arith, λ h. refl)
is_before_iff block (some r) = (λ h b e. ground arith, λ h. ground (arith, h r refl))

rejection-IsCreditable :
    (opts : Options) (g : Group) → (rejection opts g ≡ none) ↔ IsCreditable opts g
unfolding rejection
rejection-IsCreditable opts g =
    let t : Transfer = g.transfer in
    let operator = is_operator_iff (opts.operator_of g.did_hash t.block_number) t.from in
    let before = is_before_iff t.block_number (opts.registered_block_of g.did_hash) in
    let self = text_eq_iff (lower t.from) (lower t.to) in
    (
      λ h. record {
        fresh = ground arith;
        counts = ground arith;
        not_itself = λ same. ground (arith, self);
        not_operator = operator.0 (ground arith);
        registered = before.0 (ground arith);
      },
      λ x.
          let op = operator.1 x.not_operator in
          let be = before.1 x.registered in
          ground (arith, op, be, self, x.fresh, x.counts, x.not_itself),
    )

judge_groups-IsCreditable :
    (opts : Options) (g : Group) (groups : List (Text × Group))
    → (g ∈ (judge_groups opts groups).0) ↔ ((g ∈ map (λ x. x.1) groups) × IsCreditable opts g)
unfolding judge_groups
judge_groups-IsCreditable opts g [] = (λ h. elim h [ ], λ h. elim h.0 [ ])
judge_groups-IsCreditable opts g ((k, h) ∷ groups) =
    let rest = judge_groups-IsCreditable opts g groups in
    let ok = rejection-IsCreditable opts h in
    elim (Option-cases (rejection opts h)) [
      | inl kept ↦
          rw (judge_groups, kept)
            (
              λ at. elim at [
                | inl same ↦ (inl same, subst (λ x. IsCreditable opts x) (sym same) (ok.0 kept))
                | inr later ↦ let (m, c) = rest.0 later in (inr m, c)
              ],
              λ both. elim both.0 [
                | inl same ↦ inl same
                | inr later ↦ inr (rest.1 (later, both.1))
              ],
            )
      | inr (reason, out) ↦
          rw (judge_groups, out)
            (
              λ at. let (m, c) = rest.0 at in (inr m, c),
              λ both. elim both.0 [
                | inl same ↦
                    let kept = ok.1 (subst (λ x. IsCreditable opts x) same both.1) in ground arith
                | inr later ↦ rest.1 (later, both.1)
              ],
            )
    ]

-- The plan credits exactly the groups of transfers that may be credited.
pub plan_credits-IsCreditable :
    (decoded : List (Option Transfer)) (opts : Options) (g : Group)
    → (g ∈ (plan_credits decoded opts).0)
      ↔ ((g ∈ map (λ x. x.1) (group_transfers opts decoded [])) × IsCreditable opts g)
unfolding plan_credits
plan_credits-IsCreditable decoded opts g =
    judge_groups-IsCreditable opts g (group_transfers opts decoded [])
