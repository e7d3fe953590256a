-- ===== src/PaymentScan/Sums.antt =====
-- The groups of `planCredits` hold what the transfers moved.
use sigvara.PaymentScan.{
  Group, Options, Transfer, add_transfer, group_key, group_transfers, judge_groups, plan_credits,
  rejection, SkipReason,
}
use sigvara.Prelude.{
  List, Option, Option-cases, [], arith, inl, inr, none, refl, some, ℕ, ◌+◌, ◌∷◌, ◌≡◌,
}
use sigvara.Prelude.Text.{Text}

-- The amount of the transfers to an agent of ours.
pub to_agents : Options → List (Option Transfer) → ℕ
to_agents opts [] = 0
to_agents opts (none ∷ ts) = to_agents opts ts
to_agents opts (some t ∷ ts) = elim (opts.did_hash_of t.to) [
  | none ↦ to_agents opts ts
  | some did ↦ t.amount + to_agents opts ts
]

pub grouped_sum : List (Text × Group) → ℕ
grouped_sum [] = 0
grouped_sum ((k, g) ∷ groups) = g.transfer.amount + grouped_sum groups

pub credited_sum : List Group → ℕ
credited_sum [] = 0
credited_sum (g ∷ gs) = g.transfer.amount + credited_sum gs

pub skipped_sum : List (Group × SkipReason) → ℕ
skipped_sum [] = 0
skipped_sum ((g, r) ∷ gs) = g.transfer.amount + skipped_sum gs

add_transfer-sum :
    (key did : Text) (t : Transfer) (groups : List (Text × Group))
    → grouped_sum (add_transfer key did t groups) ≡ grouped_sum groups + t.amount
unfolding add_transfer grouped_sum
add_transfer-sum key did t [] = omega arith
add_transfer-sum key did t ((k, g) ∷ groups) = ground (arith, add_transfer-sum key did t groups)

group_transfers-sum :
    (opts : Options) (ts : List (Option Transfer)) (groups : List (Text × Group))
    → grouped_sum (group_transfers opts ts groups) ≡ grouped_sum groups + to_agents opts ts
unfolding group_transfers to_agents
group_transfers-sum opts [] groups = omega arith
group_transfers-sum opts (none ∷ ts) groups = group_transfers-sum opts ts groups
group_transfers-sum opts (some t ∷ ts) groups = elim (Option-cases (opts.did_hash_of t.to)) [
  | inl unknown ↦ rw (group_transfers, to_agents, unknown) (group_transfers-sum opts ts groups)
  | inr (did, known) ↦
      rw (group_transfers, to_agents, known)
        (omega (
          arith,
          group_transfers-sum opts ts (add_transfer (group_key t) did t groups),
          add_transfer-sum (group_key t) did t groups,
        ))
]

judge_groups-sum :
    (opts : Options) (groups : List (Text × Group))
    → credited_sum (judge_groups opts groups).0 + skipped_sum (judge_groups opts groups).1
      ≡ grouped_sum groups
unfolding judge_groups credited_sum skipped_sum grouped_sum
judge_groups-sum opts [] = refl
judge_groups-sum opts ((k, g) ∷ groups) = elim (Option-cases (rejection opts g)) [
  | inl kept ↦
      rw (judge_groups, credited_sum, skipped_sum, kept)
        (omega (arith, judge_groups-sum opts groups))
  | inr (reason, out) ↦
      rw (judge_groups, credited_sum, skipped_sum, out)
        (omega (arith, judge_groups-sum opts groups))
]

-- No amount is lost or made up: what the plan credits and what it skips add up to what the
-- transfers moved to agents that are known.
pub plan_credits-sum :
    (decoded : List (Option Transfer)) (opts : Options)
    → let (credits, skipped) = plan_credits decoded opts in
      credited_sum credits + skipped_sum skipped ≡ to_agents opts decoded
unfolding plan_credits grouped_sum
plan_credits-sum decoded opts = omega (
  arith,
  judge_groups-sum opts (group_transfers opts decoded []),
  group_transfers-sum opts decoded [],
)
