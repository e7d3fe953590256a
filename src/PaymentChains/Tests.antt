-- ===== src/PaymentChains/Tests.antt =====
-- A chain whose scan has reached a minute, and the theorems at inputs that meet their hypotheses.
use sigvara.PaymentChains.{
  Chain, ScanState, covered_cut, events_at, scan_end, agents_at, eligible_at_ms, cap_of, state_key,
  by_id, Event, Array,
}
use sigvara.PaymentChains.Cuts.{covered_cut-eligible}
use sigvara.PaymentChains.Memo.{answers, answers-eq-map}
use sigvara.PaymentChains.Ends.{scan_end_bound, reads_to, first_reads}
use sigvara.Prelude.{
  List, Option, [], max, none, refl, some, true, ℕ, ◌*◌, ◌<◌, ◌∷◌, ◌≡◌, ◌≤◌, arith, inl, inr, subst,
  sym, ◌∈◌,
}
use sigvara.Prelude.Text.{Text, text_eq}

abbrev base : Chain
base = record {
  chain_id = 10;
  from_block = 1;
  fee_unit = 100;
  min_amount = 1;
  delay_ms = 5_000;
  chunk_size = 10;
  max_blocks = 100;
  max_reads = 4;
  is_on = true;
}

abbrev at_thousand : Text → Option ScanState
at_thousand key = some (record { last_block = 50; last_block_ts = some 1_000 })

abbrev there : Event
there = record {
  tx_hash = b't' ∷ [];
  payer = b'p' ∷ [];
  amount = 100;
  ts = 900_000;
  success = none;
  packet_id = none;
  block_number = some 40;
  chain_id = some 10;
  payer_outcome = none;
}

covered_cut_runs : covered_cut 970_000 2_000_000 (base ∷ []) at_thousand ≡ some 960_000
unfolding covered_cut cap_of
covered_cut_runs = refl

base-delay : (c : Chain) → c ∈ base ∷ [] → 0 < c.delay_ms
base-delay c at = elim at [
  | inl same ↦ subst (λ x. 0 < x.delay_ms) (sym same) (omega arith)
  | inr later ↦ elim later [ ]
]

covered_cut-eligible_example :
    (960_000 < 2_000_000)
    × ((c : Chain) × (s : ScanState) × (ts : ℕ) × (by_id (base ∷ []) 10 ≡ some c)
        × (at_thousand (state_key c) ≡ some s)
        × (s.last_block_ts ≡ some ts)
        × (there.ts < ts * 1000))
unfolding eligible_at_ms by_id
covered_cut-eligible_example =
    covered_cut-eligible 970_000 2_000_000 960_000 (base ∷ []) at_thousand there 10 905_000
      covered_cut_runs base-delay refl refl (omega arith)

-- A frozen array, asked for at three times.
abbrev kept_array : Array
kept_array = record { id = 7; frozen = true; events = there ∷ [] }

answers-eq-map_example :
    answers (base ∷ []) ((kept_array, 905_000) ∷ (kept_array, 960_000) ∷ (kept_array, 5) ∷ []) []
    ≡ events_at (there ∷ []) 905_000 (base ∷ [])
      ∷ events_at (there ∷ []) 960_000 (base ∷ [])
      ∷ events_at (there ∷ []) 5 (base ∷ [])
      ∷ []
answers-eq-map_example =
    answers-eq-map (λ id. there ∷ []) (base ∷ [])
      ((kept_array, 905_000) ∷ (kept_array, 960_000) ∷ (kept_array, 5) ∷ [])
      (λ frozen. refl, (λ frozen. refl, (λ frozen. refl, tt)))

abbrev credits : List (ℕ × Text)
credits = (7, b'a' ∷ []) ∷ (5, b'b' ∷ []) ∷ (7, b'c' ∷ []) ∷ []

scan_end_bound_example :
    reads_to (scan_end credits 20 4) (agents_at credits) ≤ max 4 (first_reads (agents_at credits))
scan_end_bound_example = scan_end_bound credits 20 4 (omega arith, (omega arith, (omega arith, tt)))

scan_end_runs : scan_end credits 20 4 ≡ 6
unfolding scan_end text_eq
scan_end_runs = refl
