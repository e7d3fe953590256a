-- ===== src/ScanRun/Runs.antt =====
-- Every way in which a run of the payment scan ends, and what it leaves.
use sigvara.ScanRun.{
  Config, Node, Registered, Run, State, Tally, addresses, by_address, credit_groups, credit_plan,
  options, plan_range, read_times, run_payment_scan, run_scan_canary, scan_from, scan_range,
  set_checkpoint, time_checkpoint, scan_to,
}
use sigvara.ScanRun.Covers.{credit_groups-Credits, credit_groups-IsSettled, none_yet, Credits}
use sigvara.PaymentScan.{Canary, Group, Transfer, checkpoint_after, plan_credits, safe_head}
use sigvara.PaymentScan.Checkpoints.{checkpoint_after-below, checkpoint_after_failed}
use sigvara.PaymentChains.{ScanState, active}
use sigvara.LogSpans.{Answer}
use sigvara.Store.{is_credited}
use sigvara.Prelude.{
  Bool-cases, List, Option, Option-cases, [], if◌then◌else◌, inl, inr, ltb, none, refl, some, true,
  ℕ, ◌&&◌, ◌+◌, ◌==◌, ◌∈◌, ◌≡◌, ◌≤◌, arith, map, ◌≢◌,
}

module _ (cfg : Config) (node : Node) (agents : List Registered) where
  -- The payments that a scan of transfers plans to credit.
  pub planned : State → Answer (Option Transfer) → List Group
  planned s Answer.too_big = []
  planned s Answer.read_failed = []
  planned s (Answer.logs transfers) =
      (plan_credits transfers (options agents s.store cfg.min_amount)).0

  -- A checkpoint past which nothing is, up to a block, but what is credited.
  abbrev pub IsCovered : State → List Group → ℕ → Type 0
  IsCovered t groups block =
      (g : Group)
      → g ∈ groups
      → g.transfer.block_number ≤ block
      → is_credited t.store g.transfer.tx_hash g.did_hash g.transfer.from none ≡ true

  -- What a run leaves, by its end.
  abbrev pub IsLeft : State → List Group → State → Run → Type 0
  IsLeft s groups t Run.disabled = t ≡ s
  IsLeft s groups t Run.threw = t.checkpoint ≡ s.checkpoint
  IsLeft s groups t Run.up_to_date =
      (t.store ≡ s.store) × (scan_from cfg node t.checkpoint ≡ scan_from cfg node s.checkpoint)
  IsLeft s groups t (Run.scanned tally canary none) = t.checkpoint ≡ s.checkpoint
  IsLeft s groups t (Run.scanned tally canary (some c)) =
      (scan_from cfg node t.checkpoint ≡ c + 1)
      × IsCovered t groups c
      × (tally.credited ≡ 0 → run_scan_canary node agents t.store ≢ Canary.failed)

  abbrev pub IsKept : State → List Group → State × Run → Type 0
  IsKept s groups r = Credits s.store r.0.store × IsLeft s groups r.0 r.1

  set_checkpoint-IsKept :
      (tally : Tally) (canary : Canary) (o : Option ℕ) (s : State) (groups : List Group)
      → Credits s.store tally.store
      → ((c : ℕ)
          → o ≡ some c
          → (g : Group) → g ∈ groups
          → g.transfer.block_number ≤ c
          → is_credited tally.store g.transfer.tx_hash g.did_hash g.transfer.from none ≡ true)
      → ((c : ℕ)
          → o ≡ some c
          → tally.credited ≡ 0
          → run_scan_canary node agents tally.store ≢ Canary.failed)
      → IsKept s groups (set_checkpoint cfg node tally canary o s)
  unfolding set_checkpoint
  set_checkpoint-IsKept tally canary none s groups r covers checked = (r, refl)
  set_checkpoint-IsKept tally canary (some c) s groups r covers checked =
      elim (Bool-cases (active cfg.chains)) [
        | inr off ↦ rw (off, set_checkpoint) (r, (refl, covers c refl, checked c refl))
        | inl on ↦ elim (Option-cases (node.block_time c)) [
          | inl unread ↦ rw (on, unread, set_checkpoint) (r, refl)
          | inr (ts, read) ↦
              rw (on, read, set_checkpoint) (r, (refl, covers c refl, checked c refl))
        ]
      ]

  credit_plan-IsKept :
      (from to : ℕ) (groups : List Group) (times : Option (List (ℕ × ℕ))) (s : State)
      → IsKept s groups (credit_plan cfg node agents from to groups times s)
  unfolding credit_plan
  credit_plan-IsKept from to groups none s = (none_yet, refl)
  credit_plan-IsKept from to groups (some times) s =
      let first : Tally = record { store = s.store; credited = 0; refused = 0; unresolved = [] } in
      let tally : Tally = credit_groups times groups first in
      let canary : Canary =
        if tally.credited == 0 then run_scan_canary node agents tally.store else Canary.not_run in
      set_checkpoint-IsKept tally canary (checkpoint_after tally.unresolved from to canary) s groups
        (credit_groups-Credits times groups s.store first none_yet)
        (λ c found g at le. elim (credit_groups-IsSettled times groups g first (inl at)) [
          | inl put_off ↦ absurd (
              omega (
                arith,
                le,
                checkpoint_after-below tally.unresolved from to c canary g.transfer.block_number
                    found put_off,
              ))
          | inr credited ↦ credited
        ])
        (λ c found quiet failed.
          absurd (
            ground (arith, found, quiet, failed, checkpoint_after_failed tally.unresolved from to)))

  plan_range-IsKept :
      (from to : ℕ) (answer : Answer (Option Transfer)) (s : State)
      → IsKept s (planned s answer) (plan_range cfg node agents from to answer s)
  unfolding plan_range planned
  plan_range-IsKept from to Answer.too_big s = (none_yet, refl)
  plan_range-IsKept from to Answer.read_failed s = (none_yet, refl)
  plan_range-IsKept from to (Answer.logs transfers) s =
      credit_plan-IsKept from to (planned s (Answer.logs transfers))
        (read_times node (map (λ g. g.transfer.block_number) (planned s (Answer.logs transfers)))) s

  time_checkpoint-IsKept :
      (s : State) (groups : List Group) (k : Option ScanState)
      → s.checkpoint ≡ k
      → IsKept s groups (time_checkpoint cfg node k s)
  unfolding time_checkpoint
  time_checkpoint-IsKept s groups none at = (none_yet, (refl, refl))
  time_checkpoint-IsKept s groups (some k) at = elim (Option-cases k.last_block_ts) [
    | inr (t, timed) ↦ rw (timed, time_checkpoint) (none_yet, (refl, refl))
    | inl untimed ↦ elim (Bool-cases (active cfg.chains)) [
      | inr off ↦ rw (untimed, off, time_checkpoint) (none_yet, (refl, refl))
      | inl on ↦ elim (Option-cases (node.block_time k.last_block)) [
        | inl unread ↦ rw (untimed, on, unread, time_checkpoint) (none_yet, refl)
        | inr (o, read) ↦ elim (Option-cases o) [
          | inl missing ↦ rw (untimed, on, read, missing, time_checkpoint) (none_yet, (refl, refl))
          | inr (t, found) ↦
              rw (untimed, on, read, found, time_checkpoint) (none_yet, (refl, rw at refl))
        ]
      ]
    ]
  ]

  -- The payments that a run plans to credit, where the node tells its head.
  pub in_range : State → Option ℕ → List Group
  unfolding planned
  in_range s none = []
  in_range s (some head) = planned s (
      scan_range node (addresses cfg node (by_address agents [])) (scan_from cfg node s.checkpoint)
        (safe_head head cfg.confirmations) cfg.chunk_size)

  scan_to-IsKept :
      (s : State) (head : Option ℕ) → IsKept s (in_range s head) (scan_to cfg node agents s head)
  unfolding scan_to in_range
  scan_to-IsKept s none = (none_yet, refl)
  scan_to-IsKept s (some head) =
      elim (Bool-cases (ltb (safe_head head cfg.confirmations) (scan_from cfg node s.checkpoint))) [
        | inl past ↦ rw past (time_checkpoint-IsKept s (in_range s (some head)) s.checkpoint refl)
        | inr due ↦ rw due (
            plan_range-IsKept (scan_from cfg node s.checkpoint) (safe_head head cfg.confirmations)
              (scan_range node (addresses cfg node (by_address agents []))
                (scan_from cfg node s.checkpoint) (safe_head head cfg.confirmations) cfg.chunk_size)
              s)
      ]

  pub run_payment_scan-IsKept :
      (s : State) → IsKept s (in_range s node.head) (run_payment_scan cfg node agents s)
  unfolding run_payment_scan
  run_payment_scan-IsKept s = elim (Bool-cases (cfg.enabled && cfg.has_asset)) [
    | inr off ↦ rw (off, run_payment_scan) (none_yet, refl)
    | inl on ↦ rw (on, run_payment_scan) (scan_to-IsKept s node.head)
  ]
