-- ===== src/Keeper/Scans.antt =====
-- The keeper's scan misses no slash.
use sigvara.Keeper.{Config, State, open_all, scan, lookup, insert}
use sigvara.Prelude.Dict.{lookup-insert}
use sigvara.Prelude.{
  Bool, Bool-cases, List, [], arith, false, inl, inr, leb, le→leb, max, min, none, some, suc, zero,
  ℕ, ◌+◌, ◌-◌, ◌<◌, ◌∈◌, ◌∷◌, ◌≡◌, ◌≢◌, ◌≤◌,
}
use sigvara.Prelude.Text.{Text, lower, text_eq_self}
use native.Mathlib.Decide.{dec_le}

open_all-keeps :
    (k : Text) (dids : List Text) (watch : List (Text × Bool))
    → lookup k watch ≢ none
    → lookup k (open_all dids watch) ≢ none
unfolding open_all
open_all-keeps k [] watch h = h
open_all-keeps k (did ∷ dids) watch h =
    open_all-keeps k dids
      (elim (lookup (lower did) watch) [ some b ↦ watch | none ↦ insert (lower did) false watch ])
      (λ e. ground (arith, lookup-insert (lower did) k false watch))

open_all-adds :
    (did : Text) (dids : List Text) (watch : List (Text × Bool))
    → did ∈ dids
    → lookup (lower did) (open_all dids watch) ≢ none
unfolding open_all
open_all-adds did [] watch x = elim x [ ]
open_all-adds did (d ∷ dids) watch (inl same) = rw same (
    open_all-keeps (lower d) dids
      (elim (lookup (lower d) watch) [ some b ↦ watch | none ↦ insert (lower d) false watch ])
      (λ e. ground (arith, lookup-insert (lower d) (lower d) false watch, text_eq_self (lower d))))
open_all-adds did (d ∷ dids) watch (inr later) =
    open_all-adds did dids
      (elim (lookup (lower d) watch) [ some b ↦ watch | none ↦ insert (lower d) false watch ]) later

scan-keeps :
    (fuel : ℕ) (initiated : ℕ → ℕ → List Text) (cfg : Config) (safe start : ℕ) (k : Text)
    (s : State)
    → lookup k s.watch ≢ none
    → lookup k (scan fuel initiated cfg safe start s).watch ≢ none
unfolding scan
scan-keeps zero initiated cfg safe start k s h = h
scan-keeps (suc fuel) initiated cfg safe start k s h = elim (Bool-cases (leb start safe)) [
  | inr done ↦ rw done h
  | inl more ↦
      let end : ℕ = min (start + cfg.chunk_size - 1) safe in
      rw more (
        scan-keeps fuel initiated cfg safe (start + cfg.chunk_size) k
          (record s { scan_block = end + 1; watch = open_all (initiated start end) s.watch })
          (open_all-keeps k (initiated start end) s.watch h))
]

-- The chain's answers are complete: a slash of a block is in the answer for every span around it.
unfoldable pub IsComplete : (ℕ → ℕ → List Text) → (ℕ → Text → Type 0) → Type 0
IsComplete initiated slashed_in =
    (a b n : ℕ) (did : Text) → slashed_in n did → a ≤ n → n ≤ b → did ∈ initiated a b

-- With chunks of a block or more and a step for each block, an agent slashed in any block from the
-- start up to the safe head is on watch after the scan, under its lower-case hash, when the chain
-- answers completely.
pub scan_finds :
    (fuel : ℕ) (initiated : ℕ → ℕ → List Text) (slashed_in : ℕ → Text → Type 0) (cfg : Config)
    (safe start n : ℕ) (did : Text) (s : State)
    → IsComplete initiated slashed_in
    → 0 < cfg.chunk_size
    → safe + 1 - start ≤ fuel
    → slashed_in n did
    → start ≤ n
    → n ≤ safe
    → lookup (lower did) (scan fuel initiated cfg safe start s).watch ≢ none
unfolding scan
scan_finds zero initiated slashed_in cfg safe start n did s complete pos enough slash low high =
    ground arith
scan_finds (suc fuel) initiated slashed_in cfg safe start n did s complete pos enough slash low
      high =
    let end : ℕ = min (start + cfg.chunk_size - 1) safe in
    let t : State = record s {
      scan_block = end + 1;
      watch = open_all (initiated start end) s.watch;
    } in
    rw (le→leb start safe (omega arith)) (elim (dec_le n end) [
      | yes here ↦ scan-keeps fuel initiated cfg safe (start + cfg.chunk_size) (lower did) t (
          open_all-adds did (initiated start end) s.watch
            (unfold IsComplete in complete start end n did slash low here))
      | no later ↦
          scan_finds fuel initiated slashed_in cfg safe (start + cfg.chunk_size) n did t complete
            pos (omega arith) slash (ground arith) high
    ])

-- The scan ends past the safe head, and never moves back.
pub scan-scan_block :
    (fuel : ℕ) (initiated : ℕ → ℕ → List Text) (cfg : Config) (safe start : ℕ) (s : State)
    → 0 < cfg.chunk_size
    → safe + 1 - start ≤ fuel
    → s.scan_block ≡ min start (max (safe + 1) s.scan_block)
    → (scan fuel initiated cfg safe start s).scan_block ≡ max s.scan_block (safe + 1)
unfolding scan
scan-scan_block zero initiated cfg safe start s pos enough at = ground arith
scan-scan_block (suc fuel) initiated cfg safe start s pos enough at =
    let end : ℕ = min (start + cfg.chunk_size - 1) safe in
    let t : State = record s {
      scan_block = end + 1;
      watch = open_all (initiated start end) s.watch;
    } in
    ground (arith, scan-scan_block fuel initiated cfg safe (start + cfg.chunk_size) t)
