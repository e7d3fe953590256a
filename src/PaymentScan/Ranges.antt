-- ===== src/PaymentScan/Ranges.antt =====
-- The spans that a scan reads cover its range.
use sigvara.PaymentScan.{block_ranges}
use sigvara.Prelude.Spans.{times_in, times_in-spans}
use sigvara.Prelude.{arith, if◌then◌else◌, leb, ℕ, ◌&&◌, ◌+◌, ◌-◌, ◌<◌, ◌≡◌}

-- Every block of the range is read in one span, and no other block is read.
pub times_in-block_ranges :
    (from_block to_block chunk_size b : ℕ)
    → 0 < chunk_size
    → times_in b (block_ranges from_block to_block chunk_size)
      ≡ (if leb from_block b && leb b to_block then 1 else 0)
unfolding block_ranges
times_in-block_ranges from_block to_block chunk_size b pos =
    times_in-spans (to_block + 1 - from_block) from_block to_block chunk_size b pos (omega arith)
