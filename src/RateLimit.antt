-- ===== src/RateLimit.antt =====
-- oracle/http-helpers.js: the fixed-window limit on the requests of a key, and its sweep.
pub mod Windows
mod Tests
use sigvara.Prelude.{
  ℕ, Bool, List, [], false, if◌then◌else◌, leb, ltb, none, not, some, ◌&&◌, ◌+◌, ◌-◌, ◌∷◌,
}
use sigvara.Prelude.Text.{Text, text_eq}
use sigvara.Prelude.Dict.{lookup, insert}

abbrev pub rate_window_ms : ℕ
rate_window_ms = 60_000

pub record Bucket : Type 0 where
  pub count : ℕ
  pub reset : ℕ

-- `_rateBuckets` and `_lastSweep`
pub record Buckets : Type 0 where
  pub buckets : List (Text × Bucket)
  pub last_sweep : ℕ

pub drop_closed : ℕ → List (Text × Bucket) → List (Text × Bucket)
drop_closed now [] = []
drop_closed now ((k, b) ∷ m) =
    if leb b.reset now then drop_closed now m else (k, b) ∷ drop_closed now m

-- `sweepRateBuckets`
pub sweep_rate_buckets : ℕ → Buckets → Buckets
unfolding drop_closed
sweep_rate_buckets now s =
    if ltb (now - s.last_sweep) rate_window_ms
    then s
    else record { buckets = drop_closed now s.buckets; last_sweep = now }

-- The limit itself, on swept buckets.
pub count_request : Text → ℕ → ℕ → ℕ → Buckets → Bool × Buckets
unfolding lookup insert
count_request key now top window_ms s =
    let opened : Bool × Buckets = (
      false,
      record s { buckets = insert key (record { count = 1; reset = now + window_ms }) s.buckets },
    ) in
    elim (lookup key s.buckets) [
      | none ↦ opened
      | some b ↦ if leb b.reset now then opened else (
        ltb top (b.count + 1),
        record s { buckets = insert key (record b { count = b.count + 1 }) s.buckets },
      )
    ]

-- `rateLimited`
pub rate_limited : Text → ℕ → ℕ → ℕ → Buckets → Bool × Buckets
unfolding sweep_rate_buckets count_request
rate_limited key now top window_ms s =
    count_request key now top window_ms (sweep_rate_buckets now s)

-- How many of a run of requests, each of a key at a time, get through for one key.
pub let_through : Text → ℕ → ℕ → List (Text × ℕ) → Buckets → ℕ
unfolding rate_limited text_eq
let_through key top window_ms [] s = 0
let_through key top window_ms ((k, now) ∷ requests) s =
    let (limited, after) = rate_limited k now top window_ms s in
    (if text_eq k key && not limited then 1 else 0) + let_through key top window_ms requests after
