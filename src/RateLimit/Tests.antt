-- ===== src/RateLimit/Tests.antt =====
-- Three requests against a limit of two.
use sigvara.Prelude.Text.{Text}
use sigvara.Prelude.Dict.{lookup}
use sigvara.RateLimit.{Buckets, let_through}
use sigvara.RateLimit.Windows.{let_through-window}
use sigvara.Prelude.{List, [], arith, none, refl, ℕ, ◌+◌, ◌<◌, ◌∈◌, ◌∷◌, ◌≡◌, ◌≤◌}

abbrev caller : Text
caller = b'c' ∷ []

abbrev no_buckets : Buckets
no_buckets = record { buckets = []; last_sweep = 0 }

abbrev more : List (Text × ℕ)
more = (caller, 1_010) ∷ (b'd' ∷ [], 1_020) ∷ (caller, 1_030) ∷ []

let_through_runs : let_through caller 2 100 ((caller, 1_000) ∷ more) no_buckets ≡ 2
unfolding let_through
let_through_runs = refl

more_times : (r : Text × ℕ) → r ∈ more → r.1 < 1_000 + 100
more_times r at = ground arith

no_bucket : lookup caller no_buckets.buckets ≡ none
unfolding lookup
no_bucket = refl

let_through-window_example : let_through caller 2 100 ((caller, 1_000) ∷ more) no_buckets ≤ 2
let_through-window_example =
    let_through-window caller 1_000 2 100 more no_buckets no_bucket (omega arith) more_times
