-- ===== src/RateLimit/Windows.antt =====
-- How many requests of a key get through in one window.
use sigvara.RateLimit.{
  Bucket, Buckets, count_request, drop_closed, let_through, rate_limited, sweep_rate_buckets,
}
use sigvara.Prelude.{
  Bool-cases, List, [], arith, inl, inr, ltb, some, ℕ, ◌+◌, ◌-◌, ◌<◌, ◌∈◌, ◌∷◌, ◌≡◌, ◌≤◌,
  Option-cases, false, refl, ◌∙◌, none,
}
use sigvara.Prelude.Text.{Text, text_eq, text_eq_self, text_eq_sound}
use sigvara.Prelude.Dict.{lookup, lookup-insert}

lookup-drop_closed :
    (key : Text) (b : Bucket) (now : ℕ) (m : List (Text × Bucket))
    → lookup key m ≡ some b
    → now < b.reset
    → lookup key (drop_closed now m) ≡ some b
unfolding lookup drop_closed
lookup-drop_closed key b now [] found lt = found
lookup-drop_closed key b now ((k, c) ∷ m) found lt = elim (Bool-cases (text_eq k key)) [
  | inl same ↦ ground (arith, found)
  | inr other ↦ ground (arith, lookup-drop_closed key b now m)
]

lookup-sweep_rate_buckets :
    (key : Text) (b : Bucket) (now : ℕ) (s : Buckets)
    → lookup key s.buckets ≡ some b
    → now < b.reset
    → lookup key (sweep_rate_buckets now s).buckets ≡ some b
unfolding sweep_rate_buckets
lookup-sweep_rate_buckets key b now s found lt =
    ground (arith, lookup-drop_closed key b now s.buckets found lt)

-- While its window is open, a bucket is counted up by the requests of its key and untouched by the
-- others.
count_request-same :
    (key : Text) (b : Bucket) (now top window_ms : ℕ) (s : Buckets)
    → lookup key s.buckets ≡ some b
    → now < b.reset
    → ((count_request key now top window_ms s).0 ≡ ltb top (b.count + 1))
      × (lookup key (count_request key now top window_ms s).1.buckets
          ≡ some (record b { count = b.count + 1 }))
unfolding count_request
count_request-same key b now top window_ms s found lt =
    let next : Bucket = record b { count = b.count + 1 } in
    let counted = lookup-insert key key next s.buckets in
    rw (count_request, found) (ground arith, ground (arith, counted, text_eq_self key))

lookup-count_request :
    (key k : Text) (now top window_ms : ℕ) (s : Buckets)
    → text_eq k key ≡ false
    → lookup key (count_request k now top window_ms s).1.buckets ≡ lookup key s.buckets
unfolding count_request
lookup-count_request key k now top window_ms s other =
    let first : Bucket = record { count = 1; reset = now + window_ms } in
    let opened = lookup-insert k key first s.buckets in
    elim (Option-cases (lookup k s.buckets)) [
      | inl absent ↦ rw (count_request, absent) (ground (arith, opened))
      | inr (b, found) ↦
          let next : Bucket = record b { count = b.count + 1 } in
          let counted = lookup-insert k key next s.buckets in
          rw (count_request, found) (ground (arith, opened, counted))
    ]

drop_closed-absent :
    (key : Text) (now : ℕ) (m : List (Text × Bucket))
    → lookup key m ≡ none
    → lookup key (drop_closed now m) ≡ none
unfolding lookup drop_closed
drop_closed-absent key now [] h = h
drop_closed-absent key now ((k, c) ∷ m) h = ground (arith, drop_closed-absent key now m)

sweep-absent :
    (key : Text) (now : ℕ) (s : Buckets)
    → lookup key s.buckets ≡ none
    → lookup key (sweep_rate_buckets now s).buckets ≡ none
unfolding sweep_rate_buckets
sweep-absent key now s h = ground (arith, drop_closed-absent key now s.buckets h)

count_request-opens :
    (key : Text) (now top window_ms : ℕ) (s : Buckets)
    → lookup key s.buckets ≡ none
    → lookup key (count_request key now top window_ms s).1.buckets
      ≡ some (record { count = 1; reset = now + window_ms })
unfolding count_request
count_request-opens key now top window_ms s absent =
    let first : Bucket = record { count = 1; reset = now + window_ms } in
    let opened = lookup-insert key key first s.buckets in
    rw (count_request, absent) (ground (arith, opened, text_eq_self key))

let_through-bucket :
    (key : Text) (b : Bucket) (top window_ms : ℕ) (requests : List (Text × ℕ)) (s : Buckets)
    → lookup key s.buckets ≡ some b
    → ((r : Text × ℕ) → r ∈ requests → r.1 < b.reset)
    → let_through key top window_ms requests s ≤ top - b.count
unfolding let_through rate_limited
let_through-bucket key b top window_ms [] s found times = omega arith
let_through-bucket key b top window_ms ((k, now) ∷ requests) s found times =
    let open_at = times (k, now) (inl refl) in
    let swept : Buckets = sweep_rate_buckets now s in
    let here = lookup-sweep_rate_buckets key b now s found open_at in
    elim (Bool-cases (text_eq k key)) [
      | inr other ↦
          let rest =
            let_through-bucket key b top window_ms requests (rate_limited k now top window_ms s).1
              (lookup-count_request key k now top window_ms swept other ∙ here)
              (λ r at. times r (inr at)) in
          rw other (omega (arith, rest))
      | inl same ↦
          let next : Bucket = record b { count = b.count + 1 } in
          let step = count_request-same key b now top window_ms swept here open_at in
          let rest =
            let_through-bucket key next top window_ms requests
              (rate_limited key now top window_ms s).1 step.1 (λ r at. times r (inr at)) in
          rw (text_eq_sound k key same) (ground (arith, step.0, rest, text_eq_self key))
    ]

-- At most so many requests of a key get through in one window: where a request of the key finds no
-- bucket and so opens a window, under a limit of one or more, it and all requests that come before the window is over, of this key and of others in
-- any order, let the key through at most as often as the limit allows.
pub let_through-window :
    (key : Text) (now top window_ms : ℕ) (requests : List (Text × ℕ)) (s : Buckets)
    → lookup key s.buckets ≡ none
    → 0 < top
    → ((r : Text × ℕ) → r ∈ requests → r.1 < now + window_ms)
    → let_through key top window_ms ((key, now) ∷ requests) s ≤ top
unfolding let_through rate_limited
let_through-window key now top window_ms requests s absent pos times =
    let first : Bucket = record { count = 1; reset = now + window_ms } in
    let swept : Buckets = sweep_rate_buckets now s in
    let opened = count_request-opens key now top window_ms swept (sweep-absent key now s absent) in
    let rest =
      let_through-bucket key first top window_ms requests (rate_limited key now top window_ms s).1
        opened times in
    ground (arith, rest, text_eq_self key)
