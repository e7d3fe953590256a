-- ===== src/PaymentChains/Memo.antt =====
-- What `eventsAt` remembers is what it would compute.
use sigvara.PaymentChains.{
  Chain, events_at, is_from_chain, is_scored, size_at, Event, sort_events, compute_events_at,
  events_at_with, insert_event, Array, Remembered, recall,
}
use sigvara.Prelude.{
  Bool, List, [], arith, keep, length, refl, true, ℕ, ◌∷◌, ◌≡◌, ◌≤◌, ==_iff, All, Bool-cases,
  Option-cases, ap, inl, inr, leb, leb-false→lt, leb→le, length-append, map, some, sym, ◌<◌, ◌==◌,
  ◌∙◌, suc,
}

module _ {ℓ} {A : Type ℓ} (p q : A → Bool) where
  abbrev Implies : Type ℓ
  Implies = (x : A) → p x ≡ true → q x ≡ true

  length-keep_mono : (xs : List A) → Implies → length (keep p xs) ≤ length (keep q xs)
  length-keep_mono [] imp = omega arith
  length-keep_mono (x ∷ xs) imp = ground (arith, length-keep_mono xs imp, imp x)

  -- Two tests of which one implies the other keep the same where they keep as many.
  keep_same :
      (xs : List A) → Implies → length (keep p xs) ≡ length (keep q xs) → keep p xs ≡ keep q xs
  keep_same [] imp same = refl
  keep_same (x ∷ xs) imp same = ground (arith, length-keep_mono xs imp, keep_same xs imp, imp x)

is_scored_mono :
    (chains : List Chain) (t u : ℕ)
    → t ≤ u
    → (e : Event) → is_scored t chains e ≡ true
    → is_scored u chains e ≡ true
unfolding is_scored
is_scored_mono chains t u le e h = ground arith

is_from_chain_mono :
    (chains : List Chain) (t u : ℕ)
    → t ≤ u
    → (e : Event) → is_from_chain t chains e ≡ true
    → is_from_chain u chains e ≡ true
unfolding is_from_chain
is_from_chain_mono chains t u le e h = ground arith

-- `eventsAt` remembers its answer for a list and gives it again for any later time that counts as
-- many events: it is the answer that would be computed for that time.
pub events_at_remembered :
    (events : List Event) (chains : List Chain) (t u : ℕ)
    → t ≤ u
    → size_at events t chains ≡ size_at events u chains
    → events_at events t chains ≡ events_at events u chains
unfolding events_at size_at
events_at_remembered events chains t u le same =
    let scored = is_scored_mono chains t u le in
    let from_chain = is_from_chain_mono chains t u le in
    let less = length-keep_mono (is_scored t chains) (is_scored u chains) events scored in
    let less' =
      length-keep_mono (is_from_chain t chains) (is_from_chain u chains) events from_chain in
    let one =
      keep_same (is_scored t chains) (is_scored u chains) events scored
        (omega (arith, less, less', same)) in
    let two =
      keep_same (is_from_chain t chains) (is_from_chain u chains) events from_chain
        (omega (arith, less, less', same)) in
    rw (one, two) refl

length-insert_event : (x : Event) (es : List Event) → length (insert_event x es) ≡ suc (length es)
unfolding insert_event
length-insert_event x [] = refl
length-insert_event x (y ∷ ys) = ground (arith, length-insert_event x ys)

length-sort_events : (es : List Event) → length (sort_events es) ≡ length es
unfolding sort_events
length-sort_events [] = refl
length-sort_events (x ∷ xs) =
    omega (arith, length-insert_event x (sort_events xs), length-sort_events xs)

length-events_at :
    (events : List Event) (t : ℕ) (chains : List Chain)
    → length (events_at events t chains) ≡ size_at events t chains
unfolding events_at size_at
length-events_at events t chains =
    let one = keep (is_scored t chains) events in
    let two = keep (is_from_chain t chains) events in
    omega (
      arith,
      length-append (sort_events one) (sort_events two),
      length-sort_events one,
      length-sort_events two,
    )

-- An answer of the right size is the answer, at whatever time it was computed.
events_at_same_size :
    (events : List Event) (chains : List Chain) (t u : ℕ)
    → length (events_at events t chains) ≡ size_at events u chains
    → events_at events t chains ≡ events_at events u chains
events_at_same_size events chains t u h =
    let same : size_at events t chains ≡ size_at events u chains =
      sym (length-events_at events t chains) ∙ h in
    elim (Bool-cases (leb t u)) [
      | inl le ↦ events_at_remembered events chains t u (leb→le t u le) same
      | inr gt ↦
          let lt : u < t = leb-false→lt t u gt in
          sym (events_at_remembered events chains u t (omega arith) (sym same))
    ]

module _ (chains : List Chain) where
  -- A run of calls, each with what the calls before it left remembered.
  pub answers : List (Array × ℕ) → Remembered → List (List Event)
  answers [] memo = []
  answers ((a, u) ∷ calls) memo =
      let (answer, memo') = events_at_with a u chains memo in answer ∷ answers calls memo'

module _ (content : ℕ → List Event) (chains : List Chain) where
  -- A frozen array keeps its content.
  abbrev pub IsFixed : Array → Type 0
  IsFixed a = a.frozen ≡ true → a.events ≡ content a.id

  -- Each answer remembered was right at some time.
  abbrev IsMemo : Remembered → Type 0
  IsMemo memo =
      (id : ℕ) (answer : List Event)
      → recall id memo ≡ some answer
      → (t : ℕ) × (answer ≡ events_at (content id) t chains)

  compute_events_at-right :
      (a : Array) (u : ℕ) (memo : Remembered)
      → IsFixed a
      → IsMemo memo
      → ((compute_events_at a u chains memo).0 ≡ events_at a.events u chains)
        × IsMemo (compute_events_at a u chains memo).1
  unfolding compute_events_at recall
  compute_events_at-right a u memo fixed m = elim (Bool-cases a.frozen) [
    | inr loose ↦ rw loose (refl, m)
    | inl frozen ↦ rw frozen (
      refl,
      λ id answer h. elim (Bool-cases (a.id == id)) [
        | inl here ↦
            let same : a.id ≡ id = (==_iff a.id id).0 here in
            (
              u,
              sym (ground (arith, h, here))
                  ∙ ap (λ es. events_at es u chains) (fixed frozen ∙ ap content same),
            )
        | inr other ↦ m id answer (ground (arith, h, other))
      ],
    )
  ]

  events_at_with-right :
      (a : Array) (u : ℕ) (memo : Remembered)
      → IsFixed a
      → IsMemo memo
      → ((events_at_with a u chains memo).0 ≡ events_at a.events u chains)
        × IsMemo (events_at_with a u chains memo).1
  unfolding events_at_with
  events_at_with-right a u memo fixed m =
      let done : List Event × Remembered = compute_events_at a u chains memo in
      let computed = compute_events_at-right a u memo fixed m in
      elim (Bool-cases a.frozen) [
        | inr loose ↦
            let eq : events_at_with a u chains memo ≡ done = ground (arith, loose) in rw eq computed
        | inl frozen ↦ elim (Option-cases (recall a.id memo)) [
          | inl nothing ↦
              let eq : events_at_with a u chains memo ≡ done = ground (arith, frozen, nothing) in
              rw eq computed
          | inr (answer, hit) ↦ elim (Bool-cases (length answer == size_at a.events u chains)) [
            | inr other ↦
                let eq : events_at_with a u chains memo ≡ done =
                  ground (arith, frozen, hit, other) in
                rw eq computed
            | inl fits ↦
                let (t, right) = m a.id answer hit in
                let was : answer ≡ events_at a.events t chains =
                  right ∙ ap (λ es. events_at es t chains) (sym (fixed frozen)) in
                let size : length (events_at a.events t chains) ≡ size_at a.events u chains =
                  ap length (sym was)
                  ∙ (==_iff (length answer) (size_at a.events u chains)).0 fits in
                let eq : events_at_with a u chains memo ≡ (answer, memo) =
                  ground (arith, frozen, hit, fits) in
                rw eq (was ∙ events_at_same_size a.events chains t u size, m)
          ]
        ]
      ]

  answers-right :
      (calls : List (Array × ℕ)) (memo : Remembered)
      → All (λ c. IsFixed c.0) calls
      → IsMemo memo
      → answers chains calls memo ≡ map (λ c. events_at c.0.events c.1 chains) calls
  unfolding answers
  answers-right [] memo fixed m = refl
  answers-right ((a, u) ∷ calls) memo fixed m =
      let (right, m') = events_at_with-right a u memo fixed.0 m in
      rw right (
        ap (λ t. events_at a.events u chains ∷ t)
          (answers-right calls (events_at_with a u chains memo).1 fixed.1 m'))

  -- Remembering is transparent: over any run of calls, for any arrays and any times in any order,
  -- each call of `eventsAt` answers what is computed without remembering, as long as a frozen array
  -- keeps its content.
  pub answers-eq-map :
      (calls : List (Array × ℕ))
      → All (λ c. IsFixed c.0) calls
      → answers chains calls [] ≡ map (λ c. events_at c.0.events c.1 chains) calls
  unfolding recall
  answers-eq-map calls fixed =
      answers-right calls [] fixed (λ id answer h. absurd (ground (arith, h)))
