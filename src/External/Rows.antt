-- ===== src/External/Rows.antt =====
-- How many rows of feedback are read of an agent, and of whom.
use sigvara.External.{
  Answer, Registry, Row, clients_read, client_rows, all_rows, indices, newest_indices,
  read_feedback_rows, rows_of_posted, max_clients_read, max_rows_per_client, payers_named, named,
  read, refused, unread,
}
use sigvara.Prelude.Text.{Text, lower, text_eq, text_eq_sound}
use sigvara.Prelude.{
  List, Option-cases, [], arith, inl, inr, length, max, refl, some, suc, zero, ℕ, ◌*◌, ◌+◌, ◌-◌,
  ◌∷◌, ◌≡◌, ◌≤◌, ◌⊎◌, Option, length-append, subst, ◌++◌, Bool-cases, ap, length-take, none, sym,
  ◌∈◌, ◌∙◌,
}

pub Answer-cases :
    {A : Type 0} (r : Answer A) → ((a : A) × (r ≡ read a)) ⊎ ((r ≡ refused) ⊎ (r ≡ unread))
Answer-cases (read a) = inl (a, refl)
Answer-cases refused = inr (inl refl)
Answer-cases unread = inr (inr refl)

length-indices : (i count : ℕ) → length (indices i count) ≡ count
unfolding indices
length-indices i zero = refl
length-indices i (suc count) = omega (arith, length-indices (suc i) count)

length-newest_indices : (last : ℕ) → length (newest_indices last) ≤ max_rows_per_client
unfolding newest_indices
length-newest_indices last =
    let first = max 1 (last + 1 - max_rows_per_client) in
    omega (arith, length-indices first (last + 1 - first))

length-clients_read :
    (posted : List Text) (payers : Option (List Text))
    → length (clients_read posted payers) ≤ max_clients_read
unfolding clients_read
length-clients_read posted none = omega (arith, length-take max_clients_read posted)
length-clients_read posted (some payers) =
    omega (arith, length-take max_clients_read (payers_named posted payers))

-- A name that is found is of a client posted, and is the payer's in lower case.
pub named-IsPosted :
    (payer : Text) (posted : List Text) (c : Text)
    → named payer posted ≡ some c
    → (c ∈ posted) × (lower c ≡ payer)
unfolding named
named-IsPosted payer [] c h = absurd (ground (arith, h))
named-IsPosted payer (d ∷ posted) c h = elim (Option-cases (named payer posted)) [
  | inr (found, later) ↦
      let same : found ≡ c = ground (arith, h, later) in
      let before = named-IsPosted payer posted c (later ∙ ap some same) in (inr before.0, before.1)
  | inl absent ↦ elim (Bool-cases (text_eq (lower d) payer)) [
    | inr other ↦ absurd (ground (arith, h, absent, other))
    | inl equal ↦
        let same : d ≡ c = ground (arith, h, absent, equal) in
        (inl (sym same), subst (λ t. lower t ≡ payer) same (text_eq_sound (lower d) payer equal))
  ]
]

module _ (registry : Registry) where
  length-client_rows :
      (c : Text) (is : List ℕ) (rows : List Row)
      → client_rows registry c is ≡ some rows
      → length rows ≤ length is
  unfolding client_rows
  length-client_rows c [] rows h = ground (arith, h)
  length-client_rows c (i ∷ is) rows h = elim (Option-cases (client_rows registry c is)) [
    | inl thrown ↦ elim (Answer-cases (registry.read_feedback c i)) [
      | inl (fb, answered) ↦ ground (arith, h, thrown, answered)
      | inr (inl denied) ↦ ground (arith, h, thrown, denied)
      | inr (inr down) ↦ ground (arith, h, thrown, down)
    ]
    | inr (rest, later) ↦
        let fewer = length-client_rows c is rest later in
        elim (Answer-cases (registry.read_feedback c i)) [
          | inl (fb, answered) ↦ ground (arith, h, later, answered, fewer)
          | inr (inl denied) ↦ ground (arith, h, later, denied, fewer)
          | inr (inr down) ↦ ground (arith, h, later, down, fewer)
        ]
  ]

  length-all_rows :
      (clients : List Text) (rows : List Row)
      → all_rows registry clients ≡ some rows
      → length rows ≤ max_rows_per_client * length clients
  unfolding all_rows
  length-all_rows [] rows h = ground (arith, h)
  length-all_rows (c ∷ clients) rows h = elim (Answer-cases (registry.get_last_index c)) [
    | inl (last, answered) ↦ elim (Option-cases (client_rows registry c (newest_indices last))) [
      | inl thrown ↦ absurd (ground (arith, h, answered, thrown))
      | inr (own, got) ↦ elim (Option-cases (all_rows registry clients)) [
        | inl down ↦ absurd (ground (arith, h, answered, got, down))
        | inr (more, later) ↦
            let few = length-client_rows c (newest_indices last) own got in
            let fewer = length-all_rows clients more later in
            let joined : own ++ more ≡ rows = ground (arith, h, answered, got, later) in
            let total : length rows ≡ length own + length more =
              subst (λ r. length r ≡ length own + length more) joined (length-append own more) in
            omega (arith, few, fewer, total, length-newest_indices last)
      ]
    ]
    | inr (inl denied) ↦
        let same : all_rows registry clients ≡ some rows = ground (arith, h, denied) in
        omega (arith, length-all_rows clients rows same)
    | inr (inr down) ↦ absurd (ground (arith, h, down))
  ]

  length-rows_of_posted :
      (payers : Option (List Text)) (rows : List Row)
      → rows_of_posted registry payers ≡ read rows
      → length rows ≤ max_rows_per_client * max_clients_read
  unfolding rows_of_posted
  length-rows_of_posted payers rows h = elim (Answer-cases registry.get_clients) [
    | inl (posted, answered) ↦
        let clients = clients_read posted payers in
        elim (Option-cases (all_rows registry clients)) [
          | inl thrown ↦ absurd (ground (arith, h, answered, thrown))
          | inr (own, got) ↦
              let same : own ≡ rows = ground (arith, h, answered, got) in
              let few : length own ≤ max_rows_per_client * length clients =
                length-all_rows clients own got in
              let total : length own ≡ length rows = ap length same in
              omega (arith, few, total, length-clients_read posted payers)
        ]
    | inr (inl denied) ↦ absurd (ground (arith, h, denied))
    | inr (inr down) ↦ absurd (ground (arith, h, down))
  ]

  -- However many clients posted and however much, no more rows are read than the two limits allow,
  -- whoever may be a reviewer.
  pub length-read_feedback_rows :
      (payers : Option (List Text)) (rows : List Row)
      → read_feedback_rows registry payers ≡ read rows
      → length rows ≤ max_rows_per_client * max_clients_read
  unfolding read_feedback_rows
  length-read_feedback_rows none rows h = length-rows_of_posted none rows h
  length-read_feedback_rows (some []) rows h = ground (arith, h)
  length-read_feedback_rows (some (p ∷ payers)) rows h =
      length-rows_of_posted (some (p ∷ payers)) rows h
