-- ===== src/External/Clients.antt =====
-- Whose feedback is read of an agent.
use sigvara.External.{
  Registry, Row, clients_read, client_rows, all_rows, newest_indices, read_feedback_rows,
  rows_of_posted, max_clients_read, max_rows_per_client, payers_named, named, read, row_of,
}
use sigvara.External.Rows.{Answer-cases, named-IsPosted, length-read_feedback_rows}
use sigvara.Prelude.Text.{Text, lower}
use sigvara.Prelude.{
  All, Bool-cases, List, Option-cases, [], arith, inl, inr, length, refl, some, subst, suc, sym,
  take, zero, ℕ, ◌*◌, ◌++◌, ◌∈◌, ◌∷◌, ◌≡◌, ◌≤◌,
}

All-take {ℓ κ} : {A : Type ℓ} (P : A → Type κ) (n : ℕ) (xs : List A) → All P xs → All P (take n xs)
All-take P zero xs h = tt
All-take P (suc n) [] h = tt
All-take P (suc n) (x ∷ xs) h = (h.0, All-take P n xs h.1)

All-join {ℓ κ} :
    {A : Type ℓ} (P : A → Type κ) (xs ys : List A) → All P xs → All P ys → All P (xs ++ ys)
All-join P [] ys h k = k
All-join P (x ∷ xs) ys h k = (h.0, All-join P xs ys h.1 k)

All-same {ℓ κ} : {A : Type ℓ} (P : A → Type κ) (xs ys : List A) → xs ≡ ys → All P xs → All P ys
All-same P xs ys same h = subst (All P) same h

-- A client posted, and a payer in lower case.
abbrev pub IsPayer : List Text → List Text → Text → Type 0
IsPayer posted payers c = (c ∈ posted) × (lower c ∈ payers)

payers_named-IsPayer :
    (posted all payers : List Text)
    → All (λ p. p ∈ all) payers
    → All (IsPayer posted all) (payers_named posted payers)
unfolding payers_named
payers_named-IsPayer posted all [] h = tt
payers_named-IsPayer posted all (p ∷ payers) h = elim (Option-cases (named p posted)) [
  | inl absent ↦
      All-same (IsPayer posted all) (payers_named posted payers) (payers_named posted (p ∷ payers))
        (ground (arith, absent)) (payers_named-IsPayer posted all payers h.1)
  | inr (c, found) ↦
      let known = named-IsPosted p posted c found in
      All-same (IsPayer posted all) (c ∷ payers_named posted payers)
        (payers_named posted (p ∷ payers)) (ground (arith, found))
        (
          (known.0, subst (λ t. t ∈ all) (sym known.1) h.0),
          payers_named-IsPayer posted all payers h.1,
        )
]

All-∈ : (xs more : List Text) → ((x : Text) → x ∈ xs → x ∈ more) → All (λ x. x ∈ more) xs
All-∈ [] more f = tt
All-∈ (x ∷ xs) more f = (f x (inl refl), All-∈ xs more (λ y at. f y (inr at)))

module _ (registry : Registry) (P : Text → Type 0) where
  client_rows-All :
      (c : Text) (is : List ℕ) (rows : List Row)
      → P c
      → client_rows registry c is ≡ some rows
      → All (λ r. P r.client) rows
  unfolding client_rows row_of
  client_rows-All c [] rows h got = All-same (λ r. P r.client) [] rows (ground (arith, got)) tt
  client_rows-All c (i ∷ is) rows h got = elim (Option-cases (client_rows registry c is)) [
    | inl thrown ↦ elim (Answer-cases (registry.read_feedback c i)) [
      | inl (fb, answered) ↦ absurd (ground (arith, got, thrown, answered))
      | inr (inl denied) ↦ absurd (ground (arith, got, thrown, denied))
      | inr (inr down) ↦ absurd (ground (arith, got, thrown, down))
    ]
    | inr (rest, later) ↦
        let others = client_rows-All c is rest h later in
        elim (Answer-cases (registry.read_feedback c i)) [
          | inl (fb, answered) ↦ elim (Bool-cases fb.is_revoked) [
            | inl revoked ↦
                All-same (λ r. P r.client) rest rows (ground (arith, got, later, answered, revoked))
                  others
            | inr stands ↦
                All-same (λ r. P r.client) (row_of c fb ∷ rest) rows
                  (ground (arith, got, later, answered, stands)) (h, others)
          ]
          | inr (inl denied) ↦
              All-same (λ r. P r.client) rest rows (ground (arith, got, later, denied)) others
          | inr (inr down) ↦ absurd (ground (arith, got, later, down))
        ]
  ]

  all_rows-All :
      (clients : List Text) (rows : List Row)
      → All P clients
      → all_rows registry clients ≡ some rows
      → All (λ r. P r.client) rows
  unfolding all_rows
  all_rows-All [] rows h got = All-same (λ r. P r.client) [] rows (ground (arith, got)) tt
  all_rows-All (c ∷ clients) rows h got = elim (Answer-cases (registry.get_last_index c)) [
    | inl (last, answered) ↦ elim (Option-cases (client_rows registry c (newest_indices last))) [
      | inl thrown ↦ absurd (ground (arith, got, answered, thrown))
      | inr (own, first) ↦ elim (Option-cases (all_rows registry clients)) [
        | inl down ↦ absurd (ground (arith, got, answered, first, down))
        | inr (more, later) ↦
            let joined : own ++ more ≡ rows = ground (arith, got, answered, first, later) in
            All-same (λ r. P r.client) (own ++ more) rows joined
              (All-join (λ r. P r.client) own more
                (client_rows-All c (newest_indices last) own h.0 first)
                (all_rows-All clients more h.1 later))
      ]
    ]
    | inr (inl denied) ↦ all_rows-All clients rows h.1 (ground (arith, got, denied))
    | inr (inr down) ↦ absurd (ground (arith, got, down))
  ]

-- Where the payers are given, each row that is read is of a client who posted and is one of the
-- payers, in any case of its hex digits, and there are no more rows than the two limits allow.
pub read_feedback_rows-IsPayer :
    (registry : Registry) (posted payers : List Text) (rows : List Row)
    → registry.get_clients ≡ read posted
    → read_feedback_rows registry (some payers) ≡ read rows
    → All (λ r. IsPayer posted payers r.client) rows
      × (length rows ≤ max_rows_per_client * max_clients_read)
unfolding read_feedback_rows rows_of_posted clients_read
read_feedback_rows-IsPayer registry posted [] rows answered h = (
  All-same (λ r. IsPayer posted [] r.client) [] rows (ground (arith, h)) tt,
  length-read_feedback_rows registry (some []) rows h,
)
read_feedback_rows-IsPayer registry posted (p ∷ payers) rows answered h =
    let all = p ∷ payers in
    let clients = take max_clients_read (payers_named posted all) in
    elim (Option-cases (all_rows registry clients)) [
      | inl thrown ↦ absurd (ground (arith, h, answered, thrown))
      | inr (own, got) ↦
          let known : All (IsPayer posted all) clients =
            All-take (IsPayer posted all) max_clients_read (payers_named posted all)
              (payers_named-IsPayer posted all all (All-∈ all all (λ x at. at))) in
          (
            All-same (λ r. IsPayer posted all r.client) own rows (ground (arith, h, answered, got))
                (all_rows-All registry (IsPayer posted all) clients own known got),
            length-read_feedback_rows registry (some all) rows h,
          )
    ]
