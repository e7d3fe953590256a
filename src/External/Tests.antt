-- ===== src/External/Tests.antt =====
-- A registry with feedback of a payer, in capitals, and of a stranger.
use sigvara.External.{
  Answer, Feedback, Registry, Row, external_score_for, read_feedback_rows, read, refused, pos,
  max_clients_read, max_rows_per_client,
}
use sigvara.External.Clients.{IsPayer, read_feedback_rows-IsPayer}
use sigvara.Prelude.Text.{lower, text_eq}
use sigvara.Prelude.{
  All, List, [], length, none, refl, some, true, ℕ, ◌*◌, ◌∷◌, ◌≡◌, ◌≤◌, if◌then◌else◌, ◌==◌,
}

-- Eleven rows of each, of which the ninth is revoked and the tenth is missing.
abbrev feedback_at : ℕ → Answer Feedback
feedback_at i =
    if i == 10
    then refused
    else read (record { value = pos i; value_decimals = 2; tag1 = b'U' ∷ []; is_revoked = i == 9 })

abbrev two_clients : Registry
two_clients = record {
  owner_of = read (b'O' ∷ []);
  get_clients = read ((b'B' ∷ []) ∷ (b'A' ∷ []) ∷ []);
  get_last_index = λ c. read 11;
  read_feedback = λ c i. feedback_at i;
}

abbrev row_at : ℕ → Row
row_at i = record { client = b'A' ∷ []; value = pos i; value_decimals = 2; tag = b'u' ∷ [] }

abbrev rows_of_a : List Row
rows_of_a =
    row_at 2 ∷ row_at 3 ∷ row_at 4 ∷ row_at 5 ∷ row_at 6 ∷ row_at 7 ∷ row_at 8 ∷ row_at 11 ∷ []

newest_rows : read_feedback_rows two_clients (some ((b'a' ∷ []) ∷ [])) ≡ read rows_of_a
unfolding read_feedback_rows text_eq lower
newest_rows = refl

not_the_owner : external_score_for two_clients true (b'x' ∷ []) (λ rows. some 25) none ≡ some 0
unfolding external_score_for text_eq lower
not_the_owner = refl

read_feedback_rows-IsPayer_example :
    All (λ r. IsPayer ((b'B' ∷ []) ∷ (b'A' ∷ []) ∷ []) ((b'a' ∷ []) ∷ []) r.client) rows_of_a
    × (length rows_of_a ≤ max_rows_per_client * max_clients_read)
read_feedback_rows-IsPayer_example =
    read_feedback_rows-IsPayer two_clients ((b'B' ∷ []) ∷ (b'A' ∷ []) ∷ []) ((b'a' ∷ []) ∷ [])
      rows_of_a refl newest_rows
