-- ===== src/EventIndex/Tests.antt =====
-- Three logs, queried past a cursor.
use sigvara.Prelude.Text.{text_eq}
use sigvara.Prelude.Dict.{has}
use sigvara.Prelude.Search.{first_passing}
use sigvara.EventIndex.{is_before, Log, Query, events_body, is_match, is_past, select_logs}
use sigvara.EventIndex.Order.{IsSorted, select_logs-eq-keep}
use sigvara.Prelude.{List, [], arith, keep, none, refl, some, ℕ, ◌&&◌, ◌∷◌, ◌≡◌}

abbrev log_at : ℕ → ℕ → Log
log_at block index = record {
  address = b'a' ∷ [];
  topics = (b't' ∷ []) ∷ [];
  block = block;
  index = index;
  tx_hash = b'x' ∷ [];
}

abbrev stored : List Log
stored = log_at 5 0 ∷ log_at 5 3 ∷ log_at 9 1 ∷ []

abbrev query : Query
query = record {
  addresses = none;
  topic0 = some ((b't' ∷ []) ∷ []);
  topic1 = none;
  from_block = some 5;
  limit = 1;
  after = some (5, 0);
}

select_logs_runs : select_logs stored query ≡ log_at 5 3 ∷ log_at 9 1 ∷ []
unfolding select_logs first_passing has text_eq
select_logs_runs = refl

events_body_runs : events_body (λ l. 10) stored query 1_000 ≡ (log_at 5 3 ∷ [], some (5, 3))
unfolding events_body first_passing has text_eq
events_body_runs = refl

stored-IsSorted : IsSorted stored
unfolding IsSorted is_before
stored-IsSorted = ground arith

select_logs-eq-keep_example :
    select_logs stored query ≡ keep (λ l. is_match query l && is_past query l) stored
select_logs-eq-keep_example = select_logs-eq-keep stored query stored-IsSorted
