-- ===== src/EventIndex.antt =====
-- oracle/event-index.js: the spans the index is read in, logs in the order of the chain, and the
-- pages in which they are served. A log's block and index are numbers here, texts in the source.
pub mod Order
mod Tests
use sigvara.Prelude.{
  ℕ, Bool, List, Option, [], drop, false, get_elem?, if◌then◌else◌, keep, leb, length, ltb, none,
  some, suc, true, zero, ◌&&◌, ◌++◌, ◌+◌, ◌-◌, ◌==◌, ◌||◌, ◌∷◌,
}
use sigvara.Prelude.Text.{Text, text_eq}
use sigvara.Prelude.Search.{first_passing}
use sigvara.Prelude.Spans.{spans}
use sigvara.Prelude.Dict.{has}

pub record Log : Type 0 where
  pub address : Text
  pub topics : List Text
  pub block : ℕ
  pub index : ℕ
  pub tx_hash : Text

abbrev pub page_rows : ℕ
page_rows = 5_000

-- `planSpans`
pub plan_spans : ℕ → ℕ → ℕ → List (ℕ × ℕ)
unfolding spans
plan_spans from to span = spans (to + 1 - from) from to span

-- `byChainOrder`, as whether a log comes before another.
pub is_before : Log → Log → Bool
is_before a b = ltb a.block b.block || (a.block == b.block && ltb a.index b.index)

-- The query of a request, as `parseQuery` leaves it; `after` is the cursor of the page before.
pub record Query : Type 0 where
  pub addresses : Option (List Text)
  pub topic0 : Option (List Text)
  pub topic1 : Option Text
  pub from_block : Option ℕ
  pub limit : ℕ
  pub after : Option (ℕ × ℕ)

abbrev pub past_block : Option ℕ → Log → Bool
past_block none l = true
past_block (some b) l = leb b l.block

abbrev pub past_cursor : Option (ℕ × ℕ) → Log → Bool
past_cursor none l = true
past_cursor (some (block, index)) l = ltb block l.block || (l.block == block && ltb index l.index)

-- `past` in `firstPosition`
pub is_past : Query → Log → Bool
is_past q l = past_block q.from_block l && past_cursor q.after l

-- `past(logs[mid])`; out of range is never asked.
pub past_at : Query → List Log → ℕ → Bool
unfolding is_past
past_at q logs i = elim (get_elem? logs i) [ none ↦ true | some l ↦ is_past q l ]

-- `firstPosition`
pub first_position : List Log → Query → ℕ
unfolding past_at first_passing
first_position logs q = first_passing (length logs) (past_at q logs) 0 (length logs)

abbrev pub in_set : Option (List Text) → Option Text → Bool
in_set none x = true
in_set (some set) none = false
in_set (some set) (some x) = has x set

abbrev pub is_topic : Option Text → Option Text → Bool
is_topic none x = true
is_topic (some t) none = false
is_topic (some t) (some x) = text_eq x t

-- The test in `matching`
pub is_match : Query → Log → Bool
unfolding has text_eq
is_match q l =
    in_set q.addresses (some l.address)
    && in_set q.topic0 (get_elem? l.topics 0)
    && is_topic q.topic1 (get_elem? l.topics 1)

-- `selectLogs`, all that `matching` yields.
pub select_logs : List Log → Query → List Log
unfolding first_position is_match
select_logs logs q = keep (is_match q) (drop (first_position logs q) logs)

-- The loop of `eventsBody`: the rows of the page, and the row whose cursor is the next one; `size`
-- is a row's length in JSON.
pub fill_page : (Log → ℕ) → ℕ → ℕ → ℕ → ℕ → Option Log → List Log → List Log × Option Log
fill_page size limit max_bytes rows bytes last [] = ([], none)
fill_page size limit max_bytes rows bytes last (l ∷ logs) =
    let (page, next) = fill_page size limit max_bytes (rows + 1) (bytes + size l) (some l) logs in
    if rows == limit || (ltb 0 rows && ltb max_bytes (bytes + size l))
    then ([], last)
    else (l ∷ page, next)

-- `cursorOf`
abbrev pub cursor_of : Option Log → Option (ℕ × ℕ)
cursor_of none = none
cursor_of (some l) = some (l.block, l.index)

-- `eventsBody`: the page and its next cursor.
pub events_body : (Log → ℕ) → List Log → Query → ℕ → List Log × Option (ℕ × ℕ)
unfolding fill_page select_logs
events_body size logs q max_bytes =
    let (page, next) = fill_page size q.limit max_bytes 0 0 none (select_logs logs q) in
    (page, cursor_of next)
