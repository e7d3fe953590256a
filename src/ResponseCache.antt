-- ===== src/ResponseCache.antt =====
-- oracle/response-cache.js: bodies built once for each revision of their key, least recently used
-- first in the `Map`, and held to a number of bytes.
pub mod Entries
pub mod Answers
mod Tests
use sigvara.Prelude.{ℕ, List, [], if◌then◌else◌, leb, ltb, none, some, ◌+◌, ◌-◌, ◌==◌, ◌∷◌}
use sigvara.Prelude.Text.{Text}
use sigvara.Prelude.Dict.{insert, erase, lookup}

pub record Entry : Type 0 where
  pub revision : ℕ
  pub body : Text
  pub bytes : ℕ

abbrev pub Entries : Type 0
Entries = List (Text × Entry)

-- The variables that `createResponseCache` closes over.
pub record Cache : Type 0 where
  pub entries : Entries
  pub total_bytes : ℕ
  pub hits : ℕ
  pub misses : ℕ
  pub evictions : ℕ

abbrev pub empty_cache : Cache
empty_cache = record { entries = []; total_bytes = 0; hits = 0; misses = 0; evictions = 0 }

-- What the loop of `evictTo` leaves: the entries, their bytes and the evictions counted so far.
pub evict_to : ℕ → ℕ → ℕ → Entries → Entries × ℕ × ℕ
evict_to limit total evictions [] = ([], total, evictions)
evict_to limit total evictions ((k, e) ∷ m) =
    let rest = evict_to limit (total - e.bytes) (evictions + 1) m in
    if leb total limit then ((k, e) ∷ m, total, evictions) else rest

-- `clear`
pub clear : Cache → Cache
clear c = record c { entries = []; total_bytes = 0 }

-- `Buffer.byteLength` is the host's.
module _ (byte_length : Text → ℕ) (max_bytes : ℕ) where
  -- The end of `get` on a miss, once an old entry of the key is gone.
  pub store_built : Text → ℕ → Text → Cache → Text × Cache
  unfolding evict_to insert
  store_built key revision body c =
      let bytes = byte_length body in
      let (entries, total, evictions) =
        evict_to max_bytes (c.total_bytes + bytes) c.evictions
          (insert key (record { revision = revision; body = body; bytes = bytes }) c.entries) in
      if ltb max_bytes bytes
      then (body, c)
      else (body, record c { entries = entries; total_bytes = total; evictions = evictions })

  -- `get`, where `built` is what `build()` returns.
  pub get : Text → ℕ → Text → Cache → Text × Cache
  unfolding store_built insert erase lookup
  get key revision built c = elim (lookup key c.entries) [
    | none ↦ store_built key revision built (record c { misses = c.misses + 1 })
    | some hit ↦
        if hit.revision == revision
        then (
          hit.body,
          record c { entries = insert key hit (erase key c.entries); hits = c.hits + 1 },
        )
        else store_built key revision built (record c {
          misses = c.misses + 1;
          total_bytes = c.total_bytes - hit.bytes;
          entries = erase key c.entries;
        })
  ]

  -- A run of requests, each of a key and a revision, whose bodies `source` builds.
  pub serve : (Text → ℕ → Text) → List (Text × ℕ) → Cache → List Text × Cache
  unfolding get
  serve source [] c = ([], c)
  serve source ((key, revision) ∷ requests) c =
      let (body, after) = get key revision (source key revision) c in
      let (bodies, last) = serve source requests after in (body ∷ bodies, last)
