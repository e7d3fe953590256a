-- ===== src/ResponseCache/Answers.antt =====
-- The response cache answers what building anew would, within its budget of bytes.
use sigvara.ResponseCache.{Cache, Entry, Entries, store_built, get, serve, lookup, erase, insert}
use sigvara.ResponseCache.Entries.{
  IsDistinct, bytes_of, erase-IsDistinct, bytes_of-erase, insert_absent, bytes_of-append,
  append-IsDistinct, All-erase, All-append, All-lookup, All-evict_to, evict_to-IsDistinct,
  evict_to-bytes_of, lookup-erase_self, evict_to_last,
}
use sigvara.Prelude.{
  All, Bool-cases, List, Option-cases, [], arith, inl, inr, ltb, map, none, refl, some, ℕ, ◌++◌,
  ◌+◌, ◌-◌, ◌∷◌, ◌≡◌, ◌≤◌, ==_iff, ap, ◌==◌, ◌∙◌, ltb→lt,
}
use sigvara.Prelude.Text.{Text, text_eq_self}
use sigvara.Prelude.Dict.{lookup-insert}

module _ (byte_length : Text → ℕ) (max_bytes : ℕ) (source : Text → ℕ → Text) where
  -- An entry holds what the source builds for its key and revision.
  abbrev pub IsTrue : Text × Entry → Type 0
  IsTrue x = (x.1.body ≡ source x.0 x.1.revision) × (x.1.bytes ≡ byte_length x.1.body)

  pub record IsSound (c : Cache) : Type 0 where
    pub distinct : IsDistinct c.entries
    pub counted : c.total_bytes ≡ bytes_of c.entries
    pub answers : All IsTrue c.entries

  -- Keys once each, bytes counted and within the budget, bodies as the source builds them.
  pub record IsValid (c : Cache) : Type 0 where
    pub sound : IsSound c
    pub bounded : c.total_bytes ≤ max_bytes

  abbrev built_entry : Text → ℕ → Entry
  built_entry key revision = record {
    revision = revision;
    body = source key revision;
    bytes = byte_length (source key revision);
  }

  store_built-IsValid :
      (key : Text) (revision : ℕ) (c : Cache)
      → lookup key c.entries ≡ none
      → IsValid c
      → IsValid (store_built byte_length max_bytes key revision (source key revision) c).1
  unfolding store_built
  store_built-IsValid key revision c absent v =
      elim (Bool-cases (ltb max_bytes (byte_length (source key revision)))) [
        | inl large ↦ rw large v
        | inr fits ↦
            let e = built_entry key revision in
            let all : Entries = c.entries ++ (key, e) ∷ [] in
            let total : ℕ = c.total_bytes + byte_length (source key revision) in
            let counts =
              evict_to-bytes_of max_bytes total c.evictions all
                (ground (arith, bytes_of-append key e c.entries, v.sound.counted)) in
            rw (fits, insert_absent key e c.entries absent)
              (record {
                sound = record {
                  distinct =
                      evict_to-IsDistinct max_bytes total c.evictions all
                        (append-IsDistinct key e c.entries v.sound.distinct absent);
                  counted = counts.0;
                  answers =
                      All-evict_to IsTrue max_bytes total c.evictions all
                        (All-append IsTrue (key, e) c.entries v.sound.answers (refl, refl));
                };
                bounded = counts.1;
              })
      ]

  store_built_answer :
      (key : Text) (revision : ℕ) (body : Text) (c : Cache)
      → (store_built byte_length max_bytes key revision body c).0 ≡ body
  unfolding store_built
  store_built_answer key revision body c = ground arith

  missed-IsValid : (c : Cache) → IsValid c → IsValid (record c { misses = c.misses + 1 })
  missed-IsValid c v = record {
    sound = record {
      distinct = v.sound.distinct;
      counted = v.sound.counted;
      answers = v.sound.answers;
    };
    bounded = v.bounded;
  }

  -- The cache without the entry of a key.
  without : Text → Entry → Cache → Cache
  without key hit c = record c {
    misses = c.misses + 1;
    total_bytes = c.total_bytes - hit.bytes;
    entries = erase key c.entries;
  }

  without-IsValid :
      (key : Text) (hit : Entry) (c : Cache)
      → lookup key c.entries ≡ some hit
      → IsValid c
      → IsValid (without key hit c)
  unfolding without
  without-IsValid key hit c found v =
      let erased = bytes_of-erase key hit c.entries v.sound.distinct found in
      record {
        sound = record {
          distinct = erase-IsDistinct key c.entries v.sound.distinct;
          counted = ground (arith, erased, v.sound.counted);
          answers = All-erase IsTrue key c.entries v.sound.answers;
        };
        bounded = ground (arith, v.bounded);
      }

  moved-IsValid :
      (key : Text) (hit : Entry) (c : Cache)
      → lookup key c.entries ≡ some hit
      → IsValid c
      → IsValid (record c { entries = insert key hit (erase key c.entries); hits = c.hits + 1 })
  moved-IsValid key hit c found v =
      let rest : Entries = erase key c.entries in
      let absent = lookup-erase_self key c.entries in
      let erased = bytes_of-erase key hit c.entries v.sound.distinct found in
      rw (insert_absent key hit rest absent) (record {
        sound = record {
          distinct =
              append-IsDistinct key hit rest (erase-IsDistinct key c.entries v.sound.distinct)
                absent;
          counted = ground (arith, erased, bytes_of-append key hit rest, v.sound.counted);
          answers =
              All-append IsTrue (key, hit) rest (All-erase IsTrue key c.entries v.sound.answers)
                (All-lookup IsTrue key hit c.entries v.sound.answers found);
        };
        bounded = v.bounded;
      })

  -- Asked for what the source builds of a key at a revision, a valid cache answers exactly that,
  -- hit or miss, and stays valid.
  pub get-IsValid :
      (key : Text) (revision : ℕ) (c : Cache)
      → IsValid c
      → let (body, after) = get byte_length max_bytes key revision (source key revision) c in
        (body ≡ source key revision) × IsValid after
  unfolding get
  get-IsValid key revision c v = elim (Option-cases (lookup key c.entries)) [
    | inl absent ↦
        rw (get, absent)
          (
            store_built_answer key revision (source key revision)
                (record c { misses = c.misses + 1 }),
            store_built-IsValid key revision (record c { misses = c.misses + 1 }) absent
                (missed-IsValid c v),
          )
    | inr (hit, found) ↦ elim (Bool-cases (hit.revision == revision)) [
      | inl same ↦
          let true_to = All-lookup IsTrue key hit c.entries v.sound.answers found in
          rw (get, found, same)
            (
              true_to.0 ∙ ap (source key) ((==_iff hit.revision revision).0 same),
              moved-IsValid key hit c found v,
            )
      | inr other ↦
          rw (get, found, other)
            (unfold without in
              (
                store_built_answer key revision (source key revision) (without key hit c),
                store_built-IsValid key revision (without key hit c)
                    (lookup-erase_self key c.entries) (without-IsValid key hit c found v),
              ))
    ]
  ]

  -- The cache is transparent: a run of requests gets the bodies that building each anew would
  -- give, from any valid cache, and leaves a valid one.
  pub serve-eq-map :
      (requests : List (Text × ℕ)) (c : Cache)
      → IsValid c
      → let (bodies, last) = serve byte_length max_bytes source requests c in
        (bodies ≡ map (λ r. source r.0 r.1) requests) × IsValid last
  unfolding serve
  serve-eq-map [] c v = (refl, v)
  serve-eq-map ((key, revision) ∷ requests) c v =
      let step = get-IsValid key revision c v in
      let rest =
        serve-eq-map requests (get byte_length max_bytes key revision (source key revision) c).1
          step.1 in
      (cc (step.0, rest.0), rest.1)

  store_built-lookup :
      (key : Text) (revision : ℕ) (c : Cache)
      → lookup key c.entries ≡ none
      → IsValid c
      → byte_length (source key revision) ≤ max_bytes
      → lookup key
          (store_built byte_length max_bytes key revision (source key revision) c).1.entries
        ≡ some (built_entry key revision)
  unfolding store_built
  store_built-lookup key revision c absent v fits =
      let e = built_entry key revision in
      let kept =
        evict_to_last key e max_bytes (c.total_bytes + e.bytes) c.evictions c.entries
          (append-IsDistinct key e c.entries v.sound.distinct absent)
          (ground (arith, v.sound.counted)) fits in
      elim (Bool-cases (ltb max_bytes (byte_length (source key revision)))) [
        | inl large ↦ ground (arith, ltb→lt max_bytes (byte_length (source key revision)) large)
        | inr small ↦ rw (small, insert_absent key e c.entries absent) kept
      ]

  -- What `get` leaves for a key whose body fits.
  get-lookup :
      (key : Text) (revision : ℕ) (c : Cache)
      → IsValid c
      → byte_length (source key revision) ≤ max_bytes
      → let after = (get byte_length max_bytes key revision (source key revision) c).1 in
        (e : Entry) × (lookup key after.entries ≡ some e)
        × (e.revision ≡ revision)
        × (e.body ≡ source key revision)
  unfolding get
  get-lookup key revision c v fits = elim (Option-cases (lookup key c.entries)) [
    | inl absent ↦
        rw (get, absent)
          (
            built_entry key revision,
            store_built-lookup key revision (record c { misses = c.misses + 1 }) absent
                (missed-IsValid c v) fits,
            refl,
            refl,
          )
    | inr (hit, found) ↦ elim (Bool-cases (hit.revision == revision)) [
      | inl same ↦
          let true_to = All-lookup IsTrue key hit c.entries v.sound.answers found in
          let at = (==_iff hit.revision revision).0 same in
          rw (get, found, same)
            (
              hit,
              lookup-insert key key hit (erase key c.entries) ∙ rw (text_eq_self key) refl,
              at,
              true_to.0 ∙ ap (source key) at,
            )
      | inr other ↦
          rw (get, found, other)
            (unfold without in
              (
                built_entry key revision,
                store_built-lookup key revision (without key hit c)
                    (lookup-erase_self key c.entries) (without-IsValid key hit c found v) fits,
                refl,
                refl,
              ))
    ]
  ]

  -- A body that fits in the budget is kept at least until the next request: asked again at the
  -- same revision, the cache answers with it, whatever a new build would give.
  pub get_again :
      (key : Text) (revision : ℕ) (other : Text) (c : Cache)
      → IsValid c
      → byte_length (source key revision) ≤ max_bytes
      → let after = (get byte_length max_bytes key revision (source key revision) c).1 in
        (get byte_length max_bytes key revision other after).0 ≡ source key revision
  unfolding get
  get_again key revision other c v fits =
      let (e, found, at, body) = get-lookup key revision c v fits in
      rw (get, found, (==_iff e.revision revision).1 at) body
