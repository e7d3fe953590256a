-- ===== src/ResponseCache/Tests.antt =====
-- A cache of ten bytes over a source whose body is its key, and the theorems there.
use sigvara.Prelude.Dict.{lookup, insert, erase}
use sigvara.Prelude.Text.{text_eq}
use sigvara.ResponseCache.{empty_cache, get, serve, lookup, insert, erase}
use sigvara.ResponseCache.Entries.{bytes_of}
use sigvara.ResponseCache.Answers.{IsValid, get-IsValid, serve-eq-map}
use sigvara.Prelude.{List, [], arith, length, refl, ℕ, ◌∷◌, ◌≡◌, map}
use sigvara.Prelude.Text.{Text, text_eq}

-- The body of a key at any revision is the key.
abbrev key_itself : Text → ℕ → Text
key_itself key revision = key

abbrev wanted : List (Text × ℕ)
wanted =
    (b'a' ∷ b'b' ∷ b'c' ∷ [], 1)
    ∷ (b'd' ∷ b'e' ∷ [], 1)
    ∷ (b'a' ∷ b'b' ∷ b'c' ∷ [], 1)
    ∷ (b'a' ∷ b'b' ∷ b'c' ∷ [], 2)
    ∷ []

serve_runs : (serve length 4 key_itself wanted empty_cache).1 ≡ (record {
  entries =
      (b'a' ∷ b'b' ∷ b'c' ∷ [], record { revision = 2; body = b'a' ∷ b'b' ∷ b'c' ∷ []; bytes = 3 })
      ∷ [];
  total_bytes = 3;
  hits = 0;
  misses = 4;
  evictions = 2;
})
unfolding serve lookup insert erase text_eq get
serve_runs = refl

empty_cache-IsValid : IsValid length 4 key_itself empty_cache
unfolding bytes_of
empty_cache-IsValid = record {
  sound = record { distinct = tt; counted = refl; answers = tt };
  bounded = omega arith;
}

abbrev abc : Text
abc = b'a' ∷ b'b' ∷ b'c' ∷ []

get-IsValid_example :
    let (body, after) = get length 4 abc 1 abc empty_cache in
    (body ≡ abc) × IsValid length 4 key_itself after
get-IsValid_example = get-IsValid length 4 key_itself abc 1 empty_cache empty_cache-IsValid

serve-eq-map_example :
    let (bodies, last) = serve length 4 key_itself wanted empty_cache in
    (bodies ≡ map (λ r. r.0) wanted) × IsValid length 4 key_itself last
serve-eq-map_example = serve-eq-map length 4 key_itself wanted empty_cache empty_cache-IsValid
