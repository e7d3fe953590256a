-- ===== src/Prelude/Dict.antt =====
-- A JavaScript `Map` with string keys, as an association list in insertion order, and a `Set`.
use sigvara.Prelude.{
  Bool, List, Option, [], arith, false, if◌then◌else◌, none, refl, some, true, ◌||◌, ◌∷◌, ◌≡◌,
  Bool-cases, inl, inr,
}
use sigvara.Prelude.Text.{Text, text_eq, text_eq_self, text_eq_iff}

module _ {ℓ} {V : Type ℓ} where
  -- `map.get(key)`
  unfoldable pub lookup : Text → List (Text × V) → Option V
  lookup k [] = none
  lookup k ((j, v) ∷ m) = if text_eq j k then some v else lookup k m

  -- `map.set(key, value)`: an old key keeps its place.
  unfoldable pub insert : Text → V → List (Text × V) → List (Text × V)
  insert k v [] = (k, v) ∷ []
  insert k v ((j, w) ∷ m) = if text_eq j k then (j, v) ∷ m else (j, w) ∷ insert k v m

  -- `map.delete(key)`
  unfoldable pub erase : Text → List (Text × V) → List (Text × V)
  erase k [] = []
  erase k ((j, w) ∷ m) = if text_eq j k then erase k m else (j, w) ∷ erase k m

  pub lookup-insert :
      (k j : Text) (v : V) (m : List (Text × V))
      → lookup j (insert k v m) ≡ (if text_eq k j then some v else lookup j m)
  unfolding lookup insert
  lookup-insert k j v [] = refl
  lookup-insert k j v ((i, w) ∷ m) =
      ground (arith, text_eq_iff k j, text_eq_iff i k, text_eq_iff i j, lookup-insert k j v m)

  pub lookup-erase :
      (k j : Text) (m : List (Text × V))
      → lookup j (erase k m) ≡ (if text_eq k j then none else lookup j m)
  unfolding lookup erase
  lookup-erase k j [] = ground arith
  lookup-erase k j ((i, w) ∷ m) =
      ground (arith, text_eq_iff k j, text_eq_iff i k, text_eq_iff i j, lookup-erase k j m)

-- `set.has(key)`, over the keys in any order.
unfoldable pub has : Text → List Text → Bool
has k [] = false
has k (j ∷ set) = text_eq j k || has k set

pub has-cons_self : (k : Text) (set : List Text) → has k (k ∷ set) ≡ true
unfolding has
has-cons_self k set = rw (text_eq_self k)

-- Each key stands once.
abbrev pub IsKeyed {ℓ} : {V : Type ℓ} → List (Text × V) → Type ℓ
IsKeyed [] = Unit
IsKeyed ((k, v) ∷ m) = (lookup k m ≡ none) × IsKeyed m

pub IsKeyed-insert {ℓ} :
    {V : Type ℓ} (k : Text) (v : V) (m : List (Text × V)) → IsKeyed m → IsKeyed (insert k v m)
unfolding insert lookup
IsKeyed-insert k v [] h = (refl, tt)
IsKeyed-insert k v ((j, w) ∷ m) h = elim (Bool-cases (text_eq j k)) [
  | inl same ↦ rw same h
  | inr other ↦ rw other (
    ground (arith, lookup-insert k j v m, text_eq_iff j k, text_eq_iff k j, h.0, other),
    IsKeyed-insert k v m h.1,
  )
]
