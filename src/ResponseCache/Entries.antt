-- ===== src/ResponseCache/Entries.antt =====
-- The entries of the response cache: their bytes, and what insertion, erasure and eviction leave.
use sigvara.ResponseCache.{Entry, Entries, evict_to}
use sigvara.Prelude.Dict.{lookup-erase, lookup, erase, insert}
use sigvara.Prelude.{
  All, Bool-cases, [], arith, false, inl, inr, leb, leb→le, none, refl, some, ℕ, ◌++◌, ◌+◌, ◌-◌,
  ◌∷◌, ◌≡◌, ◌≤◌, subst, ◌≢◌,
}
use sigvara.Prelude.Text.{Text, text_eq, text_eq_self, text_eq_iff, text_eq_sound}

-- Every key stands once.
abbrev pub IsDistinct : Entries → Type 0
IsDistinct [] = Unit
IsDistinct ((k, e) ∷ m) = (lookup k m ≡ none) × IsDistinct m

unfoldable pub bytes_of : Entries → ℕ
bytes_of [] = 0
bytes_of ((k, e) ∷ m) = e.bytes + bytes_of m

pub lookup-erase_self : (k : Text) (m : Entries) → lookup k (erase k m) ≡ none
lookup-erase_self k m = rw (lookup-erase k k m, text_eq_self k)

pub erase-IsDistinct : (k : Text) (m : Entries) → IsDistinct m → IsDistinct (erase k m)
unfolding erase
erase-IsDistinct k [] d = d
erase-IsDistinct k ((j, e) ∷ m) d = elim (Bool-cases (text_eq j k)) [
  | inl same ↦ rw same (erase-IsDistinct k m d.1)
  | inr other ↦
      rw other (ground (arith, lookup-erase k j m, d.0, text_eq k j), erase-IsDistinct k m d.1)
]

pub erase_absent : (k : Text) (m : Entries) → lookup k m ≡ none → erase k m ≡ m
unfolding erase lookup
erase_absent k [] h = refl
erase_absent k ((j, e) ∷ m) h = ground (arith, erase_absent k m)

-- Erasing a key takes the bytes of its entry away.
pub bytes_of-erase :
    (k : Text) (e : Entry) (m : Entries)
    → IsDistinct m
    → lookup k m ≡ some e
    → e.bytes + bytes_of (erase k m) ≡ bytes_of m
unfolding erase lookup bytes_of
bytes_of-erase k e [] d h = ground arith
bytes_of-erase k e ((j, f) ∷ m) d h = elim (Bool-cases (text_eq j k)) [
  | inl same ↦ ground (arith, d.0, erase_absent k m, text_eq_sound j k same)
  | inr other ↦ ground (arith, bytes_of-erase k e m d.1)
]

-- A new key goes to the end.
pub insert_absent :
    (k : Text) (e : Entry) (m : Entries) → lookup k m ≡ none → insert k e m ≡ m ++ (k, e) ∷ []
unfolding insert lookup
insert_absent k e [] h = refl
insert_absent k e ((j, f) ∷ m) h = ground (arith, insert_absent k e m)

pub bytes_of-append :
    (k : Text) (e : Entry) (m : Entries) → bytes_of (m ++ (k, e) ∷ []) ≡ bytes_of m + e.bytes
unfolding bytes_of
bytes_of-append k e [] = omega arith
bytes_of-append k e ((j, f) ∷ m) = omega (arith, bytes_of-append k e m)

lookup-append :
    (j k : Text) (e : Entry) (m : Entries)
    → lookup j m ≡ none
    → text_eq k j ≡ false
    → lookup j (m ++ (k, e) ∷ []) ≡ none
unfolding lookup
lookup-append j k e [] h other = rw other refl
lookup-append j k e ((i, f) ∷ m) h other = ground (arith, lookup-append j k e m)

pub append-IsDistinct :
    (k : Text) (e : Entry) (m : Entries)
    → IsDistinct m
    → lookup k m ≡ none
    → IsDistinct (m ++ (k, e) ∷ [])
unfolding lookup
append-IsDistinct k e [] d h = (refl, tt)
append-IsDistinct k e ((j, f) ∷ m) d h = (
  ground (arith, lookup-append j k e m d.0, text_eq_iff j k, text_eq_iff k j),
  append-IsDistinct k e m d.1 (ground arith),
)

module _ (P : Text × Entry → Type 0) where
  pub All-erase : (k : Text) (m : Entries) → All P m → All P (erase k m)
  unfolding erase
  All-erase k [] h = h
  All-erase k ((j, e) ∷ m) h = elim (Bool-cases (text_eq j k)) [
    | inl same ↦ rw same (All-erase k m h.1)
    | inr other ↦ rw other (h.0, All-erase k m h.1)
  ]

  pub All-append : (x : Text × Entry) (m : Entries) → All P m → P x → All P (m ++ x ∷ [])
  All-append x [] h p = (p, tt)
  All-append x (y ∷ m) h p = (h.0, All-append x m h.1 p)

  pub All-lookup : (k : Text) (e : Entry) (m : Entries) → All P m → lookup k m ≡ some e → P (k, e)
  unfolding lookup
  All-lookup k e [] h found = ground arith
  All-lookup k e ((j, f) ∷ m) h found = elim (Bool-cases (text_eq j k)) [
    | inl same ↦ subst (λ x. P x) (ground (arith, text_eq_sound j k same)) h.0
    | inr other ↦ All-lookup k e m h.1 (ground arith)
  ]

  pub All-evict_to :
      (limit total evictions : ℕ) (m : Entries)
      → All P m
      → All P (evict_to limit total evictions m).0
  unfolding evict_to
  All-evict_to limit total evictions [] h = h
  All-evict_to limit total evictions ((k, e) ∷ m) h = elim (Bool-cases (leb total limit)) [
    | inl fits ↦ rw fits h
    | inr over ↦ rw over (All-evict_to limit (total - e.bytes) (evictions + 1) m h.1)
  ]

pub evict_to-IsDistinct :
    (limit total evictions : ℕ) (m : Entries)
    → IsDistinct m
    → IsDistinct (evict_to limit total evictions m).0
unfolding evict_to
evict_to-IsDistinct limit total evictions [] d = d
evict_to-IsDistinct limit total evictions ((k, e) ∷ m) d = elim (Bool-cases (leb total limit)) [
  | inl fits ↦ rw fits d
  | inr over ↦ rw over (evict_to-IsDistinct limit (total - e.bytes) (evictions + 1) m d.1)
]

-- Eviction keeps count of the bytes and ends at or below the limit.
pub evict_to-bytes_of :
    (limit total evictions : ℕ) (m : Entries)
    → total ≡ bytes_of m
    → ((evict_to limit total evictions m).1 ≡ bytes_of (evict_to limit total evictions m).0)
      × ((evict_to limit total evictions m).1 ≤ limit)
unfolding evict_to bytes_of
evict_to-bytes_of limit total evictions [] h = (h, omega arith)
evict_to-bytes_of limit total evictions ((k, e) ∷ m) h = elim (Bool-cases (leb total limit)) [
  | inl fits ↦ rw fits (h, leb→le total limit fits)
  | inr over ↦ rw over (evict_to-bytes_of limit (total - e.bytes) (evictions + 1) m (omega arith))
]

lookup-append_some : (k : Text) (e : Entry) (m : Entries) → lookup k (m ++ (k, e) ∷ []) ≢ none
unfolding lookup
lookup-append_some k e [] h = ground (arith, text_eq_self k)
lookup-append_some k e ((j, f) ∷ m) h = ground (arith, lookup-append_some k e m)

pub lookup-append_self :
    (k : Text) (e : Entry) (m : Entries)
    → IsDistinct (m ++ (k, e) ∷ [])
    → lookup k (m ++ (k, e) ∷ []) ≡ some e
unfolding lookup
lookup-append_self k e [] d = ground (arith, text_eq_self k)
lookup-append_self k e ((j, f) ∷ m) d = elim (Bool-cases (text_eq j k)) [
  | inl same ↦
      elim (lookup-append_some k e m
        (subst (λ i. lookup i (m ++ (k, e) ∷ []) ≡ none) (text_eq_sound j k same) d.0)) [ ]
  | inr other ↦ rw other (lookup-append_self k e m d.1)
]

-- The last entry survives an eviction to a limit that it fits under.
pub evict_to_last :
    (k : Text) (e : Entry) (limit total evictions : ℕ) (m : Entries)
    → IsDistinct (m ++ (k, e) ∷ [])
    → total ≡ bytes_of m + e.bytes
    → e.bytes ≤ limit
    → lookup k (evict_to limit total evictions (m ++ (k, e) ∷ [])).0 ≡ some e
unfolding evict_to bytes_of lookup
evict_to_last k e limit total evictions [] d h fits = ground (arith, text_eq_self k)
evict_to_last k e limit total evictions ((j, f) ∷ m) d h fits = ground (
  arith,
  evict_to_last k e limit (total - f.bytes) (evictions + 1) m d.1,
  lookup-append_self k e ((j, f) ∷ m) d,
)
