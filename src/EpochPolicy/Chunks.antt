-- ===== src/EpochPolicy/Chunks.antt =====
-- Reading in slices reads every item once, in order, and never too many at a time.
use sigvara.EpochPolicy.{chunk_for_reads, max_batch_calls, map_chunked, map_slices, slices}
use sigvara.Prelude.{
  All, List, [], ap, arith, drop, false, length, length-drop, length-take, map, refl, some, suc,
  take, zero, ℕ, ◌*◌, ◌++◌, ◌<◌, ◌==◌, ◌∙◌, ◌∷◌, ◌≡◌, ◌≤◌, max, ◌/◌,
}
use native.Mathlib.Nat.{div-mul-le_self, le-div_iff_mul-le}

module _ {ℓ κ} {A : Type ℓ} {B : Type κ} where
  map-take-drop :
      (f : A → B) (n : ℕ) (xs : List A) → map f (take n xs) ++ map f (drop n xs) ≡ map f xs
  map-take-drop f zero xs = refl
  map-take-drop f (suc n) [] = refl
  map-take-drop f (suc n) (x ∷ xs) = ap (λ t. f x ∷ t) (map-take-drop f n xs)

  map_slices-slices :
      (f : A → B) (fuel size : ℕ) (items : List A)
      → 0 < size
      → length items ≤ fuel
      → map_slices f (slices fuel size items) ≡ map f items
  unfolding map_slices slices
  map_slices-slices f zero size [] pos enough = refl
  map_slices-slices f zero size (x ∷ xs) pos enough = absurd (omega arith)
  map_slices-slices f (suc fuel) size [] pos enough = refl
  map_slices-slices f (suc fuel) size (x ∷ xs) pos enough =
      ap (λ t. map f (take size (x ∷ xs)) ++ t)
        (map_slices-slices f fuel size (drop size (x ∷ xs)) pos
          (omega (arith, length-drop size (x ∷ xs))))
      ∙ map-take-drop f size (x ∷ xs)

  -- Reading in slices of a positive size gives what reading one by one gives, in the same order.
  pub map_chunked-eq-map :
      (items : List A) (size : ℕ) (f : A → B)
      → 0 < size
      → map_chunked items size f ≡ some (map f items)
  unfolding map_chunked
  map_chunked-eq-map items size f pos =
      let on : (size == 0) ≡ false = ground arith in
      rw on (ap some (map_slices-slices f (length items) size items pos (omega arith)))

slices-le {ℓ} :
    {A : Type ℓ} (fuel size : ℕ) (items : List A)
    → All (λ s. length s ≤ size) (slices fuel size items)
unfolding slices
slices-le zero size items = tt
slices-le (suc fuel) size [] = tt
slices-le (suc fuel) size (x ∷ xs) =
    (omega (arith, length-take size (x ∷ xs)), slices-le fuel size (drop size (x ∷ xs)))

-- A batch of the size that `chunkForReads` gives makes at most as many calls as the endpoint
-- answers at once, whenever one item alone does, and it always holds an item.
pub chunk_for_reads_fits :
    (reads : ℕ)
    → 0 < reads
    → reads ≤ max_batch_calls
    → (0 < chunk_for_reads reads) × (chunk_for_reads reads * reads ≤ max_batch_calls)
unfolding chunk_for_reads
chunk_for_reads_fits reads pos fits =
    let one : 1 ≤ max_batch_calls / reads = (le-div_iff_mul-le pos).1 (omega arith) in
    let same : max 1 (max_batch_calls / reads) ≡ max_batch_calls / reads = omega arith in
    rw same (one, div-mul-le_self max_batch_calls reads)
