-- ===== src/Batching/Pieces.antt =====
-- `iter_batches` of common/batching.py: the shape of the batches.
use mathlib.Core.List.{append_assoc, append-nil}
use stopan.Prelude.{
  ℕ, ◌+◌, ◌≤◌, ◌<◌, max, leb, ◌≡◌, refl, ap, ◌∙◌, List, [], ◌∷◌, ◌++◌, if-cases, length,
  length-append, join, arith,
}
use stopan.Batching.{rest_of, batch_loop, iter_batches}

-- Every batch has `size` items, except that the last may have fewer, though not none.
abbrev pub AreBatches {ℓ} : {A : Type ℓ} → ℕ → List (List A) → Type 0
AreBatches size [] = Unit
AreBatches size (b ∷ []) = (0 < length b) × (length b ≤ size)
AreBatches size (b ∷ c ∷ bs) = (length b ≡ size) × AreBatches size (c ∷ bs)

module _ {ℓ} {A : Type ℓ} where
  full-AreBatches :
      (size : ℕ) (b : List A) (bs : List (List A))
      → 0 < size
      → length b ≡ size
      → AreBatches size bs
      → AreBatches size (b ∷ bs)
  full-AreBatches size b [] pos full a = (omega (arith, full), omega (arith, full))
  full-AreBatches size b (c ∷ bs) pos full a = (full, a)

  abbrev Good : ℕ → List A → List (List A) → Type ℓ
  Good size items bs = (join bs ≡ items) × AreBatches size bs

  rest_of-Good :
      (size : ℕ) (current : List A) → length current < size → Good size current (rest_of current)
  rest_of-Good size [] h = (refl, tt)
  rest_of-Good size (x ∷ xs) h = (append-nil (x ∷ xs), (omega arith, omega (arith, h)))

  batch_loop-Good :
      (size : ℕ) (current items : List A)
      → length current < size
      → Good size (current ++ items) (batch_loop size current items)
  unfolding batch_loop
  batch_loop-Good size current [] h = rw (append-nil current) (rest_of-Good size current h)
  batch_loop-Good size current (item ∷ items) h =
      let current' = current ++ item ∷ [] in
      let n : length current' ≡ length current + 1 = length-append current (item ∷ []) in
      let same : current' ++ items ≡ current ++ item ∷ items =
        append_assoc current (item ∷ []) items in
      if-cases (Good size (current ++ item ∷ items)) (leb size (length current'))
        (λ full.
          let (joined, good) = batch_loop-Good size [] items (omega arith) in
          (
            ap (λ xs. current' ++ xs) joined ∙ same,
            full-AreBatches size current' (batch_loop size [] items) (omega arith)
                (ground (arith, n, full, h)) good,
          ))
        (λ open_batch.
          let (joined, good) =
            batch_loop-Good size current' items (ground (arith, n, open_batch, h)) in
          (joined ∙ same, good))

  -- The batches joined are the items, each but the last has the batch size (1, if less was asked
  -- for), and the last has at least one item and no more than the batch size.
  iter_batches-AreBatches :
      (items : List A) (batch_size : ℕ)
      → (join (iter_batches items batch_size) ≡ items)
        × AreBatches (max 1 batch_size) (iter_batches items batch_size)
  unfolding iter_batches
  iter_batches-AreBatches items batch_size =
      batch_loop-Good (max 1 batch_size) [] items (omega arith)
