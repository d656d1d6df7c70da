-- ===== src/Batching.antt =====
-- common/batching.py: cutting a sequence into batches. What `iter_batches` yields is a list; a batch
-- size below 1 counts as 1, so it is a natural number here.
pub mod Pieces
use stopan.Prelude.{ℕ, max, leb, Bool, List, [], ◌∷◌, ◌++◌, if◌then◌else◌, length}

module _ {ℓ} {A : Type ℓ} where
  -- `if current: yield current`
  abbrev pub rest_of : List A → List (List A)
  rest_of [] = []
  rest_of (x ∷ xs) = (x ∷ xs) ∷ []

  -- The loop over the items, and what follows it.
  unfoldable pub batch_loop : ℕ → List A → List A → List (List A)
  batch_loop size current [] = rest_of current
  batch_loop size current (item ∷ items) =
      let current' = current ++ item ∷ [] in
      let yielded = batch_loop size [] items in
      let kept = batch_loop size current' items in
      if leb size (length current') then current' ∷ yielded else kept

  unfoldable pub iter_batches : List A → ℕ → List (List A)
  unfolding batch_loop
  iter_batches items batch_size = batch_loop (max 1 batch_size) [] items
