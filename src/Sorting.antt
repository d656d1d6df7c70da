-- ===== src/Sorting.antt =====
-- Python's `sorted` as insertion into an ordered list, over any test of which item comes first.
-- `Sorting.TopK` has the laws of keeping the first items of an ordered list.
pub mod TopK
pub mod Sets
use stopan.Prelude.{
  ℕ, zero, suc, ◌≤◌, ◌≡◌, refl, ap, Bool, true, false, List, [], ◌∷◌, arith, if◌then◌else◌, length,
  All, Bool-cases, inl, inr,
}

module _ {ℓ} {A : Type ℓ} (before : A → A → Bool) where
  -- `x` goes in front of the first item that it comes before.
  unfoldable pub insert_by : A → List A → List A
  insert_by x [] = x ∷ []
  insert_by x (y ∷ l) = if before x y then x ∷ y ∷ l else y ∷ insert_by x l

  unfoldable pub sort_by : List A → List A
  unfolding insert_by
  sort_by [] = []
  sort_by (x ∷ l) = insert_by x (sort_by l)

  pub length-insert_by : (x : A) (l : List A) → length (insert_by x l) ≡ suc (length l)
  unfolding insert_by
  length-insert_by x [] = refl
  length-insert_by x (y ∷ l) = ground (arith, length-insert_by x l)

  pub length-sort_by : (l : List A) → length (sort_by l) ≡ length l
  unfolding sort_by
  length-sort_by [] = refl
  length-sort_by (x ∷ l) = omega (arith, length-insert_by x (sort_by l), length-sort_by l)

  module _ {κ} (P : A → Type κ) where
    pub All-insert_by : (x : A) (l : List A) → P x → All P l → All P (insert_by x l)
    unfolding insert_by
    All-insert_by x [] p h = (p, tt)
    All-insert_by x (y ∷ l) p h = elim (Bool-cases (before x y)) [
      | inl e ↦ rw e (p, h)
      | inr e ↦ rw e (h.0, All-insert_by x l p h.1)
    ]

    pub All-sort_by : (l : List A) → All P l → All P (sort_by l)
    unfolding sort_by
    All-sort_by [] h = tt
    All-sort_by (x ∷ l) h = All-insert_by x (sort_by l) h.0 (All-sort_by l h.1)
