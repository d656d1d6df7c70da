-- ===== src/Sorting/TopK.antt =====
-- The laws of a descending order of which only the first `k` items are kept.
use stopan.Prelude.{
  ℕ, zero, suc, ◌≡◌, refl, ◌⊎◌, some, get_elem?, ap, inl, inr, Bool, true, false, List, [], ◌∷◌,
  arith, length, All, take, Bool-cases,
}
use stopan.Sorting.{insert_by, All-insert_by}

-- A strict total order, as a test.
pub record IsStrictOrder {ℓ} {A : Type ℓ} (lt : A → A → Bool) : Type ℓ where
  pub irrefl : (x : A) → lt x x ≡ false
  pub trans : (x y z : A) → lt x y ≡ true → lt y z ≡ true → lt x z ≡ true
  pub total : (x y : A) → lt x y ≡ false → lt y x ≡ false → x ≡ y

module _ {ℓ} {A : Type ℓ} where
  -- The last item, or `d` if there is none.
  unfoldable pub last_or : A → List A → A
  last_or d [] = d
  last_or d (x ∷ l) = last_or x l

  unfoldable pub init : List A → List A
  init [] = []
  init (x ∷ []) = []
  init (x ∷ y ∷ l) = x ∷ init (y ∷ l)

module _ {ℓ} {A : Type ℓ} (lt : A → A → Bool) where
  -- The greatest item stands first.
  abbrev pub above : A → A → Bool
  above x y = lt y x

  -- Cutting before an insertion does not change the first `k` items after it.
  pub take-insert_by :
      (k : ℕ) (x : A) (l : List A)
      → take k (insert_by above x (take k l)) ≡ take k (insert_by above x l)
  unfolding insert_by
  take-insert_by zero x l = refl
  take-insert_by (suc k) x [] = refl
  take-insert_by (suc k) x (y ∷ l) = elim (Bool-cases (lt y x)) [
    | inl e ↦ rw e (ap (λ r. x ∷ r) (cut k y l))
    | inr e ↦ rw e (ap (λ r. y ∷ r) (take-insert_by k x l))
  ]
    where
      cut : (k : ℕ) (y : A) (l : List A) → take k (y ∷ take k l) ≡ take k (y ∷ l)
      cut zero y l = refl
      cut (suc k) y [] = refl
      cut (suc zero) y (z ∷ l) = refl
      cut (suc (suc k)) y (z ∷ l) = ap (λ r. y ∷ r) (cut (suc k) z l)

  -- No item is below a later one.
  abbrev pub IsDescending : List A → Type 0
  IsDescending [] = Unit
  IsDescending (x ∷ l) = All (λ y. lt x y ≡ false) l × IsDescending l

  take-init : (y : A) (l : List A) → take (length l) (y ∷ l) ≡ init (y ∷ l)
  unfolding init
  take-init y [] = refl
  take-init y (z ∷ l) = ap (λ r. y ∷ r) (take-init z l)

  -- An item that is greater than the last one pushes it out.
  pub take-insert_by_replace :
      (x y : A) (l : List A)
      → lt (last_or y (y ∷ l)) x ≡ true
      → take (length (y ∷ l)) (insert_by above x (y ∷ l)) ≡ insert_by above x (init (y ∷ l))
  unfolding insert_by last_or init
  take-insert_by_replace x y [] h = rw h
  take-insert_by_replace x y (z ∷ l) h = elim (Bool-cases (lt y x)) [
    | inl e ↦ rw e (ap (λ r. x ∷ y ∷ r) (take-init z l))
    | inr e ↦ rw e (ap (λ r. y ∷ r) (take-insert_by_replace x z l h))
  ]

  module _ (order : IsStrictOrder lt) where
    not_lt_trans : (x y z : A) → lt x y ≡ false → lt y z ≡ false → lt x z ≡ false
    not_lt_trans x y z h k = elim (Bool-cases (lt x z)) [
      | inr e ↦ e
      | inl e ↦ elim (Bool-cases (lt z y)) [
        | inl f ↦ cc (order.trans x z y e f)
        | inr f ↦ cc (order.total y z k f)
      ]
    ]

    not_lt_of_lt : (x y : A) → lt x y ≡ true → lt y x ≡ false
    not_lt_of_lt x y h = elim (Bool-cases (lt y x)) [
      | inr e ↦ e
      | inl e ↦ cc (order.trans x y x h e, order.irrefl x)
    ]

    All_below :
        (x y : A) (l : List A)
        → lt x y ≡ false
        → All (λ z. lt y z ≡ false) l
        → All (λ z. lt x z ≡ false) l
    All_below x y [] h a = tt
    All_below x y (z ∷ l) h a = (not_lt_trans x y z h a.0, All_below x y l h a.1)

    pub IsDescending-insert_by :
        (x : A) (l : List A) → IsDescending l → IsDescending (insert_by above x l)
    unfolding insert_by
    IsDescending-insert_by x [] h = (tt, tt)
    IsDescending-insert_by x (y ∷ l) h = elim (Bool-cases (lt y x)) [
      | inl e ↦ let q = not_lt_of_lt y x e in rw e ((q, All_below x y l q h.0), h)
      | inr e ↦
          rw e (All-insert_by above (λ z. lt y z ≡ false) x l e h.0, IsDescending-insert_by x l h.1)
    ]

    -- An item that is not greater than the last one leaves the first items alone.
    pub take-insert_by_skip :
        (x y : A) (l : List A)
        → IsDescending (y ∷ l)
        → lt (last_or y (y ∷ l)) x ≡ false
        → take (length (y ∷ l)) (insert_by above x (y ∷ l)) ≡ y ∷ l
    unfolding insert_by last_or
    take-insert_by_skip x y [] h k = rw k
    take-insert_by_skip x y (z ∷ l) h k =
        rw (not_lt_trans y z x h.0.0 (head_bound z l h.1 k))
          (ap (λ r. y ∷ r) (take-insert_by_skip x z l h.1 k))
      where
        head_bound :
            (z : A) (l : List A)
            → IsDescending (z ∷ l)
            → lt (last_or z l) x ≡ false
            → lt z x ≡ false
        head_bound z [] d e = e
        head_bound z (w ∷ l) d e = not_lt_trans z w x d.0.0 (head_bound w l d.1 e)

    -- The order of two insertions does not matter.
    pub insert_by_comm :
        (x y : A) (l : List A)
        → insert_by above x (insert_by above y l) ≡ insert_by above y (insert_by above x l)
    unfolding insert_by
    insert_by_comm x y [] = ground (arith, not_lt_of_lt x y, order.total x y)
    insert_by_comm x y (z ∷ l) = ground (
      arith,
      order.total x y,
      not_lt_of_lt x y,
      order.trans z x y,
      order.trans z y x,
      insert_by_comm x y l,
    )

    -- What the first items do not hold, they do not depend on.
    pub take-insert_by_others :
        (k : ℕ) (x : A) (l : List A)
        → (take k (insert_by above x l) ≡ take k l)
          ⊎ ((i : ℕ) × (get_elem? (take k (insert_by above x l)) i ≡ some x))
    unfolding insert_by
    take-insert_by_others zero x l = inl refl
    take-insert_by_others (suc k) x [] = inr (0, refl)
    take-insert_by_others (suc k) x (y ∷ l) = elim (Bool-cases (lt y x)) [
      | inl e ↦ rw e (inr (0, refl))
      | inr e ↦ rw e (elim (take-insert_by_others k x l) [
        | inl same ↦ inl (ap (λ r. y ∷ r) same)
        | inr (i, at) ↦ inr (suc i, at)
      ])
    ]
