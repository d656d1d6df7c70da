-- ===== src/Sorting/Sets.antt =====
-- Sorted texts without repetition: `sorted` of a set.
use stopan.Prelude.{
  ◌≡◌, refl, sym, ap, ap₂, ◌∙◌, inl, inr, ◌⊎◌, ⊎_elim, subst, Bool, true, false, ◌||◌, List, [],
  ◌∷◌, if-cases, Bool-cases, All, Text, text_eq, text_eq_iff, text_lt, text_lt_irrefl,
  text_lt_trans, text_lt_total, contains, arith,
}
use stopan.Sorting.{insert_by, sort_by}
use stopan.Erasure.Placement.{has_repeats}

-- The texts of a list all come after one.
abbrev IsBelow : Text → List Text → Type 0
IsBelow x = All (λ y. text_lt x y ≡ true)

pub IsAscending : List Text → Type 0
IsAscending [] = Unit
IsAscending (x ∷ l) = IsBelow x l × IsAscending l

IsBelow-trans : (x y : Text) (l : List Text) → text_lt x y ≡ true → IsBelow y l → IsBelow x l
IsBelow-trans x y [] h b = tt
IsBelow-trans x y (z ∷ l) h (yz, b) = (text_lt_trans x y z h yz, IsBelow-trans x y l h b)

IsBelow-contains :
    (x y : Text) (l : List Text) → IsBelow x l → contains y l ≡ true → text_lt x y ≡ true
unfolding contains
IsBelow-contains x y [] b m = cc
IsBelow-contains x y (z ∷ l) (xz, b) m = ground (arith, text_eq_iff y z, IsBelow-contains x y l b)

IsBelow-absent : (x : Text) (l : List Text) → IsBelow x l → contains x l ≡ false
IsBelow-absent x l b = elim (Bool-cases (contains x l)) [
  | inl m ↦ cc (IsBelow-contains x x l b m, text_lt_irrefl x)
  | inr m ↦ m
]

contains-insert_by :
    (y x : Text) (l : List Text)
    → contains y (insert_by text_lt x l) ≡ (text_eq y x || contains y l)
unfolding insert_by contains
contains-insert_by y x [] = refl
contains-insert_by y x (z ∷ l) = ground (arith, contains-insert_by y x l)

pub contains-sort_by : (y : Text) (l : List Text) → contains y (sort_by text_lt l) ≡ contains y l
unfolding sort_by contains
contains-sort_by y [] = refl
contains-sort_by y (x ∷ l) =
    contains-insert_by y x (sort_by text_lt l) ∙ ap (λ b. text_eq y x || b) (contains-sort_by y l)

IsBelow-insert_by :
    (z x : Text) (l : List Text)
    → text_lt z x ≡ true
    → IsBelow z l
    → IsBelow z (insert_by text_lt x l)
unfolding insert_by
IsBelow-insert_by z x [] h b = (h, tt)
IsBelow-insert_by z x (y ∷ l) h (zy, b) =
    if-cases (IsBelow z) (text_lt x y) (λ _. (h, (zy, b))) (λ _. (zy, IsBelow-insert_by z x l h b))

after_other :
    (x y : Text) (m : Bool) → (text_eq x y || m) ≡ false → text_lt x y ≡ false → text_lt y x ≡ true
after_other x y m fresh h = elim (Bool-cases (text_lt y x)) [
  | inl e ↦ e
  | inr e ↦ absurd (same_text (text_lt_total x y h e))
]
  where
    same_text : x ≡ y → ⊥
    same_text e = ground (arith, fresh, (text_eq_iff x y).1 e)

IsAscending-insert_by :
    (x : Text) (l : List Text)
    → contains x l ≡ false
    → IsAscending l
    → IsAscending (insert_by text_lt x l)
unfolding insert_by IsAscending contains
IsAscending-insert_by x [] fresh a = (tt, tt)
IsAscending-insert_by x (y ∷ l) fresh (b, a) =
    if-cases IsAscending (text_lt x y) (λ h. ((h, IsBelow-trans x y l h b), (b, a)))
      (λ h.
        let after = after_other x y (contains x l) fresh h in
        (IsBelow-insert_by y x l after b, IsAscending-insert_by x l (ground arith) a))

pub IsAscending-sort_by : (l : List Text) → has_repeats l ≡ false → IsAscending (sort_by text_lt l)
unfolding sort_by has_repeats IsAscending
IsAscending-sort_by [] h = tt
IsAscending-sort_by (x ∷ l) h =
    IsAscending-insert_by x (sort_by text_lt l) (contains-sort_by x l ∙ ground arith)
      (IsAscending-sort_by l (ground arith))

-- The heads of two such lists with the same members are the same.
head_first :
    (x y : Text) (a b : List Text)
    → IsBelow y b
    → contains x (y ∷ b) ≡ true
    → (x ≡ y) ⊎ (text_lt y x ≡ true)
unfolding contains
head_first x y a b below m = elim (Bool-cases (text_eq x y)) [
  | inl e ↦ inl ((text_eq_iff x y).0 e)
  | inr e ↦ inr (IsBelow-contains y x b below (ground arith))
]

same_head :
    (x y : Text) (a b : List Text)
    → IsBelow x a
    → IsBelow y b
    → contains x (y ∷ b) ≡ true
    → contains y (x ∷ a) ≡ true
    → x ≡ y
same_head x y a b xa yb m n =
    ⊎_elim (λ e. e)
      (λ yx.
        ⊎_elim sym (λ xy. cc (text_lt_trans x y x xy yx, text_lt_irrefl x))
          (head_first y x b a xa n))
      (head_first x y a b yb m)

contains_nil : (x : Text) → contains x [] ≡ false
unfolding contains
contains_nil x = refl

contains_head : (x : Text) (l : List Text) → contains x (x ∷ l) ≡ true
unfolding contains
contains_head x l = ground (arith, text_eq_iff x x)

tail_same :
    (x z : Text) (a b : List Text)
    → IsBelow x a
    → IsBelow x b
    → contains z (x ∷ a) ≡ contains z (x ∷ b)
    → contains z a ≡ contains z b
unfolding contains
tail_same x z a b xa xb h = elim (Bool-cases (text_eq z x)) [
  | inl e ↦
      let same = (text_eq_iff z x).0 e in
      rw (same) (IsBelow-absent x a xa ∙ sym (IsBelow-absent x b xb))
  | inr e ↦ rw (e) at h
]

-- Ascending lists with the same members are equal.
pub IsAscending-eq :
    (a b : List Text)
    → IsAscending a
    → IsAscending b
    → ((z : Text) → contains z a ≡ contains z b)
    → a ≡ b
unfolding IsAscending
IsAscending-eq [] [] h k same = refl
IsAscending-eq [] (y ∷ b) h k same = cc (contains_nil y, contains_head y b, same y)
IsAscending-eq (x ∷ a) [] h k same = cc (contains_nil x, contains_head x a, same x)
IsAscending-eq (x ∷ a) (y ∷ b) (xa, h) (yb, k) same =
    let head =
      same_head x y a b xa yb (sym (same x) ∙ contains_head x a) (same y ∙ contains_head y b) in
    let below = subst (λ (t : Text). IsBelow t b) (sym head) yb in
    let same_x =
      subst (λ (t : Text). (z : Text) → contains z (x ∷ a) ≡ contains z (t ∷ b)) (sym head) same in
    ap₂ (λ (t : Text) (l : List Text). t ∷ l) head
      (IsAscending-eq a b h k (λ z. tail_same x z a b xa below (same_x z)))
