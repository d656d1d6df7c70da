-- ===== src/Sequences/Unique.antt =====
-- common/sequences.py: the items that are kept.
use stopan.Prelude.{
  ◌≡◌, refl, ap, ◌∙◌, inl, inr, Bool, true, false, not, ◌&&◌, ◌||◌, List, [], ◌∷◌, map, if-cases,
  Bool-cases, arith, Text, text_eq, text_eq_iff, contains,
}
use stopan.Erasure.Placement.{has_repeats}
use stopan.Sequences.{unique_onto, ordered_unique, unique_by_onto, ordered_unique_by}

contains-unique_onto :
    (y : Text) (seen xs : List Text)
    → contains y (unique_onto seen xs) ≡ (contains y xs && not (contains y seen))
unfolding contains unique_onto
contains-unique_onto y seen [] = refl
contains-unique_onto y seen (x ∷ xs) = elim (Bool-cases (contains x seen)) [
  | inl old ↦ rw old (
      contains-unique_onto y seen xs
      ∙ passed (text_eq y x) (contains y xs) (contains y seen) (λ e. seen_too e old))
  | inr new ↦
      rw (new, contains-unique_onto y (x ∷ seen) xs)
        (taken (text_eq y x) (contains y xs) (contains y seen) (λ e. unseen_too e new))
]
  where
    seen_too : text_eq y x ≡ true → contains x seen ≡ true → contains y seen ≡ true
    seen_too e old = ap (λ t. contains t seen) ((text_eq_iff y x).0 e) ∙ old

    unseen_too : text_eq y x ≡ true → contains x seen ≡ false → contains y seen ≡ false
    unseen_too e new = ap (λ t. contains t seen) ((text_eq_iff y x).0 e) ∙ new

    passed : (e c s : Bool) → (e ≡ true → s ≡ true) → (c && not s) ≡ ((e || c) && not s)
    passed e c s h = ground (arith, h)

    taken :
        (e c s : Bool) → (e ≡ true → s ≡ false) → (e || (c && not (e || s))) ≡ ((e || c) && not s)
    taken e c s h = ground (arith, h)

has_repeats-unique_onto : (seen xs : List Text) → has_repeats (unique_onto seen xs) ≡ false
unfolding has_repeats unique_onto
has_repeats-unique_onto seen [] = refl
has_repeats-unique_onto seen (x ∷ xs) =
    if-cases (λ ys. has_repeats ys ≡ false) (contains x seen) (λ _. has_repeats-unique_onto seen xs)
      (λ _.
        rw (contains-unique_onto x (x ∷ seen) xs, has_repeats-unique_onto (x ∷ seen) xs)
          (rw (contains, (text_eq_iff x x).1 refl) (none_left (contains x xs))))
  where
    none_left : (b : Bool) → (b && false || false) ≡ false
    none_left b = ground arith

-- The unique items of a sequence are those of the sequence, and none of them is repeated.
pub ordered_unique_lem :
    (items : List Text)
    → ((x : Text) → contains x (ordered_unique items) ≡ contains x items)
      × (has_repeats (ordered_unique items) ≡ false)
unfolding ordered_unique
ordered_unique_lem items = (
  (λ x. contains-unique_onto x [] items ∙ unfold contains in all_kept (contains x items)),
  has_repeats-unique_onto [] items,
)
  where
    all_kept : (b : Bool) → (b && true) ≡ b
    all_kept b = ground arith

map-unique_by_onto {ℓ} :
    {T : Type ℓ} (key : T → Text) (seen : List Text) (xs : List T)
    → map key (unique_by_onto key seen xs) ≡ unique_onto seen (map key xs)
unfolding unique_by_onto unique_onto
map-unique_by_onto key seen [] = refl
map-unique_by_onto key seen (x ∷ xs) = elim (Bool-cases (contains (key x) seen)) [
  | inl old ↦ rw old (map-unique_by_onto key seen xs)
  | inr new ↦ rw new (ap (λ ks. key x ∷ ks) (map-unique_by_onto key (key x ∷ seen) xs))
]

-- The keys of the items that are unique by a key are the unique keys of the items, in their order.
map-ordered_unique_by {ℓ} :
    {T : Type ℓ} (items : List T) (key : T → Text)
    → map key (ordered_unique_by items key) ≡ ordered_unique (map key items)
unfolding ordered_unique ordered_unique_by
map-ordered_unique_by items key = map-unique_by_onto key [] items
