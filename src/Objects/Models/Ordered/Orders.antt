-- ===== src/Objects/Models/Ordered/Orders.antt =====
-- The two orders of metadata/objects/models.py: by a text, and by a pair of texts.
use stopan.Prelude.{
  ◌≡◌, refl, sym, subst, ◌∙◌, ap₂, ◌⊎◌, inl, inr, ◌↔◌, Bool, true, false, ◌&&◌, ◌||◌, List, [],
  none, Text, text_eq, text_eq_iff, text_lt, text_lt_irrefl, text_lt_trans, text_lt_total, Result,
  ok, Bool-cases,
}
use stopan.Objects.Models.Checks.{ModelError}
use stopan.Objects.Models.Ordered.{Listing, check_listing, IsListing, check_listing_iff}

-- In a total transitive order, what comes no earlier than another comes no earlier than what that
-- one follows.
module _ {K : Type 0} (lt : K → K → Bool)
    (trans : (x y z : K) → lt x y ≡ true → lt y z ≡ true → lt x z ≡ true)
    (total : (x y : K) → lt x y ≡ false → lt y x ≡ false → x ≡ y) where
  order_keeps : (x y z : K) → lt y x ≡ false → lt z y ≡ false → lt z x ≡ false
  order_keeps x y z p q = elim (Bool-cases (lt z x)) [
    | inr e ↦ e
    | inl zx ↦ elim (Bool-cases (lt x y)) [
      | inl xy ↦ cc (trans z x y zx xy, q)
      | inr e ↦ let same = total x y e p in absurd (cc (same, zx, q))
    ]
  ]

module _ {A : Type 0} (name : A → Text) (check : A → Result ModelError (Unit {0})) where
  unfoldable pub by_name : Listing A
  unfolding text_lt
  by_name = record { name = name; before = λ (a b : A). text_lt (name a) (name b); check = check }

  -- The loop of a class over items in the order of their names lets them through exactly if each
  -- passes the check of one item, no two have the same name, and none has a name that sorts before
  -- that of an earlier one.
  pub by_name_iff :
      (entries : List A)
      → (check_listing by_name [] none entries ≡ ok tt) ↔ IsListing by_name entries
  unfolding by_name
  by_name_iff =
      check_listing_iff by_name
        λ x y z. order_keeps text_lt text_lt_trans text_lt_total (name x) (name y) (name z)

-- `(created_at, snapshot_uuid) < previous_created_uuid`
unfoldable pub pair_lt : Text × Text → Text × Text → Bool
unfolding text_lt text_eq
pair_lt (a, b) (c, d) = text_lt a c || (text_eq a c && text_lt b d)

pair_lt_cases :
    (p q : Text × Text)
    → pair_lt p q ≡ true
    → (text_lt p.0 q.0 ≡ true) ⊎ ((p.0 ≡ q.0) × (text_lt p.1 q.1 ≡ true))
unfolding pair_lt
pair_lt_cases (a, b) (c, d) h = elim (Bool-cases (text_lt a c)) [
  | inl e ↦ inl e
  | inr e ↦ elim (Bool-cases (text_eq a c)) [
    | inl same ↦ inr ((text_eq_iff a c).0 same, rw (e, same) at h)
    | inr other ↦ absurd (cc (rw (e, other) at h))
  ]
]

pair_lt_first : (a b c d : Text) → text_lt a c ≡ true → pair_lt (a, b) (c, d) ≡ true
unfolding pair_lt
pair_lt_first a b c d h = rw h refl

pair_lt_second : (a b d : Text) → text_lt b d ≡ true → pair_lt (a, b) (a, d) ≡ true
unfolding pair_lt
pair_lt_second a b d h = rw (text_lt_irrefl a, (text_eq_iff a a).1 refl, h) refl

pair_lt_trans : (p q r : Text × Text) → pair_lt p q ≡ true → pair_lt q r ≡ true → pair_lt p r ≡ true
pair_lt_trans (a, b) (c, d) (e, f) h k = elim (pair_lt_cases (a, b) (c, d) h) [
  | inl ac ↦ elim (pair_lt_cases (c, d) (e, f) k) [
    | inl ce ↦ pair_lt_first a b e f (text_lt_trans a c e ac ce)
    | inr (same, _) ↦ pair_lt_first a b e f (subst (λ (x : Text). text_lt a x ≡ true) same ac)
  ]
  | inr (same, bd) ↦ elim (pair_lt_cases (c, d) (e, f) k) [
    | inl ce ↦ pair_lt_first a b e f (subst (λ (x : Text). text_lt x e ≡ true) (sym same) ce)
    | inr (same2, df) ↦
        subst (λ (x : Text). pair_lt (a, b) (x, f) ≡ true) (same ∙ same2)
          (pair_lt_second a b f (text_lt_trans b d f bd df))
  ]
]

pair_lt_total : (p q : Text × Text) → pair_lt p q ≡ false → pair_lt q p ≡ false → p ≡ q
pair_lt_total (a, b) (c, d) h k = elim (Bool-cases (text_lt a c)) [
  | inl e ↦ absurd (cc (pair_lt_first a b c d e, h))
  | inr e ↦ elim (Bool-cases (text_lt c a)) [
    | inl e2 ↦ absurd (cc (pair_lt_first c d a b e2, k))
    | inr e2 ↦ same_first (text_lt_total a c e e2)
  ]
]
  where
    seconds : pair_lt (a, b) (a, d) ≡ false → pair_lt (a, d) (a, b) ≡ false → b ≡ d
    seconds h k = elim (Bool-cases (text_lt b d)) [
      | inl e ↦ absurd (cc (pair_lt_second a b d e, h))
      | inr e ↦ elim (Bool-cases (text_lt d b)) [
        | inl e2 ↦ absurd (cc (pair_lt_second a d b e2, k))
        | inr e2 ↦ text_lt_total b d e e2
      ]
    ]

    same_first : a ≡ c → ◌≡◌ {A = Text × Text} (a, b) (c, d)
    same_first e =
        ap₂ (λ x y. (x, y)) e
          (seconds (subst (λ (x : Text). pair_lt (a, b) (x, d) ≡ false) (sym e) h)
            (subst (λ (x : Text). pair_lt (x, d) (a, b) ≡ false) (sym e) k))

module _ {A : Type 0} (name : A → Text) (key : A → Text × Text)
    (check : A → Result ModelError (Unit {0})) where
  unfoldable pub by_key : Listing A
  unfolding pair_lt
  by_key = record { name = name; before = λ (a b : A). pair_lt (key a) (key b); check = check }

  pub by_key_iff :
      (entries : List A) → (check_listing by_key [] none entries ≡ ok tt) ↔ IsListing by_key entries
  unfolding by_key
  by_key_iff =
      check_listing_iff by_key
        λ x y z. order_keeps pair_lt pair_lt_trans pair_lt_total (key x) (key y) (key z)
