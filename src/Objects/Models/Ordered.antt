-- ===== src/Objects/Models/Ordered.antt =====
-- The loop of TreeObject, SnapshotIndexObject and the shard and index classes over their items:
-- each passes a check, none repeats a name and none sorts before the one that it follows.
pub mod Orders
use stopan.Prelude.{
  ◌≡◌, refl, ap, ◌↔◌, Bool, true, false, ◌||◌, List, [], ◌∷◌, Option, none, some, Text, text_eq,
  contains, All, Result, ok, err, ◌>>◌, raise_if, >>-eq-ok, raise_if-eq-ok,
}
use stopan.Objects.Models.Checks.{ModelError, repeated, unsorted}

||-eq-false : (a b : Bool) → (a || b) ≡ false → (a ≡ false) × (b ≡ false)
||-eq-false false b h = (refl, h)
||-eq-false true b h = cc

module _ {A : Type 0} (name : A → Text) where
  -- No two items share a name.
  abbrev pub AreDistinct : List A → Type 0
  AreDistinct [] = Unit
  AreDistinct (entry ∷ entries) =
      All (λ (other : A). text_eq (name other) (name entry) ≡ false) entries × AreDistinct entries

  abbrev pub AreFresh : List Text → List A → Type 0
  AreFresh names = All (λ (entry : A). contains (name entry) names ≡ false)

  pub AreFresh-cons :
      (entry : A) (names : List Text) (entries : List A)
      → AreFresh (name entry ∷ names) entries
      → AreFresh names entries
        × All (λ (other : A). text_eq (name other) (name entry) ≡ false) entries
  unfolding contains
  AreFresh-cons entry names [] f = (tt, tt)
  AreFresh-cons entry names (other ∷ entries) (f, fs) =
      let (g, d) = AreFresh-cons entry names entries fs in
      let parts = ||-eq-false _ _ f in ((parts.1, g), (parts.0, d))

  pub AreFresh-add :
      (entry : A) (names : List Text) (entries : List A)
      → AreFresh names entries
      → All (λ (other : A). text_eq (name other) (name entry) ≡ false) entries
      → AreFresh (name entry ∷ names) entries
  unfolding contains
  AreFresh-add entry names [] f d = tt
  AreFresh-add entry names (other ∷ entries) (f, fs) (d, ds) =
      (rw d f, AreFresh-add entry names entries fs ds)

  pub AreFresh-nil : (entries : List A) → AreFresh [] entries
  unfolding contains
  AreFresh-nil [] = tt
  AreFresh-nil (entry ∷ entries) = (refl, AreFresh-nil entries)

-- What a class compares: the name that must not repeat, the order, and the check of one item.
pub record Listing (A : Type 0) : Type 0 where
  pub name : A → Text
  pub before : A → A → Bool
  pub check : A → Result ModelError (Unit {0})

module _ {A : Type 0} (listing : Listing A) where
  abbrev is_before_previous : A → Option A → Bool
  is_before_previous entry none = false
  is_before_previous entry (some previous) = listing.before entry previous

  unfoldable pub check_listing : List Text → Option A → List A → Result ModelError (Unit {0})
  unfolding contains
  check_listing names previous [] = ok tt
  check_listing names previous (entry ∷ entries) = do
    listing.check entry
    raise_if (contains (listing.name entry) names) repeated
    raise_if (is_before_previous entry previous) unsorted
    check_listing (listing.name entry ∷ names) (some entry) entries

  -- No item sorts before one that stands earlier.
  abbrev pub AreSorted : List A → Type 0
  AreSorted [] = Unit
  AreSorted (entry ∷ entries) =
      All (λ (later : A). listing.before later entry ≡ false) entries × AreSorted entries

  abbrev ArePassed : List A → Type 0
  ArePassed = All (λ (entry : A). listing.check entry ≡ ok tt)

  abbrev ComeAfter : Option A → List A → Type 0
  ComeAfter previous = All (λ (entry : A). is_before_previous entry previous ≡ false)

  unfoldable pub IsListing : List A → Type 0
  IsListing entries = ArePassed entries × AreDistinct listing.name entries × AreSorted entries

  check_listing-accepts :
      (names : List Text) (previous : Option A) (entries : List A)
      → IsListing entries
      → AreFresh listing.name names entries
      → ComeAfter previous entries
      → check_listing names previous entries ≡ ok tt
  unfolding check_listing IsListing
  check_listing-accepts names previous [] l f c = refl
  check_listing-accepts names previous (entry ∷ entries) ((p, ps), (d, ds), (s, ss)) (f, fs)
        (c, cs) =
      rw (p, f, c)
        (check_listing-accepts (listing.name entry ∷ names) (some entry) entries (ps, ds, ss)
          (AreFresh-add listing.name entry names entries fs d) s)

  -- What sorts no earlier than an item sorts no earlier than what that item follows.
  module _
      (keeps : (x y z : A)
        → listing.before y x ≡ false
        → listing.before z y ≡ false
        → listing.before z x ≡ false) where
    ComeAfter-previous :
        (entry : A) (previous : Option A) (entries : List A)
        → is_before_previous entry previous ≡ false
        → ComeAfter (some entry) entries
        → ComeAfter previous entries
    ComeAfter-previous entry previous [] h c = tt
    ComeAfter-previous entry none (other ∷ entries) h (c, cs) =
        (refl, ComeAfter-previous entry none entries h cs)
    ComeAfter-previous entry (some x) (other ∷ entries) h (c, cs) =
        (keeps x entry other h c, ComeAfter-previous entry (some x) entries h cs)

    check_listing-accepted :
        (names : List Text) (previous : Option A) (entries : List A)
        → check_listing names previous entries ≡ ok tt
        → IsListing entries × AreFresh listing.name names entries × ComeAfter previous entries
    unfolding check_listing IsListing
    check_listing-accepted names previous [] h = ((tt, tt, tt), tt, tt)
    check_listing-accepted names previous (entry ∷ entries) h =
        let (p, h1) = >>-eq-ok (listing.check entry) _ h in
        let (f, h2) = >>-eq-ok (raise_if (contains (listing.name entry) names) repeated) _ h1 in
        let (c, h3) = >>-eq-ok (raise_if (is_before_previous entry previous) unsorted) _ h2 in
        let fresh = raise_if-eq-ok (contains (listing.name entry) names) repeated f in
        let after = raise_if-eq-ok (is_before_previous entry previous) unsorted c in
        let ((ps, ds, ss), fs, s) =
          check_listing-accepted (listing.name entry ∷ names) (some entry) entries h3 in
        let (gs, d) = AreFresh-cons listing.name entry names entries fs in
        (
          ((p, ps), (d, ds), (s, ss)),
          (fresh, gs),
          (after, ComeAfter-previous entry previous entries after s),
        )

    -- The loop of a class over its items lets them through exactly if each passes the check of one
    -- item, no two share a name, and no item sorts before one that stands earlier, where the order
    -- is such that what sorts no earlier than an item sorts no earlier than what that item follows.
    pub check_listing_iff :
        (entries : List A) → (check_listing [] none entries ≡ ok tt) ↔ IsListing entries
    check_listing_iff entries = (
      λ h. (check_listing-accepted [] none entries h).0,
      λ l.
          check_listing-accepts [] none entries l (AreFresh-nil listing.name entries)
            (all_after entries),
    )
      where
        all_after : (entries : List A) → ComeAfter none entries
        all_after [] = tt
        all_after (entry ∷ entries) = (refl, all_after entries)
