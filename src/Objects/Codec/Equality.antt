-- ===== src/Objects/Codec/Equality.antt =====
-- `normalized != payload` of metadata/objects/codec.py: Python's equality of JSON values, where
-- the equality of two numbers is a parameter.
use stopan.Prelude.{
  ℕ, suc, ◌==◌, ◌≡◌, refl, ap, ◌∙◌, subst, ==_iff, Bool, true, false, ◌&&◌, List, [], ◌∷◌, Option,
  none, some, Text, text_eq, text_eq_iff, All, Bool-cases, inl, inr,
}
use stopan.Objects.Json.{
  Value, null, boolean, integer, real, string, array, object, Items, no_items, item, Fields,
  no_fields, field, get, has_key,
}
use stopan.Protection.{ℤ}
use stopan.Objects.Models.Checks.{Numbers, Number, whole, decimal}
use stopan.Objects.Models.Checks.Laws.{IsNumber, IsOptional, number_value, optional_value}
use stopan.Objects.Codec.Hints.{normalize_items}

-- `len(value)` of a dictionary
unfoldable pub count : Fields → ℕ
count no_fields = 0
count (field name value rest) = suc (count rest)

unfoldable mutual
  unfolding text_eq get count

  pub value_eq : Numbers → Value → Value → Bool
  value_eq numbers null null = true
  value_eq numbers (string s) (string t) = text_eq s t
  value_eq numbers (array xs) (array ys) = items_eq numbers xs ys
  value_eq numbers (object f) (object g) = (count f == count g) && fields_within numbers f g
  value_eq numbers (boolean a) (boolean b) = numbers.number_eq (boolean a) (boolean b)
  value_eq numbers (boolean a) (integer b) = numbers.number_eq (boolean a) (integer b)
  value_eq numbers (boolean a) (real b) = numbers.number_eq (boolean a) (real b)
  value_eq numbers (integer a) (boolean b) = numbers.number_eq (integer a) (boolean b)
  value_eq numbers (integer a) (integer b) = numbers.number_eq (integer a) (integer b)
  value_eq numbers (integer a) (real b) = numbers.number_eq (integer a) (real b)
  value_eq numbers (real a) (boolean b) = numbers.number_eq (real a) (boolean b)
  value_eq numbers (real a) (integer b) = numbers.number_eq (real a) (integer b)
  value_eq numbers (real a) (real b) = numbers.number_eq (real a) (real b)
  value_eq numbers _ _ = false

  pub items_eq : Numbers → Items → Items → Bool
  items_eq numbers no_items no_items = true
  items_eq numbers (item x xs) (item y ys) = value_eq numbers x y && items_eq numbers xs ys
  items_eq numbers _ _ = false

  pub fields_within : Numbers → Fields → Fields → Bool
  fields_within numbers no_fields g = true
  fields_within numbers (field name value rest) g = elim (get name g) [
    | none ↦ false
    | some other ↦ value_eq numbers value other && fields_within numbers rest g
  ]

-- A value that equals itself: no name stands twice in a dictionary, and a real number is finite.
unfoldable mutual
  unfolding has_key

  pub IsPlain : Numbers → Value → Type 0
  IsPlain numbers (real text) = numbers.is_finite text ≡ true
  IsPlain numbers (array values) = ArePlain numbers values
  IsPlain numbers (object payload) = AreFields numbers payload
  IsPlain numbers _ = Unit

  pub ArePlain : Numbers → Items → Type 0
  ArePlain numbers no_items = Unit
  ArePlain numbers (item value rest) = IsPlain numbers value × ArePlain numbers rest

  pub AreFields : Numbers → Fields → Type 0
  AreFields numbers no_fields = Unit
  AreFields numbers (field name value rest) =
      (has_key name rest ≡ false) × IsPlain numbers value × AreFields numbers rest

-- A boolean, an integer and a finite real number equal themselves.
pub record IsReflexive (numbers : Numbers) : Type 0 where
  pub booleans : (b : Bool) → numbers.number_eq (boolean b) (boolean b) ≡ true
  pub integers : (z : ℤ) → numbers.number_eq (integer z) (integer z) ≡ true
  pub reals : (t : Text) → numbers.is_finite t ≡ true → numbers.number_eq (real t) (real t) ≡ true

has_key-get : (k : Text) (f : Fields) {v : Value} → get k f ≡ some v → has_key k f ≡ true
unfolding has_key get
has_key-get k no_fields h = cc
has_key-get k (field name value rest) h = elim (Bool-cases (text_eq name k)) [
  | inl e ↦ rw e refl
  | inr e ↦ rw e (has_key-get k rest (rw e at h))
]

-- What one dictionary holds, the other holds.
Extends : Fields → Fields → Type 0
Extends f g = (k : Text) (v : Value) → get k f ≡ some v → get k g ≡ some v

Extends-self : (f : Fields) → Extends f f
unfolding Extends
Extends-self f k v h = h

Extends-rest :
    (name : Text) (value : Value) (rest g : Fields)
    → has_key name rest ≡ false
    → Extends (field name value rest) g
    → Extends rest g
unfolding Extends get
Extends-rest name value rest g fresh e k v h = elim (Bool-cases (text_eq name k)) [
  | inl same ↦ absurd (clash ((text_eq_iff name k).0 same))
  | inr other ↦ e k v (rw other h)
]
  where
    clash : name ≡ k → ⊥
    clash same = cc (has_key-get k rest h, subst (λ (x : Text). has_key x rest ≡ false) same fresh)

Extends-head :
    (name : Text) (value : Value) (rest g : Fields)
    → Extends (field name value rest) g
    → get name g ≡ some value
unfolding Extends get
Extends-head name value rest g e = e name value (rw ((text_eq_iff name name).1 refl) refl)

fields_within-field :
    (numbers : Numbers) (name : Text) (value other : Value) (rest g : Fields)
    → get name g ≡ some other
    → fields_within numbers (field name value rest) g
      ≡ (value_eq numbers value other && fields_within numbers rest g)
unfolding fields_within
fields_within-field numbers name value other rest g h =
    ap
      (λ (o : Option Value). elim o as (λ _. Bool) [
        | none ↦ false
        | some found ↦ value_eq numbers value found && fields_within numbers rest g
      ])
      h

module _ (numbers : Numbers) (r : IsReflexive numbers) where
  mutual
    unfolding value_eq IsPlain text_eq count

    pub value_eq_refl : (v : Value) → IsPlain numbers v → value_eq numbers v v ≡ true
    value_eq_refl null p = refl
    value_eq_refl (boolean b) p = r.booleans b
    value_eq_refl (integer z) p = r.integers z
    value_eq_refl (real t) p = r.reals t p
    value_eq_refl (string t) p = (text_eq_iff t t).1 refl
    value_eq_refl (array values) p = items_eq_refl values p
    value_eq_refl (object payload) p =
        rw ((==_iff (count payload) (count payload)).1 refl)
          (fields_within_refl payload payload p (Extends-self payload))

    items_eq_refl : (l : Items) → ArePlain numbers l → items_eq numbers l l ≡ true
    items_eq_refl no_items p = refl
    items_eq_refl (item v rest) (p, ps) = rw (value_eq_refl v p) (items_eq_refl rest ps)

    fields_within_refl :
        (f g : Fields) → AreFields numbers f → Extends f g → fields_within numbers f g ≡ true
    fields_within_refl no_fields g p e = refl
    fields_within_refl (field name value rest) g (fresh, p, ps) e =
        fields_within-field numbers name value value rest g (Extends-head name value rest g e)
        ∙ rw (value_eq_refl value p)
            (fields_within_refl rest g ps (Extends-rest name value rest g fresh e))

pub number_value-IsPlain :
    (numbers : Numbers) (b : Bool) (n : Number)
    → IsNumber numbers b n
    → IsPlain numbers (number_value n)
unfolding IsPlain
number_value-IsPlain numbers b (whole z) h = tt
number_value-IsPlain numbers b (decimal t) h = h.0

pub string-IsPlain :
    (numbers : Numbers) (o : Option Text) → IsPlain numbers (optional_value string o)
unfolding IsPlain
string-IsPlain numbers none = tt
string-IsPlain numbers (some t) = tt

pub optional-number_value-IsPlain :
    (numbers : Numbers) (o : Option Number)
    → IsOptional (IsNumber numbers true) o
    → IsPlain numbers (optional_value number_value o)
unfolding IsPlain
optional-number_value-IsPlain numbers none h = tt
optional-number_value-IsPlain numbers (some n) h = number_value-IsPlain numbers true n h

pub normalize_items-ArePlain :
    {A : Type 0} {P : A → Type 0} (numbers : Numbers) (normalize : A → Value)
    → ((a : A) → P a → IsPlain numbers (normalize a))
    → (l : List A) → All P l
    → ArePlain numbers (normalize_items normalize l)
unfolding normalize_items IsPlain
normalize_items-ArePlain numbers normalize plain [] p = tt
normalize_items-ArePlain numbers normalize plain (a ∷ l) (p, ps) =
    (plain a p, normalize_items-ArePlain numbers normalize plain l ps)
