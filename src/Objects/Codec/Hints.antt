-- ===== src/Objects/Codec/Hints.antt =====
-- `_decode_model_value`, `_decode_model_dataclass` and `_normalize_value` of
-- metadata/objects/codec.py on one field: the type hints of a class say which of these it uses.
use stopan.Prelude.{
  ◌≡◌, refl, Bool, true, false, List, [], ◌∷◌, Option, none, some, if◌then◌else◌, Text, contains,
  All, Result, ok, err, ◌>>=◌, raise_if, Ensures, raised, returned, Ensures->>=, Ensures-eq-ok,
  if-cases,
}
use stopan.Objects.Json.{
  Value, string, array, object, Items, no_items, item, Fields, no_fields, field, get,
}
use stopan.Objects.Kinds.{ObjectType, parse_type}
use stopan.Objects.Models.Checks.Laws.{IsOptional, optional_value}
use stopan.Objects.Models.Checks.{
  ModelError, not_list, not_dict, extra_field, missing_field, no_candidate, not_a_type, is_null,
}

-- `isinstance(payload, dict)`
unfoldable pub require_dict : Value → Result ModelError Fields
require_dict (object payload) = ok payload
require_dict _ = err not_dict

-- `set(payload) - allowed` has a member.
unfoldable pub has_extras : List Text → Fields → Bool
unfolding contains
has_extras allowed no_fields = false
has_extras allowed (field name value rest) =
    if contains name allowed then has_extras allowed rest else true

unfoldable pub reject_extras : List Text → Fields → Result ModelError (Unit {0})
unfolding has_extras
reject_extras allowed payload = raise_if (has_extras allowed payload) extra_field

-- A field with no default
unfoldable pub required : Text → Fields → Result ModelError Value
unfolding get
required name payload = elim (get name payload) [ none ↦ err missing_field | some value ↦ ok value ]

-- A field whose default is a value
unfoldable pub with_default : Value → Text → Fields → Value
unfolding get
with_default default name payload = elim (get name payload) [ none ↦ default | some value ↦ value ]

unfoldable pub decode_items :
    {A : Type 0} → (Value → Result ModelError A) → Items → Result ModelError (List A)
decode_items decode no_items = ok []
decode_items decode (item value rest) = do
  first ← decode value
  others ← decode_items decode rest
  ok (first ∷ others)

-- The hint `tuple[A, ...]`
unfoldable pub decode_tuple :
    {A : Type 0} → (Value → Result ModelError A) → Value → Result ModelError (List A)
unfolding decode_items
decode_tuple decode (array items) = decode_items decode items
decode_tuple decode _ = err not_list

-- The hint `A | None`, where A is a dataclass
unfoldable pub decode_union :
    {A : Type 0} → (Value → Result ModelError A) → Value → Result ModelError (Option A)
decode_union decode value =
    if is_null value
    then ok none
    else elim (decode value) [ err _ ↦ err no_candidate | ok a ↦ ok (some a) ]

-- The hint `MetadataObjectType`
unfoldable pub decode_object_type : Value → Result ModelError ObjectType
unfolding parse_type
decode_object_type (string text) = elim (parse_type text) [
  | none ↦ err not_a_type
  | some object_type ↦ ok object_type
]
decode_object_type _ = err not_a_type

-- The dictionary of a class's fields and their values
unfoldable pub dict_of : List Text → List Value → Fields
dict_of [] values = no_fields
dict_of (name ∷ names) [] = no_fields
dict_of (name ∷ names) (value ∷ values) = field name value (dict_of names values)

-- `[_normalize_value(item) for item in value]`
unfoldable pub normalize_items : {A : Type 0} → (A → Value) → List A → Items
normalize_items normalize [] = no_items
normalize_items normalize (a ∷ l) = item (normalize a) (normalize_items normalize l)

pub decode_tuple-Ensures :
    {A : Type 0} {P : A → Type 0} (decode : Value → Result ModelError A)
    → ((v : Value) → Ensures P (decode v))
    → (v : Value) → Ensures (All P) (decode_tuple decode v)
unfolding decode_tuple
decode_tuple-Ensures {A} {P} decode sound (array items) = each items
  where
    each : (l : Items) → Ensures (All P) (decode_items decode l)
    each no_items = returned tt
    each (item v rest) =
        Ensures->>= (sound v) λ a p. Ensures->>= (each rest) λ others ps. returned (p, ps)
decode_tuple-Ensures decode sound Value.null = raised
decode_tuple-Ensures decode sound (Value.boolean x) = raised
decode_tuple-Ensures decode sound (Value.integer x) = raised
decode_tuple-Ensures decode sound (Value.real x) = raised
decode_tuple-Ensures decode sound (string x) = raised
decode_tuple-Ensures decode sound (object x) = raised

pub decode_tuple-normalize_items :
    {A : Type 0} {P : A → Type 0} (decode : Value → Result ModelError A) (normalize : A → Value)
    → ((a : A) → P a → decode (normalize a) ≡ ok a)
    → (l : List A) → All P l
    → decode_tuple decode (array (normalize_items normalize l)) ≡ ok l
unfolding decode_tuple decode_items normalize_items
decode_tuple-normalize_items decode normalize back [] p = refl
decode_tuple-normalize_items decode normalize back (a ∷ l) (p, ps) =
    rw (back a p, decode_tuple-normalize_items decode normalize back l ps) refl

pub decode_union-IsOptional :
    {A : Type 0} {P : A → Type 0} (decode : Value → Result ModelError A)
    → ((v : Value) → Ensures P (decode v))
    → (v : Value) → Ensures (IsOptional P) (decode_union decode v)
unfolding decode_union
decode_union-IsOptional {A} {P} decode sound v =
    if-cases (Ensures {E = ModelError} (IsOptional P)) (is_null v) (λ _. returned tt)
      (λ _. converted (decode v) (sound v))
  where
    converted :
        (r : Result ModelError A)
        → Ensures P r
        → Ensures {E = ModelError}
            (IsOptional P)
            (elim r [ err _ ↦ err no_candidate | ok a ↦ ok (some a) ])
    converted (err e) h = raised
    converted (ok a) h = returned (Ensures-eq-ok h refl)

pub decode_union-optional_value :
    {A : Type 0} {P : A → Type 0} (decode : Value → Result ModelError A) (normalize : A → Value)
    → ((a : A) → is_null (normalize a) ≡ false)
    → ((a : A) → P a → decode (normalize a) ≡ ok a)
    → (o : Option A) → IsOptional P o
    → decode_union decode (optional_value normalize o) ≡ ok o
unfolding decode_union
decode_union-optional_value decode normalize there back none p = refl
decode_union-optional_value decode normalize there back (some a) p = rw (there a, back a p) refl
