-- ===== src/Objects/Codec/Refs.antt =====
-- The payload of a reference to an object, and what the decoders of the classes share.
use stopan.Prelude.{
  All, ◌≡◌, refl, false, List, [], ◌∷◌, Option, none, some, Text, codes, text_eq, contains, Result,
  ok, ◌>>=◌, ◌>>◌, Ensures, Ensures->>=, Ensures-any,
}
use stopan.Objects.Json.{Value, string, object, Fields, no_fields, field, get, has_key}
use stopan.Objects.Kinds.{ObjectType, type_value, parse_type-type_value}
use stopan.Objects.Models.Checks.{ModelError, Numbers, is_null}
use stopan.Objects.Models.Checks.Laws.{IsOptional, optional_value, Ensures-check}
use stopan.Objects.Models.Trees.{ObjectRef, new_object_ref, IsObjectRef, IsRefTo}
use stopan.Objects.Models.Trees.Laws.{new_object_ref-IsObjectRef, new_object_ref_valid}
use stopan.Objects.Codec.Hints.{
  decode_tuple, decode_tuple-Ensures, decode_union-IsOptional, require_dict, has_extras,
  reject_extras, required, decode_union, decode_object_type, decode_union-optional_value,
}
use stopan.Objects.Codec.Equality.{IsPlain}

unfoldable pub object_ref_value : ObjectRef → Value
unfolding type_value
object_ref_value ref = object (
    field (codes "object_type") (string (type_value ref.object_type))
      (field (codes "object_hash") (string ref.object_hash) no_fields))

unfoldable pub decode_object_ref : Value → Result ModelError ObjectRef
unfolding require_dict reject_extras required decode_object_type new_object_ref
decode_object_ref value = do
  payload ← require_dict value
  reject_extras (codes "object_type" ∷ codes "object_hash" ∷ []) payload
  object_type ← required (codes "object_type") payload
  object_type ← decode_object_type object_type
  object_hash ← required (codes "object_hash") payload
  new_object_ref object_type object_hash

pub decode_object_ref-IsObjectRef : (v : Value) → Ensures IsObjectRef (decode_object_ref v)
unfolding decode_object_ref
decode_object_ref-IsObjectRef v = Ensures->>= (Ensures-any (require_dict v)) λ p _.
    Ensures-check (reject_extras (codes "object_type" ∷ codes "object_hash" ∷ []) p) λ _.
      Ensures->>= (Ensures-any (required (codes "object_type") p)) λ t _.
        Ensures->>= (Ensures-any (decode_object_type t)) λ t _.
          Ensures->>= (Ensures-any (required (codes "object_hash") p))
            λ h _. new_object_ref-IsObjectRef t h

decode_object_type-type_value : (t : ObjectType) → decode_object_type (string (type_value t)) ≡ ok t
unfolding decode_object_type
decode_object_type-type_value t = rw (parse_type-type_value t, decode_object_type) refl

pub decode_object_ref-object_ref_value :
    (ref : ObjectRef) → IsObjectRef ref → decode_object_ref (object_ref_value ref) ≡ ok ref
unfolding decode_object_ref object_ref_value require_dict reject_extras has_extras required get
    contains text_eq
decode_object_ref-object_ref_value ref h =
    rw (decode_object_type-type_value ref.object_type) (new_object_ref_valid ref h)

-- A field that is there, and the fields that are not allowed: what they hold plays no part.
module _ {A : Type 0} {P : A → Type 0} where
  pub Ensures-required :
      (name : Text) (payload : Fields) {next : Value → Result ModelError A}
      → ((v : Value) → Ensures P (next v))
      → Ensures P (required name payload >>= next)
  Ensures-required name payload h = Ensures->>= (Ensures-any (required name payload)) λ v _. h v

  pub Ensures-dataclass :
      (v : Value) (allowed : List Text) {next : Fields → Result ModelError A}
      → ((payload : Fields) → Ensures P (next payload))
      → Ensures P (require_dict v >>= λ payload. (reject_extras allowed payload >> next payload))
  Ensures-dataclass v allowed h =
      Ensures->>= (Ensures-any (require_dict v))
        λ p _. Ensures-check (reject_extras allowed p) λ _. h p

  pub Ensures-decode_object_ref :
      (v : Value) {next : ObjectRef → Result ModelError A}
      → ((ref : ObjectRef) → IsObjectRef ref → Ensures P (next ref))
      → Ensures P (decode_object_ref v >>= next)
  Ensures-decode_object_ref v h = Ensures->>= (decode_object_ref-IsObjectRef v) h

  pub Ensures-decode_union :
      (v : Value) {next : Option ObjectRef → Result ModelError A}
      → ((o : Option ObjectRef) → IsOptional IsObjectRef o → Ensures P (next o))
      → Ensures P (decode_union decode_object_ref v >>= next)
  Ensures-decode_union v h =
      Ensures->>= (decode_union-IsOptional decode_object_ref decode_object_ref-IsObjectRef v) h

  pub Ensures-decode_tuple :
      {B : Type 0} {Q : B → Type 0} (decode : Value → Result ModelError B)
      (sound : (w : Value) → Ensures Q (decode w)) (v : Value) {next : List B → Result ModelError A}
      → ((l : List B) → All Q l → Ensures P (next l))
      → Ensures P (decode_tuple decode v >>= next)
  Ensures-decode_tuple decode sound v h = Ensures->>= (decode_tuple-Ensures decode sound v) h

object_ref_value_is_there : (ref : ObjectRef) → is_null (object_ref_value ref) ≡ false
unfolding object_ref_value
object_ref_value_is_there ref = refl

is_ref_of :
    (t : ObjectType) (o : Option ObjectRef) → IsOptional (IsRefTo t) o → IsOptional IsObjectRef o
is_ref_of t none h = tt
is_ref_of t (some ref) h = h.0

pub decode_union-object_ref_value :
    (t : ObjectType) (o : Option ObjectRef)
    → IsOptional (IsRefTo t) o
    → decode_union decode_object_ref (optional_value object_ref_value o) ≡ ok o
decode_union-object_ref_value t o h =
    decode_union-optional_value decode_object_ref object_ref_value object_ref_value_is_there
      decode_object_ref-object_ref_value o (is_ref_of t o h)

pub object_ref_value-IsPlain :
    (numbers : Numbers) (ref : ObjectRef) → IsPlain numbers (object_ref_value ref)
unfolding object_ref_value IsPlain has_key text_eq
object_ref_value-IsPlain numbers ref = (refl, tt, (refl, tt, tt))

pub optional-object_ref_value-IsPlain :
    (numbers : Numbers) (o : Option ObjectRef) → IsPlain numbers (optional_value object_ref_value o)
unfolding IsPlain
optional-object_ref_value-IsPlain numbers none = tt
optional-object_ref_value-IsPlain numbers (some ref) = object_ref_value-IsPlain numbers ref
