-- ===== src/Objects/Envelope.antt =====
-- `decode_object_envelope` and `iter_object_refs` of metadata/objects/graph/walk.py.
-- BLAKE3, `json.loads`, `json.dumps` and the check of a payload against its dataclass
-- (`decode_metadata_object_payload`, which Codec.Encoding fills in) are parameters.
use stopan.Prelude.{
  Bool, false, not, ◌&&◌, ◌||◌, ◌==◌, Option, none, some, if◌then◌else◌, all, length, Text, Bytes,
  codes, text_eq, strip, Result, ok, err, ◌>>=◌, ◌>>◌, raise_if,
}
use stopan.Placement.{utf8}
use stopan.Protection.{pos}
use stopan.Erasure.Models.{is_hex_lower}
use stopan.Objects.Json.{
  Value, string, integer, object, array, Items, no_items, item, Fields, no_fields, field, get,
  has_key,
}
use stopan.Objects.Kinds.{ObjectType, parse_type, object_format, object_version}

pub data WalkError : Type 0 where
  not_str invalid_hash hash_mismatch invalid_json not_an_envelope not_canonical : WalkError
  invalid_format invalid_version unsupported_type invalid_payload : WalkError
  incomplete_ref : WalkError
  type_mismatch incompatible_types unreadable : WalkError

-- `_require_hash64`
unfoldable pub require_hash64 : Text → Result WalkError Text
unfolding is_hex_lower strip
require_hash64 value =
    let text = strip value in
    do raise_if (not (length text == 64 && all is_hex_lower text)) invalid_hash; ok text

-- The same for a value that need not be there or be a text.
unfoldable pub require_hash64_of : Option Value → Result WalkError Text
unfolding require_hash64
require_hash64_of (some (string text)) = require_hash64 text
require_hash64_of _ = err not_str

-- `MetadataObjectType(str(value))`: no type is spelled like a value that is not a text.
unfoldable pub type_of_text : Option Value → Option ObjectType
unfolding parse_type
type_of_text (some (string text)) = parse_type text
type_of_text _ = none

unfoldable pub has_format : Option Value → Bool
has_format (some (string text)) = text_eq text object_format
has_format _ = false

unfoldable pub has_version : Option Value → Bool
has_version (some (integer (pos n))) = n == object_version
has_version _ = false

unfoldable pub require_type : Option Value → Result WalkError ObjectType
unfolding type_of_text
require_type value = elim (type_of_text value) [
  | none ↦ err unsupported_type
  | some object_type ↦ ok object_type
]

unfoldable pub require_payload : Option Value → Result WalkError Fields
require_payload (some (object fields)) = ok fields
require_payload _ = err invalid_payload

unfoldable pub require_envelope : Option Value → Result WalkError Fields
require_envelope none = err invalid_json
require_envelope (some (object fields)) = ok fields
require_envelope (some _) = err not_an_envelope

pub record Codec : Type 0 where
  pub hexdigest : Bytes → Text
  pub loads : Bytes → Option Value
  pub dumps : Value → Text
  pub is_payload : ObjectType → Fields → Bool

-- `canonical_json_bytes` of common/json.py
unfoldable pub canonical_json_bytes : Codec → Value → Bytes
unfolding utf8
canonical_json_bytes codec value = utf8 (codec.dumps value)

-- `if expected_hash is not None: ...`
unfoldable pub check_hash : Option Text → Text → Result WalkError (Unit {0})
unfolding require_hash64 text_eq
check_hash none calculated = ok tt
check_hash (some expected) calculated = do
  expected_hash ← require_hash64 expected
  raise_if (not (text_eq calculated expected_hash)) hash_mismatch

unfoldable pub decode_object_envelope :
    Codec → Bytes → Option Text → Result WalkError (ObjectType × Fields)
unfolding check_hash require_envelope canonical_json_bytes text_eq get has_format has_version
    require_type require_payload
decode_object_envelope codec canonical_bytes expected_hash = do
  check_hash expected_hash (codec.hexdigest canonical_bytes)
  envelope ← require_envelope (codec.loads canonical_bytes)
  raise_if (not (text_eq (canonical_json_bytes codec (object envelope)) canonical_bytes))
      not_canonical
  raise_if (not (has_format (get (codes "format") envelope))) invalid_format
  raise_if (not (has_version (get (codes "version") envelope))) invalid_version
  object_type ← require_type (get (codes "object_type") envelope)
  payload ← require_payload (get (codes "payload") envelope)
  raise_if (not (codec.is_payload object_type payload)) invalid_payload
  ok (object_type, payload)

-- What a generator does: it yields a reference and goes on, ends, or raises.
pub data Refs : Type 0 where
  ended : Refs
  raised : WalkError → Refs
  yielded : ObjectType → Text → Refs → Refs

-- `yield from first`, then the rest
unfoldable pub then_refs : Refs → Refs → Refs
then_refs ended rest = rest
then_refs (raised e) rest = raised e
then_refs (yielded object_type object_hash more) rest =
    yielded object_type object_hash (then_refs more rest)

unfoldable pub ref_type : Option Value → Result WalkError ObjectType
unfolding parse_type
ref_type (some (string text)) = elim (parse_type text) [
  | none ↦ err unsupported_type
  | some object_type ↦ ok object_type
]
ref_type _ = err not_str

-- The part of `iter_object_refs` on a dictionary that looks at the dictionary itself.
unfoldable pub own_ref : Fields → Refs
unfolding get has_key ref_type require_hash64_of
own_ref fields =
    let has_object_type = has_key (codes "object_type") fields in
    let has_object_hash = has_key (codes "object_hash") fields in
    if not (has_object_type || has_object_hash)
    then ended
    else if not (has_object_type && has_object_hash)
    then raised incomplete_ref
    else elim (ref_type (get (codes "object_type") fields)) [
      | err e ↦ raised e
      | ok resolved_type ↦ elim (require_hash64_of (get (codes "object_hash") fields)) [
        | err e ↦ raised e
        | ok object_hash ↦ yielded resolved_type object_hash ended
      ]
    ]

unfoldable mutual
  unfolding own_ref then_refs

  pub iter_object_refs : Value → Refs
  iter_object_refs (object fields) = then_refs (own_ref fields) (refs_of_fields fields)
  iter_object_refs (array items) = refs_of_items items
  iter_object_refs _ = ended

  pub refs_of_items : Items → Refs
  refs_of_items no_items = ended
  refs_of_items (item value rest) = then_refs (iter_object_refs value) (refs_of_items rest)

  pub refs_of_fields : Fields → Refs
  refs_of_fields no_fields = ended
  refs_of_fields (field name value rest) = then_refs (iter_object_refs value) (refs_of_fields rest)
