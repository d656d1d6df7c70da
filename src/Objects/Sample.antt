-- ===== src/Objects/Sample.antt =====
-- A store of two objects for the examples: a catalog that names a snapshot index twice.
use stopan.Prelude.{
  ℕ, ◌+◌, true, Option, none, some, List, [], ◌∷◌, ◌++◌, if◌then◌else◌, replicate, Text, Bytes,
  codes, text_eq, Dict,
}
use stopan.Protection.{pos}
use stopan.Objects.Json.{Value, string, integer, object, Fields, no_fields, field, get}
use stopan.Objects.Envelope.{Codec}

abbrev pub hash_of : ℕ → Text
hash_of n = replicate 63 b'0' ++ (48 + n) ∷ []

abbrev pub ref : Text → Fields → Fields
ref name rest =
    field name
      (object (
        field (codes "object_hash") (string (hash_of 2))
          (field (codes "object_type") (string (codes "snapshot_index")) no_fields)))
      rest

abbrev pub envelope : Text → Fields → Value
envelope object_type payload = object (
    field (codes "format") (string (codes "stopan.metadata_object")) (
      field (codes "object_type") (string object_type) (
        field (codes "payload") (object payload)
          (field (codes "version") (integer (pos 1)) no_fields))))

abbrev pub catalog_value : Value
catalog_value = envelope (codes "catalog") (ref (codes "a") (ref (codes "b") no_fields))

abbrev pub index_value : Value
index_value = envelope (codes "snapshot_index") no_fields

-- Bytes 1 are the catalog and bytes 2 the index.
abbrev pub toy_hexdigest : Bytes → Text
toy_hexdigest (n ∷ []) = hash_of n
toy_hexdigest _ = []

abbrev pub toy_loads : Bytes → Option Value
toy_loads b =
    if text_eq b (1 ∷ [])
    then some catalog_value
    else if text_eq b (2 ∷ [])
    then some index_value
    else none

abbrev pub byte_of : Option Value → Text
byte_of (some (string name)) = if text_eq name (codes "catalog") then 1 ∷ [] else 2 ∷ []
byte_of _ = []

abbrev pub toy_dumps : Value → Text
toy_dumps (object fields) = byte_of (get (codes "object_type") fields)
toy_dumps _ = []

abbrev pub toy_codec : Codec
toy_codec = record {
  hexdigest = toy_hexdigest;
  loads = toy_loads;
  dumps = toy_dumps;
  is_payload = λ _ _. true;
}

abbrev pub toy_read : Text → Option Bytes
toy_read h =
    if text_eq h (hash_of 1)
    then some (1 ∷ [])
    else if text_eq h (hash_of 2)
    then some (2 ∷ [])
    else none

abbrev pub found : List Text
found = hash_of 2 ∷ hash_of 1 ∷ []

abbrev pub found_bytes : Dict Bytes
found_bytes = (hash_of 1, 1 ∷ []) ∷ (hash_of 2, 2 ∷ []) ∷ []

abbrev pub catalog_hash : Text
catalog_hash = codes " " ++ hash_of 1
