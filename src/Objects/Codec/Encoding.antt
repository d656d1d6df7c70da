-- ===== src/Objects/Codec/Encoding.antt =====
-- `encode_metadata_object` and `canonical_state_digest` of metadata/objects/codec.py, and the
-- check of a payload that `decode_object_envelope` of graph/walk.py makes by this decoder.
-- BLAKE3, `json.loads` and `json.dumps` are parameters.
use mathlib.Core.Logic.{∥∥₁_elim}
use mathlib.Core.List.{Perm, Permᴰ}
use stopan.Prelude.{
  sym, some, none, raised, Bool-cases, text_eq_iff, ℕ, inl, inr, ◌≡◌, refl, ap, ◌∙◌, Bool, true,
  false, not, List, [], ◌∷◌, Option, length, Text, Bytes, codes, text_eq, text_lt, text_lt_irrefl,
  text_lt_trans, text_lt_total, Result, ok, err, Result-cases, Ensures, returned, Ensures->>=,
  Ensures-any, Ensures-raise_if, Ensures-eq-ok, ◌>>=◌, arith,
}
use stopan.Protection.{pos}
use stopan.Sorting.{insert_by, sort_by}
use stopan.Objects.Json.{Value, string, integer, array, object, Fields, get}
use stopan.Objects.Kinds.{ObjectType, type_value, object_format, object_version}
use stopan.Objects.Envelope.{
  require_hash64, WalkError, Codec, canonical_json_bytes, check_hash, require_envelope, has_format,
  has_version, require_type, require_payload, decode_object_envelope, not_canonical, invalid_format,
  invalid_version, invalid_payload,
}
use stopan.Objects.Models.Checks.{Numbers}
use stopan.Objects.Models.Checks.Laws.{not-eq-false}
use stopan.Objects.Codec.Hints.{dict_of, normalize_items}
use stopan.Objects.Codec.Payloads.{
  MetadataObject, metadata_type, object_payload, IsMetadataObject, decode_metadata_object_payload,
}
use stopan.Objects.Codec.Payloads.Valid.{decode_metadata_object_payload-IsMetadataObject}

unfoldable pub object_envelope : MetadataObject → Value
unfolding dict_of type_value metadata_type object_payload
object_envelope obj = object (
    dict_of (codes "format" ∷ codes "version" ∷ codes "object_type" ∷ codes "payload" ∷ []) (
      string object_format
      ∷ integer (pos object_version)
      ∷ string (type_value (metadata_type obj))
      ∷ object (object_payload obj)
      ∷ []))

pub record EncodedMetadataObject : Type 0 where
  pub object_type : ObjectType
  pub object_hash : Text
  pub canonical_bytes : Bytes

-- The property `size`
abbrev pub encoded_size : EncodedMetadataObject → ℕ
encoded_size encoded = length encoded.canonical_bytes

unfoldable pub canonical_object_bytes : Codec → MetadataObject → Bytes
unfolding canonical_json_bytes object_envelope
canonical_object_bytes codec obj = canonical_json_bytes codec (object_envelope obj)

unfoldable pub encode_metadata_object : Codec → MetadataObject → EncodedMetadataObject
unfolding canonical_object_bytes metadata_type
encode_metadata_object codec obj =
    let canonical = canonical_object_bytes codec obj in
    record {
      object_type = metadata_type obj;
      object_hash = codec.hexdigest canonical;
      canonical_bytes = canonical;
    }

unfoldable pub canonical_state_digest : Codec → Text → List Text → Text
unfolding dict_of normalize_items sort_by text_lt canonical_json_bytes
canonical_state_digest codec catalog_hash object_hashes = codec.hexdigest (
    canonical_json_bytes codec (
      object (
        dict_of (codes "catalog_hash" ∷ codes "object_hashes" ∷ []) (
          string catalog_hash
          ∷ array (normalize_items string (sort_by text_lt object_hashes))
          ∷ []))))

insert_by_comm :
    (x y : Text) (l : List Text)
    → insert_by text_lt x (insert_by text_lt y l) ≡ insert_by text_lt y (insert_by text_lt x l)
unfolding insert_by
insert_by_comm x y [] = ground (arith, text_lt_total x y, text_lt_trans x y x, text_lt_irrefl x)
insert_by_comm x y (z ∷ l) = ground (
  arith,
  text_lt_total x y,
  text_lt_trans x y x,
  text_lt_irrefl x,
  text_lt_trans x y z,
  text_lt_trans y x z,
  insert_by_comm x y l,
)

sort_by-permᴰ : {xs ys : List Text} → Permᴰ xs ys → sort_by text_lt xs ≡ sort_by text_lt ys
unfolding sort_by
sort_by-permᴰ Permᴰ.nil = refl
sort_by-permᴰ (Permᴰ.cons {b = b} {l₁ = l₁} e p) =
    ap (λ x. insert_by text_lt x (sort_by text_lt l₁)) e
    ∙ ap (insert_by text_lt b) (sort_by-permᴰ p)
sort_by-permᴰ (Permᴰ.swap {a' = a'} {b' = b'} {l = l} e f) =
    rw (e, f) (insert_by_comm b' a' (sort_by text_lt l))
sort_by-permᴰ (Permᴰ.trans p q) = sort_by-permᴰ p ∙ sort_by-permᴰ q

texts-IsSet : IsSet (List Text)
texts-IsSet = hlevel

-- The digest of a state does not depend on the order in which its objects are named.
pub canonical_state_digest-perm :
    (codec : Codec) (catalog_hash : Text) (xs ys : List Text)
    → Perm xs ys
    → canonical_state_digest codec catalog_hash xs ≡ canonical_state_digest codec catalog_hash ys
unfolding canonical_state_digest
canonical_state_digest-perm codec catalog_hash xs ys p =
    ap
      (λ l. codec.hexdigest (
        canonical_json_bytes codec (
          object (
            dict_of (codes "catalog_hash" ∷ codes "object_hashes" ∷ [])
              (string catalog_hash ∷ array (normalize_items string l) ∷ [])))))
      (∥∥₁_elim p (texts-IsSet _ _) sort_by-permᴰ)

-- Whether `decode_metadata_object_payload` returns.
unfoldable pub is_model_payload : Numbers → ObjectType → Fields → Bool
unfolding decode_metadata_object_payload
is_model_payload numbers object_type payload =
    elim (decode_metadata_object_payload numbers object_type payload) [
      | err e ↦ false
      | ok obj ↦ true
    ]

abbrev pub model_codec : Numbers → (Bytes → Text) → (Bytes → Option Value) → (Value → Text) → Codec
model_codec numbers hexdigest loads dumps = record {
  hexdigest = hexdigest;
  loads = loads;
  dumps = dumps;
  is_payload = is_model_payload numbers;
}

is_model_payload-returns :
    (numbers : Numbers) (t : ObjectType) (payload : Fields)
    → is_model_payload numbers t payload ≡ true
    → (obj : MetadataObject) × (decode_metadata_object_payload numbers t payload ≡ ok obj)
unfolding is_model_payload
is_model_payload-returns numbers t payload h =
    elim (Result-cases (decode_metadata_object_payload numbers t payload)) [
      | inl (e, r) ↦ cc (h, r)
      | inr (obj, r) ↦ (obj, r)
    ]

Ensures-step :
    {A B : Type 0} {P : B → Type 0} (first : Result WalkError A) {next : A → Result WalkError B}
    → ((a : A) → Ensures P (next a))
    → Ensures P (first >>= next)
Ensures-step first h = Ensures->>= (Ensures-any first) λ a _. h a

-- The bytes have the digest that is expected, if one is.
abbrev pub HasDigest : Option Text → Text → Type 0
HasDigest none calculated = Unit
HasDigest (some expected) calculated = require_hash64 expected ≡ ok calculated

check_hash-HasDigest :
    (expected : Option Text) (calculated : Text)
    → Ensures (λ _. HasDigest expected calculated) (check_hash expected calculated)
unfolding check_hash
check_hash-HasDigest none calculated = returned tt
check_hash-HasDigest (some expected) calculated = elim (Result-cases (require_hash64 expected)) [
  | inl (e, h) ↦ rw h raised
  | inr (hash, h) ↦ elim (Bool-cases (text_eq calculated hash)) [
    | inl same ↦ rw (h, same) (returned (ap ok (sym ((text_eq_iff calculated hash).0 same))))
    | inr other ↦ rw (h, other) raised
  ]
]

require_envelope-eq :
    (value : Option Value) → Ensures (λ e. value ≡ some (object e)) (require_envelope value)
unfolding require_envelope
require_envelope-eq none = raised
require_envelope-eq (some (object e)) = returned refl
require_envelope-eq (some Value.null) = raised
require_envelope-eq (some (Value.boolean _)) = raised
require_envelope-eq (some (integer _)) = raised
require_envelope-eq (some (Value.real _)) = raised
require_envelope-eq (some (string _)) = raised
require_envelope-eq (some (array _)) = raised

-- The bytes are the canonical form of an object that they are read as.
abbrev pub AreCanonical : Codec → Bytes → Type 0
AreCanonical codec b =
    (e : Fields) × (codec.loads b ≡ some (object e)) × (canonical_json_bytes codec (object e) ≡ b)

decode_object_envelope-AreCanonical :
    (codec : Codec) (b : Bytes) (expected : Option Text)
    → Ensures
        (λ (r : ObjectType × Fields).
          (codec.is_payload r.0 r.1 ≡ true)
          × HasDigest expected (codec.hexdigest b)
          × AreCanonical codec b)
        (decode_object_envelope codec b expected)
unfolding decode_object_envelope
decode_object_envelope-AreCanonical codec b expected =
    Ensures->>= (check_hash-HasDigest expected (codec.hexdigest b)) λ _ digest.
      Ensures->>= (require_envelope-eq (codec.loads b)) λ e loaded.
        Ensures-raise_if (not (text_eq (canonical_json_bytes codec (object e)) b)) not_canonical
          λ same. Ensures-raise_if (not (has_format (get (codes "format") e))) invalid_format λ _.
            Ensures-raise_if (not (has_version (get (codes "version") e))) invalid_version λ _.
              Ensures-step (require_type (get (codes "object_type") e)) λ t.
                Ensures-step (require_payload (get (codes "payload") e)) λ payload.
                  Ensures-raise_if (not (codec.is_payload t payload)) invalid_payload λ h.
                    returned (
                      not-eq-false _ h,
                      digest,
                      (
                        e,
                        loaded,
                        (text_eq_iff (canonical_json_bytes codec (object e)) b).0
                            (not-eq-false _ same),
                      ),
                    )

-- Bytes that `decode_object_envelope` accepts, with this decoder for its check of a payload, have
-- the digest that is expected, if one is, and are the canonical form of the dictionary that they
-- are read as; the payload that it returns decodes to an object of the type that it returns, which
-- meets every condition of its class.
pub decode_object_envelope-IsMetadataObject :
    (numbers : Numbers) (hexdigest : Bytes → Text) (loads : Bytes → Option Value)
    (dumps : Value → Text) (b : Bytes) (expected : Option Text) (t : ObjectType) (payload : Fields)
    → decode_object_envelope (model_codec numbers hexdigest loads dumps) b expected
      ≡ ok (t, payload)
    → HasDigest expected (hexdigest b)
      × AreCanonical (model_codec numbers hexdigest loads dumps) b
      × ((obj : MetadataObject) × (decode_metadata_object_payload numbers t payload ≡ ok obj)
          × IsMetadataObject numbers obj
          × (metadata_type obj ≡ t))
decode_object_envelope-IsMetadataObject numbers hexdigest loads dumps b expected t payload h =
    let (accepted, digest, canonical) =
      Ensures-eq-ok
        (decode_object_envelope-AreCanonical (model_codec numbers hexdigest loads dumps) b expected)
        h in
    let (obj, decoded) = is_model_payload-returns numbers t payload accepted in
    let (valid, same, _) =
      decode_metadata_object_payload-IsMetadataObject numbers t payload obj decoded in
    (digest, canonical, (obj, decoded, valid, same))
