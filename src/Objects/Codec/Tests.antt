-- ===== src/Objects/Codec/Tests.antt =====
-- A tree and a pack record, and what the decoder does with them.
use mathlib.Core.List.Perm
use stopan.Prelude.{
  ◌<◌, ◌≤◌, ℕ, ◌*◌, ◌==◌, ==_iff, ◌≡◌, refl, ◌↔◌, Bool, true, false, [], ◌∷◌, map, none, some,
  length, Text, codes, text_eq, text_lt, ok, get_elem?, replicate,
}
use stopan.Protection.{ℤ, pos, negsuc}
use stopan.Objects.Json.{
  Value, integer, real, string, array, object, Fields, no_fields, field, boolean, no_items,
}
use stopan.Objects.Kinds.{ObjectType}
use stopan.Objects.Models.Checks.{Numbers, is_hex_of, has_char, whole}
use stopan.Objects.Models.Ordered.{AreDistinct, check_listing, IsListing}
use stopan.Objects.Models.Ordered.Orders.{by_name, by_name_iff}
use stopan.Objects.Models.Trees.{
  TreeEntry, is_invalid_name, is_valid_item_type, expected_type, tree_listing,
}
use stopan.Objects.Models.Packs.{
  PackChunk, ShardPlacement, placement_node, placement_index, range_from, same_indexes, PackRecord,
  IsPackRecord,
}
use stopan.Objects.Models.Protections.{is_protection_state}
use stopan.Objects.Codec.Equality.{value_eq, IsReflexive}
use stopan.Objects.Codec.PackRecords.{
  pack_record_value, decode_pack_record, decode_pack_record-pack_record_value,
}
use stopan.Objects.Codec.PackTiles.{Holds, decode_pack_record-tiles}
use stopan.Objects.Codec.Payloads.{
  MetadataObject, metadata_type, object_payload, IsMetadataObject, decode_metadata_object_payload,
  tree_object,
}
use stopan.Objects.Codec.Payloads.Valid.{
  decode_metadata_object_payload-object_payload, decode_metadata_object_payload-IsMetadataObject,
}
use stopan.Objects.Codec.Encoding.{
  AreCanonical, canonical_state_digest, canonical_state_digest-perm, is_model_payload, model_codec,
  decode_object_envelope-IsMetadataObject,
}
use stopan.Objects.Envelope.{require_hash64, Codec, decode_object_envelope}
use stopan.Erasure.Models.{is_hex_lower}

abbrev toy_eq : Value → Value → Bool
toy_eq (integer (pos a)) (integer (pos b)) = a == b
toy_eq (integer (negsuc a)) (integer (negsuc b)) = a == b
toy_eq (boolean a) (boolean b) = true
toy_eq (real s) (real t) = true
toy_eq _ _ = false

abbrev toy_numbers : Numbers
toy_numbers = record {
  fits = λ _. true;
  is_finite = λ _. true;
  is_negative = λ _. false;
  number_eq = toy_eq;
}

toy-IsReflexive : IsReflexive toy_numbers
toy-IsReflexive = record { booleans = λ b. refl; integers = same_integer; reals = λ t h. refl }
  where
    same_integer : (z : ℤ) → toy_eq (integer z) (integer z) ≡ true
    same_integer (pos a) = (==_iff a a).1 refl
    same_integer (negsuc a) = (==_iff a a).1 refl

abbrev hash : ℕ → Text
hash c = replicate 64 c

abbrev entry : Text → Text → ObjectType → TreeEntry
entry name item_type t = record {
  name = name;
  item_type = item_type;
  size = 3;
  mode = 420;
  mtime = whole (pos 7);
  mtime_ns = 7;
  uid = 0;
  gid = 0;
  ref = record { object_type = t; object_hash = hash b'a' };
}

abbrev sample_tree : MetadataObject
sample_tree = tree_object (record {
  entries =
      entry (codes "a") (codes "file") ObjectType.file
      ∷ entry (codes "b") (codes "dir") ObjectType.tree
      ∷ [];
})

sample_tree-IsMetadataObject : IsMetadataObject toy_numbers sample_tree
unfolding is_hex_of is_hex_lower is_invalid_name is_valid_item_type expected_type has_char text_eq
    IsListing tree_listing by_name text_lt
sample_tree-IsMetadataObject = (
  (
    (refl, refl, refl, refl, (refl, refl), (refl, refl)),
    ((refl, refl, refl, refl, (refl, refl), (refl, refl)), tt),
  ),
  ((refl, (refl, tt)), ((refl, tt), (tt, tt)), ((refl, tt), (tt, tt))),
)

decode_metadata_object_payload-object_payload_example :
    decode_metadata_object_payload toy_numbers ObjectType.tree (object_payload sample_tree)
    ≡ ok sample_tree
unfolding metadata_type
decode_metadata_object_payload-object_payload_example =
    decode_metadata_object_payload-object_payload toy_numbers sample_tree toy-IsReflexive
      sample_tree-IsMetadataObject

sample_decodes :
    decode_metadata_object_payload toy_numbers ObjectType.tree (object_payload sample_tree)
    ≡ ok sample_tree
unfolding metadata_type
sample_decodes =
    decode_metadata_object_payload-object_payload toy_numbers sample_tree toy-IsReflexive
      sample_tree-IsMetadataObject

decode_metadata_object_payload-IsMetadataObject_example :
    IsMetadataObject toy_numbers sample_tree
    × (metadata_type sample_tree ≡ ObjectType.tree)
    × (value_eq toy_numbers
          (object (object_payload sample_tree))
          (object (object_payload sample_tree))
        ≡ true)
decode_metadata_object_payload-IsMetadataObject_example =
    decode_metadata_object_payload-IsMetadataObject toy_numbers ObjectType.tree
      (object_payload sample_tree) sample_tree sample_decodes

by_name_iff_example :
    (check_listing (by_name (λ (e : TreeEntry). e.name) (λ _. ok tt)) [] none (
        entry (codes "b") (codes "dir") ObjectType.tree
        ∷ entry (codes "a") (codes "file") ObjectType.file
        ∷ [])
      ≡ ok tt)
    ↔ IsListing (by_name (λ (e : TreeEntry). e.name) (λ _. ok tt)) (
        entry (codes "b") (codes "dir") ObjectType.tree
        ∷ entry (codes "a") (codes "file") ObjectType.file
        ∷ [])
by_name_iff_example =
    by_name_iff (λ (e : TreeEntry). e.name) (λ _. ok tt)
      (entry (codes "b") (codes "dir") ObjectType.tree
        ∷ entry (codes "a") (codes "file") ObjectType.file
        ∷ [])

-- A pack of one data and one parity shard with two chunks of 3 and 2 bytes.
abbrev pack_chunk : Text → ℕ → ℕ → ℕ → PackChunk
pack_chunk chunk_hash offset length ordinal = record {
  chunk_hash = chunk_hash;
  offset = offset;
  length = length;
  ordinal = ordinal;
}

abbrev placement : ℕ → ℕ → ShardPlacement
placement i c = record {
  shard_index = i;
  shard_hash = hash c;
  node_id = replicate 32 c;
  size = 5;
  protection_state = codes "PLACED";
  last_push_at = none;
  last_verify_at = none;
  last_error = none;
}

abbrev sample_pack : PackRecord
sample_pack = record {
  pack_hash = hash b'f';
  codec = codes "zfec";
  data_shards = 1;
  parity_shards = 1;
  payload_size = 5;
  padded_size = 5;
  shard_size = 5;
  protection_state = codes "PLACED";
  placement_epoch = none;
  created_at = whole (pos 7);
  last_push_at = none;
  last_verify_at = none;
  last_error = none;
  chunks = pack_chunk (hash b'a') 0 3 0 ∷ pack_chunk (hash b'b') 3 2 1 ∷ [];
  shards = placement 0 b'1' ∷ placement 1 b'2' ∷ [];
}

sample_pack-IsPackRecord : IsPackRecord toy_numbers sample_pack
unfolding is_hex_of is_hex_lower is_protection_state text_eq same_indexes range_from
sample_pack-IsPackRecord = (
  refl,
  refl,
  refl,
  refl,
  refl,
  refl,
  refl,
  refl,
  (refl, refl),
  tt,
  tt,
  ((refl, refl), ((refl, refl), tt)),
  ((refl, refl, refl, refl, refl, tt, tt), ((refl, refl, refl, refl, refl, tt, tt), tt)),
  refl,
  (((refl, tt), (tt, tt)), (refl, refl, (refl, refl, refl))),
  ((refl, tt), (tt, tt)),
  refl,
)

sample_pack_decodes :
    decode_pack_record toy_numbers (pack_record_value sample_pack) ≡ ok sample_pack
sample_pack_decodes =
    decode_pack_record-pack_record_value toy_numbers sample_pack sample_pack-IsPackRecord

decode_pack_record-tiles_example :
    ((p : ℕ)
      → p < 5
      → (i : ℕ) × (c : PackChunk) × (get_elem? sample_pack.chunks i ≡ some c)
        × Holds p c
        × ((j : ℕ) (d : PackChunk) → get_elem? sample_pack.chunks j ≡ some d → Holds p d → j ≡ i))
    × (5 ≤ 5 * 1)
    × (map placement_index sample_pack.shards ≡ range_from 0 2)
    × AreDistinct placement_node sample_pack.shards
decode_pack_record-tiles_example =
    decode_pack_record-tiles toy_numbers (pack_record_value sample_pack) sample_pack
      sample_pack_decodes

-- An empty tree in its envelope, which the bytes of "x" stand for.
abbrev empty_payload : Fields
empty_payload = field (codes "entries") (array no_items) no_fields

abbrev toy_envelope : Value
toy_envelope = object (
    field (codes "format") (string (codes "stopan.metadata_object")) (
      field (codes "object_type") (string (codes "tree")) (
        field (codes "payload") (object empty_payload)
          (field (codes "version") (integer (pos 1)) no_fields))))

abbrev tree_codec : Codec
tree_codec = model_codec toy_numbers (λ _. hash b'a') (λ _. some toy_envelope) (λ _. codes "x")

toy_run :
    decode_object_envelope tree_codec (codes "x") (some (hash b'a'))
    ≡ ok (ObjectType.tree, empty_payload)
unfolding decode_object_envelope is_model_payload
toy_run = refl

decode_object_envelope-IsMetadataObject_example :
    (require_hash64 (hash b'a') ≡ ok (hash b'a'))
    × AreCanonical tree_codec (codes "x")
    × ((obj : MetadataObject) × (decode_metadata_object_payload toy_numbers ObjectType.tree
            empty_payload
          ≡ ok obj)
        × IsMetadataObject toy_numbers obj
        × (metadata_type obj ≡ ObjectType.tree))
decode_object_envelope-IsMetadataObject_example =
    decode_object_envelope-IsMetadataObject toy_numbers (λ _. hash b'a') (λ _. some toy_envelope)
      (λ _. codes "x") (codes "x") (some (hash b'a')) ObjectType.tree empty_payload toy_run

canonical_state_digest-perm_example :
    canonical_state_digest tree_codec (hash b'c') (hash b'a' ∷ hash b'b' ∷ [])
    ≡ canonical_state_digest tree_codec (hash b'c') (hash b'b' ∷ hash b'a' ∷ [])
canonical_state_digest-perm_example =
    canonical_state_digest-perm tree_codec (hash b'c') (hash b'a' ∷ hash b'b' ∷ [])
      (hash b'b' ∷ hash b'a' ∷ []) (Perm.swap (hash b'b') (hash b'a') [])
