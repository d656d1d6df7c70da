-- ===== src/Objects/Codec/Shards.antt =====
-- The payloads of the classes of Models/Shards, and their decoding.
use stopan.Prelude.{
  ◌≡◌, refl, List, [], ◌∷◌, Text, codes, text_eq, contains, Result, ok, ◌>>=◌, ◌>>◌, Ensures,
}
use stopan.Protection.{pos}
use stopan.Objects.Json.{Value, integer, string, array, object, Fields, get, has_key}
use stopan.Objects.Models.Checks.{ModelError, Numbers}
use stopan.Objects.Models.Shards.{
  KnownChunkRecord, new_known_chunk_record, IsKnownChunkRecord, KnownChunkShard,
  new_known_chunk_shard, IsKnownChunkShard, IndexShardRef, new_index_shard_ref, IsIndexShardRef,
  KnownChunkIndex, new_known_chunk_index, IsKnownChunkIndex,
}
use stopan.Objects.Models.Shards.Laws.{
  new_known_chunk_record-IsKnownChunkRecord, new_known_chunk_record_valid,
  new_known_chunk_shard-IsKnownChunkShard, new_known_chunk_shard_valid,
  new_index_shard_ref-IsIndexShardRef, new_index_shard_ref_valid,
  new_known_chunk_index-IsKnownChunkIndex, new_known_chunk_index_valid,
}
use stopan.Objects.Codec.Hints.{
  require_dict, has_extras, reject_extras, required, decode_tuple, dict_of, normalize_items,
  decode_tuple-normalize_items,
}
use stopan.Objects.Codec.Equality.{count, IsPlain, normalize_items-ArePlain}
use stopan.Objects.Codec.Refs.{
  object_ref_value, decode_object_ref, decode_object_ref-object_ref_value, Ensures-required,
  Ensures-dataclass, Ensures-decode_object_ref, Ensures-decode_tuple, object_ref_value-IsPlain,
}

abbrev known_chunk_record_fields : List Text
known_chunk_record_fields = codes "chunk_hash" ∷ codes "size" ∷ []

unfoldable pub known_chunk_record_value : KnownChunkRecord → Value
unfolding dict_of
known_chunk_record_value x =
    object (dict_of known_chunk_record_fields (string x.chunk_hash ∷ integer (pos x.size) ∷ []))

unfoldable pub decode_known_chunk_record : Value → Result ModelError KnownChunkRecord
unfolding new_known_chunk_record reject_extras require_dict required
decode_known_chunk_record value = do
  payload ← require_dict value
  reject_extras known_chunk_record_fields payload
  chunk_hash ← required (codes "chunk_hash") payload
  size ← required (codes "size") payload
  new_known_chunk_record chunk_hash size

pub decode_known_chunk_record-IsKnownChunkRecord :
    (v : Value) → Ensures IsKnownChunkRecord (decode_known_chunk_record v)
unfolding decode_known_chunk_record
decode_known_chunk_record-IsKnownChunkRecord v =
    search (Ensures-dataclass, Ensures-required, new_known_chunk_record-IsKnownChunkRecord) depth 40
      fits 4000

pub decode_known_chunk_record-known_chunk_record_value :
    (x : KnownChunkRecord)
    → IsKnownChunkRecord x
    → decode_known_chunk_record (known_chunk_record_value x) ≡ ok x
unfolding contains decode_known_chunk_record dict_of get has_extras known_chunk_record_value
    reject_extras require_dict required text_eq
decode_known_chunk_record-known_chunk_record_value x h = new_known_chunk_record_valid x h

pub known_chunk_record_value-IsPlain :
    (numbers : Numbers) (x : KnownChunkRecord)
    → IsKnownChunkRecord x
    → IsPlain numbers (known_chunk_record_value x)
unfolding IsPlain dict_of has_key known_chunk_record_value text_eq
known_chunk_record_value-IsPlain numbers x h = (refl, tt, (refl, tt, tt))

abbrev known_chunk_shard_fields : List Text
known_chunk_shard_fields = codes "prefix" ∷ codes "chunks" ∷ []

unfoldable pub known_chunk_shard_payload : KnownChunkShard → Fields
unfolding dict_of known_chunk_record_value normalize_items
known_chunk_shard_payload x =
    dict_of known_chunk_shard_fields
      (string x.prefix ∷ array (normalize_items known_chunk_record_value x.chunks) ∷ [])

unfoldable pub decode_known_chunk_shard : Value → Result ModelError KnownChunkShard
unfolding decode_known_chunk_record decode_tuple new_known_chunk_shard reject_extras require_dict
    required
decode_known_chunk_shard value = do
  payload ← require_dict value
  reject_extras known_chunk_shard_fields payload
  prefix ← required (codes "prefix") payload
  chunks ← required (codes "chunks") payload
  chunks ← decode_tuple decode_known_chunk_record chunks
  new_known_chunk_shard prefix chunks

pub decode_known_chunk_shard-IsKnownChunkShard :
    (v : Value) → Ensures IsKnownChunkShard (decode_known_chunk_shard v)
unfolding decode_known_chunk_shard
decode_known_chunk_shard-IsKnownChunkShard v =
    search
      (
        Ensures-dataclass,
        Ensures-required,
        Ensures-decode_tuple decode_known_chunk_record decode_known_chunk_record-IsKnownChunkRecord,
        new_known_chunk_shard-IsKnownChunkShard,
      )
      depth 40 fits 4000

pub decode_known_chunk_shard-known_chunk_shard_payload :
    (x : KnownChunkShard)
    → IsKnownChunkShard x
    → decode_known_chunk_shard (object (known_chunk_shard_payload x)) ≡ ok x
unfolding contains decode_known_chunk_shard dict_of get has_extras known_chunk_shard_payload
    reject_extras require_dict required text_eq
decode_known_chunk_shard-known_chunk_shard_payload x (h0, h1, h2) =
    rw
      (decode_tuple-normalize_items decode_known_chunk_record known_chunk_record_value
        decode_known_chunk_record-known_chunk_record_value x.chunks h1)
      (new_known_chunk_shard_valid x (h0, h1, h2))

pub known_chunk_shard_payload-IsPlain :
    (numbers : Numbers) (x : KnownChunkShard)
    → IsKnownChunkShard x
    → IsPlain numbers (object (known_chunk_shard_payload x))
unfolding IsPlain dict_of has_key known_chunk_shard_payload text_eq
known_chunk_shard_payload-IsPlain numbers x (h0, h1, h2) = (
  refl,
  tt,
  (
    refl,
    normalize_items-ArePlain numbers known_chunk_record_value
        (known_chunk_record_value-IsPlain numbers) x.chunks h1,
    tt,
  ),
)

abbrev index_shard_ref_fields : List Text
index_shard_ref_fields = codes "prefix" ∷ codes "count" ∷ codes "ref" ∷ []

unfoldable pub index_shard_ref_value : IndexShardRef → Value
unfolding dict_of object_ref_value
index_shard_ref_value x = object (
    dict_of index_shard_ref_fields
      (string x.prefix ∷ integer (pos x.count) ∷ object_ref_value x.ref ∷ []))

unfoldable pub decode_index_shard_ref : Value → Result ModelError IndexShardRef
unfolding decode_object_ref new_index_shard_ref reject_extras require_dict required
decode_index_shard_ref value = do
  payload ← require_dict value
  reject_extras index_shard_ref_fields payload
  prefix ← required (codes "prefix") payload
  count ← required (codes "count") payload
  ref ← required (codes "ref") payload
  ref ← decode_object_ref ref
  new_index_shard_ref prefix count ref

pub decode_index_shard_ref-IsIndexShardRef :
    (v : Value) → Ensures IsIndexShardRef (decode_index_shard_ref v)
unfolding decode_index_shard_ref
decode_index_shard_ref-IsIndexShardRef v =
    search
      (
        Ensures-dataclass, Ensures-required, Ensures-decode_object_ref,
        new_index_shard_ref-IsIndexShardRef,
      )
      depth 40 fits 4000

pub decode_index_shard_ref-index_shard_ref_value :
    (x : IndexShardRef)
    → IsIndexShardRef x
    → decode_index_shard_ref (index_shard_ref_value x) ≡ ok x
unfolding contains decode_index_shard_ref dict_of get has_extras index_shard_ref_value reject_extras
    require_dict required text_eq
decode_index_shard_ref-index_shard_ref_value x (h0, h1) =
    rw (decode_object_ref-object_ref_value x.ref h1) (new_index_shard_ref_valid x (h0, h1))

pub index_shard_ref_value-IsPlain :
    (numbers : Numbers) (x : IndexShardRef)
    → IsIndexShardRef x
    → IsPlain numbers (index_shard_ref_value x)
unfolding IsPlain dict_of has_key index_shard_ref_value text_eq
index_shard_ref_value-IsPlain numbers x h =
    (refl, tt, (refl, tt, (refl, object_ref_value-IsPlain numbers x.ref, tt)))

abbrev known_chunk_index_fields : List Text
known_chunk_index_fields = codes "shards" ∷ codes "total_chunks" ∷ []

unfoldable pub known_chunk_index_payload : KnownChunkIndex → Fields
unfolding dict_of index_shard_ref_value normalize_items
known_chunk_index_payload x =
    dict_of known_chunk_index_fields
      (array (normalize_items index_shard_ref_value x.shards) ∷ integer (pos x.total_chunks) ∷ [])

unfoldable pub decode_known_chunk_index : Value → Result ModelError KnownChunkIndex
unfolding decode_index_shard_ref decode_tuple new_known_chunk_index reject_extras require_dict
    required
decode_known_chunk_index value = do
  payload ← require_dict value
  reject_extras known_chunk_index_fields payload
  shards ← required (codes "shards") payload
  shards ← decode_tuple decode_index_shard_ref shards
  total_chunks ← required (codes "total_chunks") payload
  new_known_chunk_index shards total_chunks

pub decode_known_chunk_index-IsKnownChunkIndex :
    (v : Value) → Ensures IsKnownChunkIndex (decode_known_chunk_index v)
unfolding decode_known_chunk_index
decode_known_chunk_index-IsKnownChunkIndex v =
    search
      (
        Ensures-dataclass,
        Ensures-required,
        Ensures-decode_tuple decode_index_shard_ref decode_index_shard_ref-IsIndexShardRef,
        new_known_chunk_index-IsKnownChunkIndex,
      )
      depth 40 fits 4000

pub decode_known_chunk_index-known_chunk_index_payload :
    (x : KnownChunkIndex)
    → IsKnownChunkIndex x
    → decode_known_chunk_index (object (known_chunk_index_payload x)) ≡ ok x
unfolding contains decode_known_chunk_index dict_of get has_extras known_chunk_index_payload
    reject_extras require_dict required text_eq
decode_known_chunk_index-known_chunk_index_payload x (h0, h1, h2) =
    rw
      (decode_tuple-normalize_items decode_index_shard_ref index_shard_ref_value
        decode_index_shard_ref-index_shard_ref_value x.shards h0)
      (new_known_chunk_index_valid x (h0, h1, h2))

pub known_chunk_index_payload-IsPlain :
    (numbers : Numbers) (x : KnownChunkIndex)
    → IsKnownChunkIndex x
    → IsPlain numbers (object (known_chunk_index_payload x))
unfolding IsPlain dict_of has_key known_chunk_index_payload text_eq
known_chunk_index_payload-IsPlain numbers x (h0, h1, h2) = (
  refl,
  normalize_items-ArePlain numbers index_shard_ref_value (index_shard_ref_value-IsPlain numbers)
      x.shards h0,
  (refl, tt, tt),
)
