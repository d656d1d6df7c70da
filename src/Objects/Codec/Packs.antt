-- ===== src/Objects/Codec/Packs.antt =====
-- The payloads of the shards and the index of erasure-coded packs, and their decoding.
use stopan.Prelude.{
  ◌≡◌, refl, List, [], ◌∷◌, Text, codes, text_eq, contains, Result, ok, ◌>>=◌, ◌>>◌, Ensures,
}
use stopan.Protection.{pos}
use stopan.Objects.Json.{Value, integer, string, array, object, Fields, get, has_key}
use stopan.Objects.Models.Checks.{ModelError, Numbers}
use stopan.Objects.Models.Packs.{
  PackShard, new_pack_shard, IsPackShard, PackIndex, new_pack_index, IsPackIndex,
}
use stopan.Objects.Models.Packs.Laws.{
  new_pack_shard-IsPackShard, new_pack_shard_valid, new_pack_index-IsPackIndex,
  new_pack_index_valid,
}
use stopan.Objects.Codec.Hints.{
  require_dict, has_extras, reject_extras, required, decode_tuple, dict_of, normalize_items,
  decode_tuple-normalize_items,
}
use stopan.Objects.Codec.Equality.{IsPlain, normalize_items-ArePlain}
use stopan.Objects.Codec.Refs.{Ensures-required, Ensures-dataclass, Ensures-decode_tuple}
use stopan.Objects.Codec.Shards.{
  index_shard_ref_value, decode_index_shard_ref, decode_index_shard_ref-IsIndexShardRef,
  decode_index_shard_ref-index_shard_ref_value, index_shard_ref_value-IsPlain,
}
use stopan.Objects.Codec.PackRecords.{
  pack_record_value, decode_pack_record, decode_pack_record-IsPackRecord,
  decode_pack_record-pack_record_value, pack_record_value-IsPlain,
}

abbrev pack_shard_fields : List Text
pack_shard_fields = codes "prefix" ∷ codes "records" ∷ []

unfoldable pub pack_shard_payload : PackShard → Fields
unfolding dict_of normalize_items pack_record_value
pack_shard_payload x =
    dict_of pack_shard_fields
      (string x.prefix ∷ array (normalize_items pack_record_value x.records) ∷ [])

unfoldable pub decode_pack_shard : Numbers → Value → Result ModelError PackShard
unfolding decode_pack_record decode_tuple new_pack_shard reject_extras require_dict required
decode_pack_shard numbers value = do
  payload ← require_dict value
  reject_extras pack_shard_fields payload
  prefix ← required (codes "prefix") payload
  records ← required (codes "records") payload
  records ← decode_tuple (decode_pack_record numbers) records
  new_pack_shard numbers prefix records

pub decode_pack_shard-IsPackShard :
    (numbers : Numbers) (v : Value) → Ensures (IsPackShard numbers) (decode_pack_shard numbers v)
unfolding decode_pack_shard
decode_pack_shard-IsPackShard numbers v =
    search
      (
        Ensures-dataclass,
        Ensures-required,
        Ensures-decode_tuple (decode_pack_record numbers) (decode_pack_record-IsPackRecord numbers),
        new_pack_shard-IsPackShard,
      )
      depth 40 fits 4000

pub decode_pack_shard-pack_shard_payload :
    (numbers : Numbers) (x : PackShard)
    → IsPackShard numbers x
    → decode_pack_shard numbers (object (pack_shard_payload x)) ≡ ok x
unfolding contains decode_pack_shard dict_of get has_extras pack_shard_payload reject_extras
    require_dict required text_eq
decode_pack_shard-pack_shard_payload numbers x (h0, h1, h2) =
    rw
      (decode_tuple-normalize_items (decode_pack_record numbers) pack_record_value
        (decode_pack_record-pack_record_value numbers) x.records h1)
      (new_pack_shard_valid numbers x (h0, h1, h2))

pub pack_shard_payload-IsPlain :
    (numbers : Numbers) (x : PackShard)
    → IsPackShard numbers x
    → IsPlain numbers (object (pack_shard_payload x))
unfolding IsPlain dict_of has_key pack_shard_payload text_eq
pack_shard_payload-IsPlain numbers x (h0, h1, h2) = (
  refl,
  tt,
  (
    refl,
    normalize_items-ArePlain numbers pack_record_value (pack_record_value-IsPlain numbers) x.records
        h1,
    tt,
  ),
)

abbrev pack_index_fields : List Text
pack_index_fields =
    codes "shards" ∷ codes "total_packs" ∷ codes "total_chunks" ∷ codes "total_shards" ∷ []

unfoldable pub pack_index_payload : PackIndex → Fields
unfolding dict_of index_shard_ref_value normalize_items
pack_index_payload x = dict_of pack_index_fields (
    array (normalize_items index_shard_ref_value x.shards)
    ∷ integer (pos x.total_packs)
    ∷ integer (pos x.total_chunks)
    ∷ integer (pos x.total_shards)
    ∷ [])

unfoldable pub decode_pack_index : Value → Result ModelError PackIndex
unfolding decode_index_shard_ref decode_tuple new_pack_index reject_extras require_dict required
decode_pack_index value = do
  payload ← require_dict value
  reject_extras pack_index_fields payload
  shards ← required (codes "shards") payload
  shards ← decode_tuple decode_index_shard_ref shards
  total_packs ← required (codes "total_packs") payload
  total_chunks ← required (codes "total_chunks") payload
  total_shards ← required (codes "total_shards") payload
  new_pack_index shards total_packs total_chunks total_shards

pub decode_pack_index-IsPackIndex : (v : Value) → Ensures IsPackIndex (decode_pack_index v)
unfolding decode_pack_index
decode_pack_index-IsPackIndex v =
    search
      (
        Ensures-dataclass,
        Ensures-required,
        Ensures-decode_tuple decode_index_shard_ref decode_index_shard_ref-IsIndexShardRef,
        new_pack_index-IsPackIndex,
      )
      depth 40 fits 4000

pub decode_pack_index-pack_index_payload :
    (x : PackIndex) → IsPackIndex x → decode_pack_index (object (pack_index_payload x)) ≡ ok x
unfolding contains decode_pack_index dict_of get has_extras pack_index_payload reject_extras
    require_dict required text_eq
decode_pack_index-pack_index_payload x (h0, h1, h2) =
    rw
      (decode_tuple-normalize_items decode_index_shard_ref index_shard_ref_value
        decode_index_shard_ref-index_shard_ref_value x.shards h0)
      (new_pack_index_valid x (h0, h1, h2))

pub pack_index_payload-IsPlain :
    (numbers : Numbers) (x : PackIndex)
    → IsPackIndex x
    → IsPlain numbers (object (pack_index_payload x))
unfolding IsPlain dict_of has_key pack_index_payload text_eq
pack_index_payload-IsPlain numbers x (h0, h1, h2) = (
  refl,
  normalize_items-ArePlain numbers index_shard_ref_value (index_shard_ref_value-IsPlain numbers)
      x.shards h0,
  (refl, tt, (refl, tt, (refl, tt, tt))),
)
