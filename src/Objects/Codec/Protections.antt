-- ===== src/Objects/Codec/Protections.antt =====
-- The payloads of the classes of Models/Protections, and their decoding.
use stopan.Prelude.{
  ◌≡◌, refl, List, [], ◌∷◌, Text, codes, text_eq, contains, Result, ok, ◌>>=◌, ◌>>◌, Ensures,
}
use stopan.Protection.{pos}
use stopan.Objects.Json.{Value, integer, string, array, object, Fields, get, has_key}
use stopan.Objects.Models.Checks.{ModelError, Numbers}
use stopan.Objects.Models.Checks.Laws.{number_value, optional_value}
use stopan.Objects.Models.Protections.{
  ProtectionRecord, new_protection_record, IsProtectionRecord, ProtectionShard,
  new_protection_shard, IsProtectionShard, ProtectionIndex, new_protection_index, IsProtectionIndex,
}
use stopan.Objects.Models.Protections.Laws.{
  new_protection_record-IsProtectionRecord, new_protection_record_valid,
  new_protection_shard-IsProtectionShard, new_protection_shard_valid,
  new_protection_index-IsProtectionIndex, new_protection_index_valid,
}
use stopan.Objects.Codec.Hints.{
  require_dict, has_extras, reject_extras, required, decode_tuple, dict_of, normalize_items,
  decode_tuple-normalize_items,
}
use stopan.Objects.Codec.Equality.{
  IsPlain, string-IsPlain, optional-number_value-IsPlain, normalize_items-ArePlain,
}
use stopan.Objects.Codec.Refs.{Ensures-required, Ensures-dataclass, Ensures-decode_tuple}
use stopan.Objects.Codec.Shards.{
  index_shard_ref_value, decode_index_shard_ref, decode_index_shard_ref-IsIndexShardRef,
  decode_index_shard_ref-index_shard_ref_value, index_shard_ref_value-IsPlain,
}

abbrev protection_record_fields : List Text
protection_record_fields =
    codes "chunk_hash"
    ∷ codes "desired_rf"
    ∷ codes "protection_state"
    ∷ codes "protected_remote_copies"
    ∷ codes "placement_epoch"
    ∷ codes "last_push_at"
    ∷ codes "last_verify_at"
    ∷ codes "last_error"
    ∷ []

unfoldable pub protection_record_value : ProtectionRecord → Value
unfolding dict_of
protection_record_value x = object (
    dict_of protection_record_fields (
      string x.chunk_hash
      ∷ integer (pos x.desired_rf)
      ∷ string x.protection_state
      ∷ integer (pos x.protected_remote_copies)
      ∷ optional_value string x.placement_epoch
      ∷ optional_value number_value x.last_push_at
      ∷ optional_value number_value x.last_verify_at
      ∷ optional_value string x.last_error
      ∷ []))

unfoldable pub decode_protection_record : Numbers → Value → Result ModelError ProtectionRecord
unfolding new_protection_record reject_extras require_dict required
decode_protection_record numbers value = do
  payload ← require_dict value
  reject_extras protection_record_fields payload
  chunk_hash ← required (codes "chunk_hash") payload
  desired_rf ← required (codes "desired_rf") payload
  protection_state ← required (codes "protection_state") payload
  protected_remote_copies ← required (codes "protected_remote_copies") payload
  placement_epoch ← required (codes "placement_epoch") payload
  last_push_at ← required (codes "last_push_at") payload
  last_verify_at ← required (codes "last_verify_at") payload
  last_error ← required (codes "last_error") payload
  new_protection_record numbers chunk_hash desired_rf protection_state protected_remote_copies
      placement_epoch last_push_at last_verify_at last_error

pub decode_protection_record-IsProtectionRecord :
    (numbers : Numbers) (v : Value)
    → Ensures (IsProtectionRecord numbers) (decode_protection_record numbers v)
unfolding decode_protection_record
decode_protection_record-IsProtectionRecord numbers v =
    search (Ensures-dataclass, Ensures-required, new_protection_record-IsProtectionRecord) depth 40
      fits 4000

pub decode_protection_record-protection_record_value :
    (numbers : Numbers) (x : ProtectionRecord)
    → IsProtectionRecord numbers x
    → decode_protection_record numbers (protection_record_value x) ≡ ok x
unfolding contains decode_protection_record dict_of get has_extras protection_record_value
    reject_extras require_dict required text_eq
decode_protection_record-protection_record_value numbers x h =
    new_protection_record_valid numbers x h

pub protection_record_value-IsPlain :
    (numbers : Numbers) (x : ProtectionRecord)
    → IsProtectionRecord numbers x
    → IsPlain numbers (protection_record_value x)
unfolding IsPlain dict_of has_key protection_record_value text_eq
protection_record_value-IsPlain numbers x (h0, h1, h2, h3, h4) = (
  refl,
  tt,
  (
    refl,
    tt,
    (
      refl,
      tt,
      (
        refl,
        tt,
        (
          refl,
          string-IsPlain numbers x.placement_epoch,
          (
            refl,
            optional-number_value-IsPlain numbers x.last_push_at h3,
            (
              refl,
              optional-number_value-IsPlain numbers x.last_verify_at h4,
              (refl, string-IsPlain numbers x.last_error, tt),
            ),
          ),
        ),
      ),
    ),
  ),
)

abbrev protection_shard_fields : List Text
protection_shard_fields = codes "prefix" ∷ codes "records" ∷ []

unfoldable pub protection_shard_payload : ProtectionShard → Fields
unfolding dict_of normalize_items protection_record_value
protection_shard_payload x =
    dict_of protection_shard_fields
      (string x.prefix ∷ array (normalize_items protection_record_value x.records) ∷ [])

unfoldable pub decode_protection_shard : Numbers → Value → Result ModelError ProtectionShard
unfolding decode_protection_record decode_tuple new_protection_shard reject_extras require_dict
    required
decode_protection_shard numbers value = do
  payload ← require_dict value
  reject_extras protection_shard_fields payload
  prefix ← required (codes "prefix") payload
  records ← required (codes "records") payload
  records ← decode_tuple (decode_protection_record numbers) records
  new_protection_shard numbers prefix records

pub decode_protection_shard-IsProtectionShard :
    (numbers : Numbers) (v : Value)
    → Ensures (IsProtectionShard numbers) (decode_protection_shard numbers v)
unfolding decode_protection_shard
decode_protection_shard-IsProtectionShard numbers v =
    search
      (
        Ensures-dataclass,
        Ensures-required,
        Ensures-decode_tuple (decode_protection_record numbers)
            (decode_protection_record-IsProtectionRecord numbers),
        new_protection_shard-IsProtectionShard,
      )
      depth 40 fits 4000

pub decode_protection_shard-protection_shard_payload :
    (numbers : Numbers) (x : ProtectionShard)
    → IsProtectionShard numbers x
    → decode_protection_shard numbers (object (protection_shard_payload x)) ≡ ok x
unfolding contains decode_protection_shard dict_of get has_extras protection_shard_payload
    reject_extras require_dict required text_eq
decode_protection_shard-protection_shard_payload numbers x (h0, h1, h2) =
    rw
      (decode_tuple-normalize_items (decode_protection_record numbers) protection_record_value
        (decode_protection_record-protection_record_value numbers) x.records h1)
      (new_protection_shard_valid numbers x (h0, h1, h2))

pub protection_shard_payload-IsPlain :
    (numbers : Numbers) (x : ProtectionShard)
    → IsProtectionShard numbers x
    → IsPlain numbers (object (protection_shard_payload x))
unfolding IsPlain dict_of has_key protection_shard_payload text_eq
protection_shard_payload-IsPlain numbers x (h0, h1, h2) = (
  refl,
  tt,
  (
    refl,
    normalize_items-ArePlain numbers protection_record_value
        (protection_record_value-IsPlain numbers) x.records h1,
    tt,
  ),
)

abbrev protection_index_fields : List Text
protection_index_fields = codes "shards" ∷ codes "total_records" ∷ []

unfoldable pub protection_index_payload : ProtectionIndex → Fields
unfolding dict_of index_shard_ref_value normalize_items
protection_index_payload x =
    dict_of protection_index_fields
      (array (normalize_items index_shard_ref_value x.shards) ∷ integer (pos x.total_records) ∷ [])

unfoldable pub decode_protection_index : Value → Result ModelError ProtectionIndex
unfolding decode_index_shard_ref decode_tuple new_protection_index reject_extras require_dict
    required
decode_protection_index value = do
  payload ← require_dict value
  reject_extras protection_index_fields payload
  shards ← required (codes "shards") payload
  shards ← decode_tuple decode_index_shard_ref shards
  total_records ← required (codes "total_records") payload
  new_protection_index shards total_records

pub decode_protection_index-IsProtectionIndex :
    (v : Value) → Ensures IsProtectionIndex (decode_protection_index v)
unfolding decode_protection_index
decode_protection_index-IsProtectionIndex v =
    search
      (
        Ensures-dataclass,
        Ensures-required,
        Ensures-decode_tuple decode_index_shard_ref decode_index_shard_ref-IsIndexShardRef,
        new_protection_index-IsProtectionIndex,
      )
      depth 40 fits 4000

pub decode_protection_index-protection_index_payload :
    (x : ProtectionIndex)
    → IsProtectionIndex x
    → decode_protection_index (object (protection_index_payload x)) ≡ ok x
unfolding contains decode_protection_index dict_of get has_extras protection_index_payload
    reject_extras require_dict required text_eq
decode_protection_index-protection_index_payload x (h0, h1, h2) =
    rw
      (decode_tuple-normalize_items decode_index_shard_ref index_shard_ref_value
        decode_index_shard_ref-index_shard_ref_value x.shards h0)
      (new_protection_index_valid x (h0, h1, h2))

pub protection_index_payload-IsPlain :
    (numbers : Numbers) (x : ProtectionIndex)
    → IsProtectionIndex x
    → IsPlain numbers (object (protection_index_payload x))
unfolding IsPlain dict_of has_key protection_index_payload text_eq
protection_index_payload-IsPlain numbers x (h0, h1, h2) = (
  refl,
  normalize_items-ArePlain numbers index_shard_ref_value (index_shard_ref_value-IsPlain numbers)
      x.shards h0,
  (refl, tt, tt),
)
