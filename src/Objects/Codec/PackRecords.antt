-- ===== src/Objects/Codec/PackRecords.antt =====
-- The payload of the record of an erasure-coded pack, and its decoding.
use stopan.Prelude.{
  ◌≡◌, refl, true, List, [], ◌∷◌, Text, codes, text_eq, contains, Result, ok, ◌>>=◌, ◌>>◌, Ensures,
}
use stopan.Protection.{pos}
use stopan.Objects.Json.{Value, integer, string, array, object, get, has_key}
use stopan.Objects.Models.Checks.{ModelError, Numbers}
use stopan.Objects.Models.Checks.Laws.{number_value, optional_value}
use stopan.Objects.Models.Packs.{PackRecord, new_pack_record, IsPackRecord}
use stopan.Objects.Models.Packs.Laws.{new_pack_record-IsPackRecord, new_pack_record_valid}
use stopan.Objects.Codec.Hints.{
  require_dict, has_extras, reject_extras, required, decode_tuple, dict_of, normalize_items,
  decode_tuple-normalize_items,
}
use stopan.Objects.Codec.Equality.{
  IsPlain, number_value-IsPlain, string-IsPlain, optional-number_value-IsPlain,
  normalize_items-ArePlain,
}
use stopan.Objects.Codec.Refs.{Ensures-required, Ensures-dataclass, Ensures-decode_tuple}
use stopan.Objects.Codec.PackParts.{
  pack_chunk_value, decode_pack_chunk, decode_pack_chunk-IsPackChunk,
  decode_pack_chunk-pack_chunk_value, pack_chunk_value-IsPlain, shard_placement_value,
  decode_shard_placement, decode_shard_placement-IsShardPlacement,
  decode_shard_placement-shard_placement_value, shard_placement_value-IsPlain,
}

abbrev pack_record_fields : List Text
pack_record_fields =
    codes "pack_hash"
    ∷ codes "codec"
    ∷ codes "data_shards"
    ∷ codes "parity_shards"
    ∷ codes "payload_size"
    ∷ codes "padded_size"
    ∷ codes "shard_size"
    ∷ codes "protection_state"
    ∷ codes "placement_epoch"
    ∷ codes "created_at"
    ∷ codes "last_push_at"
    ∷ codes "last_verify_at"
    ∷ codes "last_error"
    ∷ codes "chunks"
    ∷ codes "shards"
    ∷ []

unfoldable pub pack_record_value : PackRecord → Value
unfolding dict_of normalize_items pack_chunk_value shard_placement_value
pack_record_value x = object (
    dict_of pack_record_fields (
      string x.pack_hash
      ∷ string x.codec
      ∷ integer (pos x.data_shards)
      ∷ integer (pos x.parity_shards)
      ∷ integer (pos x.payload_size)
      ∷ integer (pos x.padded_size)
      ∷ integer (pos x.shard_size)
      ∷ string x.protection_state
      ∷ optional_value string x.placement_epoch
      ∷ number_value x.created_at
      ∷ optional_value number_value x.last_push_at
      ∷ optional_value number_value x.last_verify_at
      ∷ optional_value string x.last_error
      ∷ array (normalize_items pack_chunk_value x.chunks)
      ∷ array (normalize_items shard_placement_value x.shards)
      ∷ []))

unfoldable pub decode_pack_record : Numbers → Value → Result ModelError PackRecord
unfolding decode_pack_chunk decode_shard_placement decode_tuple new_pack_record reject_extras
    require_dict required
decode_pack_record numbers value = do
  payload ← require_dict value
  reject_extras pack_record_fields payload
  pack_hash ← required (codes "pack_hash") payload
  codec ← required (codes "codec") payload
  data_shards ← required (codes "data_shards") payload
  parity_shards ← required (codes "parity_shards") payload
  payload_size ← required (codes "payload_size") payload
  padded_size ← required (codes "padded_size") payload
  shard_size ← required (codes "shard_size") payload
  protection_state ← required (codes "protection_state") payload
  placement_epoch ← required (codes "placement_epoch") payload
  created_at ← required (codes "created_at") payload
  last_push_at ← required (codes "last_push_at") payload
  last_verify_at ← required (codes "last_verify_at") payload
  last_error ← required (codes "last_error") payload
  chunks ← required (codes "chunks") payload
  chunks ← decode_tuple decode_pack_chunk chunks
  shards ← required (codes "shards") payload
  shards ← decode_tuple (decode_shard_placement numbers) shards
  new_pack_record numbers pack_hash codec data_shards parity_shards payload_size padded_size
      shard_size protection_state placement_epoch created_at last_push_at last_verify_at last_error
      chunks shards

pub decode_pack_record-IsPackRecord :
    (numbers : Numbers) (v : Value) → Ensures (IsPackRecord numbers) (decode_pack_record numbers v)
unfolding decode_pack_record
decode_pack_record-IsPackRecord numbers v =
    search
      (
        Ensures-dataclass,
        Ensures-required,
        Ensures-decode_tuple decode_pack_chunk decode_pack_chunk-IsPackChunk,
        Ensures-decode_tuple (decode_shard_placement numbers)
            (decode_shard_placement-IsShardPlacement numbers),
        new_pack_record-IsPackRecord,
      )
      depth 40 fits 4000

pub decode_pack_record-pack_record_value :
    (numbers : Numbers) (x : PackRecord)
    → IsPackRecord numbers x
    → decode_pack_record numbers (pack_record_value x) ≡ ok x
unfolding contains decode_pack_record dict_of get has_extras pack_record_value reject_extras
    require_dict required text_eq
decode_pack_record-pack_record_value numbers x
      (h0, h1, h2, h3, h4, h5, h6, h7, h8, h9, h10, h11, h12, h13, h14, h15, h16) =
    rw
      (
        decode_tuple-normalize_items decode_pack_chunk pack_chunk_value
            decode_pack_chunk-pack_chunk_value x.chunks h11,
        decode_tuple-normalize_items (decode_shard_placement numbers) shard_placement_value
            (decode_shard_placement-shard_placement_value numbers) x.shards h12,
      )
      (new_pack_record_valid numbers x
        (h0, h1, h2, h3, h4, h5, h6, h7, h8, h9, h10, h11, h12, h13, h14, h15, h16))

pub pack_record_value-IsPlain :
    (numbers : Numbers) (x : PackRecord)
    → IsPackRecord numbers x
    → IsPlain numbers (pack_record_value x)
unfolding IsPlain dict_of has_key pack_record_value text_eq
pack_record_value-IsPlain numbers x
      (h0, h1, h2, h3, h4, h5, h6, h7, h8, h9, h10, h11, h12, h13, h14, h15, h16) =
    (
      refl,
      tt,
      (
        refl,
        tt,
        (
          refl,
          tt,
          (
            refl,
            tt,
            (
              refl,
              tt,
              (
                refl,
                tt,
                (
                  refl,
                  tt,
                  (
                    refl,
                    tt,
                    (
                      refl,
                      string-IsPlain numbers x.placement_epoch,
                      (
                        refl,
                        number_value-IsPlain numbers true x.created_at h8,
                        (
                          refl,
                          optional-number_value-IsPlain numbers x.last_push_at h9,
                          (
                            refl,
                            optional-number_value-IsPlain numbers x.last_verify_at h10,
                            (
                              refl,
                              string-IsPlain numbers x.last_error,
                              (
                                refl,
                                normalize_items-ArePlain numbers pack_chunk_value
                                    (pack_chunk_value-IsPlain numbers) x.chunks h11,
                                (
                                  refl,
                                  normalize_items-ArePlain numbers shard_placement_value
                                      (shard_placement_value-IsPlain numbers) x.shards h12,
                                  tt,
                                ),
                              ),
                            ),
                          ),
                        ),
                      ),
                    ),
                  ),
                ),
              ),
            ),
          ),
        ),
      ),
    )
