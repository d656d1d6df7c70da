-- ===== src/Objects/Codec/PackParts.antt =====
-- The payloads of a pack's chunks and of the places of its shards, and their decoding.
use stopan.Prelude.{
  ◌≡◌, refl, List, [], ◌∷◌, length, Text, codes, text_eq, contains, Result, ok, ◌>>=◌, ◌>>◌,
  Ensures,
}
use stopan.Protection.{pos}
use stopan.Objects.Json.{Value, integer, string, object, get, has_key}
use stopan.Objects.Models.Checks.{ModelError, Numbers}
use stopan.Objects.Models.Checks.Laws.{number_value, optional_value}
use stopan.Objects.Models.Packs.{
  PackChunk, new_pack_chunk, IsPackChunk, ShardPlacement, new_shard_placement, IsShardPlacement,
}
use stopan.Objects.Models.Packs.Laws.{
  new_pack_chunk-IsPackChunk, new_pack_chunk_valid, new_shard_placement-IsShardPlacement,
  new_shard_placement_valid,
}
use stopan.Objects.Codec.Hints.{require_dict, has_extras, reject_extras, required, dict_of}
use stopan.Objects.Codec.Equality.{IsPlain, string-IsPlain, optional-number_value-IsPlain}
use stopan.Objects.Codec.Refs.{Ensures-required, Ensures-dataclass}

abbrev pack_chunk_fields : List Text
pack_chunk_fields = codes "chunk_hash" ∷ codes "offset" ∷ codes "length" ∷ codes "ordinal" ∷ []

unfoldable pub pack_chunk_value : PackChunk → Value
unfolding dict_of
pack_chunk_value x = object (
    dict_of pack_chunk_fields (
      string x.chunk_hash
      ∷ integer (pos x.offset)
      ∷ integer (pos x.length)
      ∷ integer (pos x.ordinal)
      ∷ []))

unfoldable pub decode_pack_chunk : Value → Result ModelError PackChunk
unfolding new_pack_chunk reject_extras require_dict required
decode_pack_chunk value = do
  payload ← require_dict value
  reject_extras pack_chunk_fields payload
  chunk_hash ← required (codes "chunk_hash") payload
  offset ← required (codes "offset") payload
  length ← required (codes "length") payload
  ordinal ← required (codes "ordinal") payload
  new_pack_chunk chunk_hash offset length ordinal

pub decode_pack_chunk-IsPackChunk : (v : Value) → Ensures IsPackChunk (decode_pack_chunk v)
unfolding decode_pack_chunk
decode_pack_chunk-IsPackChunk v =
    search (Ensures-dataclass, Ensures-required, new_pack_chunk-IsPackChunk) depth 40 fits 4000

pub decode_pack_chunk-pack_chunk_value :
    (x : PackChunk) → IsPackChunk x → decode_pack_chunk (pack_chunk_value x) ≡ ok x
unfolding contains decode_pack_chunk dict_of get has_extras pack_chunk_value reject_extras
    require_dict required text_eq
decode_pack_chunk-pack_chunk_value x h = new_pack_chunk_valid x h

pub pack_chunk_value-IsPlain :
    (numbers : Numbers) (x : PackChunk) → IsPackChunk x → IsPlain numbers (pack_chunk_value x)
unfolding IsPlain dict_of has_key pack_chunk_value text_eq
pack_chunk_value-IsPlain numbers x h = (refl, tt, (refl, tt, (refl, tt, (refl, tt, tt))))

abbrev shard_placement_fields : List Text
shard_placement_fields =
    codes "shard_index"
    ∷ codes "shard_hash"
    ∷ codes "node_id"
    ∷ codes "size"
    ∷ codes "protection_state"
    ∷ codes "last_push_at"
    ∷ codes "last_verify_at"
    ∷ codes "last_error"
    ∷ []

unfoldable pub shard_placement_value : ShardPlacement → Value
unfolding dict_of
shard_placement_value x = object (
    dict_of shard_placement_fields (
      integer (pos x.shard_index)
      ∷ string x.shard_hash
      ∷ string x.node_id
      ∷ integer (pos x.size)
      ∷ string x.protection_state
      ∷ optional_value number_value x.last_push_at
      ∷ optional_value number_value x.last_verify_at
      ∷ optional_value string x.last_error
      ∷ []))

unfoldable pub decode_shard_placement : Numbers → Value → Result ModelError ShardPlacement
unfolding new_shard_placement reject_extras require_dict required
decode_shard_placement numbers value = do
  payload ← require_dict value
  reject_extras shard_placement_fields payload
  shard_index ← required (codes "shard_index") payload
  shard_hash ← required (codes "shard_hash") payload
  node_id ← required (codes "node_id") payload
  size ← required (codes "size") payload
  protection_state ← required (codes "protection_state") payload
  last_push_at ← required (codes "last_push_at") payload
  last_verify_at ← required (codes "last_verify_at") payload
  last_error ← required (codes "last_error") payload
  new_shard_placement numbers shard_index shard_hash node_id size protection_state last_push_at
      last_verify_at last_error

pub decode_shard_placement-IsShardPlacement :
    (numbers : Numbers) (v : Value)
    → Ensures (IsShardPlacement numbers) (decode_shard_placement numbers v)
unfolding decode_shard_placement
decode_shard_placement-IsShardPlacement numbers v =
    search (Ensures-dataclass, Ensures-required, new_shard_placement-IsShardPlacement) depth 40 fits
      4000

pub decode_shard_placement-shard_placement_value :
    (numbers : Numbers) (x : ShardPlacement)
    → IsShardPlacement numbers x
    → decode_shard_placement numbers (shard_placement_value x) ≡ ok x
unfolding contains decode_shard_placement dict_of get has_extras reject_extras require_dict required
    shard_placement_value text_eq
decode_shard_placement-shard_placement_value numbers x h = new_shard_placement_valid numbers x h

pub shard_placement_value-IsPlain :
    (numbers : Numbers) (x : ShardPlacement)
    → IsShardPlacement numbers x
    → IsPlain numbers (shard_placement_value x)
unfolding IsPlain dict_of has_key shard_placement_value text_eq
shard_placement_value-IsPlain numbers x (h0, h1, h2, h3, h4, h5, h6) = (
  refl,
  tt,
  (
    refl,
    tt,
    (
      refl,
      tt,
      (
        refl,
        tt,
        (
          refl,
          tt,
          (
            refl,
            optional-number_value-IsPlain numbers x.last_push_at h5,
            (
              refl,
              optional-number_value-IsPlain numbers x.last_verify_at h6,
              (refl, string-IsPlain numbers x.last_error, tt),
            ),
          ),
        ),
      ),
    ),
  ),
)
