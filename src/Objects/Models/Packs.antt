-- ===== src/Objects/Models/Packs.antt =====
-- The classes of erasure-coded data packs of metadata/objects/models.py.
pub mod Loops
pub mod Laws
use stopan.Prelude.{
  ℕ, zero, suc, ◌+◌, ◌*◌, ltb, ◌==◌, ◌≡◌, Bool, true, false, not, List, [], ◌∷◌, map, Option, none,
  if◌then◌else◌, length, Text, contains, All, Result, ok, ◌>>=◌, ◌>>◌, raise_if,
}
use stopan.Objects.Json.{Value}
use stopan.Objects.Kinds.{ObjectType}
use stopan.Objects.Models.Checks.{
  ModelError, Numbers, require_str, require_int, Number, require_number, require_hash64,
  require_node_id, require_prefix, optional, repeated, total_mismatch, invalid_state,
  padded_size_mismatch, payload_exceeds_padded, no_chunks, ordinal_gap, offset_gap, not_covered,
  repeated_node, missing_indexes,
}
use stopan.Objects.Models.Checks.Laws.{IsFilled, IsNumber, IsHash64, IsNodeId, IsPrefix, IsOptional}
use stopan.Objects.Models.Ordered.{AreDistinct, Listing, check_listing, IsListing}
use stopan.Objects.Models.Ordered.Orders.{by_name}
use stopan.Objects.Models.Shards.{
  check_prefix, IndexShardRef, IsIndexShardRef, shard_ref_listing, total_count,
}
use stopan.Objects.Models.Protections.{is_protection_state}

pub record PackChunk : Type 0 where
  pub chunk_hash : Text
  pub offset : ℕ
  pub length : ℕ
  pub ordinal : ℕ

unfoldable pub new_pack_chunk : Value → Value → Value → Value → Result ModelError PackChunk
unfolding require_hash64 require_int
new_pack_chunk chunk_hash offset length ordinal = do
  chunk_hash ← require_hash64 chunk_hash
  offset ← require_int 0 offset
  length ← require_int 1 length
  ordinal ← require_int 0 ordinal
  ok (record { chunk_hash = chunk_hash; offset = offset; length = length; ordinal = ordinal })

abbrev pub IsPackChunk : PackChunk → Type 0
IsPackChunk x = IsHash64 x.chunk_hash × (ltb x.length 1 ≡ false)

pub record ShardPlacement : Type 0 where
  pub shard_index : ℕ
  pub shard_hash : Text
  pub node_id : Text
  pub size : ℕ
  pub protection_state : Text
  pub last_push_at : Option Number
  pub last_verify_at : Option Number
  pub last_error : Option Text

unfoldable pub new_shard_placement :
    Numbers
    → Value
    → Value
    → Value
    → Value
    → Value
    → Value
    → Value
    → Value
    → Result ModelError ShardPlacement
unfolding is_protection_state optional require_hash64 require_int require_node_id require_number
    require_str
new_shard_placement numbers shard_index shard_hash node_id size protection_state last_push_at
      last_verify_at last_error =
    do
      shard_index ← require_int 0 shard_index
      shard_hash ← require_hash64 shard_hash
      node_id ← require_node_id node_id
      size ← require_int 1 size
      protection_state ← require_str false protection_state
      raise_if (not (is_protection_state protection_state)) invalid_state
      last_push_at ← optional (require_number numbers true) last_push_at
      last_verify_at ← optional (require_number numbers true) last_verify_at
      last_error ← optional (require_str true) last_error
      ok (record {
        shard_index = shard_index;
        shard_hash = shard_hash;
        node_id = node_id;
        size = size;
        protection_state = protection_state;
        last_push_at = last_push_at;
        last_verify_at = last_verify_at;
        last_error = last_error;
      })

abbrev pub IsShardPlacement : Numbers → ShardPlacement → Type 0
IsShardPlacement numbers x =
    IsHash64 x.shard_hash
    × IsNodeId x.node_id
    × (ltb x.size 1 ≡ false)
    × IsFilled x.protection_state
    × ((is_protection_state x.protection_state) ≡ true)
    × IsOptional (IsNumber numbers true) x.last_push_at
    × IsOptional (IsNumber numbers true) x.last_verify_at

-- The loop over a pack's chunks, with the end of the chunk before, and the test after it
unfoldable pub check_pack_chunks :
    ℕ → List Text → ℕ → ℕ → List PackChunk → Result ModelError (Unit {0})
unfolding contains
check_pack_chunks payload_size seen expected_ordinal previous_end [] =
    raise_if (not (previous_end == payload_size)) not_covered
check_pack_chunks payload_size seen expected_ordinal previous_end (chunk ∷ chunks) = do
  raise_if (contains chunk.chunk_hash seen) repeated
  raise_if (not (chunk.ordinal == expected_ordinal)) ordinal_gap
  raise_if (not (chunk.offset == previous_end)) offset_gap
  check_pack_chunks payload_size (chunk.chunk_hash ∷ seen) (suc expected_ordinal)
      (chunk.offset + chunk.length) chunks

abbrev pub chunk_name : PackChunk → Text
chunk_name c = c.chunk_hash

-- The chunks follow each other from an ordinal and an offset up to an end.
abbrev pub AreTiles : ℕ → ℕ → ℕ → List PackChunk → Type 0
AreTiles end ordinal offset [] = offset ≡ end
AreTiles end ordinal offset (chunk ∷ chunks) =
    (chunk.ordinal ≡ ordinal)
    × (chunk.offset ≡ offset)
    × AreTiles end (suc ordinal) (offset + chunk.length) chunks

abbrev pub ArePackChunks : ℕ → List PackChunk → Type 0
ArePackChunks payload_size chunks = AreDistinct chunk_name chunks × AreTiles payload_size 0 0 chunks

abbrev pub placement_node : ShardPlacement → Text
placement_node s = s.node_id

abbrev pub placement_index : ShardPlacement → ℕ
placement_index s = s.shard_index

-- No node holds two shards of a pack.
unfoldable pub check_nodes : List Text → List ShardPlacement → Result ModelError (Unit {0})
unfolding contains
check_nodes node_ids [] = ok tt
check_nodes node_ids (shard ∷ shards) = do
  raise_if (contains shard.node_id node_ids) repeated_node
  check_nodes (shard.node_id ∷ node_ids) shards

-- `list(range(n))`, from a start
unfoldable pub range_from : ℕ → ℕ → List ℕ
range_from start zero = []
range_from start (suc n) = start ∷ range_from (suc start) n

unfoldable pub same_indexes : List ℕ → List ℕ → Bool
same_indexes [] [] = true
same_indexes [] (b ∷ bs) = false
same_indexes (a ∷ more) [] = false
same_indexes (a ∷ more) (b ∷ bs) = if a == b then same_indexes more bs else false

pub record PackRecord : Type 0 where
  pub pack_hash : Text
  pub codec : Text
  pub data_shards : ℕ
  pub parity_shards : ℕ
  pub payload_size : ℕ
  pub padded_size : ℕ
  pub shard_size : ℕ
  pub protection_state : Text
  pub placement_epoch : Option Text
  pub created_at : Number
  pub last_push_at : Option Number
  pub last_verify_at : Option Number
  pub last_error : Option Text
  pub chunks : List PackChunk
  pub shards : List ShardPlacement

unfoldable pub new_pack_record :
    Numbers
    → Value
    → Value
    → Value
    → Value
    → Value
    → Value
    → Value
    → Value
    → Value
    → Value
    → Value
    → Value
    → Value
    → List PackChunk
    → List ShardPlacement
    → Result ModelError PackRecord
unfolding check_nodes check_pack_chunks is_protection_state optional range_from require_hash64
    require_int require_number require_str same_indexes
new_pack_record numbers pack_hash codec data_shards parity_shards payload_size padded_size
      shard_size protection_state placement_epoch created_at last_push_at last_verify_at last_error
      chunks shards =
    do
      pack_hash ← require_hash64 pack_hash
      codec ← require_str false codec
      data_shards ← require_int 1 data_shards
      parity_shards ← require_int 0 parity_shards
      payload_size ← require_int 0 payload_size
      padded_size ← require_int 0 padded_size
      shard_size ← require_int 1 shard_size
      raise_if (not (padded_size == (shard_size * data_shards))) padded_size_mismatch
      raise_if (ltb padded_size payload_size) payload_exceeds_padded
      protection_state ← require_str false protection_state
      raise_if (not (is_protection_state protection_state)) invalid_state
      placement_epoch ← optional (require_str true) placement_epoch
      created_at ← require_number numbers true created_at
      last_push_at ← optional (require_number numbers true) last_push_at
      last_verify_at ← optional (require_number numbers true) last_verify_at
      last_error ← optional (require_str true) last_error
      raise_if (length chunks == 0) no_chunks
      check_pack_chunks payload_size [] 0 0 chunks
      check_nodes [] shards
      raise_if
          (not (
            same_indexes (map placement_index shards) (range_from 0 (data_shards + parity_shards))))
          missing_indexes
      ok (record {
        pack_hash = pack_hash;
        codec = codec;
        data_shards = data_shards;
        parity_shards = parity_shards;
        payload_size = payload_size;
        padded_size = padded_size;
        shard_size = shard_size;
        protection_state = protection_state;
        placement_epoch = placement_epoch;
        created_at = created_at;
        last_push_at = last_push_at;
        last_verify_at = last_verify_at;
        last_error = last_error;
        chunks = chunks;
        shards = shards;
      })

abbrev pub IsPackRecord : Numbers → PackRecord → Type 0
IsPackRecord numbers x =
    IsHash64 x.pack_hash
    × IsFilled x.codec
    × (ltb x.data_shards 1 ≡ false)
    × (ltb x.shard_size 1 ≡ false)
    × ((x.padded_size == (x.shard_size * x.data_shards)) ≡ true)
    × ((ltb x.padded_size x.payload_size) ≡ false)
    × IsFilled x.protection_state
    × ((is_protection_state x.protection_state) ≡ true)
    × IsNumber numbers true x.created_at
    × IsOptional (IsNumber numbers true) x.last_push_at
    × IsOptional (IsNumber numbers true) x.last_verify_at
    × All IsPackChunk x.chunks
    × All (IsShardPlacement numbers) x.shards
    × ((length x.chunks == 0) ≡ false)
    × ArePackChunks x.payload_size x.chunks
    × AreDistinct placement_node x.shards
    × ((same_indexes (map placement_index x.shards)
          (range_from 0 (x.data_shards + x.parity_shards)))
        ≡ true)

unfoldable pub pack_listing : Text → Listing PackRecord
unfolding by_name check_prefix
pack_listing prefix =
    by_name (λ (r : PackRecord). r.pack_hash) (λ (r : PackRecord). check_prefix prefix r.pack_hash)

pub record PackShard : Type 0 where
  pub prefix : Text
  pub records : List PackRecord

unfoldable pub new_pack_shard : Numbers → Value → List PackRecord → Result ModelError PackShard
unfolding check_listing pack_listing require_prefix
new_pack_shard numbers prefix records = do
  prefix ← require_prefix prefix
  check_listing (pack_listing prefix) [] none records
  ok (record { prefix = prefix; records = records })

abbrev pub IsPackShard : Numbers → PackShard → Type 0
IsPackShard numbers x =
    IsPrefix x.prefix
    × All (IsPackRecord numbers) x.records
    × IsListing (pack_listing x.prefix) x.records

pub record PackIndex : Type 0 where
  pub shards : List IndexShardRef
  pub total_packs : ℕ
  pub total_chunks : ℕ
  pub total_shards : ℕ

unfoldable pub new_pack_index :
    List IndexShardRef → Value → Value → Value → Result ModelError PackIndex
unfolding check_listing require_int shard_ref_listing
new_pack_index shards total_packs total_chunks total_shards = do
  total_packs ← require_int 0 total_packs
  total_chunks ← require_int 0 total_chunks
  total_shards ← require_int 0 total_shards
  check_listing (shard_ref_listing ObjectType.erasure_data_pack_shard) [] none shards
  raise_if (not (total_count shards == total_packs)) total_mismatch
  ok (record {
    shards = shards;
    total_packs = total_packs;
    total_chunks = total_chunks;
    total_shards = total_shards;
  })

abbrev pub IsPackIndex : PackIndex → Type 0
IsPackIndex x =
    All IsIndexShardRef x.shards
    × IsListing (shard_ref_listing ObjectType.erasure_data_pack_shard) x.shards
    × ((total_count x.shards == x.total_packs) ≡ true)
