-- ===== src/Objects/Models/Shards.antt =====
-- The known-chunk classes of metadata/objects/models.py and IndexShardRef.
pub mod Laws
use stopan.Prelude.{
  ℕ, ◌+◌, ltb, ◌==◌, ◌≡◌, Bool, true, false, not, List, [], ◌∷◌, none, if◌then◌else◌, Text, All,
  Result, ok, ◌>>=◌, ◌>>◌, raise_if,
}
use stopan.Objects.Json.{Value}
use stopan.Objects.Kinds.{ObjectType}
use stopan.Objects.Models.Checks.{
  ModelError, require_int, require_hash64, require_prefix, outside_prefix, total_mismatch,
}
use stopan.Objects.Models.Checks.Laws.{IsHash64, IsPrefix}
use stopan.Objects.Models.Ordered.{Listing, check_listing, IsListing}
use stopan.Objects.Models.Ordered.Orders.{by_name}
use stopan.Objects.Models.Trees.{ObjectRef, require_ref_to, IsObjectRef}

pub record KnownChunkRecord : Type 0 where
  pub chunk_hash : Text
  pub size : ℕ

unfoldable pub new_known_chunk_record : Value → Value → Result ModelError KnownChunkRecord
unfolding require_hash64 require_int
new_known_chunk_record chunk_hash size = do
  chunk_hash ← require_hash64 chunk_hash
  size ← require_int 1 size
  ok (record { chunk_hash = chunk_hash; size = size })

abbrev pub IsKnownChunkRecord : KnownChunkRecord → Type 0
IsKnownChunkRecord x = IsHash64 x.chunk_hash × (ltb x.size 1 ≡ false)

-- `text.startswith(prefix)`
unfoldable pub starts_with : Text → Text → Bool
starts_with [] text = true
starts_with (c ∷ prefix) [] = false
starts_with (c ∷ prefix) (d ∷ text) = if c == d then starts_with prefix text else false

unfoldable pub check_prefix : Text → Text → Result ModelError (Unit {0})
unfolding starts_with
check_prefix prefix hash = raise_if (not (starts_with prefix hash)) outside_prefix

unfoldable pub known_chunk_listing : Text → Listing KnownChunkRecord
unfolding by_name check_prefix
known_chunk_listing prefix =
    by_name (λ (r : KnownChunkRecord). r.chunk_hash)
      (λ (r : KnownChunkRecord). check_prefix prefix r.chunk_hash)

pub record KnownChunkShard : Type 0 where
  pub prefix : Text
  pub chunks : List KnownChunkRecord

unfoldable pub new_known_chunk_shard :
    Value → List KnownChunkRecord → Result ModelError KnownChunkShard
unfolding check_listing known_chunk_listing require_prefix
new_known_chunk_shard prefix chunks = do
  prefix ← require_prefix prefix
  check_listing (known_chunk_listing prefix) [] none chunks
  ok (record { prefix = prefix; chunks = chunks })

abbrev pub IsKnownChunkShard : KnownChunkShard → Type 0
IsKnownChunkShard x =
    IsPrefix x.prefix
    × All IsKnownChunkRecord x.chunks
    × IsListing (known_chunk_listing x.prefix) x.chunks

pub record IndexShardRef : Type 0 where
  pub prefix : Text
  pub count : ℕ
  pub ref : ObjectRef

unfoldable pub new_index_shard_ref : Value → Value → ObjectRef → Result ModelError IndexShardRef
unfolding require_int require_prefix
new_index_shard_ref prefix count ref = do
  prefix ← require_prefix prefix
  count ← require_int 0 count
  ok (record { prefix = prefix; count = count; ref = ref })

abbrev pub IsIndexShardRef : IndexShardRef → Type 0
IsIndexShardRef x = IsPrefix x.prefix × IsObjectRef x.ref

unfoldable pub shard_ref_listing : ObjectType → Listing IndexShardRef
unfolding by_name require_ref_to
shard_ref_listing expected =
    by_name (λ (s : IndexShardRef). s.prefix) (λ (s : IndexShardRef). require_ref_to expected s.ref)

abbrev pub total_count : List IndexShardRef → ℕ
total_count [] = 0
total_count (shard ∷ shards) = shard.count + total_count shards

pub record KnownChunkIndex : Type 0 where
  pub shards : List IndexShardRef
  pub total_chunks : ℕ

unfoldable pub new_known_chunk_index :
    List IndexShardRef → Value → Result ModelError KnownChunkIndex
unfolding check_listing require_int shard_ref_listing
new_known_chunk_index shards total_chunks = do
  total_chunks ← require_int 0 total_chunks
  check_listing (shard_ref_listing ObjectType.known_chunk_shard) [] none shards
  raise_if (not (total_count shards == total_chunks)) total_mismatch
  ok (record { shards = shards; total_chunks = total_chunks })

abbrev pub IsKnownChunkIndex : KnownChunkIndex → Type 0
IsKnownChunkIndex x =
    All IsIndexShardRef x.shards
    × IsListing (shard_ref_listing ObjectType.known_chunk_shard) x.shards
    × ((total_count x.shards == x.total_chunks) ≡ true)
