-- ===== src/Objects/Models/Shards/Laws.antt =====
-- The lemmas on the shards of known chunks and the indexes of shards.
use stopan.Prelude.{
  ◌==◌, ◌≡◌, refl, ◌↔◌, not, List, [], none, Text, All, ok, Ensures, returned, Ensures->>=,
  Ensures-raise_if,
}
use stopan.Protection.{pos}
use stopan.Objects.Json.{Value, integer, string}
use stopan.Objects.Kinds.{ObjectType}
use stopan.Objects.Models.Checks.{total_mismatch}
use stopan.Objects.Models.Checks.Laws.{
  not-eq-false, require_int-AtLeast, require_int-pos, require_hash64-IsHash64,
  require_hash64-string, require_prefix-IsPrefix, require_prefix-string, Ensures-check,
  at_least_zero,
}
use stopan.Objects.Models.Checks.Rules.{ensures_rules}
use stopan.Objects.Models.Ordered.{check_listing, IsListing}
use stopan.Objects.Models.Ordered.Orders.{by_name_iff}
use stopan.Objects.Models.Trees.{ObjectRef, require_ref_to, IsObjectRef}
use stopan.Objects.Models.Shards.{
  KnownChunkRecord, new_known_chunk_record, IsKnownChunkRecord, check_prefix, known_chunk_listing,
  KnownChunkShard, new_known_chunk_shard, IsKnownChunkShard, IndexShardRef, new_index_shard_ref,
  IsIndexShardRef, shard_ref_listing, total_count, KnownChunkIndex, new_known_chunk_index,
  IsKnownChunkIndex,
}

pub known_chunk_listing_iff :
    (prefix : Text) (l : List KnownChunkRecord)
    → (check_listing (known_chunk_listing prefix) [] none l ≡ ok tt)
      ↔ IsListing (known_chunk_listing prefix) l
unfolding known_chunk_listing
known_chunk_listing_iff prefix =
    by_name_iff (λ (r : KnownChunkRecord). r.chunk_hash)
      (λ (r : KnownChunkRecord). check_prefix prefix r.chunk_hash)

pub shard_ref_listing_iff :
    (expected : ObjectType) (l : List IndexShardRef)
    → (check_listing (shard_ref_listing expected) [] none l ≡ ok tt)
      ↔ IsListing (shard_ref_listing expected) l
unfolding shard_ref_listing
shard_ref_listing_iff expected =
    by_name_iff (λ (s : IndexShardRef). s.prefix)
      (λ (s : IndexShardRef). require_ref_to expected s.ref)

pub new_known_chunk_record-IsKnownChunkRecord :
    (chunk_hash : Value) (size : Value)
    → Ensures (IsKnownChunkRecord) (new_known_chunk_record chunk_hash size)
unfolding new_known_chunk_record
new_known_chunk_record-IsKnownChunkRecord chunk_hash size =
    Ensures->>= (require_hash64-IsHash64 chunk_hash)
      λ chunk_hash h0. Ensures->>= (require_int-AtLeast 1 size) λ size h1. returned (h0, h1)

pub new_known_chunk_record_valid :
    (x : KnownChunkRecord)
    → IsKnownChunkRecord x
    → new_known_chunk_record (string x.chunk_hash) (integer (pos x.size)) ≡ ok x
unfolding new_known_chunk_record
new_known_chunk_record_valid x (h0, h1) =
    rw (require_hash64-string x.chunk_hash h0, require_int-pos 1 x.size h1) refl

pub new_known_chunk_shard-IsKnownChunkShard :
    (prefix : Value) (chunks : List KnownChunkRecord)
    → All IsKnownChunkRecord chunks
    → Ensures (IsKnownChunkShard) (new_known_chunk_shard prefix chunks)
unfolding new_known_chunk_shard
new_known_chunk_shard-IsKnownChunkShard prefix chunks r_chunks =
    Ensures->>= (require_prefix-IsPrefix prefix) λ prefix h0.
      Ensures-check (check_listing (known_chunk_listing prefix) [] none chunks)
        λ h2. returned (h0, r_chunks, (known_chunk_listing_iff prefix chunks).0 h2)

pub new_known_chunk_shard_valid :
    (x : KnownChunkShard)
    → IsKnownChunkShard x
    → new_known_chunk_shard (string x.prefix) x.chunks ≡ ok x
unfolding new_known_chunk_shard
new_known_chunk_shard_valid x (h0, h1, h2) =
    rw (require_prefix-string x.prefix h0, (known_chunk_listing_iff x.prefix x.chunks).1 h2) refl

pub new_index_shard_ref-IsIndexShardRef :
    (prefix : Value) (count : Value) (ref : ObjectRef)
    → IsObjectRef ref
    → Ensures (IsIndexShardRef) (new_index_shard_ref prefix count ref)
unfolding new_index_shard_ref
new_index_shard_ref-IsIndexShardRef prefix count ref r_ref =
    search (ensures_rules) depth 40 fits 4000

pub new_index_shard_ref_valid :
    (x : IndexShardRef)
    → IsIndexShardRef x
    → new_index_shard_ref (string x.prefix) (integer (pos x.count)) x.ref ≡ ok x
unfolding new_index_shard_ref
new_index_shard_ref_valid x (h0, h1) =
    rw (require_prefix-string x.prefix h0, at_least_zero x.count) refl

pub new_known_chunk_index-IsKnownChunkIndex :
    (shards : List IndexShardRef) (total_chunks : Value)
    → All IsIndexShardRef shards
    → Ensures (IsKnownChunkIndex) (new_known_chunk_index shards total_chunks)
unfolding new_known_chunk_index
new_known_chunk_index-IsKnownChunkIndex shards total_chunks r_shards =
    Ensures->>= (require_int-AtLeast 0 total_chunks) λ total_chunks _.
      Ensures-check (check_listing (shard_ref_listing ObjectType.known_chunk_shard) [] none shards)
        λ h1. Ensures-raise_if (not (total_count shards == total_chunks)) total_mismatch λ h2.
          returned (
            r_shards,
            (shard_ref_listing_iff ObjectType.known_chunk_shard shards).0 h1,
            not-eq-false _ h2,
          )

pub new_known_chunk_index_valid :
    (x : KnownChunkIndex)
    → IsKnownChunkIndex x
    → new_known_chunk_index x.shards (integer (pos x.total_chunks)) ≡ ok x
unfolding new_known_chunk_index
new_known_chunk_index_valid x (h0, h1, h2) =
    rw
      (
        at_least_zero x.total_chunks,
        (shard_ref_listing_iff ObjectType.known_chunk_shard x.shards).1 h1,
        h2,
      )
      refl
