-- ===== src/Objects/Models/Packs/Laws.antt =====
-- The lemmas on the classes of erasure-coded packs.
use stopan.Prelude.{
  ◌+◌, ◌*◌, ltb, ◌==◌, ◌≡◌, refl, ◌↔◌, true, false, not, List, [], map, none, length, Text, All, ok,
  Ensures, returned, Ensures->>=, Ensures-raise_if,
}
use stopan.Protection.{pos}
use stopan.Objects.Json.{Value, integer, string}
use stopan.Objects.Kinds.{ObjectType}
use stopan.Objects.Models.Checks.{
  Numbers, require_str, require_number, total_mismatch, invalid_state, padded_size_mismatch,
  payload_exceeds_padded, no_chunks, missing_indexes,
}
use stopan.Objects.Models.Checks.Laws.{
  not-eq-false, require_str-IsText, require_str-string, require_int-AtLeast, require_int-pos,
  number_value, require_number-IsNumber, require_number-value, require_hash64-IsHash64,
  require_hash64-string, require_node_id-string, require_prefix-IsPrefix, require_prefix-string,
  optional_value, optional-IsOptional, optional-string, optional-number_value, Ensures-check,
  at_least_zero,
}
use stopan.Objects.Models.Checks.Rules.{ensures_rules}
use stopan.Objects.Models.Ordered.{check_listing, IsListing}
use stopan.Objects.Models.Ordered.Orders.{by_name_iff}
use stopan.Objects.Models.Shards.{
  check_prefix, IndexShardRef, IsIndexShardRef, shard_ref_listing, total_count,
}
use stopan.Objects.Models.Protections.{is_protection_state}
use stopan.Objects.Models.Shards.Laws.{shard_ref_listing_iff}
use stopan.Objects.Models.Packs.{
  PackChunk, new_pack_chunk, IsPackChunk, ShardPlacement, new_shard_placement, IsShardPlacement,
  check_pack_chunks, placement_index, check_nodes, range_from, same_indexes, PackRecord,
  new_pack_record, IsPackRecord, pack_listing, PackShard, new_pack_shard, IsPackShard, PackIndex,
  new_pack_index, IsPackIndex,
}
use stopan.Objects.Models.Packs.Loops.{check_pack_chunks_iff, check_nodes_iff}

pub pack_listing_iff :
    (prefix : Text) (l : List PackRecord)
    → (check_listing (pack_listing prefix) [] none l ≡ ok tt) ↔ IsListing (pack_listing prefix) l
unfolding pack_listing
pack_listing_iff prefix =
    by_name_iff (λ (r : PackRecord). r.pack_hash)
      (λ (r : PackRecord). check_prefix prefix r.pack_hash)

pub new_pack_chunk-IsPackChunk :
    (chunk_hash : Value) (offset : Value) (length : Value) (ordinal : Value)
    → Ensures (IsPackChunk) (new_pack_chunk chunk_hash offset length ordinal)
unfolding new_pack_chunk
new_pack_chunk-IsPackChunk chunk_hash offset length ordinal =
    search (ensures_rules) depth 40 fits 4000

pub new_pack_chunk_valid :
    (x : PackChunk)
    → IsPackChunk x
    → new_pack_chunk
        (string x.chunk_hash)
        (integer (pos x.offset))
        (integer (pos x.length))
        (integer (pos x.ordinal))
      ≡ ok x
unfolding new_pack_chunk
new_pack_chunk_valid x (h0, h1) =
    rw
      (
        require_hash64-string x.chunk_hash h0,
        at_least_zero x.offset,
        require_int-pos 1 x.length h1,
        at_least_zero x.ordinal,
      )
      refl

pub new_shard_placement-IsShardPlacement :
    (numbers : Numbers) (shard_index : Value) (shard_hash : Value) (node_id : Value) (size : Value)
    (protection_state : Value) (last_push_at : Value) (last_verify_at : Value) (last_error : Value)
    → Ensures (IsShardPlacement numbers) (
        new_shard_placement numbers shard_index shard_hash node_id size protection_state
          last_push_at last_verify_at last_error)
unfolding new_shard_placement
new_shard_placement-IsShardPlacement numbers shard_index shard_hash node_id size protection_state
      last_push_at last_verify_at last_error =
    search (ensures_rules) depth 40 fits 4000

pub new_shard_placement_valid :
    (numbers : Numbers) (x : ShardPlacement)
    → IsShardPlacement numbers x
    → new_shard_placement numbers
        (integer (pos x.shard_index))
        (string x.shard_hash)
        (string x.node_id)
        (integer (pos x.size))
        (string x.protection_state)
        (optional_value number_value x.last_push_at)
        (optional_value number_value x.last_verify_at)
        (optional_value string x.last_error)
      ≡ ok x
unfolding new_shard_placement
new_shard_placement_valid numbers x (h0, h1, h2, h3, h4, h5, h6) =
    rw
      (
        at_least_zero x.shard_index,
        require_hash64-string x.shard_hash h0,
        require_node_id-string x.node_id h1,
        require_int-pos 1 x.size h2,
        require_str-string false x.protection_state h3,
        h4,
        optional-number_value numbers x.last_push_at h5,
        optional-number_value numbers x.last_verify_at h6,
        optional-string x.last_error,
      )
      refl

pub new_pack_record-IsPackRecord :
    (numbers : Numbers) (pack_hash : Value) (codec : Value) (data_shards : Value)
    (parity_shards : Value) (payload_size : Value) (padded_size : Value) (shard_size : Value)
    (protection_state : Value) (placement_epoch : Value) (created_at : Value) (last_push_at : Value)
    (last_verify_at : Value) (last_error : Value) (chunks : List PackChunk)
    (shards : List ShardPlacement)
    → All IsPackChunk chunks
    → All (IsShardPlacement numbers) shards
    → Ensures (IsPackRecord numbers) (
        new_pack_record numbers pack_hash codec data_shards parity_shards payload_size padded_size
          shard_size protection_state placement_epoch created_at last_push_at last_verify_at
          last_error chunks shards)
unfolding new_pack_record
new_pack_record-IsPackRecord numbers pack_hash codec data_shards parity_shards payload_size
      padded_size shard_size protection_state placement_epoch created_at last_push_at last_verify_at
      last_error chunks shards r_chunks r_shards =
    Ensures->>= (require_hash64-IsHash64 pack_hash) λ pack_hash h0.
      Ensures->>= (require_str-IsText false codec) λ codec h1.
        Ensures->>= (require_int-AtLeast 1 data_shards) λ data_shards h2.
          Ensures->>= (require_int-AtLeast 0 parity_shards) λ parity_shards _.
            Ensures->>= (require_int-AtLeast 0 payload_size) λ payload_size _.
              Ensures->>= (require_int-AtLeast 0 padded_size) λ padded_size _.
                Ensures->>= (require_int-AtLeast 1 shard_size) λ shard_size h3.
                  Ensures-raise_if (not (padded_size == (shard_size * data_shards)))
                    padded_size_mismatch
                    λ h4.
                      Ensures-raise_if (ltb padded_size payload_size) payload_exceeds_padded λ h5.
                        Ensures->>= (require_str-IsText false protection_state)
                          λ protection_state h6.
                            Ensures-raise_if (not (is_protection_state protection_state))
                              invalid_state
                              λ h7.
                                Ensures->>=
                                  (optional-IsOptional (require_str true) (require_str-IsText true)
                                    placement_epoch)
                                  λ placement_epoch _.
                                    Ensures->>= (require_number-IsNumber numbers true created_at)
                                      λ created_at h8.
                                        Ensures->>=
                                          (optional-IsOptional (require_number numbers true)
                                            (require_number-IsNumber numbers true) last_push_at)
                                          λ last_push_at h9.
                                            Ensures->>=
                                              (optional-IsOptional (require_number numbers true)
                                                (require_number-IsNumber numbers true)
                                                last_verify_at)
                                              λ last_verify_at h10.
                                                Ensures->>=
                                                  (optional-IsOptional (require_str true)
                                                    (require_str-IsText true) last_error)
                                                  λ last_error _.
                                                    Ensures-raise_if (length chunks == 0) no_chunks
                                                      λ h13.
                                                        Ensures-check
                                                          (check_pack_chunks payload_size [] 0 0
                                                            chunks)
                                                          λ h14.
                                                            Ensures-check (check_nodes [] shards)
                                                            λ h15.
                                                            Ensures-raise_if
                                                            (not (
                                                            same_indexes
                                                            (map placement_index shards)
                                                            (range_from 0
                                                            (data_shards + parity_shards))))
                                                            missing_indexes
                                                            λ h16. returned (
                                                            h0,
                                                            h1,
                                                            h2,
                                                            h3,
                                                            not-eq-false _ h4,
                                                            h5,
                                                            h6,
                                                            not-eq-false _ h7,
                                                            h8,
                                                            h9,
                                                            h10,
                                                            r_chunks,
                                                            r_shards,
                                                            h13,
                                                            (check_pack_chunks_iff payload_size
                                                            chunks).0
                                                            h14,
                                                            (check_nodes_iff shards).0 h15,
                                                            not-eq-false _ h16,
                                                            )

pub new_pack_record_valid :
    (numbers : Numbers) (x : PackRecord)
    → IsPackRecord numbers x
    → new_pack_record numbers
        (string x.pack_hash)
        (string x.codec)
        (integer (pos x.data_shards))
        (integer (pos x.parity_shards))
        (integer (pos x.payload_size))
        (integer (pos x.padded_size))
        (integer (pos x.shard_size))
        (string x.protection_state)
        (optional_value string x.placement_epoch)
        (number_value x.created_at)
        (optional_value number_value x.last_push_at)
        (optional_value number_value x.last_verify_at)
        (optional_value string x.last_error)
        x.chunks
        x.shards
      ≡ ok x
unfolding new_pack_record
new_pack_record_valid numbers x
      (h0, h1, h2, h3, h4, h5, h6, h7, h8, h9, h10, h11, h12, h13, h14, h15, h16) =
    rw
      (
        require_hash64-string x.pack_hash h0,
        require_str-string false x.codec h1,
        require_int-pos 1 x.data_shards h2,
        at_least_zero x.parity_shards,
        at_least_zero x.payload_size,
        at_least_zero x.padded_size,
        require_int-pos 1 x.shard_size h3,
        h4,
        h5,
        require_str-string false x.protection_state h6,
        h7,
        optional-string x.placement_epoch,
        require_number-value numbers true x.created_at h8,
        optional-number_value numbers x.last_push_at h9,
        optional-number_value numbers x.last_verify_at h10,
        optional-string x.last_error,
        h13,
        (check_pack_chunks_iff x.payload_size x.chunks).1 h14,
        (check_nodes_iff x.shards).1 h15,
        h16,
      )
      refl

pub new_pack_shard-IsPackShard :
    (numbers : Numbers) (prefix : Value) (records : List PackRecord)
    → All (IsPackRecord numbers) records
    → Ensures (IsPackShard numbers) (new_pack_shard numbers prefix records)
unfolding new_pack_shard
new_pack_shard-IsPackShard numbers prefix records r_records =
    Ensures->>= (require_prefix-IsPrefix prefix) λ prefix h0.
      Ensures-check (check_listing (pack_listing prefix) [] none records)
        λ h2. returned (h0, r_records, (pack_listing_iff prefix records).0 h2)

pub new_pack_shard_valid :
    (numbers : Numbers) (x : PackShard)
    → IsPackShard numbers x
    → new_pack_shard numbers (string x.prefix) x.records ≡ ok x
unfolding new_pack_shard
new_pack_shard_valid numbers x (h0, h1, h2) =
    rw (require_prefix-string x.prefix h0, (pack_listing_iff x.prefix x.records).1 h2) refl

pub new_pack_index-IsPackIndex :
    (shards : List IndexShardRef) (total_packs : Value) (total_chunks : Value)
    (total_shards : Value)
    → All IsIndexShardRef shards
    → Ensures (IsPackIndex) (new_pack_index shards total_packs total_chunks total_shards)
unfolding new_pack_index
new_pack_index-IsPackIndex shards total_packs total_chunks total_shards r_shards =
    Ensures->>= (require_int-AtLeast 0 total_packs) λ total_packs _.
      Ensures->>= (require_int-AtLeast 0 total_chunks) λ total_chunks _.
        Ensures->>= (require_int-AtLeast 0 total_shards) λ total_shards _.
          Ensures-check
            (check_listing (shard_ref_listing ObjectType.erasure_data_pack_shard) [] none shards)
            λ h1. Ensures-raise_if (not (total_count shards == total_packs)) total_mismatch λ h2.
              returned (
                r_shards,
                (shard_ref_listing_iff ObjectType.erasure_data_pack_shard shards).0 h1,
                not-eq-false _ h2,
              )

pub new_pack_index_valid :
    (x : PackIndex)
    → IsPackIndex x
    → new_pack_index x.shards
        (integer (pos x.total_packs))
        (integer (pos x.total_chunks))
        (integer (pos x.total_shards))
      ≡ ok x
unfolding new_pack_index
new_pack_index_valid x (h0, h1, h2) =
    rw
      (
        at_least_zero x.total_packs,
        at_least_zero x.total_chunks,
        at_least_zero x.total_shards,
        (shard_ref_listing_iff ObjectType.erasure_data_pack_shard x.shards).1 h1,
        h2,
      )
      refl
