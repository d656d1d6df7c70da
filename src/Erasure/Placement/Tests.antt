-- ===== src/Erasure/Placement/Tests.antt =====
-- A pack of two shards in a cluster of three nodes, of which one is its origin.
use stopan.Prelude.{
  ◌≡◌, refl, true, false, List, [], ◌∷◌, All, Text, codes, replicate, contains, text_eq, strip, ok,
}
use stopan.Placement.Tests.{toy_digest}
use stopan.Cluster.{
  ClusterMember, member_ids, node_ids, candidate_node_ids_excluding, hrw_targets_excluding,
}
use stopan.Cluster.Tests.{cluster}
use stopan.Erasure.Models.{ErasureSpec, is_valid_blake3_hex, is_hex_lower}
use stopan.Erasure.Placement.{has_repeats, plan_data_pack_shard_placement}
use stopan.Erasure.Placement.Plan.{IsUsable, spread, plan_data_pack_shard_placement_lem}

abbrev pack_hash : Text
pack_hash = replicate 64 b'0'

abbrev two_shards : ErasureSpec
two_shards = record { data_shards = 1; parity_shards = 1; codec = codes "zfec" }

abbrev origin : Text
origin = codes "a"

abbrev targets : List ClusterMember
targets =
    record { node_id = codes "c"; address = codes "h:3" }
    ∷ record { node_id = codes "b"; address = codes "h:2" }
    ∷ []

chosen : hrw_targets_excluding toy_digest cluster pack_hash 2 (codes "s") (origin ∷ []) ≡ targets
unfolding hrw_targets_excluding member_ids
chosen = refl

usable : All (λ m. IsUsable m.node_id × IsUsable m.address) targets
unfolding strip
usable = (((refl, refl), (refl, refl)), (((refl, refl), (refl, refl)), tt))

distinct : has_repeats (member_ids targets) ≡ false
unfolding has_repeats member_ids text_eq contains
distinct = refl

known : contains origin (node_ids cluster) ≡ true
unfolding contains node_ids member_ids text_eq
known = refl

canonical : is_valid_blake3_hex pack_hash ≡ true
unfolding is_valid_blake3_hex is_hex_lower
canonical = refl

plan_data_pack_shard_placement_lem_example :
    plan_data_pack_shard_placement toy_digest pack_hash two_shards cluster origin (codes "s")
    ≡ ok (spread pack_hash 0 targets)
unfolding hrw_targets_excluding strip member_ids candidate_node_ids_excluding
plan_data_pack_shard_placement_lem_example =
    plan_data_pack_shard_placement_lem toy_digest cluster two_shards pack_hash origin (codes "s")
      canonical (refl, refl) known usable distinct
