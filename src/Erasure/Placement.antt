-- ===== src/Erasure/Placement.antt =====
-- protection/ec/placement.py: which node gets which shard of a pack.
pub mod Plan
mod Tests
use stopan.Prelude.{
  ℕ, suc, ◌+◌, ltb, leb, Bool, true, false, not, ◌&&◌, ◌||◌, List, [], ◌∷◌, map, Option, none, some,
  if◌then◌else◌, length, Text, Bytes, text_eq, contains, strip, Result, ok, err, ◌>>=◌, ◌>>◌,
  raise_if,
}
use stopan.Cluster.{ClusterMember, ClusterView, node_ids, hrw_targets_excluding}
use stopan.Erasure.Models.{
  EcError, empty_node_id, empty_address, empty_origin, unknown_origin, too_few_nodes, repeated_node,
  require_hash64, ErasureSpec, total_shards,
}

pub record DataPackShardPlacement : Type 0 where
  pub pack_hash : Text
  pub shard_index : ℕ
  pub node_id : Text
  pub address : Text

-- `not text`
abbrev pub blank : Text → Bool
blank [] = true
blank (c ∷ cs) = false

unfoldable pub make_placement : Text → ℕ → Text → Text → Result EcError DataPackShardPlacement
unfolding require_hash64 strip
make_placement pack_hash shard_index node_id address = do
  h ← require_hash64 pack_hash
  raise_if (blank (strip node_id)) empty_node_id
  raise_if (blank (strip address)) empty_address
  ok (record {
    pack_hash = h;
    shard_index = shard_index;
    node_id = strip node_id;
    address = strip address;
  })

-- The placements of the members from the given index on.
unfoldable pub place_from :
    Text → ℕ → List ClusterMember → Result EcError (List DataPackShardPlacement)
unfolding make_placement
place_from pack_hash i [] = ok []
place_from pack_hash i (m ∷ ms) = do
  p ← make_placement pack_hash i m.node_id m.address
  ps ← place_from pack_hash (i + 1) ms
  ok (p ∷ ps)

-- `len(node_ids) != len(set(node_ids))`
unfoldable pub has_repeats : List Text → Bool
unfolding contains
has_repeats [] = false
has_repeats (x ∷ xs) = contains x xs || has_repeats xs

-- `str(cluster.self_node_id or "").strip()`
abbrev pub self_name : Option Text → Text
self_name none = []
self_name (some t) = strip t

module _ (digest : Bytes → Bytes) where
  unfoldable pub plan_data_pack_shard_placement :
      Text → ErasureSpec → ClusterView → Text → Text → Result EcError (List DataPackShardPlacement)
  unfolding require_hash64 place_from has_repeats
  plan_data_pack_shard_placement pack_hash spec cluster origin_node_id cluster_token = do
    h ← require_hash64 pack_hash
    let origin = strip origin_node_id
    raise_if (blank origin) empty_origin
    raise_if
        (not (contains origin (node_ids cluster))
          && not (text_eq origin (self_name cluster.self_node_id)))
        unknown_origin
    let members =
        hrw_targets_excluding digest cluster h (total_shards spec) cluster_token (origin ∷ [])
    raise_if (ltb (length members) (total_shards spec)) too_few_nodes
    placements ← place_from h 0 members
    raise_if (has_repeats (map (λ p. p.node_id) placements)) repeated_node
    ok placements
