-- ===== src/Erasure/Placement/Plan.antt =====
-- What the plan is for a cluster whose members have clean names.
use stopan.Prelude.{
  ℕ, ◌+◌, min, ltb, ◌≡◌, refl, ap, inl, inr, true, false, List, [], ◌∷◌, map, if◌then◌else◌,
  Bool-cases, length, All, arith, Text, Bytes, contains, strip, ok, err,
}
use stopan.Cluster.{
  ClusterMember, ClusterView, node_ids, member_ids, candidate_node_ids_excluding,
  hrw_targets_excluding,
}
use stopan.Cluster.Targets.{hrw_targets_excluding_best}
use stopan.Erasure.Models.{too_few_nodes, ErasureSpec, total_shards, is_valid_blake3_hex}
use stopan.Erasure.Models.Hashes.{require_hash64-valid}
use stopan.Erasure.Placement.{
  DataPackShardPlacement, blank, make_placement, place_from, has_repeats,
  plan_data_pack_shard_placement,
}

-- A text that the constructor takes as it is.
abbrev pub IsUsable : Text → Type 0
IsUsable t = (strip t ≡ t) × (blank t ≡ false)

-- Shard `i + n` on the member at place `n`.
abbrev pub spread : Text → ℕ → List ClusterMember → List DataPackShardPlacement
spread h i [] = []
spread h i (m ∷ ms) =
    record { pack_hash = h; shard_index = i; node_id = m.node_id; address = m.address }
    ∷ spread h (i + 1) ms

make_placement_lem :
    (h : Text) (i : ℕ) (node_id address : Text)
    → is_valid_blake3_hex h ≡ true
    → IsUsable node_id
    → IsUsable address
    → make_placement h i node_id address
      ≡ ok (record { pack_hash = h; shard_index = i; node_id = node_id; address = address })
unfolding make_placement
make_placement_lem h i node_id address v n a = rw (require_hash64-valid h v, n.0, n.1, a.0, a.1)

place_from_lem :
    (h : Text) (i : ℕ) (ms : List ClusterMember)
    → is_valid_blake3_hex h ≡ true
    → All (λ m. IsUsable m.node_id × IsUsable m.address) ms
    → place_from h i ms ≡ ok (spread h i ms)
unfolding place_from
place_from_lem h i [] v u = refl
place_from_lem h i (m ∷ ms) v u =
    rw (make_placement_lem h i m.node_id m.address v u.0.0 u.0.1, place_from_lem h (i + 1) ms v u.1)

node_ids-spread :
    (h : Text) (i : ℕ) (ms : List ClusterMember)
    → map (λ p. p.node_id) (spread h i ms) ≡ member_ids ms
unfolding member_ids
node_ids-spread h i [] = refl
node_ids-spread h i (m ∷ ms) = ap (λ xs. m.node_id ∷ xs) (node_ids-spread h (i + 1) ms)

module _ (digest : Bytes → Bytes) (cluster : ClusterView) (spec : ErasureSpec)
    (h origin token : Text) where
  abbrev targets : List ClusterMember
  targets = hrw_targets_excluding digest cluster h (total_shards spec) token (origin ∷ [])

  -- For a canonical hash, an origin that the cluster knows, and targets with usable and distinct
  -- names and usable addresses: with fewer candidates than shards the plan is refused, and
  -- otherwise it puts the shard of each index on the target of that place, one for every shard.
  pub plan_data_pack_shard_placement_lem :
      is_valid_blake3_hex h ≡ true
      → IsUsable origin
      → contains origin (node_ids cluster) ≡ true
      → All (λ m. IsUsable m.node_id × IsUsable m.address) targets
      → has_repeats (member_ids targets) ≡ false
      → let candidates = length (candidate_node_ids_excluding cluster (origin ∷ [])) in
        plan_data_pack_shard_placement digest h spec cluster origin token ≡ (
          if ltb candidates (total_shards spec) then err too_few_nodes else ok (spread h 0 targets))
  unfolding plan_data_pack_shard_placement
  plan_data_pack_shard_placement_lem v o known usable distinct =
      let (_, count, _) =
        hrw_targets_excluding_best digest cluster h token (origin ∷ []) (total_shards spec) in
      let candidates = length (candidate_node_ids_excluding cluster (origin ∷ [])) in
      let same : ltb (length targets) (total_shards spec) ≡ ltb candidates (total_shards spec) =
        rw count (at_most candidates (total_shards spec)) in
      rw (require_hash64-valid h v, o.0, o.1, known, same)
        (elim (Bool-cases (ltb candidates (total_shards spec))) [
          | inl few ↦ rw few
          | inr enough ↦
              rw
                (enough, place_from_lem h 0 targets v usable, node_ids-spread h 0 targets, distinct)
        ])
    where
      at_most : (c n : ℕ) → ltb (min n c) n ≡ ltb c n
      at_most c n = ground arith
