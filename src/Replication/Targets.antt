-- ===== src/Replication/Targets.antt =====
-- The nodes that are chosen for the copies of a chunk.
use stopan.Prelude.{
  ℕ, zero, suc, min, ◌≡◌, refl, sym, List, [], ◌∷◌, length, All, Text, Bytes, strip, ok, arith,
}
use stopan.Placement.{hrw_top_k_node_ids}
use stopan.Cluster.{
  ClusterMember, ClusterView, member_ids, node_addresses, candidate_node_ids_excluding,
  hrw_targets_excluding,
}
use stopan.Cluster.Targets.{IsTarget, hrw_targets_excluding_best}
use stopan.Replication.{excluded_origin, select_remote_chunk_targets}

pub min_zero : (n : ℕ) → min 0 n ≡ 0
min_zero n = ground arith

-- For an origin with a name, the copies go to the best nodes by rank, as many as are required or
-- all candidates; none of them is the origin and each has its address in the view.
select_remote_chunk_targets_best :
    (digest : Bytes → Bytes) (cluster : ClusterView) (chunk_hash token origin : Text) (c : ℕ)
    (cs : Text) (required : ℕ)
    → strip origin ≡ c ∷ cs
    → let ids = candidate_node_ids_excluding cluster ((c ∷ cs) ∷ []) in
      (targets : List ClusterMember) × (select_remote_chunk_targets digest cluster chunk_hash
          required token origin
        ≡ ok targets)
      × (member_ids targets
          ≡ hrw_top_k_node_ids digest chunk_hash token ids (min required (length ids)))
      × (length targets ≡ min required (length ids))
      × All (IsTarget (node_addresses cluster) ((c ∷ cs) ∷ [])) targets
unfolding select_remote_chunk_targets excluded_origin
select_remote_chunk_targets_best digest cluster chunk_hash token origin c cs zero h =
    let none_asked = min_zero (length (candidate_node_ids_excluding cluster ((c ∷ cs) ∷ []))) in
    ([], refl, rw none_asked (unfold hrw_top_k_node_ids member_ids in refl), sym none_asked, tt)
select_remote_chunk_targets_best digest cluster chunk_hash token origin c cs (suc n) h =
    let (names, count, good) =
      hrw_targets_excluding_best digest cluster chunk_hash token ((c ∷ cs) ∷ []) (suc n) in
    (
      hrw_targets_excluding digest cluster chunk_hash (suc n) token ((c ∷ cs) ∷ []),
      rw h,
      names,
      count,
      good,
    )
