-- ===== src/Cluster/Tests.antt =====
-- The targets of a chunk in a small cluster.
use stopan.Prelude.{min, ◌≡◌, List, [], ◌∷◌, length, All, Text, codes, none}
use stopan.Placement.{hrw_top_k_node_ids}
use stopan.Placement.Tests.{toy_digest}
use stopan.Cluster.{
  ClusterMember, ClusterView, member_ids, node_addresses, candidate_node_ids_excluding,
  hrw_targets_excluding,
}
use stopan.Cluster.Targets.{IsTarget, hrw_targets_excluding_best}

abbrev pub cluster : ClusterView
cluster = record {
  self_node_id = none;
  members =
      record { node_id = codes "a"; address = codes "h:1" }
      ∷ record { node_id = codes "b"; address = codes "h:2" }
      ∷ record { node_id = codes "c"; address = codes "h:3" }
      ∷ [];
}

abbrev excluded : List Text
excluded = codes "b" ∷ []

abbrev targets : List ClusterMember
targets = hrw_targets_excluding toy_digest cluster (codes "x") 3 (codes "s") excluded

hrw_targets_excluding_best_example :
    (member_ids targets
      ≡ hrw_top_k_node_ids toy_digest
          (codes "x")
          (codes "s")
          (candidate_node_ids_excluding cluster excluded)
          (min 3 (length (candidate_node_ids_excluding cluster excluded))))
    × (length targets ≡ min 3 (length (candidate_node_ids_excluding cluster excluded)))
    × All (IsTarget (node_addresses cluster) excluded) targets
hrw_targets_excluding_best_example =
    hrw_targets_excluding_best toy_digest cluster (codes "x") (codes "s") excluded 3
