-- ===== src/Cluster/Epoch.antt =====
-- The epochs of a cluster view: cluster/view.py.
use stopan.Prelude.{List, Text}
use stopan.Protection.{ℤ}
use stopan.Objects.Envelope.{Codec}
use stopan.Placement.Epoch.{compute_placement_epoch}
use stopan.Cluster.{ClusterView, node_ids, candidate_node_ids_excluding}

unfoldable pub placement_epoch : Codec → ClusterView → ℤ → Text → Text
unfolding compute_placement_epoch node_ids
placement_epoch codec cluster desired_rf cluster_token =
    compute_placement_epoch codec cluster_token desired_rf (node_ids cluster)

unfoldable pub placement_epoch_excluding : Codec → ClusterView → ℤ → Text → List Text → Text
unfolding compute_placement_epoch candidate_node_ids_excluding
placement_epoch_excluding codec cluster desired_rf cluster_token excluded_node_ids =
    compute_placement_epoch codec cluster_token desired_rf
      (candidate_node_ids_excluding cluster excluded_node_ids)
