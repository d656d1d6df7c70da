-- ===== src/Replication/Tests.antt =====
-- Two copies of a chunk in a cluster of three nodes.
use stopan.Prelude.{
  ◌≡◌, refl, List, [], ◌∷◌, Text, some, lookup, contains, text_eq, codes, strip, ok,
}
use stopan.Placement.Tests.{toy_digest}
use stopan.Cluster.{ClusterMember}
use stopan.Cluster.Tests.{cluster}
use stopan.Replication.{
  ReplicationTargetPlan, select_remote_chunk_targets, plan_chunk_replication_targets,
}
use stopan.Replication.Plan.{plan_chunk_replication_targets-selected}

abbrev hashes : List Text
hashes = codes "x" ∷ codes "y" ∷ codes "x" ∷ []

plan_chunk_replication_targets-selected_example :
    (plan : ReplicationTargetPlan) × (targets : List ClusterMember)
    × (plan_chunk_replication_targets toy_digest cluster hashes 2 (codes "s") (codes " a")
        ≡ ok plan)
    × (lookup (codes "y") plan.chunk_targets ≡ some targets)
    × (select_remote_chunk_targets toy_digest cluster (codes "y") 2 (codes "s") (codes " a")
        ≡ ok targets)
unfolding strip contains text_eq
plan_chunk_replication_targets-selected_example =
    plan_chunk_replication_targets-selected toy_digest cluster hashes 2 (codes "s") (codes " a")
      b'a' [] (codes "y") refl refl
