-- ===== src/Replication.antt =====
-- protection/replication/placement.py: which nodes get a copy of a chunk, and the plan for many chunks.
-- The required number of copies is a natural number: `normalize_remote_rf` refuses any other, and is
-- modelled in `Protection`.
pub mod Targets
pub mod Members
pub mod Plan
mod Tests
use stopan.Prelude.{
  ℕ, zero, suc, min, leb, Bool, true, false, not, ◌&&◌, List, [], ◌∷◌, ◌++◌, Option, none, some,
  if◌then◌else◌, length, Text, Bytes, text_eq, contains, strip, Dict, lookup, insert, Result, ok,
  err, ◌>>=◌, ◌>>◌, raise_if,
}
use stopan.Placement.{hrw_top_k_node_ids}
use stopan.Sequences.{ordered_unique}
use stopan.Cluster.{
  ClusterMember, ClusterView, member_ids, members_excluding, hrw_targets_excluding,
}

pub data PlanError : Type 0 where
  empty_origin unknown_node : PlanError

abbrev pub named_origin : Text → Result PlanError (List Text)
named_origin [] = err empty_origin
named_origin (c ∷ cs) = ok ((c ∷ cs) ∷ [])

-- `_excluded_origin`
unfoldable pub excluded_origin : Text → Result PlanError (List Text)
unfolding strip
excluded_origin origin_node_id = named_origin (strip origin_node_id)

module _ (digest : Bytes → Bytes) where
  unfoldable pub select_remote_chunk_targets :
      ClusterView → Text → ℕ → Text → Text → Result PlanError (List ClusterMember)
  unfolding excluded_origin
  select_remote_chunk_targets cluster chunk_hash zero cluster_token origin_node_id = ok []
  select_remote_chunk_targets cluster chunk_hash (suc n) cluster_token origin_node_id = do
    excluded ← excluded_origin origin_node_id
    ok (hrw_targets_excluding digest cluster chunk_hash (suc n) cluster_token excluded)

pub record ReplicationTargetPlan : Type 0 where
  pub chunk_targets : Dict (List ClusterMember)
  pub target_chunks : Dict (List Text)
  pub target_members : Dict ClusterMember

-- `{member.node_id: member for member in candidates}`
unfoldable pub members_onto : Dict ClusterMember → List ClusterMember → Dict ClusterMember
unfolding insert
members_onto d [] = d
members_onto d (m ∷ ms) = members_onto (insert m.node_id m d) ms

unfoldable pub pick : Dict ClusterMember → List Text → Result PlanError (List ClusterMember)
unfolding lookup
pick member_by_id [] = ok []
pick member_by_id (i ∷ is) = elim (lookup i member_by_id) [
  | none ↦ err unknown_node
  | some m ↦ do rest ← pick member_by_id is; ok (m ∷ rest)
]

-- `target_chunks[address].append(chunk_hash)`
unfoldable pub append_chunk : Text → Text → Dict (List Text) → Dict (List Text)
unfolding lookup insert
append_chunk address chunk_hash d = elim (lookup address d) [
  | none ↦ insert address (chunk_hash ∷ []) d
  | some hashes ↦ insert address (hashes ++ chunk_hash ∷ []) d
]

-- The loop over the targets of a chunk.
unfoldable pub assign : Text → List ClusterMember → ReplicationTargetPlan → ReplicationTargetPlan
unfolding append_chunk insert
assign chunk_hash [] plan = plan
assign chunk_hash (m ∷ ms) plan = assign chunk_hash ms (record plan {
  target_chunks = append_chunk m.address chunk_hash plan.target_chunks;
  target_members = insert m.address m plan.target_members;
})

module _ (digest : Bytes → Bytes) where
  -- `remote_targets` of a chunk
  unfoldable pub remote_targets :
      List ClusterMember → ℕ → Text → Text → Result PlanError (List ClusterMember)
  unfolding pick members_onto member_ids hrw_top_k_node_ids
  remote_targets candidates k salt chunk_hash =
      if leb k 0
      then ok []
      else pick (members_onto [] candidates)
          (hrw_top_k_node_ids digest chunk_hash salt (member_ids candidates) k)

  -- The loop over the chunks.
  unfoldable pub plan_loop :
      List ClusterMember
      → ℕ
      → Text
      → List Text
      → ReplicationTargetPlan
      → Result PlanError ReplicationTargetPlan
  unfolding remote_targets assign insert
  plan_loop candidates k salt [] plan = ok plan
  plan_loop candidates k salt (chunk_hash ∷ hashes) plan = do
    targets ← remote_targets candidates k salt chunk_hash
    plan_loop candidates k salt hashes (
        assign chunk_hash targets
          (record plan { chunk_targets = insert chunk_hash targets plan.chunk_targets }))

  unfoldable pub plan_chunk_replication_targets :
      ClusterView → List Text → ℕ → Text → Text → Result PlanError ReplicationTargetPlan
  unfolding ordered_unique excluded_origin members_excluding plan_loop
  plan_chunk_replication_targets cluster chunk_hashes required_remote_copies cluster_token
        origin_node_id =
      do
        excluded ← excluded_origin origin_node_id
        let candidates = members_excluding excluded cluster.members
        plan_loop candidates (min required_remote_copies (length candidates)) cluster_token
            (ordered_unique chunk_hashes)
            (record { chunk_targets = []; target_chunks = []; target_members = [] })
