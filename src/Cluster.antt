-- ===== src/Cluster.antt =====
-- cluster/view.py: the members of the cluster that placement chooses from.
-- A requested number of copies is a natural number: the code raises it to 0 where it is negative.
pub mod Targets
pub mod Epoch
pub mod Tests
use stopan.Prelude.{
  ℕ, zero, suc, min, ltb, leb, ◌==◌, Bool, true, false, not, ◌&&◌, ◌||◌, List, [], ◌∷◌, map, Option,
  none, some, if◌then◌else◌, length, Text, Bytes, text_eq, contains, Dict, lookup, insert,
}
use stopan.Placement.{hrw_top_k_node_ids}

pub record ClusterMember : Type 0 where
  pub node_id : Text
  pub address : Text

pub record ClusterView : Type 0 where
  pub self_node_id : Option Text
  pub members : List ClusterMember

unfoldable pub member_ids : List ClusterMember → List Text
member_ids = map (λ m. m.node_id)

unfoldable pub node_ids : ClusterView → List Text
unfolding member_ids
node_ids cluster = member_ids cluster.members

-- A later member with the same identifier overrides the address of an earlier one.
unfoldable pub addresses_onto : Dict Text → List ClusterMember → Dict Text
unfolding insert
addresses_onto d [] = d
addresses_onto d (m ∷ ms) = addresses_onto (insert m.node_id m.address d) ms

unfoldable pub node_addresses : ClusterView → Dict Text
unfolding addresses_onto
node_addresses cluster = addresses_onto [] cluster.members

-- A Python text is true unless it is empty.
abbrev pub truthy : Text → Bool
truthy [] = false
truthy (c ∷ s) = true

unfoldable pub named_excluded : List Text → List Text
named_excluded [] = []
named_excluded (x ∷ xs) = if truthy x then x ∷ named_excluded xs else named_excluded xs

unfoldable pub members_excluding : List Text → List ClusterMember → List ClusterMember
unfolding contains text_eq
members_excluding excluded [] = []
members_excluding excluded (m ∷ ms) =
    let rest = members_excluding excluded ms in
    if truthy m.node_id && not (contains m.node_id excluded) then m ∷ rest else rest

unfoldable pub candidate_members_excluding : ClusterView → List Text → List ClusterMember
unfolding members_excluding named_excluded
candidate_members_excluding cluster excluded =
    members_excluding (named_excluded excluded) cluster.members

unfoldable pub candidate_node_ids_excluding : ClusterView → List Text → List Text
unfolding candidate_members_excluding member_ids
candidate_node_ids_excluding cluster excluded =
    member_ids (candidate_members_excluding cluster excluded)

-- The members for the ranked identifiers that have an address.
unfoldable pub with_addresses : Dict Text → List Text → List ClusterMember
unfolding lookup
with_addresses address_map [] = []
with_addresses address_map (i ∷ is) =
    let rest = with_addresses address_map is in
    elim (lookup i address_map) [
      | none ↦ rest
      | some a ↦ record { node_id = i; address = a } ∷ rest
    ]

module _ (digest : Bytes → Bytes) where
  unfoldable pub hrw_targets_excluding :
      ClusterView → Text → ℕ → Text → List Text → List ClusterMember
  unfolding candidate_members_excluding hrw_top_k_node_ids with_addresses node_addresses
  hrw_targets_excluding cluster chunk_hash rf salt excluded =
      let candidates = candidate_members_excluding cluster excluded in
      let k = min rf (length candidates) in
      if leb (length candidates) 0
      then []
      else if leb k 0
      then []
      else with_addresses (node_addresses cluster)
          (hrw_top_k_node_ids digest chunk_hash salt (member_ids candidates) k)

  unfoldable pub hrw_targets : ClusterView → Text → ℕ → Text → List ClusterMember
  unfolding hrw_targets_excluding
  hrw_targets cluster chunk_hash rf salt = hrw_targets_excluding cluster chunk_hash rf salt []
