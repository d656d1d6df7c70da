-- ===== src/Objects/Models/Snapshots/Laws.antt =====
-- The lemmas on the snapshot classes: validity of what is constructed, and construction from the
-- fields of a valid object.
use stopan.Prelude.{◌≡◌, refl, ◌↔◌, false, List, [], Option, none, All, ok, Ensures, returned}
use stopan.Protection.{pos}
use stopan.Objects.Json.{Value, integer, string}
use stopan.Objects.Kinds.{ObjectType}
use stopan.Objects.Models.Checks.Laws.{
  require_str-string, require_node_id-string, require_uuid-string, IsOptional, optional_value,
  optional-string, Ensures-check, at_least_zero,
}
use stopan.Objects.Models.Checks.Rules.{ensures_rules}
use stopan.Objects.Models.Ordered.{check_listing, IsListing}
use stopan.Objects.Models.Ordered.Orders.{by_key_iff}
use stopan.Objects.Models.Trees.{ObjectRef, IsObjectRef}
use stopan.Objects.Models.Trees.Laws.{
  Ensures-require_ref_to, require_ref_to_valid, Ensures-require_optional_ref_to,
  require_optional_ref_to_valid,
}
use stopan.Objects.Models.Snapshots.{
  SnapshotRoot, new_snapshot_root, IsSnapshotRoot, SnapshotIndexEntry, new_snapshot_index_entry,
  IsSnapshotIndexEntry, snapshot_listing, SnapshotIndex, new_snapshot_index, IsSnapshotIndex,
}

pub snapshot_listing_iff :
    (l : List SnapshotIndexEntry)
    → (check_listing snapshot_listing [] none l ≡ ok tt) ↔ IsListing snapshot_listing l
unfolding snapshot_listing
snapshot_listing_iff =
    by_key_iff (λ (e : SnapshotIndexEntry). e.snapshot_uuid)
      (λ (e : SnapshotIndexEntry). (e.created_at, e.snapshot_uuid)) (λ _. ok tt)

pub new_snapshot_root-IsSnapshotRoot :
    (snapshot_uuid : Value) (root_path : Value) (origin_node_id : Value) (created_at : Value)
    (total_size : Value) (total_files : Value) (root_tree : ObjectRef)
    → IsObjectRef root_tree
    → Ensures (IsSnapshotRoot) (
        new_snapshot_root snapshot_uuid root_path origin_node_id created_at total_size total_files
          root_tree)
unfolding new_snapshot_root
new_snapshot_root-IsSnapshotRoot snapshot_uuid root_path origin_node_id created_at total_size
      total_files root_tree r_root_tree =
    search (ensures_rules, Ensures-require_ref_to) depth 40 fits 4000

pub new_snapshot_root_valid :
    (x : SnapshotRoot)
    → IsSnapshotRoot x
    → new_snapshot_root
        (string x.snapshot_uuid)
        (string x.root_path)
        (string x.origin_node_id)
        (string x.created_at)
        (integer (pos x.total_size))
        (integer (pos x.total_files))
        x.root_tree
      ≡ ok x
unfolding new_snapshot_root
new_snapshot_root_valid x (h0, h1, h2, h3) =
    rw
      (
        require_uuid-string x.snapshot_uuid h0,
        require_node_id-string x.origin_node_id h1,
        require_str-string false x.created_at h2,
        at_least_zero x.total_size,
        at_least_zero x.total_files,
        require_ref_to_valid ObjectType.tree x.root_tree (h3).1,
      )
      refl

pub new_snapshot_index_entry-IsSnapshotIndexEntry :
    (snapshot_uuid : Value) (status : Value) (root_path : Value) (origin_node_id : Value)
    (created_at : Value) (total_size : Value) (total_files : Value)
    (snapshot_root : Option ObjectRef) (error : Value)
    → IsOptional IsObjectRef snapshot_root
    → Ensures (IsSnapshotIndexEntry) (
        new_snapshot_index_entry snapshot_uuid status root_path origin_node_id created_at total_size
          total_files snapshot_root error)
unfolding new_snapshot_index_entry
new_snapshot_index_entry-IsSnapshotIndexEntry snapshot_uuid status root_path origin_node_id
      created_at total_size total_files snapshot_root error r_snapshot_root =
    search (ensures_rules, Ensures-require_optional_ref_to) depth 40 fits 4000

pub new_snapshot_index_entry_valid :
    (x : SnapshotIndexEntry)
    → IsSnapshotIndexEntry x
    → new_snapshot_index_entry
        (string x.snapshot_uuid)
        (string x.status)
        (string x.root_path)
        (string x.origin_node_id)
        (string x.created_at)
        (integer (pos x.total_size))
        (integer (pos x.total_files))
        x.snapshot_root
        (optional_value string x.error)
      ≡ ok x
unfolding new_snapshot_index_entry
new_snapshot_index_entry_valid x (h0, h1, h2, h3, h4, h5, h6) =
    rw
      (
        require_uuid-string x.snapshot_uuid h0,
        require_str-string false x.status h1,
        h2,
        require_node_id-string x.origin_node_id h3,
        require_str-string false x.created_at h4,
        at_least_zero x.total_size,
        at_least_zero x.total_files,
        require_optional_ref_to_valid ObjectType.snapshot_root x.snapshot_root h5,
        h6,
        optional-string x.error,
      )
      refl

pub new_snapshot_index-IsSnapshotIndex :
    (snapshots : List SnapshotIndexEntry)
    → All IsSnapshotIndexEntry snapshots
    → Ensures (IsSnapshotIndex) (new_snapshot_index snapshots)
unfolding new_snapshot_index
new_snapshot_index-IsSnapshotIndex snapshots r_snapshots =
    Ensures-check (check_listing snapshot_listing [] none snapshots)
      λ h1. returned (r_snapshots, (snapshot_listing_iff snapshots).0 h1)

pub new_snapshot_index_valid :
    (x : SnapshotIndex) → IsSnapshotIndex x → new_snapshot_index x.snapshots ≡ ok x
unfolding new_snapshot_index
new_snapshot_index_valid x (h0, h1) = rw ((snapshot_listing_iff x.snapshots).1 h1) refl
