-- ===== src/Objects/Models/Snapshots.antt =====
-- SnapshotRootObject, SnapshotIndexEntry and SnapshotIndexObject of metadata/objects/models.py.
pub mod Laws
use stopan.Prelude.{
  ℕ, ◌≡◌, Bool, true, false, not, ◌&&◌, ◌||◌, List, [], Option, none, some, Text, codes, text_eq,
  All, Result, ok, ◌>>=◌, ◌>>◌, raise_if,
}
use stopan.Objects.Json.{Value}
use stopan.Objects.Kinds.{ObjectType}
use stopan.Objects.Models.Checks.{
  ModelError, require_str, require_int, require_node_id, require_uuid, optional, invalid_status,
  missing_root,
}
use stopan.Objects.Models.Checks.Laws.{IsFilled, IsNodeId, IsUuid, IsOptional}
use stopan.Objects.Models.Ordered.{Listing, check_listing, IsListing}
use stopan.Objects.Models.Ordered.Orders.{by_key}
use stopan.Objects.Models.Trees.{ObjectRef, require_ref_to, require_optional_ref_to, IsRefTo}

pub record SnapshotRoot : Type 0 where
  pub snapshot_uuid : Text
  pub root_path : Text
  pub origin_node_id : Text
  pub created_at : Text
  pub total_size : ℕ
  pub total_files : ℕ
  pub root_tree : ObjectRef

unfoldable pub new_snapshot_root :
    Value → Value → Value → Value → Value → Value → ObjectRef → Result ModelError SnapshotRoot
unfolding require_int require_node_id require_ref_to require_str require_uuid
new_snapshot_root snapshot_uuid root_path origin_node_id created_at total_size total_files
      root_tree =
    do
      snapshot_uuid ← require_uuid snapshot_uuid
      root_path ← require_str true root_path
      origin_node_id ← require_node_id origin_node_id
      created_at ← require_str false created_at
      total_size ← require_int 0 total_size
      total_files ← require_int 0 total_files
      require_ref_to ObjectType.tree root_tree
      ok (record {
        snapshot_uuid = snapshot_uuid;
        root_path = root_path;
        origin_node_id = origin_node_id;
        created_at = created_at;
        total_size = total_size;
        total_files = total_files;
        root_tree = root_tree;
      })

abbrev pub IsSnapshotRoot : SnapshotRoot → Type 0
IsSnapshotRoot x =
    IsUuid x.snapshot_uuid
    × IsNodeId x.origin_node_id
    × IsFilled x.created_at
    × IsRefTo ObjectType.tree x.root_tree

-- `_VALID_SNAPSHOT_STATES`
unfoldable pub is_snapshot_state : Text → Bool
unfolding text_eq
is_snapshot_state status =
    text_eq status (codes "CREATING")
    || text_eq status (codes "COMPLETE")
    || text_eq status (codes "FAILED")

abbrev pub is_none : Option ObjectRef → Bool
is_none none = true
is_none (some ref) = false

pub record SnapshotIndexEntry : Type 0 where
  pub snapshot_uuid : Text
  pub status : Text
  pub root_path : Text
  pub origin_node_id : Text
  pub created_at : Text
  pub total_size : ℕ
  pub total_files : ℕ
  pub snapshot_root : Option ObjectRef
  pub error : Option Text

unfoldable pub new_snapshot_index_entry :
    Value
    → Value
    → Value
    → Value
    → Value
    → Value
    → Value
    → Option ObjectRef
    → Value
    → Result ModelError SnapshotIndexEntry
unfolding is_snapshot_state optional require_int require_node_id require_optional_ref_to require_str
    require_uuid text_eq
new_snapshot_index_entry snapshot_uuid status root_path origin_node_id created_at total_size
      total_files snapshot_root error =
    do
      snapshot_uuid ← require_uuid snapshot_uuid
      status ← require_str false status
      raise_if (not (is_snapshot_state status)) invalid_status
      root_path ← require_str true root_path
      origin_node_id ← require_node_id origin_node_id
      created_at ← require_str false created_at
      total_size ← require_int 0 total_size
      total_files ← require_int 0 total_files
      require_optional_ref_to ObjectType.snapshot_root snapshot_root
      raise_if (text_eq status (codes "COMPLETE") && is_none snapshot_root) missing_root
      error ← optional (require_str true) error
      ok (record {
        snapshot_uuid = snapshot_uuid;
        status = status;
        root_path = root_path;
        origin_node_id = origin_node_id;
        created_at = created_at;
        total_size = total_size;
        total_files = total_files;
        snapshot_root = snapshot_root;
        error = error;
      })

abbrev pub IsSnapshotIndexEntry : SnapshotIndexEntry → Type 0
IsSnapshotIndexEntry x =
    IsUuid x.snapshot_uuid
    × IsFilled x.status
    × ((is_snapshot_state x.status) ≡ true)
    × IsNodeId x.origin_node_id
    × IsFilled x.created_at
    × IsOptional (IsRefTo ObjectType.snapshot_root) x.snapshot_root
    × ((text_eq x.status (codes "COMPLETE") && is_none x.snapshot_root) ≡ false)

unfoldable pub snapshot_listing : Listing SnapshotIndexEntry
unfolding by_key
snapshot_listing =
    by_key (λ (e : SnapshotIndexEntry). e.snapshot_uuid)
      (λ (e : SnapshotIndexEntry). (e.created_at, e.snapshot_uuid)) (λ _. ok tt)

pub record SnapshotIndex : Type 0 where
  pub snapshots : List SnapshotIndexEntry

unfoldable pub new_snapshot_index : List SnapshotIndexEntry → Result ModelError SnapshotIndex
unfolding check_listing snapshot_listing
new_snapshot_index snapshots = do
  check_listing snapshot_listing [] none snapshots
  ok (record { snapshots = snapshots })

abbrev pub IsSnapshotIndex : SnapshotIndex → Type 0
IsSnapshotIndex x = All IsSnapshotIndexEntry x.snapshots × IsListing snapshot_listing x.snapshots
