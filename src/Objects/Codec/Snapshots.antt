-- ===== src/Objects/Codec/Snapshots.antt =====
-- The payloads of the classes of Models/Snapshots, and their decoding.
use stopan.Prelude.{
  ◌≡◌, refl, List, [], ◌∷◌, Text, codes, text_eq, contains, Result, ok, ◌>>=◌, ◌>>◌, Ensures,
}
use stopan.Protection.{pos}
use stopan.Objects.Json.{Value, integer, string, array, object, Fields, get, has_key}
use stopan.Objects.Kinds.{ObjectType}
use stopan.Objects.Models.Checks.{ModelError, Numbers}
use stopan.Objects.Models.Checks.Laws.{optional_value}
use stopan.Objects.Models.Snapshots.{
  SnapshotRoot, new_snapshot_root, IsSnapshotRoot, SnapshotIndexEntry, new_snapshot_index_entry,
  IsSnapshotIndexEntry, SnapshotIndex, new_snapshot_index, IsSnapshotIndex,
}
use stopan.Objects.Models.Snapshots.Laws.{
  new_snapshot_root-IsSnapshotRoot, new_snapshot_root_valid,
  new_snapshot_index_entry-IsSnapshotIndexEntry, new_snapshot_index_entry_valid,
  new_snapshot_index-IsSnapshotIndex, new_snapshot_index_valid,
}
use stopan.Objects.Codec.Hints.{
  require_dict, has_extras, reject_extras, required, with_default, decode_tuple, decode_union,
  dict_of, normalize_items, decode_tuple-normalize_items,
}
use stopan.Objects.Codec.Equality.{IsPlain, string-IsPlain, normalize_items-ArePlain}
use stopan.Objects.Codec.Refs.{
  object_ref_value, decode_object_ref, decode_object_ref-object_ref_value, Ensures-required,
  Ensures-dataclass, Ensures-decode_object_ref, Ensures-decode_union, Ensures-decode_tuple,
  decode_union-object_ref_value, object_ref_value-IsPlain, optional-object_ref_value-IsPlain,
}

abbrev snapshot_root_fields : List Text
snapshot_root_fields =
    codes "snapshot_uuid"
    ∷ codes "root_path"
    ∷ codes "origin_node_id"
    ∷ codes "created_at"
    ∷ codes "total_size"
    ∷ codes "total_files"
    ∷ codes "root_tree"
    ∷ []

unfoldable pub snapshot_root_payload : SnapshotRoot → Fields
unfolding dict_of object_ref_value
snapshot_root_payload x = dict_of snapshot_root_fields (
    string x.snapshot_uuid
    ∷ string x.root_path
    ∷ string x.origin_node_id
    ∷ string x.created_at
    ∷ integer (pos x.total_size)
    ∷ integer (pos x.total_files)
    ∷ object_ref_value x.root_tree
    ∷ [])

unfoldable pub decode_snapshot_root : Value → Result ModelError SnapshotRoot
unfolding decode_object_ref new_snapshot_root reject_extras require_dict required
decode_snapshot_root value = do
  payload ← require_dict value
  reject_extras snapshot_root_fields payload
  snapshot_uuid ← required (codes "snapshot_uuid") payload
  root_path ← required (codes "root_path") payload
  origin_node_id ← required (codes "origin_node_id") payload
  created_at ← required (codes "created_at") payload
  total_size ← required (codes "total_size") payload
  total_files ← required (codes "total_files") payload
  root_tree ← required (codes "root_tree") payload
  root_tree ← decode_object_ref root_tree
  new_snapshot_root snapshot_uuid root_path origin_node_id created_at total_size total_files
      root_tree

pub decode_snapshot_root-IsSnapshotRoot :
    (v : Value) → Ensures IsSnapshotRoot (decode_snapshot_root v)
unfolding decode_snapshot_root
decode_snapshot_root-IsSnapshotRoot v =
    search
      (
        Ensures-dataclass, Ensures-required, Ensures-decode_object_ref,
        new_snapshot_root-IsSnapshotRoot,
      )
      depth 40 fits 4000

pub decode_snapshot_root-snapshot_root_payload :
    (x : SnapshotRoot)
    → IsSnapshotRoot x
    → decode_snapshot_root (object (snapshot_root_payload x)) ≡ ok x
unfolding contains decode_snapshot_root dict_of get has_extras reject_extras require_dict required
    snapshot_root_payload text_eq
decode_snapshot_root-snapshot_root_payload x (h0, h1, h2, h3) =
    rw (decode_object_ref-object_ref_value x.root_tree (h3).0)
      (new_snapshot_root_valid x (h0, h1, h2, h3))

pub snapshot_root_payload-IsPlain :
    (numbers : Numbers) (x : SnapshotRoot)
    → IsSnapshotRoot x
    → IsPlain numbers (object (snapshot_root_payload x))
unfolding IsPlain dict_of has_key snapshot_root_payload text_eq
snapshot_root_payload-IsPlain numbers x h = (
  refl,
  tt,
  (
    refl,
    tt,
    (
      refl,
      tt,
      (refl, tt, (refl, tt, (refl, tt, (refl, object_ref_value-IsPlain numbers x.root_tree, tt)))),
    ),
  ),
)

abbrev snapshot_index_entry_fields : List Text
snapshot_index_entry_fields =
    codes "snapshot_uuid"
    ∷ codes "status"
    ∷ codes "root_path"
    ∷ codes "origin_node_id"
    ∷ codes "created_at"
    ∷ codes "total_size"
    ∷ codes "total_files"
    ∷ codes "snapshot_root"
    ∷ codes "error"
    ∷ []

unfoldable pub snapshot_index_entry_value : SnapshotIndexEntry → Value
unfolding dict_of object_ref_value
snapshot_index_entry_value x = object (
    dict_of snapshot_index_entry_fields (
      string x.snapshot_uuid
      ∷ string x.status
      ∷ string x.root_path
      ∷ string x.origin_node_id
      ∷ string x.created_at
      ∷ integer (pos x.total_size)
      ∷ integer (pos x.total_files)
      ∷ optional_value object_ref_value x.snapshot_root
      ∷ optional_value string x.error
      ∷ []))

unfoldable pub decode_snapshot_index_entry : Value → Result ModelError SnapshotIndexEntry
unfolding decode_object_ref decode_union new_snapshot_index_entry reject_extras require_dict
    required with_default
decode_snapshot_index_entry value = do
  payload ← require_dict value
  reject_extras snapshot_index_entry_fields payload
  snapshot_uuid ← required (codes "snapshot_uuid") payload
  status ← required (codes "status") payload
  root_path ← required (codes "root_path") payload
  origin_node_id ← required (codes "origin_node_id") payload
  created_at ← required (codes "created_at") payload
  total_size ← required (codes "total_size") payload
  total_files ← required (codes "total_files") payload
  let snapshot_root = with_default Value.null (codes "snapshot_root") payload
  snapshot_root ← decode_union decode_object_ref snapshot_root
  let error = with_default Value.null (codes "error") payload
  new_snapshot_index_entry snapshot_uuid status root_path origin_node_id created_at total_size
      total_files snapshot_root error

pub decode_snapshot_index_entry-IsSnapshotIndexEntry :
    (v : Value) → Ensures IsSnapshotIndexEntry (decode_snapshot_index_entry v)
unfolding decode_snapshot_index_entry
decode_snapshot_index_entry-IsSnapshotIndexEntry v =
    search
      (
        Ensures-dataclass, Ensures-required, Ensures-decode_union,
        new_snapshot_index_entry-IsSnapshotIndexEntry,
      )
      depth 40 fits 4000

pub decode_snapshot_index_entry-snapshot_index_entry_value :
    (x : SnapshotIndexEntry)
    → IsSnapshotIndexEntry x
    → decode_snapshot_index_entry (snapshot_index_entry_value x) ≡ ok x
unfolding contains decode_snapshot_index_entry dict_of get has_extras reject_extras require_dict
    required snapshot_index_entry_value text_eq with_default
decode_snapshot_index_entry-snapshot_index_entry_value x (h0, h1, h2, h3, h4, h5, h6) =
    rw (decode_union-object_ref_value ObjectType.snapshot_root x.snapshot_root h5)
      (new_snapshot_index_entry_valid x (h0, h1, h2, h3, h4, h5, h6))

pub snapshot_index_entry_value-IsPlain :
    (numbers : Numbers) (x : SnapshotIndexEntry)
    → IsSnapshotIndexEntry x
    → IsPlain numbers (snapshot_index_entry_value x)
unfolding IsPlain dict_of has_key snapshot_index_entry_value text_eq
snapshot_index_entry_value-IsPlain numbers x h = (
  refl,
  tt,
  (
    refl,
    tt,
    (
      refl,
      tt,
      (
        refl,
        tt,
        (
          refl,
          tt,
          (
            refl,
            tt,
            (
              refl,
              tt,
              (
                refl,
                optional-object_ref_value-IsPlain numbers x.snapshot_root,
                (refl, string-IsPlain numbers x.error, tt),
              ),
            ),
          ),
        ),
      ),
    ),
  ),
)

abbrev snapshot_index_fields : List Text
snapshot_index_fields = codes "snapshots" ∷ []

unfoldable pub snapshot_index_payload : SnapshotIndex → Fields
unfolding dict_of normalize_items snapshot_index_entry_value
snapshot_index_payload x =
    dict_of snapshot_index_fields
      (array (normalize_items snapshot_index_entry_value x.snapshots) ∷ [])

unfoldable pub decode_snapshot_index : Value → Result ModelError SnapshotIndex
unfolding decode_snapshot_index_entry decode_tuple new_snapshot_index reject_extras require_dict
    required
decode_snapshot_index value = do
  payload ← require_dict value
  reject_extras snapshot_index_fields payload
  snapshots ← required (codes "snapshots") payload
  snapshots ← decode_tuple decode_snapshot_index_entry snapshots
  new_snapshot_index snapshots

pub decode_snapshot_index-IsSnapshotIndex :
    (v : Value) → Ensures IsSnapshotIndex (decode_snapshot_index v)
unfolding decode_snapshot_index
decode_snapshot_index-IsSnapshotIndex v =
    search
      (
        Ensures-dataclass,
        Ensures-required,
        Ensures-decode_tuple decode_snapshot_index_entry
            decode_snapshot_index_entry-IsSnapshotIndexEntry,
        new_snapshot_index-IsSnapshotIndex,
      )
      depth 40 fits 4000

pub decode_snapshot_index-snapshot_index_payload :
    (x : SnapshotIndex)
    → IsSnapshotIndex x
    → decode_snapshot_index (object (snapshot_index_payload x)) ≡ ok x
unfolding contains decode_snapshot_index dict_of get has_extras reject_extras require_dict required
    snapshot_index_payload text_eq
decode_snapshot_index-snapshot_index_payload x (h0, h1) =
    rw
      (decode_tuple-normalize_items decode_snapshot_index_entry snapshot_index_entry_value
        decode_snapshot_index_entry-snapshot_index_entry_value x.snapshots h0)
      (new_snapshot_index_valid x (h0, h1))

pub snapshot_index_payload-IsPlain :
    (numbers : Numbers) (x : SnapshotIndex)
    → IsSnapshotIndex x
    → IsPlain numbers (object (snapshot_index_payload x))
unfolding IsPlain dict_of has_key snapshot_index_payload text_eq
snapshot_index_payload-IsPlain numbers x (h0, h1) = (
  refl,
  normalize_items-ArePlain numbers snapshot_index_entry_value
      (snapshot_index_entry_value-IsPlain numbers) x.snapshots h0,
  tt,
)
