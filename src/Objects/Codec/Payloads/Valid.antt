-- ===== src/Objects/Codec/Payloads/Valid.antt =====
-- `decode_metadata_object_payload` on the payload of a valid object and on any payload.
use stopan.Objects.Codec.Payloads.{
  MetadataObject, metadata_type, object_payload, IsMetadataObject, decode_class,
  decode_metadata_object_payload, catalog_object, snapshot_index_object, snapshot_root_object,
  tree_object, file_object, recipe_object, chunk_list_object, known_chunk_index_object,
  known_chunk_shard_object, protection_index_object, protection_shard_object,
  erasure_data_pack_index_object, erasure_data_pack_shard_object,
}
use stopan.Prelude.{
  ◌≡◌, refl, true, not, ok, Ensures, Ensures->>=, Ensures-raise_if, returned, Ensures-eq-ok,
}
use stopan.Objects.Json.{Value, object, Fields}
use stopan.Objects.Kinds.{ObjectType}
use stopan.Objects.Models.Checks.{not_normalized, Numbers}
use stopan.Objects.Models.Checks.Laws.{not-eq-false}
use stopan.Objects.Codec.Equality.{value_eq, IsPlain, IsReflexive, value_eq_refl}
use stopan.Objects.Codec.Catalogs.{
  decode_catalog-IsCatalog, decode_catalog-catalog_payload, catalog_payload-IsPlain,
}
use stopan.Objects.Codec.Snapshots.{
  decode_snapshot_index-IsSnapshotIndex, decode_snapshot_index-snapshot_index_payload,
  snapshot_index_payload-IsPlain, decode_snapshot_root-IsSnapshotRoot,
  decode_snapshot_root-snapshot_root_payload, snapshot_root_payload-IsPlain,
}
use stopan.Objects.Codec.Shards.{
  decode_known_chunk_index-IsKnownChunkIndex, decode_known_chunk_index-known_chunk_index_payload,
  known_chunk_index_payload-IsPlain, decode_known_chunk_shard-IsKnownChunkShard,
  decode_known_chunk_shard-known_chunk_shard_payload, known_chunk_shard_payload-IsPlain,
}
use stopan.Objects.Codec.Protections.{
  decode_protection_index-IsProtectionIndex, decode_protection_index-protection_index_payload,
  protection_index_payload-IsPlain, decode_protection_shard-IsProtectionShard,
  decode_protection_shard-protection_shard_payload, protection_shard_payload-IsPlain,
}
use stopan.Objects.Codec.Packs.{
  decode_pack_index-IsPackIndex, decode_pack_index-pack_index_payload, pack_index_payload-IsPlain,
  decode_pack_shard-IsPackShard, decode_pack_shard-pack_shard_payload, pack_shard_payload-IsPlain,
}
use stopan.Objects.Codec.Files.{
  decode_file-IsFile, decode_file-file_payload, file_payload-IsPlain, decode_recipe-IsRecipe,
  decode_recipe-recipe_payload, recipe_payload-IsPlain, decode_chunk_list-IsChunkList,
  decode_chunk_list-chunk_list_payload, chunk_list_payload-IsPlain,
}
use stopan.Objects.Codec.Trees.{decode_tree-IsTree, decode_tree-tree_payload, tree_payload-IsPlain}

-- A valid object of a type.
abbrev IsOf : Numbers → ObjectType → MetadataObject → Type 0
IsOf numbers t obj = IsMetadataObject numbers obj × (metadata_type obj ≡ t)

decode_class-IsOf :
    (numbers : Numbers) (t : ObjectType) (v : Value)
    → Ensures (IsOf numbers t) (decode_class numbers t v)
unfolding decode_class metadata_type
decode_class-IsOf numbers ObjectType.catalog v =
    Ensures->>= (decode_catalog-IsCatalog v) λ x h. returned (h, refl)
decode_class-IsOf numbers ObjectType.snapshot_index v =
    Ensures->>= (decode_snapshot_index-IsSnapshotIndex v) λ x h. returned (h, refl)
decode_class-IsOf numbers ObjectType.snapshot_root v =
    Ensures->>= (decode_snapshot_root-IsSnapshotRoot v) λ x h. returned (h, refl)
decode_class-IsOf numbers ObjectType.tree v =
    Ensures->>= (decode_tree-IsTree numbers v) λ x h. returned (h, refl)
decode_class-IsOf numbers ObjectType.file v =
    Ensures->>= (decode_file-IsFile v) λ x h. returned (h, refl)
decode_class-IsOf numbers ObjectType.recipe v =
    Ensures->>= (decode_recipe-IsRecipe v) λ x h. returned (h, refl)
decode_class-IsOf numbers ObjectType.chunk_list v =
    Ensures->>= (decode_chunk_list-IsChunkList v) λ x h. returned (h, refl)
decode_class-IsOf numbers ObjectType.known_chunk_index v =
    Ensures->>= (decode_known_chunk_index-IsKnownChunkIndex v) λ x h. returned (h, refl)
decode_class-IsOf numbers ObjectType.known_chunk_shard v =
    Ensures->>= (decode_known_chunk_shard-IsKnownChunkShard v) λ x h. returned (h, refl)
decode_class-IsOf numbers ObjectType.protection_index v =
    Ensures->>= (decode_protection_index-IsProtectionIndex v) λ x h. returned (h, refl)
decode_class-IsOf numbers ObjectType.protection_shard v =
    Ensures->>= (decode_protection_shard-IsProtectionShard numbers v) λ x h. returned (h, refl)
decode_class-IsOf numbers ObjectType.erasure_data_pack_index v =
    Ensures->>= (decode_pack_index-IsPackIndex v) λ x h. returned (h, refl)
decode_class-IsOf numbers ObjectType.erasure_data_pack_shard v =
    Ensures->>= (decode_pack_shard-IsPackShard numbers v) λ x h. returned (h, refl)

decode_class-object_payload :
    (numbers : Numbers) (obj : MetadataObject)
    → IsMetadataObject numbers obj
    → decode_class numbers (metadata_type obj) (object (object_payload obj)) ≡ ok obj
unfolding decode_class metadata_type object_payload
decode_class-object_payload numbers (catalog_object x) h =
    rw (decode_catalog-catalog_payload x h) refl
decode_class-object_payload numbers (snapshot_index_object x) h =
    rw (decode_snapshot_index-snapshot_index_payload x h) refl
decode_class-object_payload numbers (snapshot_root_object x) h =
    rw (decode_snapshot_root-snapshot_root_payload x h) refl
decode_class-object_payload numbers (tree_object x) h =
    rw (decode_tree-tree_payload numbers x h) refl
decode_class-object_payload numbers (file_object x) h = rw (decode_file-file_payload x h) refl
decode_class-object_payload numbers (recipe_object x) h = rw (decode_recipe-recipe_payload x h) refl
decode_class-object_payload numbers (chunk_list_object x) h =
    rw (decode_chunk_list-chunk_list_payload x h) refl
decode_class-object_payload numbers (known_chunk_index_object x) h =
    rw (decode_known_chunk_index-known_chunk_index_payload x h) refl
decode_class-object_payload numbers (known_chunk_shard_object x) h =
    rw (decode_known_chunk_shard-known_chunk_shard_payload x h) refl
decode_class-object_payload numbers (protection_index_object x) h =
    rw (decode_protection_index-protection_index_payload x h) refl
decode_class-object_payload numbers (protection_shard_object x) h =
    rw (decode_protection_shard-protection_shard_payload numbers x h) refl
decode_class-object_payload numbers (erasure_data_pack_index_object x) h =
    rw (decode_pack_index-pack_index_payload x h) refl
decode_class-object_payload numbers (erasure_data_pack_shard_object x) h =
    rw (decode_pack_shard-pack_shard_payload numbers x h) refl

object_payload-IsPlain :
    (numbers : Numbers) (obj : MetadataObject)
    → IsMetadataObject numbers obj
    → IsPlain numbers (object (object_payload obj))
unfolding object_payload
object_payload-IsPlain numbers (catalog_object x) h = catalog_payload-IsPlain numbers x h
object_payload-IsPlain numbers (snapshot_index_object x) h =
    snapshot_index_payload-IsPlain numbers x h
object_payload-IsPlain numbers (snapshot_root_object x) h =
    snapshot_root_payload-IsPlain numbers x h
object_payload-IsPlain numbers (tree_object x) h = tree_payload-IsPlain numbers x h
object_payload-IsPlain numbers (file_object x) h = file_payload-IsPlain numbers x h
object_payload-IsPlain numbers (recipe_object x) h = recipe_payload-IsPlain numbers x h
object_payload-IsPlain numbers (chunk_list_object x) h = chunk_list_payload-IsPlain numbers x h
object_payload-IsPlain numbers (known_chunk_index_object x) h =
    known_chunk_index_payload-IsPlain numbers x h
object_payload-IsPlain numbers (known_chunk_shard_object x) h =
    known_chunk_shard_payload-IsPlain numbers x h
object_payload-IsPlain numbers (protection_index_object x) h =
    protection_index_payload-IsPlain numbers x h
object_payload-IsPlain numbers (protection_shard_object x) h =
    protection_shard_payload-IsPlain numbers x h
object_payload-IsPlain numbers (erasure_data_pack_index_object x) h =
    pack_index_payload-IsPlain numbers x h
object_payload-IsPlain numbers (erasure_data_pack_shard_object x) h =
    pack_shard_payload-IsPlain numbers x h

-- The payload of a valid object decodes to that object, where a boolean, an integer and a finite
-- real number equal themselves.
pub decode_metadata_object_payload-object_payload :
    (numbers : Numbers) (obj : MetadataObject)
    → IsReflexive numbers
    → IsMetadataObject numbers obj
    → decode_metadata_object_payload numbers (metadata_type obj) (object_payload obj) ≡ ok obj
unfolding decode_metadata_object_payload
decode_metadata_object_payload-object_payload numbers obj r h =
    rw
      (
        decode_class-object_payload numbers obj h,
        value_eq_refl numbers r (object (object_payload obj))
            (object_payload-IsPlain numbers obj h),
      )
      refl

-- A payload that is decoded gives an object of the type that was asked for, that meets every
-- condition of its class, and whose own payload equals the one that was decoded.
pub decode_metadata_object_payload-IsMetadataObject :
    (numbers : Numbers) (t : ObjectType) (payload : Fields) (obj : MetadataObject)
    → decode_metadata_object_payload numbers t payload ≡ ok obj
    → IsMetadataObject numbers obj
      × (metadata_type obj ≡ t)
      × (value_eq numbers (object (object_payload obj)) (object payload) ≡ true)
unfolding decode_metadata_object_payload
decode_metadata_object_payload-IsMetadataObject numbers t payload obj h =
    Ensures-eq-ok
      {P = λ (o : MetadataObject).
        IsMetadataObject numbers o
        × (metadata_type o ≡ t)
        × (value_eq numbers (object (object_payload o)) (object payload) ≡ true)}
      (Ensures->>= (decode_class-IsOf numbers t (object payload)) λ o p.
        Ensures-raise_if (not (value_eq numbers (object (object_payload o)) (object payload)))
          not_normalized λ same. returned (p.0, p.1, not-eq-false _ same))
      h
