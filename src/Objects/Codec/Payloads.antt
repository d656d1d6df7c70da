-- ===== src/Objects/Codec/Payloads.antt =====
-- `MetadataPlainObject`, `object_payload` and `decode_metadata_object_payload` of
-- metadata/objects/codec.py.
pub mod Valid
use stopan.Prelude.{not, Result, ok, ◌>>=◌, ◌>>◌, raise_if}
use stopan.Objects.Json.{Value, object, Fields}
use stopan.Objects.Kinds.{ObjectType}
use stopan.Objects.Models.Checks.{ModelError, not_normalized, Numbers}
use stopan.Objects.Codec.Equality.{value_eq}
use stopan.Objects.Models.Catalogs.{Catalog, IsCatalog}
use stopan.Objects.Models.Snapshots.{SnapshotIndex, IsSnapshotIndex, SnapshotRoot, IsSnapshotRoot}
use stopan.Objects.Models.Trees.{
  Tree, IsTree, File, IsFile, Recipe, IsRecipe, ChunkList, IsChunkList,
}
use stopan.Objects.Models.Shards.{
  KnownChunkIndex, IsKnownChunkIndex, KnownChunkShard, IsKnownChunkShard,
}
use stopan.Objects.Models.Protections.{
  ProtectionIndex, IsProtectionIndex, ProtectionShard, IsProtectionShard,
}
use stopan.Objects.Models.Packs.{PackIndex, IsPackIndex, PackShard, IsPackShard}
use stopan.Objects.Codec.Catalogs.{catalog_payload, decode_catalog}
use stopan.Objects.Codec.Snapshots.{
  snapshot_index_payload, decode_snapshot_index, snapshot_root_payload, decode_snapshot_root,
}
use stopan.Objects.Codec.Shards.{
  known_chunk_index_payload, decode_known_chunk_index, known_chunk_shard_payload,
  decode_known_chunk_shard,
}
use stopan.Objects.Codec.Protections.{
  protection_index_payload, decode_protection_index, protection_shard_payload,
  decode_protection_shard,
}
use stopan.Objects.Codec.Packs.{
  pack_index_payload, decode_pack_index, pack_shard_payload, decode_pack_shard,
}
use stopan.Objects.Codec.Files.{
  file_payload, decode_file, recipe_payload, decode_recipe, chunk_list_payload, decode_chunk_list,
}
use stopan.Objects.Codec.Trees.{tree_payload, decode_tree}

pub data MetadataObject : Type 0 where
  catalog_object : Catalog → MetadataObject
  snapshot_index_object : SnapshotIndex → MetadataObject
  snapshot_root_object : SnapshotRoot → MetadataObject
  tree_object : Tree → MetadataObject
  file_object : File → MetadataObject
  recipe_object : Recipe → MetadataObject
  chunk_list_object : ChunkList → MetadataObject
  known_chunk_index_object : KnownChunkIndex → MetadataObject
  known_chunk_shard_object : KnownChunkShard → MetadataObject
  protection_index_object : ProtectionIndex → MetadataObject
  protection_shard_object : ProtectionShard → MetadataObject
  erasure_data_pack_index_object : PackIndex → MetadataObject
  erasure_data_pack_shard_object : PackShard → MetadataObject

-- `obj.object_type`
unfoldable pub metadata_type : MetadataObject → ObjectType
metadata_type (catalog_object x) = ObjectType.catalog
metadata_type (snapshot_index_object x) = ObjectType.snapshot_index
metadata_type (snapshot_root_object x) = ObjectType.snapshot_root
metadata_type (tree_object x) = ObjectType.tree
metadata_type (file_object x) = ObjectType.file
metadata_type (recipe_object x) = ObjectType.recipe
metadata_type (chunk_list_object x) = ObjectType.chunk_list
metadata_type (known_chunk_index_object x) = ObjectType.known_chunk_index
metadata_type (known_chunk_shard_object x) = ObjectType.known_chunk_shard
metadata_type (protection_index_object x) = ObjectType.protection_index
metadata_type (protection_shard_object x) = ObjectType.protection_shard
metadata_type (erasure_data_pack_index_object x) = ObjectType.erasure_data_pack_index
metadata_type (erasure_data_pack_shard_object x) = ObjectType.erasure_data_pack_shard

unfoldable pub object_payload : MetadataObject → Fields
unfolding catalog_payload snapshot_index_payload snapshot_root_payload tree_payload file_payload
    recipe_payload chunk_list_payload known_chunk_index_payload known_chunk_shard_payload
    protection_index_payload protection_shard_payload pack_index_payload pack_shard_payload
object_payload (catalog_object x) = catalog_payload x
object_payload (snapshot_index_object x) = snapshot_index_payload x
object_payload (snapshot_root_object x) = snapshot_root_payload x
object_payload (tree_object x) = tree_payload x
object_payload (file_object x) = file_payload x
object_payload (recipe_object x) = recipe_payload x
object_payload (chunk_list_object x) = chunk_list_payload x
object_payload (known_chunk_index_object x) = known_chunk_index_payload x
object_payload (known_chunk_shard_object x) = known_chunk_shard_payload x
object_payload (protection_index_object x) = protection_index_payload x
object_payload (protection_shard_object x) = protection_shard_payload x
object_payload (erasure_data_pack_index_object x) = pack_index_payload x
object_payload (erasure_data_pack_shard_object x) = pack_shard_payload x

-- What a constructor of the object's class lets through.
abbrev pub IsMetadataObject : Numbers → MetadataObject → Type 0
IsMetadataObject numbers (catalog_object x) = IsCatalog x
IsMetadataObject numbers (snapshot_index_object x) = IsSnapshotIndex x
IsMetadataObject numbers (snapshot_root_object x) = IsSnapshotRoot x
IsMetadataObject numbers (tree_object x) = IsTree numbers x
IsMetadataObject numbers (file_object x) = IsFile x
IsMetadataObject numbers (recipe_object x) = IsRecipe x
IsMetadataObject numbers (chunk_list_object x) = IsChunkList x
IsMetadataObject numbers (known_chunk_index_object x) = IsKnownChunkIndex x
IsMetadataObject numbers (known_chunk_shard_object x) = IsKnownChunkShard x
IsMetadataObject numbers (protection_index_object x) = IsProtectionIndex x
IsMetadataObject numbers (protection_shard_object x) = IsProtectionShard numbers x
IsMetadataObject numbers (erasure_data_pack_index_object x) = IsPackIndex x
IsMetadataObject numbers (erasure_data_pack_shard_object x) = IsPackShard numbers x

-- `_OBJECT_CLASS_BY_TYPE`, with the decoding of the class that it gives
unfoldable pub decode_class : Numbers → ObjectType → Value → Result ModelError MetadataObject
unfolding decode_catalog decode_snapshot_index decode_snapshot_root decode_tree decode_file
    decode_recipe decode_chunk_list decode_known_chunk_index decode_known_chunk_shard
    decode_protection_index decode_protection_shard decode_pack_index decode_pack_shard
decode_class numbers ObjectType.catalog payload = do
  x ← decode_catalog payload
  ok (catalog_object x)
decode_class numbers ObjectType.snapshot_index payload = do
  x ← decode_snapshot_index payload
  ok (snapshot_index_object x)
decode_class numbers ObjectType.snapshot_root payload = do
  x ← decode_snapshot_root payload
  ok (snapshot_root_object x)
decode_class numbers ObjectType.tree payload = do
  x ← decode_tree numbers payload
  ok (tree_object x)
decode_class numbers ObjectType.file payload = do x ← decode_file payload; ok (file_object x)
decode_class numbers ObjectType.recipe payload = do x ← decode_recipe payload; ok (recipe_object x)
decode_class numbers ObjectType.chunk_list payload = do
  x ← decode_chunk_list payload
  ok (chunk_list_object x)
decode_class numbers ObjectType.known_chunk_index payload = do
  x ← decode_known_chunk_index payload
  ok (known_chunk_index_object x)
decode_class numbers ObjectType.known_chunk_shard payload = do
  x ← decode_known_chunk_shard payload
  ok (known_chunk_shard_object x)
decode_class numbers ObjectType.protection_index payload = do
  x ← decode_protection_index payload
  ok (protection_index_object x)
decode_class numbers ObjectType.protection_shard payload = do
  x ← decode_protection_shard numbers payload
  ok (protection_shard_object x)
decode_class numbers ObjectType.erasure_data_pack_index payload = do
  x ← decode_pack_index payload
  ok (erasure_data_pack_index_object x)
decode_class numbers ObjectType.erasure_data_pack_shard payload = do
  x ← decode_pack_shard numbers payload
  ok (erasure_data_pack_shard_object x)

unfoldable pub decode_metadata_object_payload :
    Numbers → ObjectType → Fields → Result ModelError MetadataObject
unfolding decode_class object_payload value_eq
decode_metadata_object_payload numbers object_type payload = do
  obj ← decode_class numbers object_type (object payload)
  raise_if (not (value_eq numbers (object (object_payload obj)) (object payload))) not_normalized
  ok obj
