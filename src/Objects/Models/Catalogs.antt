-- ===== src/Objects/Models/Catalogs.antt =====
-- CatalogObject of metadata/objects/models.py.
pub mod Laws
use stopan.Prelude.{ℕ, Option, Text, Result, ok, ◌>>=◌, ◌>>◌}
use stopan.Objects.Json.{Value}
use stopan.Objects.Kinds.{ObjectType}
use stopan.Objects.Models.Checks.{ModelError, require_int, require_node_id}
use stopan.Objects.Models.Checks.Laws.{IsNodeId, IsOptional}
use stopan.Objects.Models.Trees.{ObjectRef, require_ref_to, require_optional_ref_to, IsRefTo}

pub record Catalog : Type 0 where
  pub vault_id : Text
  pub snapshot_index : ObjectRef
  pub known_chunk_index : ObjectRef
  pub protection_index : Option ObjectRef
  pub snapshot_count : ℕ
  pub known_chunk_count : ℕ
  pub protection_record_count : ℕ
  pub erasure_data_pack_index : Option ObjectRef
  pub erasure_data_pack_count : ℕ
  pub erasure_data_pack_chunk_count : ℕ
  pub erasure_data_pack_shard_count : ℕ

unfoldable pub new_catalog :
    Value
    → ObjectRef
    → ObjectRef
    → Option ObjectRef
    → Value
    → Value
    → Value
    → Option ObjectRef
    → Value
    → Value
    → Value
    → Result ModelError Catalog
unfolding require_int require_node_id require_optional_ref_to require_ref_to
new_catalog vault_id snapshot_index known_chunk_index protection_index snapshot_count
      known_chunk_count protection_record_count erasure_data_pack_index erasure_data_pack_count
      erasure_data_pack_chunk_count erasure_data_pack_shard_count =
    do
      vault_id ← require_node_id vault_id
      require_ref_to ObjectType.snapshot_index snapshot_index
      require_ref_to ObjectType.known_chunk_index known_chunk_index
      require_optional_ref_to ObjectType.protection_index protection_index
      snapshot_count ← require_int 0 snapshot_count
      known_chunk_count ← require_int 0 known_chunk_count
      protection_record_count ← require_int 0 protection_record_count
      require_optional_ref_to ObjectType.erasure_data_pack_index erasure_data_pack_index
      erasure_data_pack_count ← require_int 0 erasure_data_pack_count
      erasure_data_pack_chunk_count ← require_int 0 erasure_data_pack_chunk_count
      erasure_data_pack_shard_count ← require_int 0 erasure_data_pack_shard_count
      ok (record {
        vault_id = vault_id;
        snapshot_index = snapshot_index;
        known_chunk_index = known_chunk_index;
        protection_index = protection_index;
        snapshot_count = snapshot_count;
        known_chunk_count = known_chunk_count;
        protection_record_count = protection_record_count;
        erasure_data_pack_index = erasure_data_pack_index;
        erasure_data_pack_count = erasure_data_pack_count;
        erasure_data_pack_chunk_count = erasure_data_pack_chunk_count;
        erasure_data_pack_shard_count = erasure_data_pack_shard_count;
      })

abbrev pub IsCatalog : Catalog → Type 0
IsCatalog x =
    IsNodeId x.vault_id
    × IsRefTo ObjectType.snapshot_index x.snapshot_index
    × IsRefTo ObjectType.known_chunk_index x.known_chunk_index
    × IsOptional (IsRefTo ObjectType.protection_index) x.protection_index
    × IsOptional (IsRefTo ObjectType.erasure_data_pack_index) x.erasure_data_pack_index
