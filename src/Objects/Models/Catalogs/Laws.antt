-- ===== src/Objects/Models/Catalogs/Laws.antt =====
-- The lemmas on the catalog.
use stopan.Prelude.{◌≡◌, refl, Option, ok, Ensures, returned, Ensures->>=}
use stopan.Protection.{pos}
use stopan.Objects.Json.{Value, integer, string}
use stopan.Objects.Kinds.{ObjectType}
use stopan.Objects.Models.Checks.Laws.{
  require_int-AtLeast, require_node_id-IsNodeId, require_node_id-string, IsOptional, at_least_zero,
}
use stopan.Objects.Models.Trees.{ObjectRef, IsObjectRef}
use stopan.Objects.Models.Trees.Laws.{
  Ensures-require_ref_to, require_ref_to_valid, Ensures-require_optional_ref_to,
  require_optional_ref_to_valid,
}
use stopan.Objects.Models.Catalogs.{Catalog, new_catalog, IsCatalog}

pub new_catalog-IsCatalog :
    (vault_id : Value) (snapshot_index : ObjectRef) (known_chunk_index : ObjectRef)
    (protection_index : Option ObjectRef) (snapshot_count : Value) (known_chunk_count : Value)
    (protection_record_count : Value) (erasure_data_pack_index : Option ObjectRef)
    (erasure_data_pack_count : Value) (erasure_data_pack_chunk_count : Value)
    (erasure_data_pack_shard_count : Value)
    → IsObjectRef snapshot_index
    → IsObjectRef known_chunk_index
    → IsOptional IsObjectRef protection_index
    → IsOptional IsObjectRef erasure_data_pack_index
    → Ensures (IsCatalog) (
        new_catalog vault_id snapshot_index known_chunk_index protection_index snapshot_count
          known_chunk_count protection_record_count erasure_data_pack_index erasure_data_pack_count
          erasure_data_pack_chunk_count erasure_data_pack_shard_count)
unfolding new_catalog
new_catalog-IsCatalog vault_id snapshot_index known_chunk_index protection_index snapshot_count
      known_chunk_count protection_record_count erasure_data_pack_index erasure_data_pack_count
      erasure_data_pack_chunk_count erasure_data_pack_shard_count r_snapshot_index
      r_known_chunk_index r_protection_index r_erasure_data_pack_index =
    Ensures->>= (require_node_id-IsNodeId vault_id) λ vault_id h0.
      Ensures-require_ref_to ObjectType.snapshot_index snapshot_index λ h1.
        Ensures-require_ref_to ObjectType.known_chunk_index known_chunk_index λ h2.
          Ensures-require_optional_ref_to ObjectType.protection_index protection_index
            r_protection_index
            λ h3. Ensures->>= (require_int-AtLeast 0 snapshot_count) λ snapshot_count _.
              Ensures->>= (require_int-AtLeast 0 known_chunk_count) λ known_chunk_count _.
                Ensures->>= (require_int-AtLeast 0 protection_record_count)
                  λ protection_record_count _.
                    Ensures-require_optional_ref_to ObjectType.erasure_data_pack_index
                      erasure_data_pack_index r_erasure_data_pack_index
                      λ h4.
                        Ensures->>= (require_int-AtLeast 0 erasure_data_pack_count)
                          λ erasure_data_pack_count _.
                            Ensures->>= (require_int-AtLeast 0 erasure_data_pack_chunk_count)
                              λ erasure_data_pack_chunk_count _.
                                Ensures->>= (require_int-AtLeast 0 erasure_data_pack_shard_count)
                                  λ erasure_data_pack_shard_count _.
                                    returned (
                                      h0,
                                      (r_snapshot_index, h1),
                                      (r_known_chunk_index, h2),
                                      h3,
                                      h4,
                                    )

pub new_catalog_valid :
    (x : Catalog)
    → IsCatalog x
    → new_catalog
        (string x.vault_id)
        x.snapshot_index
        x.known_chunk_index
        x.protection_index
        (integer (pos x.snapshot_count))
        (integer (pos x.known_chunk_count))
        (integer (pos x.protection_record_count))
        x.erasure_data_pack_index
        (integer (pos x.erasure_data_pack_count))
        (integer (pos x.erasure_data_pack_chunk_count))
        (integer (pos x.erasure_data_pack_shard_count))
      ≡ ok x
unfolding new_catalog
new_catalog_valid x (h0, h1, h2, h3, h4) =
    rw
      (
        require_node_id-string x.vault_id h0,
        require_ref_to_valid ObjectType.snapshot_index x.snapshot_index (h1).1,
        require_ref_to_valid ObjectType.known_chunk_index x.known_chunk_index (h2).1,
        require_optional_ref_to_valid ObjectType.protection_index x.protection_index h3,
        at_least_zero x.snapshot_count,
        at_least_zero x.known_chunk_count,
        at_least_zero x.protection_record_count,
        require_optional_ref_to_valid ObjectType.erasure_data_pack_index x.erasure_data_pack_index
            h4,
        at_least_zero x.erasure_data_pack_count,
        at_least_zero x.erasure_data_pack_chunk_count,
        at_least_zero x.erasure_data_pack_shard_count,
      )
      refl
