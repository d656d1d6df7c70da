-- ===== src/Objects/Codec/Catalogs.antt =====
-- The payload of a catalog, and its decoding.
use stopan.Prelude.{
  ◌≡◌, refl, List, [], ◌∷◌, Text, codes, text_eq, contains, Result, ok, ◌>>=◌, ◌>>◌, Ensures,
}
use stopan.Protection.{pos}
use stopan.Objects.Json.{Value, integer, string, object, Fields, get, has_key}
use stopan.Objects.Kinds.{ObjectType}
use stopan.Objects.Models.Checks.{ModelError, Numbers}
use stopan.Objects.Models.Checks.Laws.{optional_value}
use stopan.Objects.Models.Catalogs.{Catalog, new_catalog, IsCatalog}
use stopan.Objects.Models.Catalogs.Laws.{new_catalog-IsCatalog, new_catalog_valid}
use stopan.Objects.Codec.Hints.{
  require_dict, has_extras, reject_extras, required, with_default, decode_union, dict_of,
}
use stopan.Objects.Codec.Equality.{IsPlain}
use stopan.Objects.Codec.Refs.{
  object_ref_value, decode_object_ref, decode_object_ref-object_ref_value, Ensures-required,
  Ensures-dataclass, Ensures-decode_object_ref, Ensures-decode_union, decode_union-object_ref_value,
  object_ref_value-IsPlain, optional-object_ref_value-IsPlain,
}

abbrev catalog_fields : List Text
catalog_fields =
    codes "vault_id"
    ∷ codes "snapshot_index"
    ∷ codes "known_chunk_index"
    ∷ codes "protection_index"
    ∷ codes "snapshot_count"
    ∷ codes "known_chunk_count"
    ∷ codes "protection_record_count"
    ∷ codes "erasure_data_pack_index"
    ∷ codes "erasure_data_pack_count"
    ∷ codes "erasure_data_pack_chunk_count"
    ∷ codes "erasure_data_pack_shard_count"
    ∷ []

unfoldable pub catalog_payload : Catalog → Fields
unfolding dict_of object_ref_value
catalog_payload x = dict_of catalog_fields (
    string x.vault_id
    ∷ object_ref_value x.snapshot_index
    ∷ object_ref_value x.known_chunk_index
    ∷ optional_value object_ref_value x.protection_index
    ∷ integer (pos x.snapshot_count)
    ∷ integer (pos x.known_chunk_count)
    ∷ integer (pos x.protection_record_count)
    ∷ optional_value object_ref_value x.erasure_data_pack_index
    ∷ integer (pos x.erasure_data_pack_count)
    ∷ integer (pos x.erasure_data_pack_chunk_count)
    ∷ integer (pos x.erasure_data_pack_shard_count)
    ∷ [])

unfoldable pub decode_catalog : Value → Result ModelError Catalog
unfolding decode_object_ref decode_union new_catalog reject_extras require_dict required
    with_default
decode_catalog value = do
  payload ← require_dict value
  reject_extras catalog_fields payload
  vault_id ← required (codes "vault_id") payload
  snapshot_index ← required (codes "snapshot_index") payload
  snapshot_index ← decode_object_ref snapshot_index
  known_chunk_index ← required (codes "known_chunk_index") payload
  known_chunk_index ← decode_object_ref known_chunk_index
  protection_index ← required (codes "protection_index") payload
  protection_index ← decode_union decode_object_ref protection_index
  snapshot_count ← required (codes "snapshot_count") payload
  known_chunk_count ← required (codes "known_chunk_count") payload
  protection_record_count ← required (codes "protection_record_count") payload
  let erasure_data_pack_index = with_default Value.null (codes "erasure_data_pack_index") payload
  erasure_data_pack_index ← decode_union decode_object_ref erasure_data_pack_index
  let erasure_data_pack_count =
      with_default (integer (pos 0)) (codes "erasure_data_pack_count") payload
  let erasure_data_pack_chunk_count =
      with_default (integer (pos 0)) (codes "erasure_data_pack_chunk_count") payload
  let erasure_data_pack_shard_count =
      with_default (integer (pos 0)) (codes "erasure_data_pack_shard_count") payload
  new_catalog vault_id snapshot_index known_chunk_index protection_index snapshot_count
      known_chunk_count protection_record_count erasure_data_pack_index erasure_data_pack_count
      erasure_data_pack_chunk_count erasure_data_pack_shard_count

pub decode_catalog-IsCatalog : (v : Value) → Ensures IsCatalog (decode_catalog v)
unfolding decode_catalog
decode_catalog-IsCatalog v =
    search
      (
        Ensures-dataclass, Ensures-required, Ensures-decode_object_ref, Ensures-decode_union,
        new_catalog-IsCatalog,
      )
      depth 40 fits 4000

pub decode_catalog-catalog_payload :
    (x : Catalog) → IsCatalog x → decode_catalog (object (catalog_payload x)) ≡ ok x
unfolding catalog_payload contains decode_catalog dict_of get has_extras reject_extras require_dict
    required text_eq with_default
decode_catalog-catalog_payload x (h0, h1, h2, h3, h4) =
    rw
      (
        decode_object_ref-object_ref_value x.snapshot_index (h1).0,
        decode_object_ref-object_ref_value x.known_chunk_index (h2).0,
        decode_union-object_ref_value ObjectType.protection_index x.protection_index h3,
        decode_union-object_ref_value ObjectType.erasure_data_pack_index x.erasure_data_pack_index
            h4,
      )
      (new_catalog_valid x (h0, h1, h2, h3, h4))

pub catalog_payload-IsPlain :
    (numbers : Numbers) (x : Catalog) → IsCatalog x → IsPlain numbers (object (catalog_payload x))
unfolding IsPlain catalog_payload dict_of has_key text_eq
catalog_payload-IsPlain numbers x h = (
  refl,
  tt,
  (
    refl,
    object_ref_value-IsPlain numbers x.snapshot_index,
    (
      refl,
      object_ref_value-IsPlain numbers x.known_chunk_index,
      (
        refl,
        optional-object_ref_value-IsPlain numbers x.protection_index,
        (
          refl,
          tt,
          (
            refl,
            tt,
            (
              refl,
              tt,
              (
                refl,
                optional-object_ref_value-IsPlain numbers x.erasure_data_pack_index,
                (refl, tt, (refl, tt, (refl, tt, tt))),
              ),
            ),
          ),
        ),
      ),
    ),
  ),
)
