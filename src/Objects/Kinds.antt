-- ===== src/Objects/Kinds.antt =====
-- The kinds of metadata objects and the constants of metadata/objects/models.py.
use stopan.Prelude.{
  ◌≡◌, refl, ap, Bool, true, ℕ, Option, none, some, ◌↔◌, if◌then◌else◌, Text, codes, text_eq,
  text_eq_iff, sym, ◌∙◌,
}

pub data ObjectType : Type 0 where
  catalog snapshot_index snapshot_root tree file recipe chunk_list : ObjectType
  known_chunk_index known_chunk_shard protection_index protection_shard : ObjectType
  erasure_data_pack_index erasure_data_pack_shard : ObjectType

-- `object_type.value`
unfoldable pub type_value : ObjectType → Text
type_value catalog = codes "catalog"
type_value snapshot_index = codes "snapshot_index"
type_value snapshot_root = codes "snapshot_root"
type_value tree = codes "tree"
type_value file = codes "file"
type_value recipe = codes "recipe"
type_value chunk_list = codes "chunk_list"
type_value known_chunk_index = codes "known_chunk_index"
type_value known_chunk_shard = codes "known_chunk_shard"
type_value protection_index = codes "protection_index"
type_value protection_shard = codes "protection_shard"
type_value erasure_data_pack_index = codes "erasure_data_pack_index"
type_value erasure_data_pack_shard = codes "erasure_data_pack_shard"

-- The call `MetadataObjectType(text)`, which raises for a text that is no type's value.
unfoldable pub parse_type : Text → Option ObjectType
unfolding type_value
parse_type text =
    if text_eq text (type_value catalog)
    then some catalog
    else if text_eq text (type_value snapshot_index)
    then some snapshot_index
    else if text_eq text (type_value snapshot_root)
    then some snapshot_root
    else if text_eq text (type_value tree)
    then some tree
    else if text_eq text (type_value file)
    then some file
    else if text_eq text (type_value recipe)
    then some recipe
    else if text_eq text (type_value chunk_list)
    then some chunk_list
    else if text_eq text (type_value known_chunk_index)
    then some known_chunk_index
    else if text_eq text (type_value known_chunk_shard)
    then some known_chunk_shard
    else if text_eq text (type_value protection_index)
    then some protection_index
    else if text_eq text (type_value protection_shard)
    then some protection_shard
    else if text_eq text (type_value erasure_data_pack_index)
    then some erasure_data_pack_index
    else if text_eq text (type_value erasure_data_pack_shard)
    then some erasure_data_pack_shard
    else none

-- `a == b`: the members are strings and compare as their values.
unfoldable pub same_type : ObjectType → ObjectType → Bool
unfolding type_value text_eq
same_type a b = text_eq (type_value a) (type_value b)

pub parse_type-type_value : (t : ObjectType) → parse_type (type_value t) ≡ some t
unfolding parse_type type_value text_eq
parse_type-type_value catalog = refl
parse_type-type_value snapshot_index = refl
parse_type-type_value snapshot_root = refl
parse_type-type_value tree = refl
parse_type-type_value file = refl
parse_type-type_value recipe = refl
parse_type-type_value chunk_list = refl
parse_type-type_value known_chunk_index = refl
parse_type-type_value known_chunk_shard = refl
parse_type-type_value protection_index = refl
parse_type-type_value protection_shard = refl
parse_type-type_value erasure_data_pack_index = refl
parse_type-type_value erasure_data_pack_shard = refl

pub same_type_iff : (a b : ObjectType) → (same_type a b ≡ true) ↔ (a ≡ b)
unfolding same_type
same_type_iff a b = (
  λ h. some-inj (
      sym (parse_type-type_value a)
      ∙ ap parse_type ((text_eq_iff (type_value a) (type_value b)).0 h)
      ∙ parse_type-type_value b),
  λ e. (text_eq_iff (type_value a) (type_value b)).1 (ap type_value e),
)
  where
    some-inj : {x y : ObjectType} → some x ≡ some y → x ≡ y
    some-inj h = cc

abbrev pub object_format : Text
object_format = codes "stopan.metadata_object"

abbrev pub object_version : ℕ
object_version = 1
