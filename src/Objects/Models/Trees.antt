-- ===== src/Objects/Models/Trees.antt =====
-- ObjectRef and the classes that describe a saved tree: chunk list, recipe, file and tree. Each
-- class is a record, its `__post_init__` a function from the values that it is given, and what it
-- lets through a predicate.
pub mod Laws
use stopan.Prelude.{
  ℕ, zero, suc, ltb, ◌==◌, ◌≡◌, refl, Bool, true, false, not, ◌||◌, List, [], ◌∷◌, if◌then◌else◌,
  Option, none, some, Text, codes, text_eq, text_lt, All, Result, ok, err, ◌>>=◌, ◌>>◌, raise_if,
}
use stopan.Objects.Json.{Value}
use stopan.Objects.Kinds.{ObjectType, same_type}
use stopan.Objects.Models.Checks.{
  ModelError, order_gap, wrong_ref_type, invalid_name, invalid_item_type, Numbers, Number,
  require_str, require_int, require_number, require_hash64, has_char,
}
use stopan.Objects.Models.Checks.Laws.{IsHash64, IsFilled, IsNumber}
use stopan.Objects.Models.Ordered.{Listing, check_listing, IsListing}
use stopan.Objects.Models.Ordered.Orders.{by_name}

pub record ObjectRef : Type 0 where
  pub object_type : ObjectType
  pub object_hash : Text

unfoldable pub new_object_ref : ObjectType → Value → Result ModelError ObjectRef
unfolding require_hash64
new_object_ref object_type object_hash = do
  object_hash ← require_hash64 object_hash
  ok (record { object_type = object_type; object_hash = object_hash })

-- `if ref.object_type != expected: raise ...`
unfoldable pub require_ref_to : ObjectType → ObjectRef → Result ModelError (Unit {0})
unfolding same_type
require_ref_to expected ref = raise_if (not (same_type ref.object_type expected)) wrong_ref_type

-- The same for a reference that may be missing.
unfoldable pub require_optional_ref_to :
    ObjectType → Option ObjectRef → Result ModelError (Unit {0})
unfolding require_ref_to
require_optional_ref_to expected none = ok tt
require_optional_ref_to expected (some ref) = require_ref_to expected ref

abbrev pub IsObjectRef : ObjectRef → Type 0
IsObjectRef ref = IsHash64 ref.object_hash

abbrev pub IsRefTo : ObjectType → ObjectRef → Type 0
IsRefTo expected ref = IsObjectRef ref × (ref.object_type ≡ expected)

pub record ChunkRef : Type 0 where
  pub order : ℕ
  pub chunk_hash : Text
  pub size : ℕ

unfoldable pub new_chunk_ref : Value → Value → Value → Result ModelError ChunkRef
unfolding require_int require_hash64
new_chunk_ref order chunk_hash size = do
  order ← require_int 0 order
  chunk_hash ← require_hash64 chunk_hash
  size ← require_int 1 size
  ok (record { order = order; chunk_hash = chunk_hash; size = size })

abbrev pub IsChunkRef : ChunkRef → Type 0
IsChunkRef c = IsHash64 c.chunk_hash × (ltb c.size 1 ≡ false)

pub record ChunkList : Type 0 where
  pub chunks : List ChunkRef

unfoldable pub check_orders : ℕ → List ChunkRef → Result ModelError (Unit {0})
check_orders expected_order [] = ok tt
check_orders expected_order (chunk ∷ chunks) = do
  raise_if (not (chunk.order == expected_order)) order_gap
  check_orders (suc expected_order) chunks

unfoldable pub new_chunk_list : List ChunkRef → Result ModelError ChunkList
unfolding check_orders
new_chunk_list chunks = do check_orders 0 chunks; ok (record { chunks = chunks })

-- The orders count up from a number.
abbrev pub AreOrders : ℕ → List ChunkRef → Type 0
AreOrders n [] = Unit
AreOrders n (chunk ∷ chunks) = (chunk.order ≡ n) × AreOrders (suc n) chunks

abbrev pub IsChunkList : ChunkList → Type 0
IsChunkList l = All IsChunkRef l.chunks × AreOrders 0 l.chunks

pub record Recipe : Type 0 where
  pub recipe_hash : Text
  pub chunk_count : ℕ
  pub total_size : ℕ
  pub chunk_list : ObjectRef

unfoldable pub new_recipe : Value → Value → Value → ObjectRef → Result ModelError Recipe
unfolding require_int require_hash64 require_ref_to
new_recipe recipe_hash chunk_count total_size chunk_list = do
  recipe_hash ← require_hash64 recipe_hash
  chunk_count ← require_int 0 chunk_count
  total_size ← require_int 0 total_size
  require_ref_to ObjectType.chunk_list chunk_list
  ok (record {
    recipe_hash = recipe_hash;
    chunk_count = chunk_count;
    total_size = total_size;
    chunk_list = chunk_list;
  })

abbrev pub IsRecipe : Recipe → Type 0
IsRecipe r = IsHash64 r.recipe_hash × IsRefTo ObjectType.chunk_list r.chunk_list

pub record File : Type 0 where
  pub size : ℕ
  pub recipe_hash : Text
  pub recipe : ObjectRef

unfoldable pub new_file : Value → Value → ObjectRef → Result ModelError File
unfolding require_int require_hash64 require_ref_to
new_file size recipe_hash recipe = do
  size ← require_int 0 size
  recipe_hash ← require_hash64 recipe_hash
  require_ref_to ObjectType.recipe recipe
  ok (record { size = size; recipe_hash = recipe_hash; recipe = recipe })

abbrev pub IsFile : File → Type 0
IsFile f = IsHash64 f.recipe_hash × IsRefTo ObjectType.recipe f.recipe

pub record TreeEntry : Type 0 where
  pub name : Text
  pub item_type : Text
  pub size : ℕ
  pub mode : ℕ
  pub mtime : Number
  pub mtime_ns : ℕ
  pub uid : ℕ
  pub gid : ℕ
  pub ref : ObjectRef

unfoldable pub is_invalid_name : Text → Bool
unfolding has_char text_eq
is_invalid_name name = has_char b'/' name || text_eq name (codes ".") || text_eq name (codes "..")

unfoldable pub is_valid_item_type : Text → Bool
unfolding text_eq
is_valid_item_type item_type = text_eq item_type (codes "file") || text_eq item_type (codes "dir")

unfoldable pub expected_type : Text → ObjectType
unfolding text_eq
expected_type item_type =
    if text_eq item_type (codes "file") then ObjectType.file else ObjectType.tree

unfoldable pub new_tree_entry :
    Numbers
    → Value
    → Value
    → Value
    → Value
    → Value
    → Value
    → Value
    → Value
    → ObjectRef
    → Result ModelError TreeEntry
unfolding require_str require_int require_number require_ref_to is_invalid_name is_valid_item_type
    expected_type
new_tree_entry numbers name item_type size mode mtime mtime_ns uid gid ref = do
  name ← require_str false name
  raise_if (is_invalid_name name) invalid_name
  item_type ← require_str false item_type
  raise_if (not (is_valid_item_type item_type)) invalid_item_type
  size ← require_int 0 size
  mode ← require_int 0 mode
  mtime ← require_number numbers false mtime
  mtime_ns ← require_int 0 mtime_ns
  uid ← require_int 0 uid
  gid ← require_int 0 gid
  require_ref_to (expected_type item_type) ref
  ok (record {
    name = name;
    item_type = item_type;
    size = size;
    mode = mode;
    mtime = mtime;
    mtime_ns = mtime_ns;
    uid = uid;
    gid = gid;
    ref = ref;
  })

abbrev pub IsTreeEntry : Numbers → TreeEntry → Type 0
IsTreeEntry numbers e =
    IsFilled e.name
    × (is_invalid_name e.name ≡ false)
    × IsFilled e.item_type
    × (is_valid_item_type e.item_type ≡ true)
    × IsNumber numbers false e.mtime
    × IsRefTo (expected_type e.item_type) e.ref

pub record Tree : Type 0 where
  pub entries : List TreeEntry

unfoldable pub tree_listing : Listing TreeEntry
unfolding by_name
tree_listing = by_name (λ (e : TreeEntry). e.name) (λ _. ok tt)

unfoldable pub new_tree : List TreeEntry → Result ModelError Tree
unfolding tree_listing check_listing
new_tree entries = do check_listing tree_listing [] none entries; ok (record { entries = entries })

abbrev pub IsTree : Numbers → Tree → Type 0
IsTree numbers t = All (IsTreeEntry numbers) t.entries × IsListing tree_listing t.entries
