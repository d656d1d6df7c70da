-- ===== src/Objects/Codec/Files.antt =====
-- The payloads of chunk lists, recipes and files, and their decoding.
use stopan.Prelude.{
  ◌≡◌, refl, List, [], ◌∷◌, Text, codes, text_eq, contains, Result, ok, ◌>>=◌, ◌>>◌, Ensures,
}
use stopan.Protection.{pos}
use stopan.Objects.Json.{Value, integer, string, array, object, Fields, get, has_key}
use stopan.Objects.Models.Checks.{ModelError, Numbers}
use stopan.Objects.Models.Trees.{
  ChunkRef, new_chunk_ref, IsChunkRef, ChunkList, new_chunk_list, IsChunkList, Recipe, new_recipe,
  IsRecipe, File, new_file, IsFile,
}
use stopan.Objects.Models.Trees.Laws.{
  new_chunk_ref-IsChunkRef, new_chunk_ref_valid, new_chunk_list-IsChunkList, new_chunk_list_valid,
  new_recipe-IsRecipe, new_recipe_valid, new_file-IsFile, new_file_valid,
}
use stopan.Objects.Codec.Hints.{
  require_dict, has_extras, reject_extras, required, decode_tuple, dict_of, normalize_items,
  decode_tuple-normalize_items,
}
use stopan.Objects.Codec.Equality.{IsPlain, normalize_items-ArePlain}
use stopan.Objects.Codec.Refs.{
  object_ref_value, decode_object_ref, decode_object_ref-object_ref_value, Ensures-required,
  Ensures-dataclass, Ensures-decode_object_ref, Ensures-decode_tuple, object_ref_value-IsPlain,
}

abbrev chunk_ref_fields : List Text
chunk_ref_fields = codes "order" ∷ codes "chunk_hash" ∷ codes "size" ∷ []

unfoldable pub chunk_ref_value : ChunkRef → Value
unfolding dict_of
chunk_ref_value x = object (
    dict_of chunk_ref_fields
      (integer (pos x.order) ∷ string x.chunk_hash ∷ integer (pos x.size) ∷ []))

unfoldable pub decode_chunk_ref : Value → Result ModelError ChunkRef
unfolding new_chunk_ref reject_extras require_dict required
decode_chunk_ref value = do
  payload ← require_dict value
  reject_extras chunk_ref_fields payload
  order ← required (codes "order") payload
  chunk_hash ← required (codes "chunk_hash") payload
  size ← required (codes "size") payload
  new_chunk_ref order chunk_hash size

pub decode_chunk_ref-IsChunkRef : (v : Value) → Ensures IsChunkRef (decode_chunk_ref v)
unfolding decode_chunk_ref
decode_chunk_ref-IsChunkRef v =
    search (Ensures-dataclass, Ensures-required, new_chunk_ref-IsChunkRef) depth 40 fits 4000

pub decode_chunk_ref-chunk_ref_value :
    (x : ChunkRef) → IsChunkRef x → decode_chunk_ref (chunk_ref_value x) ≡ ok x
unfolding chunk_ref_value contains decode_chunk_ref dict_of get has_extras reject_extras
    require_dict required text_eq
decode_chunk_ref-chunk_ref_value x h = new_chunk_ref_valid x h

pub chunk_ref_value-IsPlain :
    (numbers : Numbers) (x : ChunkRef) → IsChunkRef x → IsPlain numbers (chunk_ref_value x)
unfolding IsPlain chunk_ref_value dict_of has_key text_eq
chunk_ref_value-IsPlain numbers x h = (refl, tt, (refl, tt, (refl, tt, tt)))

abbrev chunk_list_fields : List Text
chunk_list_fields = codes "chunks" ∷ []

unfoldable pub chunk_list_payload : ChunkList → Fields
unfolding chunk_ref_value dict_of normalize_items
chunk_list_payload x =
    dict_of chunk_list_fields (array (normalize_items chunk_ref_value x.chunks) ∷ [])

unfoldable pub decode_chunk_list : Value → Result ModelError ChunkList
unfolding decode_chunk_ref decode_tuple new_chunk_list reject_extras require_dict required
decode_chunk_list value = do
  payload ← require_dict value
  reject_extras chunk_list_fields payload
  chunks ← required (codes "chunks") payload
  chunks ← decode_tuple decode_chunk_ref chunks
  new_chunk_list chunks

pub decode_chunk_list-IsChunkList : (v : Value) → Ensures IsChunkList (decode_chunk_list v)
unfolding decode_chunk_list
decode_chunk_list-IsChunkList v =
    search
      (
        Ensures-dataclass,
        Ensures-required,
        Ensures-decode_tuple decode_chunk_ref decode_chunk_ref-IsChunkRef,
        new_chunk_list-IsChunkList,
      )
      depth 40 fits 4000

pub decode_chunk_list-chunk_list_payload :
    (x : ChunkList) → IsChunkList x → decode_chunk_list (object (chunk_list_payload x)) ≡ ok x
unfolding chunk_list_payload contains decode_chunk_list dict_of get has_extras reject_extras
    require_dict required text_eq
decode_chunk_list-chunk_list_payload x (h0, h1) =
    rw
      (decode_tuple-normalize_items decode_chunk_ref chunk_ref_value
        decode_chunk_ref-chunk_ref_value x.chunks h0)
      (new_chunk_list_valid x (h0, h1))

pub chunk_list_payload-IsPlain :
    (numbers : Numbers) (x : ChunkList)
    → IsChunkList x
    → IsPlain numbers (object (chunk_list_payload x))
unfolding IsPlain chunk_list_payload dict_of has_key text_eq
chunk_list_payload-IsPlain numbers x (h0, h1) = (
  refl,
  normalize_items-ArePlain numbers chunk_ref_value (chunk_ref_value-IsPlain numbers) x.chunks h0,
  tt,
)

abbrev recipe_fields : List Text
recipe_fields =
    codes "recipe_hash" ∷ codes "chunk_count" ∷ codes "total_size" ∷ codes "chunk_list" ∷ []

unfoldable pub recipe_payload : Recipe → Fields
unfolding dict_of object_ref_value
recipe_payload x = dict_of recipe_fields (
    string x.recipe_hash
    ∷ integer (pos x.chunk_count)
    ∷ integer (pos x.total_size)
    ∷ object_ref_value x.chunk_list
    ∷ [])

unfoldable pub decode_recipe : Value → Result ModelError Recipe
unfolding decode_object_ref new_recipe reject_extras require_dict required
decode_recipe value = do
  payload ← require_dict value
  reject_extras recipe_fields payload
  recipe_hash ← required (codes "recipe_hash") payload
  chunk_count ← required (codes "chunk_count") payload
  total_size ← required (codes "total_size") payload
  chunk_list ← required (codes "chunk_list") payload
  chunk_list ← decode_object_ref chunk_list
  new_recipe recipe_hash chunk_count total_size chunk_list

pub decode_recipe-IsRecipe : (v : Value) → Ensures IsRecipe (decode_recipe v)
unfolding decode_recipe
decode_recipe-IsRecipe v =
    search (Ensures-dataclass, Ensures-required, Ensures-decode_object_ref, new_recipe-IsRecipe)
      depth 40 fits 4000

pub decode_recipe-recipe_payload :
    (x : Recipe) → IsRecipe x → decode_recipe (object (recipe_payload x)) ≡ ok x
unfolding contains decode_recipe dict_of get has_extras recipe_payload reject_extras require_dict
    required text_eq
decode_recipe-recipe_payload x (h0, h1) =
    rw (decode_object_ref-object_ref_value x.chunk_list (h1).0) (new_recipe_valid x (h0, h1))

pub recipe_payload-IsPlain :
    (numbers : Numbers) (x : Recipe) → IsRecipe x → IsPlain numbers (object (recipe_payload x))
unfolding IsPlain dict_of has_key recipe_payload text_eq
recipe_payload-IsPlain numbers x h =
    (refl, tt, (refl, tt, (refl, tt, (refl, object_ref_value-IsPlain numbers x.chunk_list, tt))))

abbrev file_fields : List Text
file_fields = codes "size" ∷ codes "recipe_hash" ∷ codes "recipe" ∷ []

unfoldable pub file_payload : File → Fields
unfolding dict_of object_ref_value
file_payload x =
    dict_of file_fields
      (integer (pos x.size) ∷ string x.recipe_hash ∷ object_ref_value x.recipe ∷ [])

unfoldable pub decode_file : Value → Result ModelError File
unfolding decode_object_ref new_file reject_extras require_dict required
decode_file value = do
  payload ← require_dict value
  reject_extras file_fields payload
  size ← required (codes "size") payload
  recipe_hash ← required (codes "recipe_hash") payload
  recipe ← required (codes "recipe") payload
  recipe ← decode_object_ref recipe
  new_file size recipe_hash recipe

pub decode_file-IsFile : (v : Value) → Ensures IsFile (decode_file v)
unfolding decode_file
decode_file-IsFile v =
    search (Ensures-dataclass, Ensures-required, Ensures-decode_object_ref, new_file-IsFile) depth
      40 fits 4000

pub decode_file-file_payload : (x : File) → IsFile x → decode_file (object (file_payload x)) ≡ ok x
unfolding contains decode_file dict_of file_payload get has_extras reject_extras require_dict
    required text_eq
decode_file-file_payload x (h0, h1) =
    rw (decode_object_ref-object_ref_value x.recipe (h1).0) (new_file_valid x (h0, h1))

pub file_payload-IsPlain :
    (numbers : Numbers) (x : File) → IsFile x → IsPlain numbers (object (file_payload x))
unfolding IsPlain dict_of file_payload has_key text_eq
file_payload-IsPlain numbers x h =
    (refl, tt, (refl, tt, (refl, object_ref_value-IsPlain numbers x.recipe, tt)))
