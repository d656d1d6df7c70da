-- ===== src/Objects/Codec/Trees.antt =====
-- The payloads of trees, and their decoding.
use stopan.Prelude.{
  ◌≡◌, refl, false, List, [], ◌∷◌, Text, codes, text_eq, contains, Result, ok, ◌>>=◌, ◌>>◌, Ensures,
}
use stopan.Protection.{pos}
use stopan.Objects.Json.{Value, integer, string, array, object, Fields, get, has_key}
use stopan.Objects.Models.Checks.{ModelError, Numbers}
use stopan.Objects.Models.Checks.Laws.{number_value}
use stopan.Objects.Models.Trees.{TreeEntry, new_tree_entry, IsTreeEntry, Tree, new_tree, IsTree}
use stopan.Objects.Models.Trees.Laws.{
  new_tree_entry-IsTreeEntry, new_tree_entry_valid, new_tree-IsTree, new_tree_valid,
}
use stopan.Objects.Codec.Hints.{
  require_dict, has_extras, reject_extras, required, decode_tuple, dict_of, normalize_items,
  decode_tuple-normalize_items,
}
use stopan.Objects.Codec.Equality.{IsPlain, number_value-IsPlain, normalize_items-ArePlain}
use stopan.Objects.Codec.Refs.{
  object_ref_value, decode_object_ref, decode_object_ref-object_ref_value, Ensures-required,
  Ensures-dataclass, Ensures-decode_object_ref, Ensures-decode_tuple, object_ref_value-IsPlain,
}

abbrev tree_entry_fields : List Text
tree_entry_fields =
    codes "name"
    ∷ codes "item_type"
    ∷ codes "size"
    ∷ codes "mode"
    ∷ codes "mtime"
    ∷ codes "mtime_ns"
    ∷ codes "uid"
    ∷ codes "gid"
    ∷ codes "ref"
    ∷ []

unfoldable pub tree_entry_value : TreeEntry → Value
unfolding dict_of object_ref_value
tree_entry_value x = object (
    dict_of tree_entry_fields (
      string x.name
      ∷ string x.item_type
      ∷ integer (pos x.size)
      ∷ integer (pos x.mode)
      ∷ number_value x.mtime
      ∷ integer (pos x.mtime_ns)
      ∷ integer (pos x.uid)
      ∷ integer (pos x.gid)
      ∷ object_ref_value x.ref
      ∷ []))

unfoldable pub decode_tree_entry : Numbers → Value → Result ModelError TreeEntry
unfolding decode_object_ref new_tree_entry reject_extras require_dict required
decode_tree_entry numbers value = do
  payload ← require_dict value
  reject_extras tree_entry_fields payload
  name ← required (codes "name") payload
  item_type ← required (codes "item_type") payload
  size ← required (codes "size") payload
  mode ← required (codes "mode") payload
  mtime ← required (codes "mtime") payload
  mtime_ns ← required (codes "mtime_ns") payload
  uid ← required (codes "uid") payload
  gid ← required (codes "gid") payload
  ref ← required (codes "ref") payload
  ref ← decode_object_ref ref
  new_tree_entry numbers name item_type size mode mtime mtime_ns uid gid ref

pub decode_tree_entry-IsTreeEntry :
    (numbers : Numbers) (v : Value) → Ensures (IsTreeEntry numbers) (decode_tree_entry numbers v)
unfolding decode_tree_entry
decode_tree_entry-IsTreeEntry numbers v =
    search
      (Ensures-dataclass, Ensures-required, Ensures-decode_object_ref, new_tree_entry-IsTreeEntry)
      depth 40 fits 4000

pub decode_tree_entry-tree_entry_value :
    (numbers : Numbers) (x : TreeEntry)
    → IsTreeEntry numbers x
    → decode_tree_entry numbers (tree_entry_value x) ≡ ok x
unfolding contains decode_tree_entry dict_of get has_extras reject_extras require_dict required
    text_eq tree_entry_value
decode_tree_entry-tree_entry_value numbers x (h0, h1, h2, h3, h4, h5) =
    rw (decode_object_ref-object_ref_value x.ref (h5).0)
      (new_tree_entry_valid numbers x (h0, h1, h2, h3, h4, h5))

pub tree_entry_value-IsPlain :
    (numbers : Numbers) (x : TreeEntry)
    → IsTreeEntry numbers x
    → IsPlain numbers (tree_entry_value x)
unfolding IsPlain dict_of has_key text_eq tree_entry_value
tree_entry_value-IsPlain numbers x (h0, h1, h2, h3, h4, h5) = (
  refl,
  tt,
  (
    refl,
    tt,
    (
      refl,
      tt,
      (
        refl,
        tt,
        (
          refl,
          number_value-IsPlain numbers false x.mtime h4,
          (refl, tt, (refl, tt, (refl, tt, (refl, object_ref_value-IsPlain numbers x.ref, tt)))),
        ),
      ),
    ),
  ),
)

abbrev tree_fields : List Text
tree_fields = codes "entries" ∷ []

unfoldable pub tree_payload : Tree → Fields
unfolding dict_of normalize_items tree_entry_value
tree_payload x = dict_of tree_fields (array (normalize_items tree_entry_value x.entries) ∷ [])

unfoldable pub decode_tree : Numbers → Value → Result ModelError Tree
unfolding decode_tree_entry decode_tuple new_tree reject_extras require_dict required
decode_tree numbers value = do
  payload ← require_dict value
  reject_extras tree_fields payload
  entries ← required (codes "entries") payload
  entries ← decode_tuple (decode_tree_entry numbers) entries
  new_tree entries

pub decode_tree-IsTree :
    (numbers : Numbers) (v : Value) → Ensures (IsTree numbers) (decode_tree numbers v)
unfolding decode_tree
decode_tree-IsTree numbers v =
    search
      (
        Ensures-dataclass,
        Ensures-required,
        Ensures-decode_tuple (decode_tree_entry numbers) (decode_tree_entry-IsTreeEntry numbers),
        new_tree-IsTree,
      )
      depth 40 fits 4000

pub decode_tree-tree_payload :
    (numbers : Numbers) (x : Tree)
    → IsTree numbers x
    → decode_tree numbers (object (tree_payload x)) ≡ ok x
unfolding contains decode_tree dict_of get has_extras reject_extras require_dict required text_eq
    tree_payload
decode_tree-tree_payload numbers x (h0, h1) =
    rw
      (decode_tuple-normalize_items (decode_tree_entry numbers) tree_entry_value
        (decode_tree_entry-tree_entry_value numbers) x.entries h0)
      (new_tree_valid numbers x (h0, h1))

pub tree_payload-IsPlain :
    (numbers : Numbers) (x : Tree) → IsTree numbers x → IsPlain numbers (object (tree_payload x))
unfolding IsPlain dict_of has_key text_eq tree_payload
tree_payload-IsPlain numbers x (h0, h1) = (
  refl,
  normalize_items-ArePlain numbers tree_entry_value (tree_entry_value-IsPlain numbers) x.entries h0,
  tt,
)
