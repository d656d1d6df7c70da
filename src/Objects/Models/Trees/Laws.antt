-- ===== src/Objects/Models/Trees/Laws.antt =====
-- The lemmas on the classes of a saved tree: validity of what is constructed, and construction
-- from the fields of a valid object.
use stopan.Prelude.{
  ℕ, suc, ◌==◌, ==_iff, ◌≡◌, refl, inl, inr, false, not, List, [], ◌∷◌, Option, none, some, All,
  Result, ok, ◌>>◌, arith, Bool-cases, Ensures, returned, Ensures->>=, Ensures-raise_if,
}
use stopan.Protection.{pos}
use stopan.Objects.Json.{Value, integer, string}
use stopan.Objects.Kinds.{ObjectType, same_type, same_type_iff}
use stopan.Objects.Models.Checks.{ModelError, wrong_ref_type, Numbers}
use stopan.Objects.Models.Checks.Laws.{
  IsOptional, number_value, require_str-string, require_int-AtLeast, require_int-pos,
  require_number-value, require_hash64-IsHash64, require_hash64-string, not-eq-false, Ensures-check,
  at_least_zero,
}
use stopan.Objects.Models.Checks.Rules.{ensures_rules}
use stopan.Objects.Models.Ordered.{check_listing}
use stopan.Objects.Models.Ordered.Orders.{by_name_iff}
use stopan.Objects.Models.Trees.{
  ObjectRef, new_object_ref, require_ref_to, IsObjectRef, IsRefTo, require_optional_ref_to,
  ChunkRef, new_chunk_ref, IsChunkRef, ChunkList, check_orders, new_chunk_list, AreOrders,
  IsChunkList, Recipe, new_recipe, IsRecipe, File, new_file, IsFile, TreeEntry, expected_type,
  new_tree_entry, IsTreeEntry, Tree, tree_listing, new_tree, IsTree,
}

pub new_object_ref-IsObjectRef :
    (t : ObjectType) (v : Value) → Ensures IsObjectRef (new_object_ref t v)
unfolding new_object_ref
new_object_ref-IsObjectRef t v = Ensures->>= (require_hash64-IsHash64 v) λ h p. returned p

pub new_object_ref_valid :
    (ref : ObjectRef)
    → IsObjectRef ref
    → new_object_ref ref.object_type (string ref.object_hash) ≡ ok ref
unfolding new_object_ref
new_object_ref_valid ref h = rw (require_hash64-string ref.object_hash h) refl

pub Ensures-require_ref_to :
    {A : Type 0} {P : A → Type 0} (t : ObjectType) (ref : ObjectRef) {next : Result ModelError A}
    → (ref.object_type ≡ t → Ensures P next)
    → Ensures P (require_ref_to t ref >> next)
unfolding require_ref_to
Ensures-require_ref_to t ref then_next =
    Ensures-raise_if (not (same_type ref.object_type t)) wrong_ref_type
      λ h. then_next ((same_type_iff ref.object_type t).0 (not-eq-false _ h))

pub require_ref_to_valid :
    (t : ObjectType) (ref : ObjectRef) → ref.object_type ≡ t → require_ref_to t ref ≡ ok tt
unfolding require_ref_to
require_ref_to_valid t ref e = rw ((same_type_iff ref.object_type t).1 e) refl

pub Ensures-require_optional_ref_to :
    {A : Type 0} {P : A → Type 0} (t : ObjectType) (o : Option ObjectRef)
    → IsOptional IsObjectRef o
    → {next : Result ModelError A} → (IsOptional (IsRefTo t) o → Ensures P next)
    → Ensures P (require_optional_ref_to t o >> next)
unfolding require_optional_ref_to
Ensures-require_optional_ref_to t none r then_next = then_next tt
Ensures-require_optional_ref_to t (some ref) r then_next =
    Ensures-require_ref_to t ref λ e. then_next (r, e)

pub require_optional_ref_to_valid :
    (t : ObjectType) (o : Option ObjectRef)
    → IsOptional (IsRefTo t) o
    → require_optional_ref_to t o ≡ ok tt
unfolding require_optional_ref_to
require_optional_ref_to_valid t none h = refl
require_optional_ref_to_valid t (some ref) (_, e) = require_ref_to_valid t ref e

pub new_chunk_ref-IsChunkRef :
    (order chunk_hash size : Value) → Ensures IsChunkRef (new_chunk_ref order chunk_hash size)
unfolding new_chunk_ref
new_chunk_ref-IsChunkRef order chunk_hash size = Ensures->>= (require_int-AtLeast 0 order) λ _ _.
    Ensures->>= (require_hash64-IsHash64 chunk_hash)
      λ h p. Ensures->>= (require_int-AtLeast 1 size) λ n q. returned (p, q)

pub new_chunk_ref_valid :
    (c : ChunkRef)
    → IsChunkRef c
    → new_chunk_ref (integer (pos c.order)) (string c.chunk_hash) (integer (pos c.size)) ≡ ok c
unfolding new_chunk_ref
new_chunk_ref_valid c (h, n) =
    rw
      (
        require_int-pos 0 c.order (ground arith),
        require_hash64-string c.chunk_hash h,
        require_int-pos 1 c.size n,
      )
      refl

check_orders-AreOrders : (n : ℕ) (l : List ChunkRef) → check_orders n l ≡ ok tt → AreOrders n l
unfolding check_orders
check_orders-AreOrders n [] h = tt
check_orders-AreOrders n (chunk ∷ chunks) h = elim (Bool-cases (chunk.order == n)) [
  | inl e ↦ ((==_iff chunk.order n).0 e, check_orders-AreOrders (suc n) chunks (rw e at h))
  | inr e ↦ cc (h, e)
]

check_orders_valid : (n : ℕ) (l : List ChunkRef) → AreOrders n l → check_orders n l ≡ ok tt
unfolding check_orders
check_orders_valid n [] h = refl
check_orders_valid n (chunk ∷ chunks) (e, h) =
    rw ((==_iff chunk.order n).1 e) (check_orders_valid (suc n) chunks h)

pub new_chunk_list-IsChunkList :
    (chunks : List ChunkRef) → All IsChunkRef chunks → Ensures IsChunkList (new_chunk_list chunks)
unfolding new_chunk_list
new_chunk_list-IsChunkList chunks p =
    Ensures-check (check_orders 0 chunks) λ h. returned (p, check_orders-AreOrders 0 chunks h)

pub new_chunk_list_valid : (l : ChunkList) → IsChunkList l → new_chunk_list l.chunks ≡ ok l
unfolding new_chunk_list
new_chunk_list_valid l (p, o) = rw (check_orders_valid 0 l.chunks o) refl

pub new_recipe-IsRecipe :
    (a b c : Value) (ref : ObjectRef) → IsObjectRef ref → Ensures IsRecipe (new_recipe a b c ref)
unfolding new_recipe
new_recipe-IsRecipe a b c ref r = Ensures->>= (require_hash64-IsHash64 a) λ _ h.
    Ensures->>= (require_int-AtLeast 0 b) λ _ _.
      Ensures->>= (require_int-AtLeast 0 c)
        λ _ _. Ensures-require_ref_to ObjectType.chunk_list ref λ e. returned (h, (r, e))

pub new_recipe_valid :
    (r : Recipe)
    → IsRecipe r
    → new_recipe
        (string r.recipe_hash)
        (integer (pos r.chunk_count))
        (integer (pos r.total_size))
        r.chunk_list
      ≡ ok r
unfolding new_recipe
new_recipe_valid r (h, (_, e)) =
    rw
      (
        require_hash64-string r.recipe_hash h,
        at_least_zero r.chunk_count,
        at_least_zero r.total_size,
        require_ref_to_valid ObjectType.chunk_list r.chunk_list e,
      )
      refl

pub new_file-IsFile :
    (a b : Value) (ref : ObjectRef) → IsObjectRef ref → Ensures IsFile (new_file a b ref)
unfolding new_file
new_file-IsFile a b ref r = Ensures->>= (require_int-AtLeast 0 a) λ _ _.
    Ensures->>= (require_hash64-IsHash64 b)
      λ _ h. Ensures-require_ref_to ObjectType.recipe ref λ e. returned (h, (r, e))

pub new_file_valid :
    (f : File) → IsFile f → new_file (integer (pos f.size)) (string f.recipe_hash) f.recipe ≡ ok f
unfolding new_file
new_file_valid f (h, (_, e)) =
    rw
      (
        require_hash64-string f.recipe_hash h,
        at_least_zero f.size,
        require_ref_to_valid ObjectType.recipe f.recipe e,
      )
      refl

pub new_tree_entry-IsTreeEntry :
    (numbers : Numbers) (a b c d e f g i : Value) (ref : ObjectRef)
    → IsObjectRef ref
    → Ensures (IsTreeEntry numbers) (new_tree_entry numbers a b c d e f g i ref)
unfolding new_tree_entry
new_tree_entry-IsTreeEntry numbers a b c d e f g i ref r =
    search (ensures_rules, Ensures-require_ref_to) depth 40 fits 4000

pub new_tree_entry_valid :
    (numbers : Numbers) (e : TreeEntry)
    → IsTreeEntry numbers e
    → new_tree_entry numbers
        (string e.name)
        (string e.item_type)
        (integer (pos e.size))
        (integer (pos e.mode))
        (number_value e.mtime)
        (integer (pos e.mtime_ns))
        (integer (pos e.uid))
        (integer (pos e.gid))
        e.ref
      ≡ ok e
unfolding new_tree_entry
new_tree_entry_valid numbers e (filled, named, kind_filled, kind, number, (_, to)) =
    rw
      (
        require_str-string false e.name filled,
        named,
        require_str-string false e.item_type kind_filled,
        kind,
        at_least_zero e.size,
        at_least_zero e.mode,
        require_number-value numbers false e.mtime number,
        at_least_zero e.mtime_ns,
        at_least_zero e.uid,
        at_least_zero e.gid,
        require_ref_to_valid (expected_type e.item_type) e.ref to,
      )
      refl

pub new_tree-IsTree :
    (numbers : Numbers) (entries : List TreeEntry)
    → All (IsTreeEntry numbers) entries
    → Ensures (IsTree numbers) (new_tree entries)
unfolding new_tree tree_listing
new_tree-IsTree numbers entries p =
    Ensures-check (check_listing tree_listing [] none entries)
      λ h. returned (p, (by_name_iff (λ (e : TreeEntry). e.name) (λ _. ok tt) entries).0 h)

pub new_tree_valid : (numbers : Numbers) (t : Tree) → IsTree numbers t → new_tree t.entries ≡ ok t
unfolding new_tree tree_listing
new_tree_valid numbers t (_, l) =
    rw ((by_name_iff (λ (e : TreeEntry). e.name) (λ _. ok tt) t.entries).1 l) refl
