-- ===== src/Placement/EpochTests.antt =====
-- The epoch of two nodes, over an encoding that keeps the identifiers.
use stopan.Prelude.{
  ◌≡◌, refl, Bool, true, false, [], ◌∷◌, ◌++◌, ◌||◌, none, Text, codes, text_eq, contains, arith,
}
use stopan.Protection.{pos}
use stopan.Objects.Json.{
  Value, string, array, object, Items, no_items, item, Fields, no_fields, field,
}
use stopan.Objects.Envelope.{Codec}
use stopan.Placement.Epoch.{compute_placement_epoch, compute_placement_epoch-set}

abbrev item_text : Items → Text
item_text no_items = []
item_text (item (string t) rest) = t ++ codes "," ++ item_text rest
item_text (item _ rest) = item_text rest

abbrev node_text : Fields → Text
node_text no_fields = []
node_text (field name (array items) rest) = item_text items
node_text (field name _ rest) = node_text rest

abbrev dump_nodes : Value → Text
dump_nodes (object fields) = node_text fields
dump_nodes _ = []

abbrev toy_codec : Codec
toy_codec = record {
  hexdigest = λ b. b;
  loads = λ b. none;
  dumps = dump_nodes;
  is_payload = λ t p. true;
}

sorted_nodes :
    compute_placement_epoch toy_codec
      (codes "s")
      (pos 2)
      (codes "b" ∷ codes "" ∷ codes "a" ∷ codes "b" ∷ [])
    ≡ codes "a,b,"
unfolding compute_placement_epoch text_eq contains
sorted_nodes = refl

same_members :
    (z : Text)
    → contains z (codes "b" ∷ codes "a" ∷ codes "b" ∷ []) ≡ contains z (codes "a" ∷ codes "b" ∷ [])
unfolding contains
same_members z = same (text_eq z (codes "a")) (text_eq z (codes "b"))
  where
    same : (a b : Bool) → (b || (a || (b || false))) ≡ (a || (b || false))
    same a b = ground arith

compute_placement_epoch-set_example :
    compute_placement_epoch toy_codec (codes "s") (pos 2) (codes "b" ∷ codes "a" ∷ codes "b" ∷ [])
    ≡ compute_placement_epoch toy_codec (codes "s") (pos 2) (codes "a" ∷ codes "b" ∷ [])
compute_placement_epoch-set_example =
    compute_placement_epoch-set toy_codec (codes "s") (pos 2)
      (codes "b" ∷ codes "a" ∷ codes "b" ∷ []) (codes "a" ∷ codes "b" ∷ []) same_members
