-- ===== src/Placement/Epoch.antt =====
-- placement/epoch.py: the identifier of the context of a placement. BLAKE3 and `json.dumps` are
-- parameters, the calls of them in `Codec`.
use stopan.Prelude.{
  ◌≡◌, sym, ap, ◌∙◌, inl, inr, Bool, true, false, ◌&&◌, ◌||◌, List, [], ◌∷◌, if◌then◌else◌,
  Bool-cases, Text, codes, text_eq, text_eq_iff, text_lt, contains, arith,
}
use stopan.Protection.{ℤ}
use stopan.Sorting.{sort_by}
use stopan.Sorting.Sets.{IsAscending, contains-sort_by, IsAscending-sort_by, IsAscending-eq}
use stopan.Sequences.{ordered_unique}
use stopan.Sequences.Unique.{ordered_unique_lem}
use stopan.Objects.Json.{
  Value, string, integer, array, object, Items, no_items, item, no_fields, field,
}
use stopan.Objects.Envelope.{Codec, canonical_json_bytes}

abbrev pub hrw_placement_scheme : Text
hrw_placement_scheme = codes "hrw-blake3-v1"

abbrev pub placement_epoch_format : Text
placement_epoch_format = codes "stopan.placement-epoch.v1"

abbrev is_named : Text → Bool
is_named [] = false
is_named (c ∷ s) = true

-- The names that are not empty.
unfoldable pub named_ids : List Text → List Text
named_ids [] = []
named_ids (i ∷ is) = let rest = named_ids is in if is_named i then i ∷ rest else rest

-- `sorted({...})`: a set is a list without repetition.
unfoldable pub normalized_node_ids : List Text → List Text
unfolding sort_by text_lt ordered_unique named_ids
normalized_node_ids eligible_node_ids =
    sort_by text_lt (ordered_unique (named_ids eligible_node_ids))

unfoldable pub text_items : List Text → Items
text_items [] = no_items
text_items (t ∷ ts) = item (string t) (text_items ts)

-- `material`, from the normalized identifiers
unfoldable pub epoch_material : Text → ℤ → List Text → Value
unfolding text_items
epoch_material cluster_token desired_rf node_ids = object (
    field (codes "format") (string placement_epoch_format) (
      field (codes "placement_scheme") (string hrw_placement_scheme) (
        field (codes "cluster_token") (string cluster_token) (
          field (codes "desired_rf") (integer desired_rf)
            (field (codes "eligible_node_ids") (array (text_items node_ids)) no_fields)))))

unfoldable pub compute_placement_epoch : Codec → Text → ℤ → List Text → Text
unfolding canonical_json_bytes epoch_material normalized_node_ids
compute_placement_epoch codec cluster_token desired_rf eligible_node_ids = codec.hexdigest (
    canonical_json_bytes codec
      (epoch_material cluster_token desired_rf (normalized_node_ids eligible_node_ids)))

contains-named_ids :
    (z : Text) (ids : List Text) → contains z (named_ids ids) ≡ (is_named z && contains z ids)
unfolding contains named_ids
contains-named_ids z [] = ground arith
contains-named_ids z (i ∷ ids) = elim (Bool-cases (is_named i)) [
  | inl e ↦
      rw (e, contains-named_ids z ids)
        (kept (text_eq z i) (is_named z) (contains z ids)
          (λ h. ap is_named ((text_eq_iff z i).0 h) ∙ e))
  | inr e ↦
      rw (e, contains-named_ids z ids)
        (left_out (text_eq z i) (is_named z) (contains z ids)
          (λ h. ap is_named ((text_eq_iff z i).0 h) ∙ e))
]
  where
    kept : (e n c : Bool) → (e ≡ true → n ≡ true) → (e || (n && c)) ≡ (n && (e || c))
    kept e n c h = ground (arith, h)

    left_out : (e n c : Bool) → (e ≡ true → n ≡ false) → (n && c) ≡ (n && (e || c))
    left_out e n c h = ground (arith, h)

contains-normalized :
    (z : Text) (ids : List Text)
    → contains z (normalized_node_ids ids) ≡ (is_named z && contains z ids)
unfolding normalized_node_ids
contains-normalized z ids =
    contains-sort_by z (ordered_unique (named_ids ids))
    ∙ (ordered_unique_lem (named_ids ids)).0 z
    ∙ contains-named_ids z ids

IsAscending-normalized : (ids : List Text) → IsAscending (normalized_node_ids ids)
unfolding normalized_node_ids
IsAscending-normalized ids =
    IsAscending-sort_by (ordered_unique (named_ids ids)) ((ordered_unique_lem (named_ids ids)).1)

-- The epoch depends on the set of the node identifiers: for two lists with the same members it is the
-- same, whatever their order and repetitions.
pub compute_placement_epoch-set :
    (codec : Codec) (cluster_token : Text) (desired_rf : ℤ) (ids others : List Text)
    → ((z : Text) → contains z ids ≡ contains z others)
    → compute_placement_epoch codec cluster_token desired_rf ids
      ≡ compute_placement_epoch codec cluster_token desired_rf others
unfolding compute_placement_epoch
compute_placement_epoch-set codec cluster_token desired_rf ids others same =
    ap
      (λ l.
        codec.hexdigest (canonical_json_bytes codec (epoch_material cluster_token desired_rf l)))
      (IsAscending-eq (normalized_node_ids ids) (normalized_node_ids others)
        (IsAscending-normalized ids) (IsAscending-normalized others)
        (λ z.
          contains-normalized z ids
          ∙ ap (λ b. is_named z && b) (same z)
          ∙ sym (contains-normalized z others)))
