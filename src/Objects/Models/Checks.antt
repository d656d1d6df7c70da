-- ===== src/Objects/Models/Checks.antt =====
-- The checks of metadata/objects/models.py that its classes share (`_require_str` and those beside
-- it), on the values that `json.loads` returns. What Python's floats do is a parameter.
pub mod Laws
pub mod Rules
use stopan.Prelude.{
  ℕ, ltb, leb, ◌==◌, ◌≤◌, ◌≡◌, refl, Bool, true, false, not, ◌&&◌, List, [], ◌∷◌, ◌++◌, Option,
  none, some, if◌then◌else◌, length, all, replicate, Text, codes, Result, ok, err, ◌>>=◌, ◌>>◌,
  raise_if, leb→le, arith, ltb→lt,
}
use stopan.Protection.{ℤ, pos, negsuc}
use stopan.Erasure.Models.{is_hex_lower}
use stopan.Objects.Json.{Value, null, boolean, integer, real, string}

pub data ModelError : Type 0 where
  not_str empty_text not_int too_small not_number not_finite : ModelError
  not_hash64 not_node_id not_uuid not_prefix : ModelError
  order_gap wrong_ref_type invalid_name invalid_item_type : ModelError
  repeated unsorted outside_prefix total_mismatch : ModelError
  invalid_status missing_root invalid_state : ModelError
  padded_size_mismatch payload_exceeds_padded no_chunks ordinal_gap offset_gap not_covered :
      ModelError
  repeated_node missing_indexes : ModelError
  not_list not_dict extra_field missing_field no_candidate not_a_type not_normalized : ModelError
  -- `OverflowError`, which is no `MetadataObjectError`
  float_overflow : ModelError

-- Python's numbers: whether `float(value)` of an integer is in range, and of a float, written
-- as a text, whether it is finite and whether it is below 0; and `a == b` of two numbers.
pub record Numbers : Type 0 where
  pub fits : ℤ → Bool
  pub is_finite : Text → Bool
  pub is_negative : Text → Bool
  pub number_eq : Value → Value → Bool

unfoldable pub require_str : Bool → Value → Result ModelError Text
require_str allow_empty (string text) = do
  raise_if (not allow_empty && length text == 0) empty_text
  ok text
require_str allow_empty _ = err not_str

-- A number that has passed a check with a `min_value` of 0 or more.
unfoldable pub require_int : ℕ → Value → Result ModelError ℕ
require_int min_value (integer (pos n)) = do raise_if (ltb n min_value) too_small; ok n
require_int min_value (integer (negsuc n)) = err too_small
require_int min_value _ = err not_int

pub data Number : Type 0 where
  whole : ℤ → Number
  decimal : Text → Number

abbrev pub is_below_zero : ℤ → Bool
is_below_zero (pos n) = false
is_below_zero (negsuc n) = true

-- `_require_number`, with `min_value=0.0` or with none; the field keeps the value.
unfoldable pub require_number : Numbers → Bool → Value → Result ModelError Number
require_number numbers from_zero (integer z) = do
  raise_if (not (numbers.fits z)) float_overflow
  raise_if (from_zero && is_below_zero z) too_small
  ok (whole z)
require_number numbers from_zero (real text) = do
  raise_if (not (numbers.is_finite text)) not_finite
  raise_if (from_zero && numbers.is_negative text) too_small
  ok (decimal text)
require_number numbers from_zero _ = err not_number

-- `_HASH64_RE`, `_NODE_ID_RE`, `_UUID_RE` and the pattern of a prefix
unfoldable pub is_hex_of : ℕ → Text → Bool
unfolding is_hex_lower
is_hex_of n text = length text == n && all is_hex_lower text

abbrev pub fits_mask : List Bool → Text → Bool
fits_mask [] [] = true
fits_mask [] (c ∷ text) = false
fits_mask (is_hex ∷ mask) [] = false
fits_mask (is_hex ∷ mask) (c ∷ text) =
    (if is_hex then is_hex_lower c else c == b'-') && fits_mask mask text

abbrev pub uuid_mask : List Bool
uuid_mask =
    replicate 8 true
    ++ (false
        ∷ (replicate 4 true
            ++ (false
                ∷ (replicate 4 true
                    ++ (false ∷ (replicate 4 true ++ (false ∷ replicate 12 true)))))))

unfoldable pub is_uuid : Text → Bool
unfolding is_hex_lower
is_uuid text = fits_mask uuid_mask text

unfoldable pub require_hash64 : Value → Result ModelError Text
unfolding require_str is_hex_of
require_hash64 value = do
  text ← require_str false value
  raise_if (not (is_hex_of 64 text)) not_hash64
  ok text

-- `_require_node_id` and `_require_vault_id`
unfoldable pub require_node_id : Value → Result ModelError Text
unfolding require_str is_hex_of
require_node_id value = do
  text ← require_str false value
  raise_if (not (is_hex_of 32 text)) not_node_id
  ok text

unfoldable pub require_uuid : Value → Result ModelError Text
unfolding require_str is_uuid
require_uuid value = do
  text ← require_str false value
  raise_if (not (is_uuid text)) not_uuid
  ok text

-- `re.fullmatch(r"[0-9a-f]{2}", prefix)`
unfoldable pub require_prefix : Value → Result ModelError Text
unfolding require_str is_hex_of
require_prefix value = do
  text ← require_str false value
  raise_if (not (is_hex_of 2 text)) not_prefix
  ok text

abbrev pub is_null : Value → Bool
is_null null = true
is_null (boolean b) = false
is_null (integer z) = false
is_null (real text) = false
is_null (string text) = false
is_null (Value.array _) = false
is_null (Value.object _) = false

-- `if value is not None: ...`
unfoldable pub optional {ℓ} :
    {A : Type ℓ} → (Value → Result ModelError A) → Value → Result ModelError (Option A)
optional check value = if is_null value then ok none else (do a ← check value; ok (some a))

unfoldable pub has_char : ℕ → Text → Bool
has_char c [] = false
has_char c (d ∷ text) = if c == d then true else has_char c text
