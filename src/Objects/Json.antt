-- ===== src/Objects/Json.antt =====
-- The values that `json.loads` returns, and common/json.py. A real number is the text it is
-- written as; `json.loads` and `json.dumps` are parameters where they are called.
use stopan.Prelude.{Bool, true, false, Option, none, some, if◌then◌else◌, Text, text_eq}
use stopan.Protection.{ℤ}

mutual
  pub data Value : Type 0 where
    null : Value
    boolean : Bool → Value
    integer : ℤ → Value
    real : Text → Value
    string : Text → Value
    array : Items → Value
    object : Fields → Value

  pub data Items : Type 0 where
    no_items : Items
    item : Value → Items → Items

  pub data Fields : Type 0 where
    no_fields : Fields
    field : Text → Value → Fields → Fields

-- `value.get(key)`
unfoldable pub get : Text → Fields → Option Value
get key no_fields = none
get key (field name value rest) = if text_eq name key then some value else get key rest

-- `key in value`
unfoldable pub has_key : Text → Fields → Bool
has_key key no_fields = false
has_key key (field name value rest) = if text_eq name key then true else has_key key rest
