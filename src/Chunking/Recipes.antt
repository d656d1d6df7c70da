-- ===== src/Chunking/Recipes.antt =====
-- chunking/recipes.py: the message whose digest names a recipe. The numbers are Python's integers,
-- and the BLAKE3 digest is a parameter.
pub mod BigEndian
pub mod Hex
pub mod Injective
use stopan.Prelude.{
  ℕ, zero, suc, ◌+◌, ◌-◌, ◌*◌, ◌/◌, ◌%◌, ◌^◌, ltb, leb, ◌==◌, Bool, true, false, not, ◌&&◌, ◌||◌,
  Option, none, some, List, [], ◌∷◌, ◌++◌, if◌then◌else◌, Text, Bytes, codes, Result, ok, err,
  ◌>>=◌, ◌>>◌, raise_if,
}
use stopan.Protection.{ℤ, pos, negsuc}

pub data RecipeError : Type 0 where
  overflow not_hexadecimal : RecipeError

-- What `bytes.fromhex` makes of a character.
pub data HexClass : Type 0 where
  blank other : HexClass
  digit : ℕ → HexClass

unfoldable pub hex_class : ℕ → HexClass
hex_class c =
    if leb b'0' c && leb c b'9'
    then digit (c - 48)
    else if leb b'a' c && leb c b'f'
    then digit (c - 87)
    else if leb b'A' c && leb c b'F'
    then digit (c - 55)
    else if c == 32 || (leb 9 c && leb c 13)
    then blank
    else other

-- The rest of the bytes, after the first digit of one or after none.
unfoldable pub fromhex_from : Option ℕ → Text → Result RecipeError Bytes
unfolding hex_class
fromhex_from none [] = ok []
fromhex_from (some high) [] = err not_hexadecimal
fromhex_from none (c ∷ s) = elim (hex_class c) [
  | blank ↦ fromhex_from none s
  | other ↦ err not_hexadecimal
  | digit high ↦ fromhex_from (some high) s
]
fromhex_from (some high) (c ∷ s) = elim (hex_class c) [
  | blank ↦ err not_hexadecimal
  | other ↦ err not_hexadecimal
  | digit low ↦ do rest ← fromhex_from none s; ok ((16 * high + low) ∷ rest)
]

-- `bytes.fromhex`
unfoldable pub fromhex : Text → Result RecipeError Bytes
unfolding fromhex_from
fromhex text = fromhex_from none text

unfoldable pub big_endian : ℕ → ℕ → Bytes
big_endian zero n = []
big_endian (suc width) n = big_endian width (n / 256) ++ (n % 256) ∷ []

-- `to_bytes(width, "big", signed=False)`
unfoldable pub to_bytes : ℕ → ℤ → Result RecipeError Bytes
unfolding big_endian
to_bytes width (negsuc n) = err overflow
to_bytes width (pos n) = if ltb n (256 ^ width) then ok (big_endian width n) else err overflow

pub record RecipeChunk : Type 0 where
  pub order : ℤ
  pub chunk_hash : Text
  pub size : ℤ

abbrev pub recipe_hash_domain : Bytes
recipe_hash_domain = codes "stopan.recipe.v1" ++ 0 ∷ []

-- What one round of the loop adds to the message.
unfoldable pub chunk_bytes : RecipeChunk → Result RecipeError Bytes
unfolding to_bytes fromhex
chunk_bytes c = do
  order ← to_bytes 4 c.order
  raw_hash ← fromhex c.chunk_hash
  size ← to_bytes 8 c.size
  ok (order ++ (raw_hash ++ size))

unfoldable pub chunks_bytes : List RecipeChunk → Result RecipeError Bytes
unfolding chunk_bytes
chunks_bytes [] = ok []
chunks_bytes (c ∷ chunks) = do first ← chunk_bytes c; rest ← chunks_bytes chunks; ok (first ++ rest)

unfoldable pub recipe_message : List RecipeChunk → Result RecipeError Bytes
unfolding chunks_bytes
recipe_message chunks = do body ← chunks_bytes chunks; ok (recipe_hash_domain ++ body)

unfoldable pub compute_recipe_hash : (Bytes → Text) → List RecipeChunk → Result RecipeError Text
unfolding recipe_message
compute_recipe_hash hexdigest chunks = do message ← recipe_message chunks; ok (hexdigest message)
