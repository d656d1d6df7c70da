-- ===== src/Erasure/Models/Hashes.antt =====
-- `require_hash64` of protection/ec/models.py on canonical digests.
use mathlib.Core.List.{reverse-append}
use stopan.Prelude.{
  ℕ, ◌≡◌, refl, Bool, true, false, List, [], ◌∷◌, ◌++◌, reverse, arith, all, ok, Text, is_space,
  StartsClean, IsClean, strip-IsClean,
}
use stopan.Erasure.Models.{is_hex_lower, is_valid_blake3_hex, require_hash64}

all-append :
    (p : ℕ → Bool) (xs ys : List ℕ) → all p xs ≡ true → all p ys ≡ true → all p (xs ++ ys) ≡ true
all-append p [] ys h k = k
all-append p (x ∷ xs) ys h k = ground (arith, all-append p xs ys)

all-reverse : (p : ℕ → Bool) (xs : List ℕ) → all p xs ≡ true → all p (reverse xs) ≡ true
all-reverse p [] h = refl
all-reverse p (x ∷ xs) h =
    rw (reverse-append (x ∷ []) xs)
      (all-append p (reverse xs) (x ∷ []) (all-reverse p xs (ground arith)) (ground arith))

not_space : (c : ℕ) → is_hex_lower c ≡ true → is_space c ≡ false
unfolding is_hex_lower
not_space c h = ground arith

hex-StartsClean : (t : Text) → all is_hex_lower t ≡ true → StartsClean t
hex-StartsClean [] h = tt
hex-StartsClean (c ∷ cs) h = not_space c (ground arith)

pub hex-IsClean : (t : Text) → all is_hex_lower t ≡ true → IsClean t
hex-IsClean t h = (hex-StartsClean t h, hex-StartsClean (reverse t) (all-reverse is_hex_lower t h))

-- A valid digest is returned as it is.
pub require_hash64-valid : (t : Text) → is_valid_blake3_hex t ≡ true → require_hash64 t ≡ ok t
unfolding require_hash64
require_hash64-valid t h = rw (strip-IsClean t (hex-IsClean t (all_hex t h)), h)
  where
    all_hex : (t : Text) → is_valid_blake3_hex t ≡ true → all is_hex_lower t ≡ true
    all_hex t h = ground arith
