-- ===== src/Objects/Models/Checks/Laws.antt =====
-- The lemmas on the shared checks.
use stopan.Prelude.{
  ℕ, suc, sym, ltb, ◌==◌, ◌≡◌, refl, Bool, true, false, not, ◌&&◌, [], ◌∷◌, Option, none, some,
  length, Text, Result, ok, err, ◌>>=◌, ◌>>◌, raise_if, arith, Ensures, raised, returned,
  Ensures->>=, Ensures-raise_if, if-cases,
}
use stopan.Protection.{pos, negsuc}
use stopan.Objects.Json.{Value, null, boolean, integer, real, string, array, object}
use stopan.Objects.Models.Checks.{
  ModelError, Numbers, Number, whole, decimal, is_below_zero, require_str, require_int,
  require_number, is_hex_of, is_uuid, require_hash64, require_node_id, require_uuid, require_prefix,
  optional, is_null,
}

pub not-eq-false : (b : Bool) → not b ≡ false → b ≡ true
not-eq-false true h = refl
not-eq-false false h = cc

abbrev pub IsFilled : Text → Type 0
IsFilled text = (length text == 0) ≡ false

abbrev pub IsText : Bool → Text → Type 0
IsText allow_empty text = (not allow_empty && length text == 0) ≡ false

pub require_str-IsText : (b : Bool) (v : Value) → Ensures (IsText b) (require_str b v)
unfolding require_str
require_str-IsText b (string text) =
    Ensures-raise_if (not b && length text == 0) _ (λ h. returned h)
require_str-IsText b null = raised
require_str-IsText b (boolean x) = raised
require_str-IsText b (integer x) = raised
require_str-IsText b (real x) = raised
require_str-IsText b (array x) = raised
require_str-IsText b (object x) = raised

pub require_str-string :
    (b : Bool) (text : Text) → IsText b text → require_str b (string text) ≡ ok text
unfolding require_str
require_str-string b text h = rw h refl

pub require_int-AtLeast : (m : ℕ) (v : Value) → Ensures (λ n. ltb n m ≡ false) (require_int m v)
unfolding require_int
require_int-AtLeast m (integer (pos n)) = Ensures-raise_if (ltb n m) _ (λ h. returned h)
require_int-AtLeast m (integer (negsuc n)) = raised
require_int-AtLeast m null = raised
require_int-AtLeast m (boolean x) = raised
require_int-AtLeast m (real x) = raised
require_int-AtLeast m (string x) = raised
require_int-AtLeast m (array x) = raised
require_int-AtLeast m (object x) = raised

pub require_int-pos : (m n : ℕ) → ltb n m ≡ false → require_int m (integer (pos n)) ≡ ok n
unfolding require_int
require_int-pos m n h = rw h refl

abbrev pub IsNumber : Numbers → Bool → Number → Type 0
IsNumber numbers from_zero (whole z) =
    (numbers.fits z ≡ true) × ((from_zero && is_below_zero z) ≡ false)
IsNumber numbers from_zero (decimal text) =
    (numbers.is_finite text ≡ true) × ((from_zero && numbers.is_negative text) ≡ false)

abbrev pub number_value : Number → Value
number_value (whole z) = integer z
number_value (decimal text) = real text

pub require_number-IsNumber :
    (numbers : Numbers) (b : Bool) (v : Value)
    → Ensures (IsNumber numbers b) (require_number numbers b v)
unfolding require_number
require_number-IsNumber numbers b (integer z) =
    Ensures-raise_if (not (numbers.fits z)) _
      (λ f. Ensures-raise_if (b && is_below_zero z) _ (λ h. returned (not-eq-false _ f, h)))
require_number-IsNumber numbers b (real text) =
    Ensures-raise_if (not (numbers.is_finite text)) _ (λ f.
      Ensures-raise_if (b && numbers.is_negative text) _ (λ h. returned (not-eq-false _ f, h)))
require_number-IsNumber numbers b null = raised
require_number-IsNumber numbers b (boolean x) = raised
require_number-IsNumber numbers b (string x) = raised
require_number-IsNumber numbers b (array x) = raised
require_number-IsNumber numbers b (object x) = raised

pub require_number-value :
    (numbers : Numbers) (b : Bool) (n : Number)
    → IsNumber numbers b n
    → require_number numbers b (number_value n) ≡ ok n
unfolding require_number
require_number-value numbers b (whole z) (f, h) = rw (f, h) refl
require_number-value numbers b (decimal text) (f, h) = rw (f, h) refl

-- The four checks of a text against a pattern.
module _ (matches : Text → Bool) (e : ModelError) where
  pub Ensures-matches :
      (v : Value)
      → Ensures
          (λ text. matches text ≡ true)
          (require_str false v >>= λ text. (raise_if (not (matches text)) e >> ok text))
  Ensures-matches v =
      Ensures->>= (require_str-IsText false v)
        λ text _. Ensures-raise_if (not (matches text)) _ λ h. returned (not-eq-false _ h)

hex-IsFilled : (n : ℕ) (text : Text) → is_hex_of (suc n) text ≡ true → IsText false text
unfolding is_hex_of
hex-IsFilled n text h = ground arith

suc_is_filled : (n : ℕ) → (suc n == 0) ≡ false
suc_is_filled n = ground arith

uuid-IsFilled : (text : Text) → is_uuid text ≡ true → IsText false text
unfolding is_uuid
uuid-IsFilled [] h = sym h
uuid-IsFilled (c ∷ text) h = suc_is_filled (length text)

abbrev pub IsHash64 : Text → Type 0
IsHash64 text = is_hex_of 64 text ≡ true

pub require_hash64-IsHash64 : (v : Value) → Ensures IsHash64 (require_hash64 v)
unfolding require_hash64
require_hash64-IsHash64 = Ensures-matches (is_hex_of 64) ModelError.not_hash64

pub require_hash64-string : (t : Text) → IsHash64 t → require_hash64 (string t) ≡ ok t
unfolding require_hash64
require_hash64-string t h = rw (require_str-string false t (hex-IsFilled 63 t h), h) refl

abbrev pub IsNodeId : Text → Type 0
IsNodeId text = is_hex_of 32 text ≡ true

pub require_node_id-IsNodeId : (v : Value) → Ensures IsNodeId (require_node_id v)
unfolding require_node_id
require_node_id-IsNodeId = Ensures-matches (is_hex_of 32) ModelError.not_node_id

pub require_node_id-string : (t : Text) → IsNodeId t → require_node_id (string t) ≡ ok t
unfolding require_node_id
require_node_id-string t h = rw (require_str-string false t (hex-IsFilled 31 t h), h) refl

abbrev pub IsUuid : Text → Type 0
IsUuid text = is_uuid text ≡ true

pub require_uuid-IsUuid : (v : Value) → Ensures IsUuid (require_uuid v)
unfolding require_uuid
require_uuid-IsUuid = Ensures-matches is_uuid ModelError.not_uuid

pub require_uuid-string : (t : Text) → IsUuid t → require_uuid (string t) ≡ ok t
unfolding require_uuid
require_uuid-string t h = rw (require_str-string false t (uuid-IsFilled t h), h) refl

abbrev pub IsPrefix : Text → Type 0
IsPrefix text = is_hex_of 2 text ≡ true

pub require_prefix-IsPrefix : (v : Value) → Ensures IsPrefix (require_prefix v)
unfolding require_prefix
require_prefix-IsPrefix = Ensures-matches (is_hex_of 2) ModelError.not_prefix

pub require_prefix-string : (t : Text) → IsPrefix t → require_prefix (string t) ≡ ok t
unfolding require_prefix
require_prefix-string t h = rw (require_str-string false t (hex-IsFilled 1 t h), h) refl

-- A value that may be missing.
abbrev pub IsOptional : {A : Type 0} → (A → Type 0) → Option A → Type 0
IsOptional P none = Unit
IsOptional P (some a) = P a

abbrev pub optional_value : {A : Type 0} → (A → Value) → Option A → Value
optional_value write none = null
optional_value write (some a) = write a

pub optional-IsOptional :
    {A : Type 0} {P : A → Type 0} (check : Value → Result ModelError A)
    → ((v : Value) → Ensures P (check v))
    → (v : Value) → Ensures (IsOptional P) (optional check v)
unfolding optional
optional-IsOptional {P = P} check sound v =
    if-cases (Ensures {E = ModelError} (IsOptional P)) (is_null v) (λ _. returned tt)
      (λ _. Ensures->>= (sound v) λ a p. returned p)

pub optional-optional_value :
    {A : Type 0} {P : A → Type 0} (check : Value → Result ModelError A) (write : A → Value)
    → ((a : A) → is_null (write a) ≡ false)
    → ((a : A) → P a → check (write a) ≡ ok a)
    → (o : Option A) → IsOptional P o
    → optional check (optional_value write o) ≡ ok o
unfolding optional
optional-optional_value check write there back none p = refl
optional-optional_value check write there back (some a) p = rw (there a, back a p) refl

pub optional-string :
    (o : Option Text) → optional (require_str true) (optional_value string o) ≡ ok o
unfolding optional
optional-string none = refl
optional-string (some text) = rw (require_str-string true text refl) refl

number_is_there : (n : Number) → is_null (number_value n) ≡ false
number_is_there (whole z) = refl
number_is_there (decimal text) = refl

pub optional-number_value :
    (numbers : Numbers) (o : Option Number)
    → IsOptional (IsNumber numbers true) o
    → optional (require_number numbers true) (optional_value number_value o) ≡ ok o
optional-number_value numbers =
    optional-optional_value (require_number numbers true) number_value number_is_there
      (require_number-value numbers true)

pub Ensures-check :
    {A : Type 0} {P : A → Type 0} (first : Result ModelError (Unit {0}))
    {next : Result ModelError A}
    → (first ≡ ok tt → Ensures P next)
    → Ensures P (first >> next)
Ensures-check (err e) h = raised
Ensures-check (ok tt) h = h refl

pub at_least_zero : (n : ℕ) → require_int 0 (integer (pos n)) ≡ ok n
at_least_zero n = require_int-pos 0 n (ground arith)
