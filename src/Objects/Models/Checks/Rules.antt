-- ===== src/Objects/Models/Checks/Rules.antt =====
-- The postconditions of the shared checks as rules for the steps of a `do` block.
use stopan.Prelude.{
  ◌>>◌, ℕ, ltb, ◌≡◌, Bool, true, false, not, Option, Text, Result, ◌>>=◌, raise_if, Ensures,
  returned, Ensures->>=, Ensures-raise_if, Ensures-any,
}
use stopan.Objects.Json.{Value}
use stopan.Objects.Models.Checks.{
  ModelError, Numbers, require_str, require_int, Number, require_number, require_hash64,
  require_node_id, require_uuid, require_prefix, optional,
}
use stopan.Objects.Models.Checks.Laws.{
  not-eq-false, IsText, require_str-IsText, require_int-AtLeast, IsNumber, require_number-IsNumber,
  IsHash64, require_hash64-IsHash64, IsNodeId, require_node_id-IsNodeId, IsUuid,
  require_uuid-IsUuid, IsPrefix, require_prefix-IsPrefix, IsOptional, optional-IsOptional,
}

-- The rules by which `search` proves that a constructor lets only valid fields through.
module _ {A : Type 0} {P : A → Type 0} where
  pub Ensures-require_int :
      (m : ℕ) (v : Value) {next : ℕ → Result ModelError A}
      → ((n : ℕ) → ltb n m ≡ false → Ensures P (next n))
      → Ensures P (require_int m v >>= next)
  Ensures-require_int m v h = Ensures->>= (require_int-AtLeast m v) h

  pub Ensures-require_str :
      (b : Bool) (v : Value) {next : Text → Result ModelError A}
      → ((t : Text) → IsText b t → Ensures P (next t))
      → Ensures P (require_str b v >>= next)
  Ensures-require_str b v h = Ensures->>= (require_str-IsText b v) h

  pub Ensures-require_hash64 :
      (v : Value) {next : Text → Result ModelError A}
      → ((t : Text) → IsHash64 t → Ensures P (next t))
      → Ensures P (require_hash64 v >>= next)
  Ensures-require_hash64 v h = Ensures->>= (require_hash64-IsHash64 v) h

  pub Ensures-require_node_id :
      (v : Value) {next : Text → Result ModelError A}
      → ((t : Text) → IsNodeId t → Ensures P (next t))
      → Ensures P (require_node_id v >>= next)
  Ensures-require_node_id v h = Ensures->>= (require_node_id-IsNodeId v) h

  pub Ensures-optional_str :
      (v : Value) {next : Option Text → Result ModelError A}
      → ((o : Option Text) → Ensures P (next o))
      → Ensures P (optional (require_str true) v >>= next)
  Ensures-optional_str v h = Ensures->>= (Ensures-any (optional (require_str true) v)) λ o _. h o

  pub Ensures-optional_number :
      (numbers : Numbers) (v : Value) {next : Option Number → Result ModelError A}
      → ((o : Option Number) → IsOptional (IsNumber numbers true) o → Ensures P (next o))
      → Ensures P (optional (require_number numbers true) v >>= next)
  Ensures-optional_number numbers v h =
      Ensures->>=
        (optional-IsOptional (require_number numbers true) (require_number-IsNumber numbers true) v)
        h

  pub Ensures-require_number :
      (numbers : Numbers) (b : Bool) (v : Value) {next : Number → Result ModelError A}
      → ((n : Number) → IsNumber numbers b n → Ensures P (next n))
      → Ensures P (require_number numbers b v >>= next)
  Ensures-require_number numbers b v h = Ensures->>= (require_number-IsNumber numbers b v) h

  pub Ensures-require_uuid :
      (v : Value) {next : Text → Result ModelError A}
      → ((t : Text) → IsUuid t → Ensures P (next t))
      → Ensures P (require_uuid v >>= next)
  Ensures-require_uuid v h = Ensures->>= (require_uuid-IsUuid v) h

  pub Ensures-require_prefix :
      (v : Value) {next : Text → Result ModelError A}
      → ((t : Text) → IsPrefix t → Ensures P (next t))
      → Ensures P (require_prefix v >>= next)
  Ensures-require_prefix v h = Ensures->>= (require_prefix-IsPrefix v) h

  pub Ensures-require :
      (c : Bool) (e : ModelError) {next : Result ModelError A}
      → (c ≡ true → Ensures P next)
      → Ensures P (raise_if (not c) e >> next)
  Ensures-require c e h = Ensures-raise_if (not c) e λ k. h (not-eq-false c k)

pub ruleset ensures_rules = (
  Ensures-require_int, Ensures-require_str, Ensures-require_hash64, Ensures-require_node_id,
  Ensures-require_uuid, Ensures-require_prefix, Ensures-require_number, Ensures-optional_str,
  Ensures-optional_number, Ensures-require, Ensures-raise_if, returned,
)
