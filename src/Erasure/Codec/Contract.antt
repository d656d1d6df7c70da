-- ===== src/Erasure/Codec/Contract.antt =====
-- What the adapter relies on: the digest's form, and zfec as a code that any K shards determine.
use stopan.Prelude.{ℕ, ◌<◌, ◌≡◌, true, List, [], ◌∷◌, some, length, get_elem?, All, Text, Bytes}
use stopan.Erasure.Models.{is_valid_blake3_hex}
use stopan.Erasure.Codec.{range}

abbrev pub IsDigest : (Bytes → Text) → Type 0
IsDigest hash_bytes = (b : Bytes) → is_valid_blake3_hex (hash_bytes b) ≡ true

-- Each index is below the next.
abbrev pub IsIncreasing : List ℕ → Type 0
IsIncreasing [] = Unit
IsIncreasing (i ∷ is) = All (λ j. i < j) is × IsIncreasing is

-- `got` are the blocks of `raws` at the indexes.
abbrev pub Picks : List Bytes → List ℕ → List Bytes → Type 0
Picks raws [] [] = Unit
Picks raws [] (b ∷ bs) = ⊥
Picks raws (i ∷ is) [] = ⊥
Picks raws (i ∷ is) (b ∷ bs) = (get_elem? raws i ≡ some b) × Picks raws is bs

abbrev pub Encoder : Type 0
Encoder = ℕ → ℕ → List Bytes → List ℕ → List Bytes

-- zfec for K blocks of one size and N shards: N shards of that size, any K of which, given in the
-- order of their indexes, decode to the blocks.
pub record IsErasureCode (zfec_encode zfec_decode : Encoder) (k n : ℕ) : Type 0 where
  pub count :
      (blocks : List Bytes) (size : ℕ)
      → length blocks ≡ k
      → All (λ b. length b ≡ size) blocks
      → length (zfec_encode k n blocks (range n)) ≡ n
  pub sizes :
      (blocks : List Bytes) (size : ℕ)
      → length blocks ≡ k
      → All (λ b. length b ≡ size) blocks
      → All (λ b. length b ≡ size) (zfec_encode k n blocks (range n))
  pub recovers :
      (blocks : List Bytes) (size : ℕ) (indexes : List ℕ) (got : List Bytes)
      → length blocks ≡ k
      → All (λ b. length b ≡ size) blocks
      → IsIncreasing indexes
      → length indexes ≡ k
      → Picks (zfec_encode k n blocks (range n)) indexes got
      → zfec_decode k n got indexes ≡ blocks
