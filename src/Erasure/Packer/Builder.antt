-- ===== src/Erasure/Packer/Builder.antt =====
-- `DataPackBuilder` of protection/ec/packer.py: the open pack.
use stopan.Prelude.{
  ℕ, ◌+◌, ◌≤◌, ltb, leb, ◌≡◌, refl, ◌⊎◌, inl, inr, Bool, true, false, not, ◌&&◌, List, [], ◌∷◌,
  ◌++◌, Option, arith, length, ok, err, Text, Bytes, length-append, Bool-cases,
}
use stopan.Erasure.Models.{would_exceed_target, ErasureSpec, EncodedDataPack}
use stopan.Erasure.Codec.Contract.{Encoder}
use stopan.Erasure.Packer.{
  Chunk, payload_of, DataPackBuilder, make_builder, is_empty, would_exceed, append_validated, flush,
}

pub record IsOpen (b : DataPackBuilder) : Type 0 where
  pub sized : b.current_size ≡ length (payload_of b.chunks)
  pub bounded : (length b.chunks ≤ 1) ⊎ (b.current_size ≤ b.target_size_bytes)

length-payload_of :
    (cs : List Chunk) (c : Chunk)
    → length (payload_of (cs ++ c ∷ [])) ≡ length (payload_of cs) + length c.1
length-payload_of [] c = rw (length-append c.1 []) (omega arith)
length-payload_of (d ∷ cs) c =
    rw
      (
        length-append d.1 (payload_of (cs ++ c ∷ [])),
        length-append d.1 (payload_of cs),
        length-payload_of cs c,
      )
      (omega arith)

-- A new builder is open, and holds nothing.
pub make_builder-IsOpen :
    (spec : ErasureSpec) (target : ℕ) (b : DataPackBuilder)
    → make_builder spec target ≡ ok b
    → IsOpen b
unfolding make_builder
make_builder-IsOpen spec target b e = record { sized = ground arith; bounded = ground arith }

appended : DataPackBuilder → Text → Bytes → DataPackBuilder
appended b h bytes = record b {
  chunks = b.chunks ++ (h, bytes) ∷ [];
  current_size = b.current_size + length bytes;
}

fits_or_first :
    (cs : List Chunk) (c : Chunk) (current target : ℕ)
    → (not (is_empty cs) && ltb target (current + length c.1)) ≡ false
    → (length (cs ++ c ∷ []) ≤ 1) ⊎ (current + length c.1 ≤ target)
fits_or_first [] c current target e = inl (omega arith)
fits_or_first (d ∷ cs) c current target e = inr (ground arith)

append_validated-fits :
    (b : DataPackBuilder) (h : Text) (bytes : Bytes)
    → would_exceed b (length bytes) ≡ false
    → append_validated b h bytes
      ≡ ok (appended b h bytes, leb b.target_size_bytes (b.current_size + length bytes))
unfolding append_validated appended
append_validated-fits b h bytes e = rw e

append_validated-exceeds :
    (b : DataPackBuilder) (h : Text) (bytes : Bytes)
    → would_exceed b (length bytes) ≡ true
    → append_validated b h bytes ≡ err would_exceed_target
unfolding append_validated
append_validated-exceeds b h bytes e = rw e

appended-IsOpen :
    (b : DataPackBuilder) (h : Text) (bytes : Bytes)
    → would_exceed b (length bytes) ≡ false
    → IsOpen b
    → IsOpen (appended b h bytes)
unfolding would_exceed appended
appended-IsOpen b h bytes e v = record {
  sized = rw (length-payload_of b.chunks (h, bytes), v.sized);
  bounded = fits_or_first b.chunks (h, bytes) b.current_size b.target_size_bytes e;
}

-- A chunk that is added to an open pack without error extends it by itself, keeps it within the
-- target unless it is the only chunk, and reports whether the target is reached; the settings
-- stay.
pub append_validated-IsOpen :
    (b b' : DataPackBuilder) (h : Text) (bytes : Bytes) (full : Bool)
    → IsOpen b
    → append_validated b h bytes ≡ ok (b', full)
    → IsOpen b'
      × (b'.chunks ≡ b.chunks ++ (h, bytes) ∷ [])
      × (b'.spec ≡ b.spec)
      × (b'.target_size_bytes ≡ b.target_size_bytes)
      × (full ≡ leb b.target_size_bytes b'.current_size)
unfolding appended
append_validated-IsOpen b b' h bytes full v e = elim (Bool-cases (would_exceed b (length bytes))) [
  | inl over ↦ cc (append_validated-exceeds b h bytes over)
  | inr fits ↦
      let done = append_validated-fits b h bytes fits in
      let same : b' ≡ appended b h bytes = cc in
      let flag : full ≡ leb b.target_size_bytes (b.current_size + length bytes) = cc in
      rw same (appended-IsOpen b h bytes fits v, refl, refl, refl, flag)
]

is_empty-eq-nil : (cs : List Chunk) → is_empty cs ≡ true → cs ≡ []
is_empty-eq-nil [] e = refl
is_empty-eq-nil (c ∷ cs) e = cc

chunks-flush :
    (hash_bytes : Bytes → Text) (zfec_encode : Encoder) (b b' : DataPackBuilder)
    (pack : Option EncodedDataPack)
    → flush hash_bytes zfec_encode b ≡ ok (pack, b')
    → b'.chunks ≡ []
unfolding flush
chunks-flush hash_bytes zfec_encode b b' pack e = ground (arith, is_empty-eq-nil b.chunks)

-- After a flush that succeeds nothing is held, and any chunk can be added, however large.
append_validated-flush :
    (hash_bytes : Bytes → Text) (zfec_encode : Encoder) (b b' : DataPackBuilder)
    (pack : Option EncodedDataPack) (h : Text) (bytes : Bytes)
    → flush hash_bytes zfec_encode b ≡ ok (pack, b')
    → (b'.chunks ≡ [])
      × (append_validated b' h bytes
          ≡ ok (
            record b' { chunks = (h, bytes) ∷ []; current_size = b'.current_size + length bytes },
            leb b'.target_size_bytes (b'.current_size + length bytes),
          ))
append_validated-flush hash_bytes zfec_encode b b' pack h bytes e =
    let none_held = chunks-flush hash_bytes zfec_encode b b' pack e in
    (none_held, append_empty b' h bytes none_held)
  where
    append_empty :
        (b : DataPackBuilder) (h : Text) (bytes : Bytes)
        → b.chunks ≡ []
        → append_validated b h bytes
          ≡ ok (
            record b { chunks = (h, bytes) ∷ []; current_size = b.current_size + length bytes },
            leb b.target_size_bytes (b.current_size + length bytes),
          )
    append_empty b h bytes e = unfold append_validated would_exceed in rw e
