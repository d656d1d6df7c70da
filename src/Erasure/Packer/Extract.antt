-- ===== src/Erasure/Packer/Extract.antt =====
-- `extract_pack_chunks` of protection/ec/packer.py.
use mathlib.Core.List.{append_assoc}
use stopan.Prelude.{
  ℕ, ◌+◌, ◌-◌, ◌≡◌, refl, sym, subst, ◌∙◌, inl, inr, List, [], ◌∷◌, ◌++◌, Option, none, some, arith,
  length, All, ok, >>=-eq-ok, Text, Bytes, text_eq, text_eq_iff, Dict, lookup, insert,
  length-append, take-append, drop-append, Bool-cases,
}
use stopan.Erasure.Models.{DataPackEntry}
use stopan.Erasure.Codec.{slice}
use stopan.Erasure.Packer.{
  Chunk, payload_of, DataPackManifest, skips, extract_loop, wanted_set, extract_pack_chunks,
}
use stopan.Erasure.Packer.Build.{contiguous}

-- The dictionary of the chunks, where a later chunk with the same hash overwrites an earlier one.
unfoldable pub chunk_dict : List Chunk → Dict Bytes → Dict Bytes
unfolding insert text_eq
chunk_dict [] d = d
chunk_dict ((h, bytes) ∷ chunks) d = chunk_dict chunks (insert h bytes d)

-- A chunk whose hash is the digest of its bytes.
abbrev pub IsHashed : (Bytes → Text) → Chunk → Type 0
IsHashed hash_bytes c = hash_bytes c.1 ≡ c.0

slice_middle :
    (pre bytes rest : Bytes)
    → slice (pre ++ (bytes ++ rest)) (length pre) (length pre + length bytes) ≡ bytes
slice_middle pre bytes rest =
    let n : length pre + length bytes - length pre ≡ length bytes = omega arith in
    rw (n, drop-append pre (bytes ++ rest)) (take-append bytes rest)

module _ (hash_bytes : Bytes → Text) where
  pub extract_loop-contiguous :
      (payload pre : Bytes) (ordinal : ℕ) (chunks : List Chunk) (d : Dict Bytes)
      → payload ≡ pre ++ payload_of chunks
      → All (IsHashed hash_bytes) chunks
      → extract_loop hash_bytes payload none (contiguous ordinal (length pre) chunks) d
        ≡ ok (chunk_dict chunks d)
  unfolding extract_loop skips chunk_dict
  extract_loop-contiguous payload pre ordinal [] d e a = refl
  extract_loop-contiguous payload pre ordinal ((h, bytes) ∷ chunks) d e a =
      let cut : slice payload (length pre) (length pre + length bytes) ≡ bytes =
        rw e (slice_middle pre bytes (payload_of chunks)) in
      rw (cut, (text_eq_iff (hash_bytes bytes) h).1 a.0, ← length-append)
        (extract_loop-contiguous payload (pre ++ bytes) (ordinal + 1) chunks (insert h bytes d)
          (e ∙ sym (append_assoc pre bytes (payload_of chunks))) a.1)

  All-insert :
      (h : Text) (bytes : Bytes) (d : Dict Bytes)
      → hash_bytes bytes ≡ h
      → All (IsHashed hash_bytes) d
      → All (IsHashed hash_bytes) (insert h bytes d)
  unfolding insert
  All-insert h bytes [] e a = (e, tt)
  All-insert h bytes ((j, w) ∷ d) e a = elim (Bool-cases (text_eq j h)) [
    | inl same ↦ rw same (e ∙ sym ((text_eq_iff j h).0 same), a.1)
    | inr other ↦ rw other (a.0, All-insert h bytes d e a.1)
  ]

  extract_loop-IsHashed :
      (payload : Bytes) (wanted : Option (List Text)) (es : List DataPackEntry) (d : Dict Bytes)
      {r : Dict Bytes}
      → All (IsHashed hash_bytes) d
      → extract_loop hash_bytes payload wanted es d ≡ ok r
      → All (IsHashed hash_bytes) r
  unfolding extract_loop
  extract_loop-IsHashed payload wanted [] d a e = subst (All (IsHashed hash_bytes)) (ground arith) a
  extract_loop-IsHashed payload wanted (x ∷ es) d a e =
      elim (Bool-cases (skips wanted x.chunk_hash)) [
        | inl skip ↦ extract_loop-IsHashed payload wanted es d a (ground arith)
        | inr keep ↦
            elim (Bool-cases
              (text_eq (hash_bytes (slice payload x.offset (x.offset + x.length))) x.chunk_hash)) [
                | inl good ↦
                    extract_loop-IsHashed payload wanted es _
                      (All-insert x.chunk_hash _ d ((text_eq_iff _ _).0 good) a) (ground arith)
                | inr bad ↦ absurd (ground arith)
              ]
      ]

  lookup-IsHashed :
      (d : Dict Bytes) (h : Text) (bytes : Bytes)
      → All (IsHashed hash_bytes) d
      → lookup h d ≡ some bytes
      → hash_bytes bytes ≡ h
  unfolding lookup
  lookup-IsHashed [] h bytes a e = cc
  lookup-IsHashed ((j, w) ∷ d) h bytes a e =
      ground (arith, lookup-IsHashed d h bytes a.1, text_eq_iff j h, a.0)

  -- Whatever the payload and the manifest hold, each chunk that is returned has the digest under
  -- which it is returned.
  pub extract_pack_chunks-hash :
      (payload : Bytes) (m : DataPackManifest) (wanted : Option (List Text)) (d : Dict Bytes)
      (h : Text) (bytes : Bytes)
      → extract_pack_chunks hash_bytes payload m wanted ≡ ok d
      → lookup h d ≡ some bytes
      → hash_bytes bytes ≡ h
  unfolding extract_pack_chunks
  extract_pack_chunks-hash payload m wanted d h bytes e found =
      let (w, _, extracted) =
        >>=-eq-ok (wanted_set wanted) (λ x. extract_loop hash_bytes payload x m.entries []) e in
      lookup-IsHashed d h bytes (extract_loop-IsHashed payload w m.entries [] tt extracted) found
