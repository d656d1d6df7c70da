-- ===== src/Erasure/Codec/Shards.antt =====
-- `encode` of protection/ec/codec.py: the shards that it makes.
use native.Mathlib.Nat.{zero-add}
use stopan.Prelude.{
  ℕ, zero, suc, ◌+◌, ◌<◌, ◌≡◌, refl, true, List, [], ◌∷◌, arith, length, take, join, All, get_elem?,
  some, ok, Text, Bytes,
}
use stopan.Erasure.Models.{
  ErasureSpec, total_shards, DataPackShard, from_prehashed, is_valid_blake3_hex,
}
use stopan.Erasure.Models.Hashes.{require_hash64-valid}
use stopan.Erasure.Codec.{
  range_from, range, encode_loop, encode, split_primary_blocks, shard_size_for,
}
use stopan.Erasure.Codec.Blocks.{split_primary_blocks_lem}
use stopan.Erasure.Codec.Contract.{IsDigest, Encoder, IsErasureCode}

-- A shard of the pack whose raw shards are given.
pub record IsGenuine (hash_bytes : Bytes → Text) (pack_hash : Text) (n : ℕ) (raws : List Bytes)
    (s : DataPackShard) : Type 0 where
  pub of_pack : s.pack_hash ≡ pack_hash
  pub in_range : s.shard_index < n
  pub content : get_elem? raws s.shard_index ≡ some s.bytes
  pub hashed : s.shard_hash ≡ hash_bytes s.bytes

-- What zfec returns for the blocks of a payload.
abbrev pub RawsOf : Encoder → ErasureSpec → Bytes → List Bytes → Type 0
RawsOf zfec_encode spec payload raws =
    (blocks : List Bytes) × (raws
      ≡ zfec_encode spec.data_shards (total_shards spec) blocks (range (total_shards spec)))
    × (length blocks ≡ spec.data_shards)
    × All (λ b. length b ≡ shard_size_for (length payload) spec.data_shards) blocks
    × (take (length payload) (join blocks) ≡ payload)

module _ (hash_bytes : Bytes → Text) where
  -- The shards from index `i` on, in the order of their indexes.
  abbrev pub shards_from : Text → ℕ → List Bytes → List DataPackShard
  shards_from p i [] = []
  shards_from p i (b ∷ bs) =
      record { pack_hash = p; shard_index = i; bytes = b; shard_hash = hash_bytes b }
      ∷ shards_from p (suc i) bs

module _ (hash_bytes : Bytes → Text) (digest : IsDigest hash_bytes) (zfec_encode : Encoder) where
  from_prehashed_lem :
      (p : Text) (i : ℕ) (b : Bytes)
      → is_valid_blake3_hex p ≡ true
      → from_prehashed p i b (hash_bytes b)
        ≡ ok (record { pack_hash = p; shard_index = i; bytes = b; shard_hash = hash_bytes b })
  unfolding from_prehashed
  from_prehashed_lem p i b v =
      rw (require_hash64-valid p v, require_hash64-valid (hash_bytes b) (digest b))

  encode_loop_lem :
      (p : Text) (size i n : ℕ) (raws : List Bytes)
      → is_valid_blake3_hex p ≡ true
      → length raws ≡ n
      → All (λ b. length b ≡ size) raws
      → encode_loop hash_bytes zfec_encode p size (range_from i n) raws
        ≡ ok (shards_from hash_bytes p i raws)
  unfolding encode_loop
  encode_loop_lem p size i zero [] v e h = refl
  encode_loop_lem p size i zero (b ∷ bs) v e h = absurd (omega arith)
  encode_loop_lem p size i (suc n) [] v e h = absurd (omega arith)
  encode_loop_lem p size i (suc n) (b ∷ bs) v e h =
      rw (from_prehashed_lem p i b v, encode_loop_lem p size (suc i) n bs v (omega arith) h.1)
        (ground arith)

  shards_from-IsGenuine :
      (p : Text) (n : ℕ) (raws : List Bytes) (i : ℕ) (bs : List Bytes)
      → i + length bs ≡ n
      → ((j : ℕ) (b : Bytes) → get_elem? bs j ≡ some b → get_elem? raws (i + j) ≡ some b)
      → All (IsGenuine hash_bytes p n raws) (shards_from hash_bytes p i bs)
  shards_from-IsGenuine p n raws i [] e h = tt
  shards_from-IsGenuine p n raws i (b ∷ bs) e h = (
    record {
      of_pack = refl;
      in_range = omega arith;
      content = let z : i + 0 ≡ i = omega arith in rw z at (h 0 b refl);
      hashed = refl;
    },
    shards_from-IsGenuine p n raws (suc i) bs (omega arith)
        (λ j c q. let z : i + suc j ≡ suc i + j = omega arith in rw z at (h (suc j) c q)),
  )

  -- Encoding a payload succeeds, with one genuine shard of the same size for each of the N indexes.
  pub encode_lem :
      (zfec_decode : Encoder) (pack_hash : Text) (payload : Bytes) (spec : ErasureSpec)
      → is_valid_blake3_hex pack_hash ≡ true
      → 0 < spec.data_shards
      → IsErasureCode zfec_encode zfec_decode spec.data_shards (total_shards spec)
      → (raws : List Bytes) × (shards : List DataPackShard) × (encode hash_bytes zfec_encode
            pack_hash payload spec
          ≡ ok shards)
        × RawsOf zfec_encode spec payload raws
        × (length raws ≡ total_shards spec)
        × All (IsGenuine hash_bytes pack_hash (total_shards spec) raws) shards
        × (shards ≡ shards_from hash_bytes pack_hash 0 raws)
        × All (λ b. length b ≡ shard_size_for (length payload) spec.data_shards) raws
  encode_lem zfec_decode pack_hash payload spec v pos code =
      let size = shard_size_for (length payload) spec.data_shards in
      let (blocks, split, count, size_pos, sized, joined) =
        split_primary_blocks_lem payload spec.data_shards pos in
      let raws =
        zfec_encode spec.data_shards (total_shards spec) blocks (range (total_shards spec)) in
      let n_raws = code.count blocks size count sized in
      let sized_raws = code.sizes blocks size count sized in
      (
        raws,
        shards_from hash_bytes pack_hash 0 raws,
        encoded blocks size split n_raws sized_raws,
        (blocks, refl, count, sized, joined),
        n_raws,
        shards_from-IsGenuine pack_hash _ raws 0 raws (omega (arith, n_raws))
            (λ j b q. rw zero-add q),
        refl,
        sized_raws,
      )
    where
      encoded :
          (blocks : List Bytes) (size : ℕ)
          → split_primary_blocks payload spec.data_shards ≡ ok (blocks, size)
          → length
              (zfec_encode spec.data_shards (total_shards spec) blocks (range (total_shards spec)))
            ≡ total_shards spec
          → All
              (λ b. length b ≡ size)
              (zfec_encode spec.data_shards (total_shards spec) blocks (range (total_shards spec)))
          → encode hash_bytes zfec_encode pack_hash payload spec
            ≡ ok (
                shards_from hash_bytes pack_hash 0 (
                  zfec_encode spec.data_shards
                    (total_shards spec)
                    blocks
                    (range (total_shards spec))))
      encoded blocks size split n_raws sized =
          unfold encode in
          rw split (encode_loop_lem pack_hash size 0 (total_shards spec) _ v n_raws sized)
