-- ===== src/Erasure/Codec.antt =====
-- protection/ec/codec.py: the adapter of zfec. zfec's encoder and decoder are parameters, applied
-- to K, N, the blocks and the indexes that the source passes to them; zfec is installed.
pub mod Blocks
pub mod Contract
pub mod Shards
pub mod Recovery
use stopan.Prelude.{
  ℕ, zero, suc, ◌+◌, ◌-◌, ◌*◌, ◌/◌, ltb, leb, ◌==◌, Bool, true, false, not, List, [], ◌∷◌, ◌++◌,
  map, if◌then◌else◌, length, take, drop, join, Result, ok, err, ◌>>=◌, ◌>>◌, raise_if, Text, Bytes,
  text_eq,
}
use stopan.Sorting.{sort_by}
use stopan.Erasure.Models.{
  EcError, zip_length, shard_of_other_pack, shard_index_out_of_range, shard_index_repeated,
  shard_size_mismatch, too_few_shards, pack_hash_mismatch, ErasureSpec, total_shards, DataPackShard,
  from_prehashed, index_le, seen_index, require_positive_int,
}

-- `xs[a:b]`
abbrev pub slice {ℓ} : {A : Type ℓ} → List A → ℕ → ℕ → List A
slice xs a b = take (b - a) (drop a xs)

-- The indexes `i` up to `i + n`.
abbrev pub range_from : ℕ → ℕ → List ℕ
range_from i zero = []
range_from i (suc n) = i ∷ range_from (suc i) n

abbrev pub range : ℕ → List ℕ
range n = range_from 0 n

-- `xs * n`
abbrev pub repeat {ℓ} : {A : Type ℓ} → List A → ℕ → List A
repeat xs zero = []
repeat xs (suc n) = xs ++ repeat xs n

-- The source writes `b"\\x00"`, which is not the zero byte but these four bytes.
abbrev pub padding : Bytes
padding = 0x5c ∷ b'x' ∷ b'0' ∷ b'0' ∷ []

unfoldable pub shard_size_for : ℕ → ℕ → ℕ
shard_size_for size k =
    let shard_size = (size + k - 1) / k in if shard_size == 0 then 1 else shard_size

unfoldable pub padded_payload : Bytes → ℕ → Bytes
padded_payload payload padded_size = payload ++ repeat padding (padded_size - length payload)

unfoldable pub split_primary_blocks : Bytes → ℕ → Result EcError (List Bytes × ℕ)
unfolding shard_size_for padded_payload
split_primary_blocks payload data_shards = do
  k ← require_positive_int data_shards
  let size = shard_size_for (length payload) k
  let padded = padded_payload payload (size * k)
  ok (map (λ index. slice padded (index * size) ((index + 1) * size)) (range k), size)

module _ (hash_bytes : Bytes → Text) (zfec_encode : ℕ → ℕ → List Bytes → List ℕ → List Bytes) where
  -- The loop over `zip(wanted_indexes, raw_shards, strict=True)`.
  unfoldable pub encode_loop : Text → ℕ → List ℕ → List Bytes → Result EcError (List DataPackShard)
  unfolding from_prehashed
  encode_loop pack_hash size [] [] = ok []
  encode_loop pack_hash size [] (raw ∷ raws) = err zip_length
  encode_loop pack_hash size (i ∷ is) [] = err zip_length
  encode_loop pack_hash size (i ∷ is) (raw ∷ raws) = do
    raise_if (not (length raw == size)) shard_size_mismatch
    shard ← from_prehashed pack_hash i raw (hash_bytes raw)
    shards ← encode_loop pack_hash size is raws
    ok (shard ∷ shards)

  unfoldable pub encode : Text → Bytes → ErasureSpec → Result EcError (List DataPackShard)
  unfolding split_primary_blocks encode_loop
  encode pack_hash payload spec = do
    split ← split_primary_blocks payload spec.data_shards
    let wanted = range (total_shards spec)
    encode_loop pack_hash split.1 wanted
        (zfec_encode spec.data_shards (total_shards spec) split.0 wanted)

module _ (hash_bytes : Bytes → Text) (zfec_decode : ℕ → ℕ → List Bytes → List ℕ → List Bytes) where
  -- The loop over the selected shards, which checks each of them.
  unfoldable pub decode_loop :
      ErasureSpec → Text → List ℕ → List DataPackShard → Result EcError (Unit {0})
  unfolding text_eq seen_index
  decode_loop spec expected seen [] = ok tt
  decode_loop spec expected seen (s ∷ ss) = do
    raise_if (not (text_eq s.pack_hash expected)) shard_of_other_pack
    raise_if (leb (total_shards spec) s.shard_index) shard_index_out_of_range
    raise_if (seen_index s.shard_index seen) shard_index_repeated
    decode_loop spec expected (s.shard_index ∷ seen) ss

  unfoldable pub decode : List DataPackShard → ErasureSpec → ℕ → Text → Result EcError Bytes
  unfolding decode_loop sort_by
  decode shards spec payload_size expected = do
    let selected = take spec.data_shards (sort_by index_le shards)
    raise_if (ltb (length selected) spec.data_shards) too_few_shards
    decode_loop spec expected [] selected
    let blocks =
        zfec_decode spec.data_shards (total_shards spec) (map (λ s. s.bytes) selected)
          (map (λ s. s.shard_index) selected)
    let payload = take payload_size (join blocks)
    raise_if (not (text_eq (hash_bytes payload) expected)) pack_hash_mismatch
    ok payload
