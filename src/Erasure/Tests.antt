-- ===== src/Erasure/Tests.antt =====
-- The erasure coding of small packs: two blocks and their sum, under a digest that counts.
use stopan.Prelude.{
  ℕ, ◌+◌, ◌%◌, ltb, leb, ◌<◌, ◌≡◌, refl, List, [], ◌∷◌, ◌++◌, some, true, false, arith,
  if◌then◌else◌, length, replicate, take, join, All, Text, Bytes, codes, ok, Dict, lookup, text_eq,
  inl,
}
use stopan.Erasure.Models.{
  ErasureSpec, DataPackShard, EncodedDataPack, make_encoded, is_valid_blake3_hex, is_hex_lower,
}
use stopan.Erasure.Codec.{encode, decode, split_primary_blocks, shard_size_for}
use stopan.Erasure.Codec.Blocks.{split_primary_blocks_lem}
use stopan.Erasure.Codec.Contract.{IsDigest}
use stopan.Erasure.Codec.Shards.{IsGenuine, RawsOf}
use stopan.Erasure.Codec.Recovery.{decode_lem, decode-hash, IsDistinct}
use stopan.Erasure.Packer.{
  Chunk, payload_of, build_from_validated, entries_from, DataPackBuilder, make_builder,
  append_validated, extract_pack_chunks,
}
use stopan.Erasure.Packer.Build.{IsPackOf, IsPackable, build_from_validated_lem}
use stopan.Erasure.Packer.Extract.{extract_pack_chunks-hash, chunk_dict}
use stopan.Erasure.Packer.Recover.{
  manifest_of, AreShardsOf, recover_pack_chunks, recover_pack_chunks-build,
}
use stopan.Erasure.Packer.Builder.{IsOpen, make_builder-IsOpen, append_validated-IsOpen}
use stopan.Erasure.Parity.{parity_encode, parity_decode, parity-IsErasureCode}

-- 64 hexadecimal digits: the sum of the bytes, one `f` for each unit and as many `0` as remain.
abbrev sum_bytes : Bytes → ℕ
sum_bytes [] = 0
sum_bytes (b ∷ bs) = b + sum_bytes bs

abbrev digit_of : ℕ → ℕ
digit_of n = if ltb n 10 then b'0' + n else b'f'

abbrev toy_hash : Bytes → Text
toy_hash bs = digit_of (sum_bytes bs % 10) ∷ digit_of (length bs) ∷ replicate 62 b'0'

digit_of-hex : (n : ℕ) → is_hex_lower (digit_of n) ≡ true
unfolding is_hex_lower
digit_of-hex n = ground arith

toy-IsDigest : IsDigest toy_hash
unfolding is_valid_blake3_hex
toy-IsDigest bs = rw (digit_of-hex (sum_bytes bs % 10), digit_of-hex (length bs)) refl

abbrev spec : ErasureSpec
spec = record { data_shards = 2; parity_shards = 1; codec = codes "zfec" }

abbrev first_chunk : Chunk
first_chunk = (toy_hash (1 ∷ 2 ∷ 3 ∷ []), 1 ∷ 2 ∷ 3 ∷ [])

abbrev second_chunk : Chunk
second_chunk = (toy_hash (5 ∷ 7 ∷ []), 5 ∷ 7 ∷ [])

abbrev chunks : List Chunk
chunks = first_chunk ∷ second_chunk ∷ []

abbrev shard_at : ℕ → Bytes → DataPackShard
shard_at i bytes = record {
  pack_hash = toy_hash (payload_of chunks);
  shard_index = i;
  bytes = bytes;
  shard_hash = toy_hash bytes;
}

abbrev shard_1 : DataPackShard
shard_1 = shard_at 1 (5 ∷ 7 ∷ 92 ∷ [])

abbrev shard_2 : DataPackShard
shard_2 = shard_at 2 (6 ∷ 9 ∷ 95 ∷ [])

abbrev three_shards : List DataPackShard
three_shards = shard_at 0 (1 ∷ 2 ∷ 3 ∷ []) ∷ shard_1 ∷ shard_2 ∷ []

-- The pack of the chunks, its shards included.
abbrev pack : EncodedDataPack
pack = record {
  pack_hash = toy_hash (payload_of chunks);
  payload_size = 5;
  padded_size = 6;
  shard_size = 3;
  spec = spec;
  entries =
      record { chunk_hash = first_chunk.0; offset = 0; length = 3; ordinal = 0 }
      ∷ record { chunk_hash = second_chunk.0; offset = 3; length = 2; ordinal = 1 }
      ∷ [];
  shards = three_shards;
}

built : build_from_validated toy_hash parity_encode chunks spec ≡ ok pack
unfolding build_from_validated encode split_primary_blocks entries_from make_encoded
built = refl

-- What the chunks of the pack are restored to.
abbrev restored : Dict Bytes
restored = first_chunk ∷ second_chunk ∷ []

abbrev two_shards : List DataPackShard
two_shards = shard_2 ∷ shard_1 ∷ []

shards_of_pack : AreShardsOf pack two_shards
shards_of_pack = ((2, refl), ((1, refl), tt))

different : IsDistinct two_shards
different = (((λ e. cc e), tt), (tt, tt))

packable : All IsPackable chunks
unfolding is_valid_blake3_hex is_hex_lower
packable = ((refl, omega arith), ((refl, omega arith), tt))

-- Without its first shard and with the others out of order.
recover_pack_chunks-build_example :
    recover_pack_chunks toy_hash parity_decode (manifest_of pack) two_shards
    ≡ ok (chunk_dict chunks [])
recover_pack_chunks-build_example =
    recover_pack_chunks-build toy_hash toy-IsDigest parity_encode parity_decode chunks spec pack
      two_shards (omega arith) parity-IsErasureCode (refl, (refl, tt))
      (omega arith, (omega arith, tt)) built shards_of_pack different (omega arith)

build_from_validated_lem_example :
    (raws : List Bytes) × (pack : EncodedDataPack) × (build_from_validated toy_hash parity_encode
        chunks spec
      ≡ ok pack)
    × IsPackOf toy_hash parity_encode chunks spec raws pack
build_from_validated_lem_example =
    build_from_validated_lem toy_hash toy-IsDigest parity_encode parity_decode chunks spec
      (λ e. cc e) packable (omega arith) parity-IsErasureCode

wanted_second :
    extract_pack_chunks toy_hash (payload_of chunks) (manifest_of pack) (some (second_chunk.0 ∷ []))
    ≡ ok (second_chunk ∷ [])
unfolding extract_pack_chunks
wanted_second = refl

extract_pack_chunks-hash_example : toy_hash second_chunk.1 ≡ second_chunk.0
unfolding lookup text_eq
extract_pack_chunks-hash_example =
    extract_pack_chunks-hash toy_hash (payload_of chunks) (manifest_of pack)
      (some (second_chunk.0 ∷ [])) (second_chunk ∷ []) second_chunk.0 second_chunk.1 wanted_second
      refl

split_primary_blocks_lem_example :
    (blocks : List Bytes) × (split_primary_blocks (payload_of chunks) 2
      ≡ ok (blocks, shard_size_for 5 2))
    × (length blocks ≡ 2)
    × (0 < shard_size_for 5 2)
    × All (λ b. length b ≡ shard_size_for 5 2) blocks
    × (take 5 (join blocks) ≡ payload_of chunks)
split_primary_blocks_lem_example = split_primary_blocks_lem (payload_of chunks) 2 (omega arith)

abbrev raws : List Bytes
raws = (1 ∷ 2 ∷ 3 ∷ []) ∷ shard_1.bytes ∷ shard_2.bytes ∷ []

genuine : All (IsGenuine toy_hash (toy_hash (payload_of chunks)) 3 raws) two_shards
genuine = (
  record { of_pack = refl; in_range = omega arith; content = refl; hashed = refl },
  (record { of_pack = refl; in_range = omega arith; content = refl; hashed = refl }, tt),
)

raws_of : RawsOf parity_encode spec (payload_of chunks) raws
unfolding shard_size_for
raws_of = ((1 ∷ 2 ∷ 3 ∷ []) ∷ shard_1.bytes ∷ [], refl, refl, (refl, (refl, tt)), refl)

decode_lem_example :
    decode toy_hash parity_decode two_shards spec 5 (toy_hash (payload_of chunks))
    ≡ ok (payload_of chunks)
decode_lem_example =
    decode_lem toy_hash parity_decode (toy_hash (payload_of chunks)) spec raws parity_encode
      (payload_of chunks) two_shards parity-IsErasureCode raws_of refl genuine different
      (omega arith)

decoded :
    decode toy_hash parity_decode two_shards spec 5 (toy_hash (payload_of chunks))
    ≡ ok (payload_of chunks)
unfolding decode
decoded = refl

decode-hash_example : toy_hash (payload_of chunks) ≡ pack.pack_hash
decode-hash_example =
    decode-hash toy_hash parity_decode two_shards spec 5 (toy_hash (payload_of chunks))
      (payload_of chunks) decoded

-- A target of four bytes, with the first chunk in the pack.
abbrev open_pack : DataPackBuilder
open_pack = record {
  spec = spec;
  target_size_bytes = 4;
  chunks = first_chunk ∷ [];
  current_size = 3;
}

abbrev new_pack : DataPackBuilder
new_pack = record { spec = spec; target_size_bytes = 4; chunks = []; current_size = 0 }

new_pack-IsOpen : IsOpen new_pack
new_pack-IsOpen = record { sized = refl; bounded = inl (omega arith) }

make_builder-IsOpen_example : IsOpen new_pack
unfolding make_builder
make_builder-IsOpen_example = make_builder-IsOpen spec 4 new_pack refl

append_validated-IsOpen_example :
    IsOpen open_pack
    × (open_pack.chunks ≡ new_pack.chunks ++ first_chunk ∷ [])
    × (open_pack.spec ≡ new_pack.spec)
    × (open_pack.target_size_bytes ≡ new_pack.target_size_bytes)
    × (false ≡ leb 4 3)
unfolding append_validated
append_validated-IsOpen_example =
    append_validated-IsOpen new_pack open_pack first_chunk.0 first_chunk.1 false new_pack-IsOpen
      refl
