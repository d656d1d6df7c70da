-- ===== src/Erasure/Packer.antt =====
-- protection/ec/packer.py, with the record of protection/ec/manifest.py that it reads.
pub mod Build
pub mod Builder
pub mod Extract
pub mod Recover
use stopan.Prelude.{
  ℕ, zero, suc, ◌+◌, ◌-◌, ◌*◌, ◌/◌, ltb, leb, ◌==◌, Bool, true, false, not, ◌&&◌, List, [], ◌∷◌,
  ◌++◌, map, Option, none, some, if◌then◌else◌, length, take, drop, join, Result, ok, err, ◌>>=◌,
  ◌>>◌, raise_if, Text, Bytes, text_eq, contains, Dict, insert, max,
}
use stopan.Erasure.Models.{
  EcError, not_positive, empty_pack, would_exceed_target, chunk_hash_mismatch, padded_size_mismatch,
  require_hash64, ErasureSpec, DataPackEntry, make_entry, DataPackShard, EncodedDataPack,
  make_encoded,
}
use stopan.Erasure.Codec.{encode, decode, slice}

-- A chunk: its hash and its bytes.
abbrev pub Chunk : Type 0
Chunk = Text × Bytes

module _ (hash_bytes : Bytes → Text) where
  unfoldable pub validated_chunk_payload : Text → Bytes → Result EcError Chunk
  unfolding require_hash64 text_eq
  validated_chunk_payload chunk_hash bytes = do
    h ← require_hash64 chunk_hash
    raise_if (not (text_eq (hash_bytes bytes) h)) chunk_hash_mismatch
    ok (h, bytes)

-- The loop over the chunks: their entries, from the given ordinal and offset.
unfoldable pub entries_from : ℕ → ℕ → List Chunk → Result EcError (List DataPackEntry)
unfolding make_entry
entries_from ordinal offset [] = ok []
entries_from ordinal offset ((h, bytes) ∷ chunks) = do
  entry ← make_entry h offset (length bytes) ordinal
  entries ← entries_from (ordinal + 1) (offset + length bytes) chunks
  ok (entry ∷ entries)

-- `b"".join(payload_parts)`
abbrev pub payload_of : List Chunk → Bytes
payload_of chunks = join (map (λ c. c.1) chunks)

module _ (hash_bytes : Bytes → Text) (zfec_encode : ℕ → ℕ → List Bytes → List ℕ → List Bytes) where
  unfoldable pub build_from_validated : List Chunk → ErasureSpec → Result EcError EncodedDataPack
  build_from_validated [] spec = err empty_pack
  build_from_validated (c ∷ cs) spec = do
    entries ← entries_from 0 0 (c ∷ cs)
    let payload = payload_of (c ∷ cs)
    let pack_hash = hash_bytes payload
    let shard_size = max ((length payload + spec.data_shards - 1) / spec.data_shards) 1
    shards ← encode hash_bytes zfec_encode pack_hash payload spec
    make_encoded (record {
      pack_hash = pack_hash;
      payload_size = length payload;
      padded_size = shard_size * spec.data_shards;
      shard_size = shard_size;
      spec = spec;
      entries = entries;
      shards = shards;
    })

  unfoldable pub validate_chunks : List Chunk → Result EcError (List Chunk)
  unfolding validated_chunk_payload
  validate_chunks [] = ok []
  validate_chunks ((h, bytes) ∷ chunks) = do
    c ← validated_chunk_payload hash_bytes h bytes
    cs ← validate_chunks chunks
    ok (c ∷ cs)

  unfoldable pub build_data_pack : List Chunk → ErasureSpec → Result EcError EncodedDataPack
  unfolding validate_chunks build_from_validated
  build_data_pack chunks spec = do
    materialized ← validate_chunks chunks
    build_from_validated materialized spec

pub record DataPackBuilder : Type 0 where
  pub spec : ErasureSpec
  pub target_size_bytes : ℕ
  pub chunks : List Chunk
  pub current_size : ℕ

unfoldable pub make_builder : ErasureSpec → ℕ → Result EcError DataPackBuilder
make_builder spec target = do
  raise_if (leb target 0) not_positive
  ok (record { spec = spec; target_size_bytes = target; chunks = []; current_size = 0 })

abbrev pub is_empty : List Chunk → Bool
is_empty [] = true
is_empty (c ∷ cs) = false

unfoldable pub would_exceed : DataPackBuilder → ℕ → Bool
would_exceed b size = not (is_empty b.chunks) && ltb b.target_size_bytes (b.current_size + size)

-- `_append_validated_chunk`: the new builder, and whether the target is reached.
unfoldable pub append_validated :
    DataPackBuilder → Text → Bytes → Result EcError (DataPackBuilder × Bool)
unfolding would_exceed
append_validated b chunk_hash bytes = do
  raise_if (would_exceed b (length bytes)) would_exceed_target
  let size = b.current_size + length bytes
  ok (
    record b { chunks = b.chunks ++ (chunk_hash, bytes) ∷ []; current_size = size },
    leb b.target_size_bytes size,
  )

module _ (hash_bytes : Bytes → Text) (zfec_encode : ℕ → ℕ → List Bytes → List ℕ → List Bytes) where
  unfoldable pub add_chunk :
      DataPackBuilder → Text → Bytes → Result EcError (DataPackBuilder × Bool)
  unfolding validated_chunk_payload append_validated
  add_chunk b chunk_hash bytes = do
    c ← validated_chunk_payload hash_bytes chunk_hash bytes
    append_validated b c.0 c.1

  -- The pack, if there is one, and the emptied builder; a failed build leaves the builder alone.
  unfoldable pub flush : DataPackBuilder → Result EcError (Option EncodedDataPack × DataPackBuilder)
  unfolding build_from_validated
  flush b =
      let built = build_from_validated hash_bytes zfec_encode b.chunks b.spec in
      if is_empty b.chunks
      then ok (none, b)
      else (do pack ← built; ok (some pack, record b { chunks = []; current_size = 0 }))

pub record DataPackManifest : Type 0 where
  pub pack_hash : Text
  pub payload_size : ℕ
  pub padded_size : ℕ
  pub shard_size : ℕ
  pub spec : ErasureSpec
  pub entries : List DataPackEntry

unfoldable pub make_manifest : DataPackManifest → Result EcError DataPackManifest
unfolding require_hash64
make_manifest m = do
  h ← require_hash64 m.pack_hash
  raise_if (not (m.padded_size == m.shard_size * m.spec.data_shards)) padded_size_mismatch
  ok m

-- `wanted is not None and entry.chunk_hash not in wanted`
unfoldable pub skips : Option (List Text) → Text → Bool
unfolding contains text_eq
skips none h = false
skips (some wanted) h = not (contains h wanted)

unfoldable pub require_hashes : List Text → Result EcError (List Text)
unfolding require_hash64
require_hashes [] = ok []
require_hashes (h ∷ hs) = do x ← require_hash64 h; xs ← require_hashes hs; ok (x ∷ xs)

-- An empty set of wanted hashes is like none.
unfoldable pub wanted_set : Option (List Text) → Result EcError (Option (List Text))
unfolding require_hashes
wanted_set none = ok none
wanted_set (some []) = ok none
wanted_set (some (h ∷ hs)) = do xs ← require_hashes (h ∷ hs); ok (some xs)

module _ (hash_bytes : Bytes → Text) where
  unfoldable pub reconstruct_payload :
      (ℕ → ℕ → List Bytes → List ℕ → List Bytes)
      → DataPackManifest
      → List DataPackShard
      → Result EcError Bytes
  unfolding decode
  reconstruct_payload zfec_decode m shards =
      decode hash_bytes zfec_decode shards m.spec m.payload_size m.pack_hash

  unfoldable pub extract_loop :
      Bytes → Option (List Text) → List DataPackEntry → Dict Bytes → Result EcError (Dict Bytes)
  unfolding skips insert text_eq
  extract_loop payload wanted [] chunks = ok chunks
  extract_loop payload wanted (e ∷ es) chunks =
      let data' = slice payload e.offset (e.offset + e.length) in
      let passed = extract_loop payload wanted es chunks in
      let taken = (do
        raise_if (not (text_eq (hash_bytes data') e.chunk_hash)) chunk_hash_mismatch
        extract_loop payload wanted es (insert e.chunk_hash data' chunks)) in
      if skips wanted e.chunk_hash then passed else taken

  unfoldable pub extract_pack_chunks :
      Bytes → DataPackManifest → Option (List Text) → Result EcError (Dict Bytes)
  unfolding wanted_set extract_loop
  extract_pack_chunks payload m wanted_hashes = do
    wanted ← wanted_set wanted_hashes
    extract_loop payload wanted m.entries []
