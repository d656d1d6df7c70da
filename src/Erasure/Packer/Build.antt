-- ===== src/Erasure/Packer/Build.antt =====
-- The pack that protection/ec/packer.py builds, and the checks of its constructor.
use native.Mathlib.Nat.{add_assoc, zero-add}
use stopan.Prelude.{
  ℕ, suc, ◌+◌, ◌-◌, ◌*◌, ◌/◌, ◌≤◌, ◌<◌, max, ◌≡◌, ◌≢◌, refl, ap, ◌∙◌, true, false, List, [], ◌∷◌,
  arith, length, All, ok, Text, Bytes, text_eq_iff, length-append,
}
use stopan.Sorting.{sort_by, length-sort_by, All-sort_by}
use stopan.Erasure.Models.{
  ErasureSpec, total_shards, DataPackEntry, make_entry, DataPackShard, EncodedDataPack,
  make_encoded, check_entries, check_shards, index_le, seen_index, is_valid_blake3_hex,
}
use stopan.Erasure.Models.Hashes.{require_hash64-valid}
use stopan.Erasure.Codec.{encode, shard_size_for}
use stopan.Erasure.Codec.Blocks.{shard_size_covers}
use stopan.Erasure.Codec.Contract.{IsDigest, Encoder, IsErasureCode}
use stopan.Erasure.Codec.Shards.{IsGenuine, RawsOf, shards_from, encode_lem}
use stopan.Erasure.Packer.{Chunk, payload_of, entries_from, build_from_validated}

-- A chunk that can be packed: its hash is canonical and it has content.
abbrev pub IsPackable : Chunk → Type 0
IsPackable c = (is_valid_blake3_hex c.0 ≡ true) × (0 < length c.1)

-- Entries one after another, from the given ordinal and offset.
abbrev pub contiguous : ℕ → ℕ → List Chunk → List DataPackEntry
contiguous ordinal offset [] = []
contiguous ordinal offset ((h, bytes) ∷ chunks) =
    record { chunk_hash = h; offset = offset; length = length bytes; ordinal = ordinal }
    ∷ contiguous (ordinal + 1) (offset + length bytes) chunks

pub entries_from-contiguous :
    (ordinal offset : ℕ) (chunks : List Chunk)
    → All IsPackable chunks
    → entries_from ordinal offset chunks ≡ ok (contiguous ordinal offset chunks)
unfolding entries_from
entries_from-contiguous ordinal offset [] a = refl
entries_from-contiguous ordinal offset ((h, bytes) ∷ chunks) a =
    rw (entry, entries_from-contiguous (ordinal + 1) (offset + length bytes) chunks a.1)
  where
    entry :
        make_entry h offset (length bytes) ordinal
        ≡ ok (record { chunk_hash = h; offset = offset; length = length bytes; ordinal = ordinal })
    entry = rw (make_entry, require_hash64-valid h a.0.0) (ground (arith, a.0.1))

check_entries-contiguous :
    (ordinal offset : ℕ) (chunks : List Chunk)
    → check_entries ordinal offset (contiguous ordinal offset chunks)
      ≡ ok (offset + length (payload_of chunks))
unfolding check_entries
check_entries-contiguous ordinal offset [] = let z : offset + 0 ≡ offset = omega arith in rw z
check_entries-contiguous ordinal offset ((h, bytes) ∷ chunks) =
    rw (length-append bytes (payload_of chunks), ← add_assoc)
      (ground (arith, check_entries-contiguous (ordinal + 1) (offset + length bytes) chunks))

module _ (hash_bytes : Bytes → Text) (p : Text) (spec : ErasureSpec) (size : ℕ) where
  not_seen : (i : ℕ) (seen : List ℕ) → All (λ j. j < i) seen → seen_index i seen ≡ false
  unfolding seen_index
  not_seen i [] a = refl
  not_seen i (j ∷ seen) a = ground (arith, not_seen i seen a.1)

  later : (i : ℕ) (seen : List ℕ) → All (λ j. j < i) seen → All (λ j. j < suc i) seen
  later i [] a = tt
  later i (j ∷ seen) a = (omega arith, later i seen a.1)

  check_shards-shards_from :
      (seen : List ℕ) (i : ℕ) (raws : List Bytes)
      → All (λ j. j < i) seen
      → i + length raws ≡ total_shards spec
      → All (λ b. length b ≡ size) raws
      → check_shards p spec size seen (shards_from hash_bytes p i raws) ≡ ok tt
  unfolding check_shards
  check_shards-shards_from seen i [] old e h = refl
  check_shards-shards_from seen i (b ∷ raws) old e h =
      rw ((text_eq_iff p p).1 refl, not_seen i seen old)
        (ground (
          arith,
          h.0,
          check_shards-shards_from (i ∷ seen) (suc i) raws (omega arith, later i seen old)
              (omega arith) h.1,
        ))

  length-shards_from :
      (i : ℕ) (raws : List Bytes) → length (shards_from hash_bytes p i raws) ≡ length raws
  length-shards_from i [] = refl
  length-shards_from i (b ∷ raws) = ap suc (length-shards_from (suc i) raws)

-- The pack of the chunks: its header, its entries in order, and one genuine shard for each index.
pub record IsPackOf (hash_bytes : Bytes → Text) (zfec_encode : Encoder) (chunks : List Chunk)
    (spec : ErasureSpec) (raws : List Bytes) (pack : EncodedDataPack) : Type 0 where
  pub hashed : pack.pack_hash ≡ hash_bytes (payload_of chunks)
  pub sized : pack.payload_size ≡ length (payload_of chunks)
  pub padded : pack.padded_size ≡ pack.shard_size * spec.data_shards
  pub of_spec : pack.spec ≡ spec
  pub covered : pack.entries ≡ contiguous 0 0 chunks
  pub count : length pack.shards ≡ total_shards spec
  pub raws_of : RawsOf zfec_encode spec (payload_of chunks) raws
  pub genuine :
      All
        (IsGenuine hash_bytes (hash_bytes (payload_of chunks)) (total_shards spec) raws)
        pack.shards

module _ (hash_bytes : Bytes → Text) (digest : IsDigest hash_bytes)
    (zfec_encode zfec_decode : Encoder) where
  shard_size_eq : (size k : ℕ) → max ((size + k - 1) / k) 1 ≡ shard_size_for size k
  unfolding shard_size_for
  shard_size_eq size k = ground arith

  payload_fits : (size k : ℕ) → 0 < k → size ≤ shard_size_for size k * k
  payload_fits = shard_size_covers

  abbrev built :
      (p : Text) → Bytes → ErasureSpec → List DataPackEntry → List DataPackShard → EncodedDataPack
  built p payload spec entries shards = record {
    pack_hash = p;
    payload_size = length payload;
    padded_size = shard_size_for (length payload) spec.data_shards * spec.data_shards;
    shard_size = shard_size_for (length payload) spec.data_shards;
    spec = spec;
    entries = entries;
    shards = shards;
  }

  make_encoded-built :
      (chunks : List Chunk) (spec : ErasureSpec) (raws : List Bytes)
      → 0 < spec.data_shards
      → length raws ≡ total_shards spec
      → All (λ b. length b ≡ shard_size_for (length (payload_of chunks)) spec.data_shards) raws
      → let p = hash_bytes (payload_of chunks) in
        let shards = shards_from hash_bytes p 0 raws in
        make_encoded (built p (payload_of chunks) spec (contiguous 0 0 chunks) shards)
        ≡ ok (built p (payload_of chunks) spec (contiguous 0 0 chunks) (sort_by index_le shards))
  unfolding make_encoded
  make_encoded-built chunks spec raws pos count sized =
      let p = hash_bytes (payload_of chunks) in
      let n = length-shards_from hash_bytes p spec 0 0 raws ∙ count in
      rw
        (
          require_hash64-valid p (digest (payload_of chunks)),
          n,
          check_entries-contiguous 0 0 chunks,
          zero-add (length (payload_of chunks)),
          check_shards-shards_from hash_bytes p spec _ [] 0 raws tt (omega (arith, count)) sized,
        )
        (ground (arith, payload_fits (length (payload_of chunks)) spec.data_shards pos))

  build_step :
      (c : Chunk) (cs : List Chunk) (spec : ErasureSpec) (entries : List DataPackEntry)
      (shards : List DataPackShard)
      → entries_from 0 0 (c ∷ cs) ≡ ok entries
      → encode hash_bytes zfec_encode (hash_bytes (payload_of (c ∷ cs))) (payload_of (c ∷ cs)) spec
        ≡ ok shards
      → build_from_validated hash_bytes zfec_encode (c ∷ cs) spec
        ≡ make_encoded
            (built (hash_bytes (payload_of (c ∷ cs))) (payload_of (c ∷ cs)) spec entries shards)
  unfolding build_from_validated
  build_step c cs spec entries shards e f =
      rw (e, f, shard_size_eq (length (payload_of (c ∷ cs))) spec.data_shards)

  -- If the digest has its canonical form and zfec is a code for K and N, where K is positive: one
  -- or more chunks with canonical hashes and content are packed without error, into a pack that
  -- is theirs.
  pub build_from_validated_lem :
      (chunks : List Chunk) (spec : ErasureSpec)
      → chunks ≢ []
      → All IsPackable chunks
      → 0 < spec.data_shards
      → IsErasureCode zfec_encode zfec_decode spec.data_shards (total_shards spec)
      → (raws : List Bytes) × (pack : EncodedDataPack) × (build_from_validated hash_bytes
            zfec_encode chunks spec
          ≡ ok pack)
        × IsPackOf hash_bytes zfec_encode chunks spec raws pack
  build_from_validated_lem [] spec some_chunk packable pos code = absurd (some_chunk refl)
  build_from_validated_lem (c ∷ cs) spec some_chunk packable pos code =
      let chunks = c ∷ cs in
      let p = hash_bytes (payload_of chunks) in
      let (raws, shards, encoded, raws_of, n_raws, genuine, from, sized) =
        encode_lem hash_bytes digest zfec_encode zfec_decode p (payload_of chunks) spec
          (digest (payload_of chunks)) pos code in
      (
        raws,
        built p (payload_of chunks) spec (contiguous 0 0 chunks) (sort_by index_le shards),
        built_ok shards raws encoded from n_raws sized,
        record {
          hashed = refl;
          sized = refl;
          padded = refl;
          of_spec = refl;
          covered = refl;
          count =
              length-sort_by index_le shards
              ∙ ap length from
              ∙ length-shards_from hash_bytes p spec 0 0 raws
              ∙ n_raws;
          raws_of = raws_of;
          genuine = All-sort_by index_le _ shards genuine;
        },
      )
    where
      chunks' : List Chunk
      chunks' = c ∷ cs

      built_ok :
          (shards : List DataPackShard) (raws : List Bytes)
          → encode hash_bytes zfec_encode
              (hash_bytes (payload_of chunks'))
              (payload_of chunks')
              spec
            ≡ ok shards
          → shards ≡ shards_from hash_bytes (hash_bytes (payload_of chunks')) 0 raws
          → length raws ≡ total_shards spec
          → All (λ b. length b ≡ shard_size_for (length (payload_of chunks')) spec.data_shards) raws
          → build_from_validated hash_bytes zfec_encode chunks' spec
            ≡ ok (
                built
                  (hash_bytes (payload_of chunks'))
                  (payload_of chunks')
                  spec
                  (contiguous 0 0 chunks')
                  (sort_by index_le shards))
      built_ok shards raws e from n sized =
          build_step c cs spec _ shards (entries_from-contiguous 0 0 chunks' packable) e
          ∙ rw from (make_encoded-built chunks' spec raws pos n sized)
