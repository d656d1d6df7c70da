-- ===== src/Erasure/Packer/Recover.antt =====
-- `_recover_pack_chunks` of restore/ec_fetch.py: from shards back to chunks.
use stopan.Prelude.{
  ℕ, ◌≤◌, ◌<◌, ◌≡◌, refl, subst, List, [], ◌∷◌, none, some, length, All, get_elem?, Result, ok, err,
  ◌>>=◌, Text, Bytes, Dict, All-map_from, All-get_elem?,
}
use stopan.Erasure.Models.{
  EcError, empty_pack, ErasureSpec, total_shards, DataPackShard, EncodedDataPack,
}
use stopan.Erasure.Codec.Contract.{IsDigest, Encoder, IsErasureCode}
use stopan.Erasure.Codec.Recovery.{IsDistinct, decode_lem}
use stopan.Erasure.Packer.{
  Chunk, payload_of, build_from_validated, DataPackManifest, reconstruct_payload,
  extract_pack_chunks,
}
use stopan.Erasure.Packer.Build.{IsPackable, IsPackOf, build_from_validated_lem}
use stopan.Erasure.Packer.Extract.{IsHashed, chunk_dict, extract_loop-contiguous}

-- The manifest that is kept of a pack.
abbrev pub manifest_of : EncodedDataPack → DataPackManifest
manifest_of pack = record {
  pack_hash = pack.pack_hash;
  payload_size = pack.payload_size;
  padded_size = pack.padded_size;
  shard_size = pack.shard_size;
  spec = pack.spec;
  entries = pack.entries;
}

-- Every shard of the list is one of the pack's.
abbrev pub AreShardsOf : EncodedDataPack → List DataPackShard → Type 0
AreShardsOf pack = All (λ s. (i : ℕ) × (get_elem? pack.shards i ≡ some s))

module _ (hash_bytes : Bytes → Text) (zfec_decode : Encoder) where
  -- restore/ec_fetch.py, `_recover_pack_chunks`, on the shards that it could fetch.
  unfoldable pub recover_pack_chunks :
      DataPackManifest → List DataPackShard → Result EcError (Dict Bytes)
  recover_pack_chunks m shards = do
    payload ← reconstruct_payload hash_bytes zfec_decode m shards
    extract_pack_chunks hash_bytes payload m none

module _ (hash_bytes : Bytes → Text) (digest : IsDigest hash_bytes)
    (zfec_encode zfec_decode : Encoder) where
  module _ (chunks : List Chunk) (spec : ErasureSpec) (raws : List Bytes) (pack : EncodedDataPack)
      (is_pack : IsPackOf hash_bytes zfec_encode chunks spec raws pack) where
    reconstructed :
        (available : List DataPackShard)
        → IsErasureCode zfec_encode zfec_decode spec.data_shards (total_shards spec)
        → AreShardsOf pack available
        → IsDistinct available
        → spec.data_shards ≤ length available
        → reconstruct_payload hash_bytes zfec_decode (manifest_of pack) available
          ≡ ok (payload_of chunks)
    unfolding reconstruct_payload
    reconstructed available code ours distinct enough =
        rw (is_pack.of_spec, is_pack.sized, is_pack.hashed)
          (decode_lem hash_bytes zfec_decode (hash_bytes (payload_of chunks)) spec raws zfec_encode
            (payload_of chunks) available code is_pack.raws_of refl
            (All-map_from _ available
              (λ s (i, at). All-get_elem? _ pack.shards i s is_pack.genuine at) ours)
            distinct enough)

    extracted :
        All (IsHashed hash_bytes) chunks
        → extract_pack_chunks hash_bytes (payload_of chunks) (manifest_of pack) none
          ≡ ok (chunk_dict chunks [])
    unfolding extract_pack_chunks
    extracted hashed =
        rw is_pack.covered
          (extract_loop-contiguous hash_bytes (payload_of chunks) [] 0 chunks [] refl hashed)

    restored :
        (available : List DataPackShard)
        → IsErasureCode zfec_encode zfec_decode spec.data_shards (total_shards spec)
        → All (IsHashed hash_bytes) chunks
        → AreShardsOf pack available
        → IsDistinct available
        → spec.data_shards ≤ length available
        → recover_pack_chunks hash_bytes zfec_decode (manifest_of pack) available
          ≡ ok (chunk_dict chunks [])
    unfolding recover_pack_chunks
    restored available code hashed ours distinct enough =
        rw (reconstructed available code ours distinct enough) (extracted hashed)

  -- A chunk that has content and whose hash is its digest can be packed.
  packable :
      (chunks : List Chunk)
      → All (IsHashed hash_bytes) chunks
      → All (λ c. 0 < length c.1) chunks
      → All IsPackable chunks
  packable [] hashed filled = tt
  packable (c ∷ cs) hashed filled =
      ((rw (← hashed.0) (digest c.1), filled.0), packable cs hashed.1 filled.1)

  no_empty_pack :
      (spec : ErasureSpec) → build_from_validated hash_bytes zfec_encode [] spec ≡ err empty_pack
  unfolding build_from_validated
  no_empty_pack spec = refl

  -- If the digest has its canonical form and zfec is a code for K and N, where K is positive: the
  -- chunks of a built pack, each with content and under its own digest, come back from any K or
  -- more of the pack's shards, whichever are lost and in whatever order the others arrive.
  pub recover_pack_chunks-build :
      (chunks : List Chunk) (spec : ErasureSpec) (pack : EncodedDataPack)
      (available : List DataPackShard)
      → 0 < spec.data_shards
      → IsErasureCode zfec_encode zfec_decode spec.data_shards (total_shards spec)
      → All (IsHashed hash_bytes) chunks
      → All (λ c. 0 < length c.1) chunks
      → build_from_validated hash_bytes zfec_encode chunks spec ≡ ok pack
      → AreShardsOf pack available
      → IsDistinct available
      → spec.data_shards ≤ length available
      → recover_pack_chunks hash_bytes zfec_decode (manifest_of pack) available
        ≡ ok (chunk_dict chunks [])
  recover_pack_chunks-build [] spec pack available pos code hashed filled built ours distinct
        enough =
      cc (no_empty_pack spec)
  recover_pack_chunks-build (c ∷ cs) spec pack available pos code hashed filled built ours distinct
        enough =
      let chunks = c ∷ cs in
      let (raws, pack', built', is_pack) =
        build_from_validated_lem hash_bytes digest zfec_encode zfec_decode chunks spec (λ e. cc e)
          (packable chunks hashed filled) pos code in
      let same : pack' ≡ pack = cc in
      restored chunks spec raws pack
        (subst (IsPackOf hash_bytes zfec_encode chunks spec raws) same is_pack) available code
        hashed ours distinct enough
