-- ===== src/Erasure/Models.antt =====
-- protection/ec/models.py and the hash checks of common/hashes.py.
-- Sizes, offsets and indexes are natural numbers, so the checks for a wrong type or a negative
-- number have nothing to reject. The BLAKE3 hexadecimal digest is a parameter.
pub mod Hashes
use stopan.Prelude.{
  ℕ, zero, suc, ◌+◌, ◌*◌, ltb, leb, ◌==◌, Bool, true, false, not, ◌&&◌, ◌||◌, List, [], ◌∷◌,
  if◌then◌else◌, length, all, Result, ok, err, ◌>>=◌, ◌>>◌, raise_if, Text, Bytes, codes, text_eq,
  strip,
}
use stopan.Sorting.{sort_by}

pub data EcError : Type 0 where
  invalid_hash hash_mismatch not_positive too_many_shards unsupported_codec : EcError
  padded_size_mismatch payload_exceeds_padded wrong_shard_count : EcError
  entry_order entry_gap entries_incomplete : EcError
  shard_of_other_pack shard_index_out_of_range shard_index_repeated shard_size_mismatch : EcError
  zip_length too_few_shards pack_hash_mismatch chunk_hash_mismatch empty_pack would_exceed_target :
      EcError
  empty_node_id empty_address empty_origin unknown_origin too_few_nodes repeated_node : EcError

abbrev pub blake3_hex_length : ℕ
blake3_hex_length = 64

unfoldable pub is_hex_lower : ℕ → Bool
is_hex_lower c = (leb b'0' c && leb c b'9') || (leb b'a' c && leb c b'f')

unfoldable pub is_valid_blake3_hex : Text → Bool
unfolding is_hex_lower
is_valid_blake3_hex value = length value == blake3_hex_length && all is_hex_lower value

unfoldable pub require_hash64 : Text → Result EcError Text
unfolding is_valid_blake3_hex strip
require_hash64 value =
    let text = strip value in do raise_if (not (is_valid_blake3_hex text)) invalid_hash; ok text

abbrev pub require_positive_int : ℕ → Result EcError ℕ
require_positive_int n = do raise_if (leb n 0) not_positive; ok n

pub record ErasureSpec : Type 0 where
  pub data_shards : ℕ
  pub parity_shards : ℕ
  pub codec : Text

abbrev pub total_shards : ErasureSpec → ℕ
total_shards spec = spec.data_shards + spec.parity_shards

-- `ErasureSpec(...)` with its `__post_init__`; so for the other records.
unfoldable pub make_spec : ℕ → ℕ → Text → Result EcError ErasureSpec
unfolding text_eq
make_spec data_shards parity_shards codec = do
  k ← require_positive_int data_shards
  raise_if (ltb 256 (k + parity_shards)) too_many_shards
  raise_if (not (text_eq codec (codes "zfec"))) unsupported_codec
  ok (record { data_shards = k; parity_shards = parity_shards; codec = codec })

pub record DataPackEntry : Type 0 where
  pub chunk_hash : Text
  pub offset : ℕ
  pub length : ℕ
  pub ordinal : ℕ

unfoldable pub make_entry : Text → ℕ → ℕ → ℕ → Result EcError DataPackEntry
unfolding require_hash64
make_entry chunk_hash offset size ordinal = do
  h ← require_hash64 chunk_hash
  n ← require_positive_int size
  ok (record { chunk_hash = h; offset = offset; length = n; ordinal = ordinal })

pub record DataPackShard : Type 0 where
  pub pack_hash : Text
  pub shard_index : ℕ
  pub bytes : Bytes
  pub shard_hash : Text

module _ (hash_bytes : Bytes → Text) where
  unfoldable pub make_shard : Text → ℕ → Bytes → Text → Result EcError DataPackShard
  unfolding require_hash64 text_eq
  make_shard pack_hash shard_index bytes shard_hash = do
    p ← require_hash64 pack_hash
    h ← require_hash64 shard_hash
    raise_if (not (text_eq (hash_bytes bytes) h)) hash_mismatch
    ok (record { pack_hash = p; shard_index = shard_index; bytes = bytes; shard_hash = shard_hash })

-- `DataPackShard._from_prehashed`
unfoldable pub from_prehashed : Text → ℕ → Bytes → Text → Result EcError DataPackShard
unfolding require_hash64
from_prehashed pack_hash shard_index bytes shard_hash = do
  p ← require_hash64 pack_hash
  h ← require_hash64 shard_hash
  ok (record { pack_hash = p; shard_index = shard_index; bytes = bytes; shard_hash = h })

-- `x in seen` for a set of indexes
unfoldable pub seen_index : ℕ → List ℕ → Bool
seen_index i [] = false
seen_index i (j ∷ js) = i == j || seen_index i js

pub record EncodedDataPack : Type 0 where
  pub pack_hash : Text
  pub payload_size : ℕ
  pub padded_size : ℕ
  pub shard_size : ℕ
  pub spec : ErasureSpec
  pub entries : List DataPackEntry
  pub shards : List DataPackShard

-- The loop over the entries; it returns the end of the last one.
unfoldable pub check_entries : ℕ → ℕ → List DataPackEntry → Result EcError ℕ
check_entries ordinal previous_end [] = ok previous_end
check_entries ordinal previous_end (e ∷ es) = do
  raise_if (not (e.ordinal == ordinal)) entry_order
  raise_if (not (e.offset == previous_end)) entry_gap
  check_entries (ordinal + 1) (e.offset + e.length) es

-- The loop over the shards.
unfoldable pub check_shards :
    Text → ErasureSpec → ℕ → List ℕ → List DataPackShard → Result EcError (Unit {0})
unfolding text_eq seen_index
check_shards pack_hash spec shard_size seen [] = ok tt
check_shards pack_hash spec shard_size seen (s ∷ ss) = do
  raise_if (not (text_eq s.pack_hash pack_hash)) shard_of_other_pack
  raise_if (leb (total_shards spec) s.shard_index) shard_index_out_of_range
  raise_if (seen_index s.shard_index seen) shard_index_repeated
  raise_if (not (length s.bytes == shard_size)) shard_size_mismatch
  check_shards pack_hash spec shard_size (s.shard_index ∷ seen) ss

-- The order of `sorted(shards, key=lambda item: item.shard_index)`, which is stable.
abbrev pub index_le : DataPackShard → DataPackShard → Bool
index_le s t = leb s.shard_index t.shard_index

unfoldable pub make_encoded : EncodedDataPack → Result EcError EncodedDataPack
unfolding require_hash64 check_entries check_shards sort_by
make_encoded pack = do
  h ← require_hash64 pack.pack_hash
  raise_if (not (pack.padded_size == pack.shard_size * pack.spec.data_shards)) padded_size_mismatch
  raise_if (ltb pack.padded_size pack.payload_size) payload_exceeds_padded
  raise_if (not (length pack.shards == total_shards pack.spec)) wrong_shard_count
  covered ← check_entries 0 0 pack.entries
  raise_if (not (covered == pack.payload_size)) entries_incomplete
  check_shards h pack.spec pack.shard_size [] pack.shards
  ok (record pack { pack_hash = h; shards = sort_by index_le pack.shards })
