-- ===== src/Erasure/Codec/Recovery.antt =====
-- `decode` of protection/ec/codec.py: the selected shards and the payload.
use stopan.Prelude.{
  ℕ, zero, suc, ◌≤◌, ◌<◌, ltb, leb, ◌≡◌, ◌≢◌, refl, sym, ◌∙◌, inl, inr, false, not, List, [], ◌∷◌,
  map, arith, length, take, join, All, ok, ◌>>◌, >>-eq-ok, raise_if, Text, Bytes, text_eq,
  text_eq_iff, Bool-cases, length-take, length-map, All-take,
}
use stopan.Sorting.{insert_by, sort_by, All-insert_by, All-sort_by, length-sort_by}
use stopan.Erasure.Models.{
  ErasureSpec, total_shards, DataPackShard, index_le, seen_index, pack_hash_mismatch,
}
use stopan.Erasure.Codec.{decode_loop, decode}
use stopan.Erasure.Codec.Contract.{Encoder, IsErasureCode, IsIncreasing, Picks}
use stopan.Erasure.Codec.Shards.{IsGenuine, RawsOf}

-- No two shards of the list have the same index.
abbrev pub IsDistinct : List DataPackShard → Type 0
IsDistinct [] = Unit
IsDistinct (s ∷ ss) = All (λ t. s.shard_index ≢ t.shard_index) ss × IsDistinct ss

-- The indexes of the list rise.
abbrev Rises : List DataPackShard → Type 0
Rises [] = Unit
Rises (s ∷ ss) = All (λ t. s.shard_index < t.shard_index) ss × Rises ss

All-lt_trans :
    (i : ℕ) (t : DataPackShard) (ss : List DataPackShard)
    → i < t.shard_index
    → All (λ u. t.shard_index < u.shard_index) ss
    → All (λ u. i < u.shard_index) ss
All-lt_trans i t [] h a = tt
All-lt_trans i t (u ∷ ss) h a = (omega arith, All-lt_trans i t ss h a.1)

Rises-insert_by :
    (s : DataPackShard) (ss : List DataPackShard)
    → All (λ t. s.shard_index ≢ t.shard_index) ss
    → Rises ss
    → Rises (insert_by index_le s ss)
unfolding insert_by
Rises-insert_by s [] new r = (tt, tt)
Rises-insert_by s (t ∷ ss) new r = elim (Bool-cases (leb s.shard_index t.shard_index)) [
  | inl e ↦
      let lt : s.shard_index < t.shard_index = ground arith in
      rw e ((lt, All-lt_trans s.shard_index t ss lt r.0), r)
  | inr e ↦ rw e (
    All-insert_by index_le (λ u. t.shard_index < u.shard_index) s ss (ground arith) r.0,
    Rises-insert_by s ss new.1 r.1,
  )
]

Rises-sort_by : (ss : List DataPackShard) → IsDistinct ss → Rises (sort_by index_le ss)
unfolding sort_by
Rises-sort_by [] d = tt
Rises-sort_by (s ∷ ss) d =
    Rises-insert_by s (sort_by index_le ss)
      (All-sort_by index_le (λ t. s.shard_index ≢ t.shard_index) ss d.0) (Rises-sort_by ss d.1)

Rises-take : (k : ℕ) (ss : List DataPackShard) → Rises ss → Rises (take k ss)
Rises-take zero ss r = tt
Rises-take (suc k) [] r = tt
Rises-take (suc k) (s ∷ ss) r = (All-take _ k ss r.0, Rises-take k ss r.1)

All-map_index :
    (i : ℕ) (ss : List DataPackShard)
    → All (λ t. i < t.shard_index) ss
    → All (λ j. i < j) (map (λ t. t.shard_index) ss)
All-map_index i [] a = tt
All-map_index i (s ∷ ss) a = (a.0, All-map_index i ss a.1)

IsIncreasing-map : (ss : List DataPackShard) → Rises ss → IsIncreasing (map (λ s. s.shard_index) ss)
IsIncreasing-map [] r = tt
IsIncreasing-map (s ∷ ss) r = (All-map_index s.shard_index ss r.0, IsIncreasing-map ss r.1)

module _ (hash_bytes : Bytes → Text) (zfec_decode : Encoder) (p : Text) (spec : ErasureSpec)
    (raws : List Bytes) where
  Picks-map :
      (ss : List DataPackShard)
      → All (IsGenuine hash_bytes p (total_shards spec) raws) ss
      → Picks raws (map (λ s. s.shard_index) ss) (map (λ s. s.bytes) ss)
  Picks-map [] g = tt
  Picks-map (s ∷ ss) g = (g.0.content, Picks-map ss g.1)

  unseen :
      (i : ℕ) (seen : List ℕ) (ss : List DataPackShard)
      → All (λ t. i < t.shard_index) ss
      → All (λ t. seen_index t.shard_index seen ≡ false) ss
      → All (λ t. seen_index t.shard_index (i ∷ seen) ≡ false) ss
  unfolding seen_index
  unseen i seen [] a b = tt
  unseen i seen (t ∷ ss) a b = (ground arith, unseen i seen ss a.1 b.1)

  decode_loop_lem :
      (seen : List ℕ) (ss : List DataPackShard)
      → All (IsGenuine hash_bytes p (total_shards spec) raws) ss
      → Rises ss
      → All (λ t. seen_index t.shard_index seen ≡ false) ss
      → decode_loop hash_bytes zfec_decode spec p seen ss ≡ ok tt
  unfolding decode_loop
  decode_loop_lem seen [] g r u = refl
  decode_loop_lem seen (s ∷ ss) g r u = rw (
    (text_eq_iff s.pack_hash p).1 g.0.of_pack,
    out_of_range,
    u.0,
    decode_loop_lem (s.shard_index ∷ seen) ss g.1 r.1 (unseen s.shard_index seen ss r.0 u.1),
  )
    where
      out_of_range : leb (total_shards spec) s.shard_index ≡ false
      out_of_range = ground (arith, g.0.in_range)

  unseen_nil : (ss : List DataPackShard) → All (λ t. seen_index t.shard_index [] ≡ false) ss
  unfolding seen_index
  unseen_nil [] = tt
  unseen_nil (s ∷ ss) = (refl, unseen_nil ss)

  module _ (zfec_encode : Encoder) (payload : Bytes) (shards : List DataPackShard) where
    abbrev selected : List DataPackShard
    selected = take spec.data_shards (sort_by index_le shards)

    decoded_blocks :
        IsErasureCode zfec_encode zfec_decode spec.data_shards (total_shards spec)
        → RawsOf zfec_encode spec payload raws
        → All (IsGenuine hash_bytes p (total_shards spec) raws) selected
        → Rises selected
        → length selected ≡ spec.data_shards
        → take (length payload) (
            join (
              zfec_decode spec.data_shards
                (total_shards spec)
                (map (λ s. s.bytes) selected)
                (map (λ s. s.shard_index) selected)))
          ≡ payload
    decoded_blocks code (blocks, raws_eq, count, sized, joined) genuine rises enough =
        rw
          (code.recovers blocks _ (map (λ s. s.shard_index) selected) (map (λ s. s.bytes) selected)
            count sized (IsIncreasing-map selected rises) (length-map _ selected ∙ enough)
            (rw (← raws_eq) (Picks-map selected genuine)))
          joined

    -- If zfec is a code for K and N: of genuine shards of a payload with different indexes, at
    -- least K of them and in any order, `decode` makes the payload that has the expected digest.
    pub decode_lem :
        IsErasureCode zfec_encode zfec_decode spec.data_shards (total_shards spec)
        → RawsOf zfec_encode spec payload raws
        → p ≡ hash_bytes payload
        → All (IsGenuine hash_bytes p (total_shards spec) raws) shards
        → IsDistinct shards
        → spec.data_shards ≤ length shards
        → decode hash_bytes zfec_decode shards spec (length payload) p ≡ ok payload
    unfolding decode
    decode_lem code raws_of p_eq genuine distinct enough =
        let some_genuine =
          All-take (IsGenuine hash_bytes p (total_shards spec) raws) spec.data_shards
            (sort_by index_le shards)
            (All-sort_by index_le (IsGenuine hash_bytes p (total_shards spec) raws) shards
              genuine) in
        let rises =
          Rises-take spec.data_shards (sort_by index_le shards) (Rises-sort_by shards distinct) in
        let n : length selected ≡ spec.data_shards =
          rw
            (length-take spec.data_shards (sort_by index_le shards), length-sort_by index_le shards)
            (omega arith) in
        let no_lack : ltb (length selected) spec.data_shards ≡ false = ground (arith, n) in
        rw
          (
            no_lack,
            decode_loop_lem [] selected some_genuine rises (unseen_nil selected),
            decoded_blocks code raws_of some_genuine rises n,
          )
          (rw ((text_eq_iff (hash_bytes payload) p).1 (sym p_eq)))

module _ (hash_bytes : Bytes → Text) (zfec_decode : Encoder) where
  -- Whatever the shards hold, bytes that `decode` returns have the digest that was asked for.
  pub decode-hash :
      (shards : List DataPackShard) (spec : ErasureSpec) (size : ℕ) (expected : Text) (r : Bytes)
      → decode hash_bytes zfec_decode shards spec size expected ≡ ok r
      → hash_bytes r ≡ expected
  unfolding decode
  decode-hash shards spec size expected r h = returned _ (>>-eq-ok _ _ (>>-eq-ok _ _ h).1).1
    where
      returned :
          (payload : Bytes)
          → (raise_if (not (text_eq (hash_bytes payload) expected)) pack_hash_mismatch
              >> ok payload)
            ≡ ok r
          → hash_bytes r ≡ expected
      returned payload e = ground (arith, text_eq_iff (hash_bytes payload) expected)
