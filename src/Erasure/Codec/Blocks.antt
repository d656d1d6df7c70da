-- ===== src/Erasure/Codec/Blocks.antt =====
-- `split_primary_blocks` of protection/ec/codec.py: the primary blocks.
use native.Mathlib.Nat.{div-add-mod, mod-lt, zero-mul}
use stopan.Prelude.{
  ℕ, zero, suc, ◌+◌, ◌-◌, ◌*◌, ◌≤◌, ◌<◌, ◌≡◌, refl, ap, ◌∙◌, List, map, arith, length, take, drop,
  join, All, ok, Bytes, length-append, length-take, length-drop, length-map, take-add, drop-add,
  take-take, take-append,
}
use stopan.Erasure.Codec.{
  slice, range_from, range, repeat, padding, shard_size_for, padded_payload, split_primary_blocks,
}

pub length-range_from : (i n : ℕ) → length (range_from i n) ≡ n
length-range_from i zero = refl
length-range_from i (suc n) = ap suc (length-range_from (suc i) n)

-- The blocks are large enough for the payload, and never empty.
pub shard_size_covers : (size k : ℕ) → 0 < k → size ≤ shard_size_for size k * k
unfolding shard_size_for
shard_size_covers size k pos =
    grind (arith, div-add-mod (size + k - 1) k, mod-lt (size + k - 1) pos)

shard_size_pos : (size k : ℕ) → 0 < shard_size_for size k
unfolding shard_size_for
shard_size_pos size k = ground arith

length-repeat : (n : ℕ) → n ≤ length (repeat padding n)
length-repeat zero = omega arith
length-repeat (suc n) = omega (arith, length-repeat n)

abbrev pub block : Bytes → ℕ → ℕ → Bytes
block padded size index = slice padded (index * size) ((index + 1) * size)

step_size : (i size : ℕ) → (i + 1) * size - i * size ≡ size
step_size i size = omega arith

join-blocks :
    (p : Bytes) (size i n : ℕ)
    → join (map (block p size) (range_from i n)) ≡ take (n * size) (drop (i * size) p)
join-blocks p size i zero = rw zero-mul
join-blocks p size i (suc n) =
    let next : suc i * size ≡ i * size + size = omega arith in
    let total : suc n * size ≡ size + n * size = omega arith in
    rw (step_size i size, join-blocks p size (suc i) n, next, total, drop-add, take-add)

All-blocks :
    (p : Bytes) (size i n : ℕ)
    → (i + n) * size ≤ length p
    → All (λ b. length b ≡ size) (map (block p size) (range_from i n))
All-blocks p size i zero h = tt
All-blocks p size i (suc n) h =
    (rw (length-take, length-drop) (omega arith), All-blocks p size (suc i) n (omega arith))

module _ (payload : Bytes) (k : ℕ) (pos : 0 < k) where
  abbrev size : ℕ
  size = shard_size_for (length payload) k

  abbrev padded : Bytes
  padded = padded_payload payload (size * k)

  size_covers : length payload ≤ size * k
  size_covers = shard_size_covers (length payload) k pos

  length-padded : size * k ≤ length padded
  unfolding padded_payload
  length-padded =
      rw (length-append payload (repeat padding (size * k - length payload)))
        (omega (arith, length-repeat (size * k - length payload), size_covers))

  join-padded : join (map (block padded size) (range k)) ≡ take (k * size) padded
  join-padded = rw (join-blocks padded size 0 k, zero-mul)

  payload-join : take (length payload) (join (map (block padded size) (range k))) ≡ payload
  unfolding padded_payload
  payload-join = rw join-padded (
      take-take (length payload) (k * size) padded (omega (arith, size_covers))
      ∙ take-append payload (repeat padding (size * k - length payload)))

-- For a positive K the payload is cut into K blocks of the same positive size; joined and cut to
-- the payload's length they give it back.
pub split_primary_blocks_lem :
    (payload : Bytes) (k : ℕ)
    → 0 < k
    → (blocks : List Bytes) × (split_primary_blocks payload k
        ≡ ok (blocks, shard_size_for (length payload) k))
      × (length blocks ≡ k)
      × (0 < shard_size_for (length payload) k)
      × All (λ b. length b ≡ shard_size_for (length payload) k) blocks
      × (take (length payload) (join blocks) ≡ payload)
unfolding split_primary_blocks
split_primary_blocks_lem payload k pos =
    let n = shard_size_for (length payload) k in
    (
      map (block (padded_payload payload (n * k)) n) (range k),
      ground arith,
      length-map _ (range k) ∙ length-range_from 0 k,
      shard_size_pos (length payload) k,
      All-blocks _ n 0 k (omega (arith, length-padded payload k pos)),
      payload-join payload k pos,
    )
