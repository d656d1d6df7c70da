-- ===== src/Objects/Codec/PackTiles.antt =====
-- What the chunks and the shard places of a decoded pack record amount to.
use stopan.Prelude.{
  ℕ, zero, suc, ◌+◌, ◌*◌, ◌≤◌, ◌<◌, ◌==◌, ==_iff, ◌≡◌, refl, ap, ap₂, true, List, [], ◌∷◌, map,
  some, get_elem?, ok, arith, Bool-cases, inl, inr, Ensures-eq-ok, subst, sym, ltb,
}
use stopan.Objects.Json.{Value}
use stopan.Objects.Models.Checks.{Numbers}
use stopan.Objects.Models.Ordered.{AreDistinct}
use stopan.Objects.Models.Packs.{
  PackChunk, PackRecord, AreTiles, placement_node, placement_index, same_indexes, range_from,
}
use stopan.Objects.Codec.PackRecords.{decode_pack_record, decode_pack_record-IsPackRecord}

-- A chunk holds a position of the payload.
abbrev pub Holds : ℕ → PackChunk → Type 0
Holds p c = (c.offset ≤ p) × (p < c.offset + c.length)

holder :
    (end ordinal offset p : ℕ) (l : List PackChunk)
    → AreTiles end ordinal offset l
    → offset ≤ p
    → p < end
    → (i : ℕ) × (c : PackChunk) × (get_elem? l i ≡ some c) × Holds p c
holder end ordinal offset p [] t lower upper = absurd (omega (arith, t))
holder end ordinal offset p (c ∷ l) (_, o, t) lower upper =
    elim (Bool-cases (ltb p (offset + c.length))) [
      | inl h ↦ (0, c, refl, (omega (arith, o), ground (arith, o, h)))
      | inr h ↦
          let (i, d, e, held) =
            holder end (suc ordinal) (offset + c.length) p l t (ground (arith, h)) upper in
          (suc i, d, e, held)
    ]

starts_later :
    (end ordinal offset i : ℕ) (l : List PackChunk) (c : PackChunk)
    → AreTiles end ordinal offset l
    → get_elem? l i ≡ some c
    → offset ≤ c.offset
starts_later end ordinal offset i [] c t e = cc
starts_later end ordinal offset zero (d ∷ l) c (_, o, t) e =
    subst (λ (x : PackChunk). offset ≤ x.offset) (some-inj e) (omega (arith, o))
  where
    some-inj : {x y : PackChunk} → some x ≡ some y → x ≡ y
    some-inj h = cc
starts_later end ordinal offset (suc i) (d ∷ l) c (_, o, t) e =
    let later = starts_later end (suc ordinal) (offset + d.length) i l c t e in omega arith

one_holder :
    (end ordinal offset p i j : ℕ) (l : List PackChunk) (c d : PackChunk)
    → AreTiles end ordinal offset l
    → get_elem? l i ≡ some c
    → get_elem? l j ≡ some d
    → Holds p c
    → Holds p d
    → j ≡ i
one_holder end ordinal offset p i j [] c d t e f h k = cc
one_holder end ordinal offset p zero zero (x ∷ l) c d t e f h k = refl
one_holder end ordinal offset p zero (suc j) (x ∷ l) c d (_, o, t) e f h k =
    let later = starts_later end (suc ordinal) (offset + x.length) j l d t f in
    let same = subst (λ (y : PackChunk). Holds p y) (sym (some-inj e)) h in
    absurd (omega (arith, o))
  where
    some-inj : {x y : PackChunk} → some x ≡ some y → x ≡ y
    some-inj h = cc
one_holder end ordinal offset p (suc i) zero (x ∷ l) c d (_, o, t) e f h k =
    let later = starts_later end (suc ordinal) (offset + x.length) i l c t e in
    let same = subst (λ (y : PackChunk). Holds p y) (sym (some-inj f)) k in
    absurd (omega (arith, o))
  where
    some-inj : {x y : PackChunk} → some x ≡ some y → x ≡ y
    some-inj h = cc
one_holder end ordinal offset p (suc i) (suc j) (x ∷ l) c d (_, o, t) e f h k =
    ap suc (one_holder end (suc ordinal) (offset + x.length) p i j l c d t e f h k)

same_indexes-eq : (a b : List ℕ) → same_indexes a b ≡ true → a ≡ b
unfolding same_indexes
same_indexes-eq [] [] h = refl
same_indexes-eq [] (y ∷ b) h = cc
same_indexes-eq (x ∷ a) [] h = cc
same_indexes-eq (x ∷ a) (y ∷ b) h = elim (Bool-cases (x == y)) [
  | inl e ↦ ap₂ (λ u v. u ∷ v) ((==_iff x y).0 e) (same_indexes-eq a b (rw e at h))
  | inr e ↦ cc (h, e)
]

-- In a pack record that is decoded every position of the payload lies in exactly one of the
-- chunks, the payload fits into its data shards, and there is one shard for each index below the
-- number of data and parity shards, in that order, no two of them on one node.
pub decode_pack_record-tiles :
    (numbers : Numbers) (v : Value) (r : PackRecord)
    → decode_pack_record numbers v ≡ ok r
    → ((p : ℕ)
        → p < r.payload_size
        → (i : ℕ) × (c : PackChunk) × (get_elem? r.chunks i ≡ some c)
          × Holds p c
          × ((j : ℕ) (d : PackChunk) → get_elem? r.chunks j ≡ some d → Holds p d → j ≡ i))
      × (r.payload_size ≤ r.shard_size * r.data_shards)
      × (map placement_index r.shards ≡ range_from 0 (r.data_shards + r.parity_shards))
      × AreDistinct placement_node r.shards
decode_pack_record-tiles numbers v r h =
    let (_, _, _, _, padded, fits, _, _, _, _, _, _, _, _, (_, tiles), apart, indexes) =
      Ensures-eq-ok (decode_pack_record-IsPackRecord numbers v) h in
    (
      λ p below.
          let (i, c, e, held) = holder r.payload_size 0 0 p r.chunks tiles (omega arith) below in
          (
            i,
            c,
            e,
            held,
            λ j d f k. one_holder r.payload_size 0 0 p i j r.chunks c d tiles e f held k,
          ),
      ground (arith, (==_iff r.padded_size (r.shard_size * r.data_shards)).0 padded, fits),
      same_indexes-eq _ _ indexes,
      apart,
    )
