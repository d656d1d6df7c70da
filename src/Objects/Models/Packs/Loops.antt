-- ===== src/Objects/Models/Packs/Loops.antt =====
-- The lemmas on the loops over a pack's chunks and over the places of its shards.
use stopan.Prelude.{
  ℕ, suc, ◌+◌, ◌==◌, ==_iff, ◌≡◌, refl, sym, subst, ◌↔◌, not, List, [], ◌∷◌, Text, contains, ok,
  raise_if, >>-eq-ok, raise_if-eq-ok,
}
use stopan.Objects.Models.Checks.{repeated, ordinal_gap, offset_gap, not_covered, repeated_node}
use stopan.Objects.Models.Checks.Laws.{not-eq-false}
use stopan.Objects.Models.Ordered.{AreDistinct, AreFresh, AreFresh-cons, AreFresh-add, AreFresh-nil}
use stopan.Objects.Models.Packs.{
  PackChunk, ShardPlacement, check_pack_chunks, chunk_name, AreTiles, ArePackChunks, placement_node,
  check_nodes,
}

check_pack_chunks_accepts :
    (end ordinal offset : ℕ) (seen : List Text) (l : List PackChunk)
    → AreDistinct chunk_name l
    → AreFresh chunk_name seen l
    → AreTiles end ordinal offset l
    → check_pack_chunks end seen ordinal offset l ≡ ok tt
unfolding check_pack_chunks
check_pack_chunks_accepts end ordinal offset seen [] d f t = rw ((==_iff offset end).1 t) refl
check_pack_chunks_accepts end ordinal offset seen (c ∷ l) (d, ds) (f, fs) (n, o, t) =
    rw (f, (==_iff c.ordinal ordinal).1 n, (==_iff c.offset offset).1 o)
      (check_pack_chunks_accepts end (suc ordinal) (c.offset + c.length) (c.chunk_hash ∷ seen) l ds
        (AreFresh-add chunk_name c seen l fs d)
        (subst (λ (x : ℕ). AreTiles end (suc ordinal) (x + c.length) l) (sym o) t))

check_pack_chunks_accepted :
    (end ordinal offset : ℕ) (seen : List Text) (l : List PackChunk)
    → check_pack_chunks end seen ordinal offset l ≡ ok tt
    → AreDistinct chunk_name l × AreFresh chunk_name seen l × AreTiles end ordinal offset l
unfolding check_pack_chunks
check_pack_chunks_accepted end ordinal offset seen [] h = (
  tt,
  tt,
  (==_iff offset end).0 (not-eq-false _ (raise_if-eq-ok (not (offset == end)) not_covered h)),
)
check_pack_chunks_accepted end ordinal offset seen (c ∷ l) h =
    let (f, h1) = >>-eq-ok (raise_if (contains c.chunk_hash seen) repeated) _ h in
    let (n, h2) = >>-eq-ok (raise_if (not (c.ordinal == ordinal)) ordinal_gap) _ h1 in
    let (o, h3) = >>-eq-ok (raise_if (not (c.offset == offset)) offset_gap) _ h2 in
    let fresh = raise_if-eq-ok (contains c.chunk_hash seen) repeated f in
    let same_ordinal =
      (==_iff c.ordinal ordinal).0
        (not-eq-false _ (raise_if-eq-ok (not (c.ordinal == ordinal)) ordinal_gap n)) in
    let same_offset =
      (==_iff c.offset offset).0
        (not-eq-false _ (raise_if-eq-ok (not (c.offset == offset)) offset_gap o)) in
    let (ds, fs, t) =
      check_pack_chunks_accepted end (suc ordinal) (c.offset + c.length) (c.chunk_hash ∷ seen) l
        h3 in
    let (gs, d) = AreFresh-cons chunk_name c seen l fs in
    (
      (d, ds),
      (fresh, gs),
      (
        same_ordinal,
        same_offset,
        subst (λ (x : ℕ). AreTiles end (suc ordinal) (x + c.length) l) same_offset t,
      ),
    )

pub check_pack_chunks_iff :
    (payload_size : ℕ) (l : List PackChunk)
    → (check_pack_chunks payload_size [] 0 0 l ≡ ok tt) ↔ ArePackChunks payload_size l
check_pack_chunks_iff payload_size l = (
  λ h. let (d, _, t) = check_pack_chunks_accepted payload_size 0 0 [] l h in (d, t),
  λ p. check_pack_chunks_accepts payload_size 0 0 [] l p.0 (AreFresh-nil chunk_name l) p.1,
)

check_nodes_accepts :
    (seen : List Text) (l : List ShardPlacement)
    → AreDistinct placement_node l
    → AreFresh placement_node seen l
    → check_nodes seen l ≡ ok tt
unfolding check_nodes
check_nodes_accepts seen [] d f = refl
check_nodes_accepts seen (s ∷ l) (d, ds) (f, fs) =
    rw f (check_nodes_accepts (s.node_id ∷ seen) l ds (AreFresh-add placement_node s seen l fs d))

check_nodes_accepted :
    (seen : List Text) (l : List ShardPlacement)
    → check_nodes seen l ≡ ok tt
    → AreDistinct placement_node l × AreFresh placement_node seen l
unfolding check_nodes
check_nodes_accepted seen [] h = (tt, tt)
check_nodes_accepted seen (s ∷ l) h =
    let (f, h1) = >>-eq-ok (raise_if (contains s.node_id seen) repeated_node) _ h in
    let (ds, fs) = check_nodes_accepted (s.node_id ∷ seen) l h1 in
    let (gs, d) = AreFresh-cons placement_node s seen l fs in
    ((d, ds), (raise_if-eq-ok (contains s.node_id seen) repeated_node f, gs))

pub check_nodes_iff :
    (l : List ShardPlacement) → (check_nodes [] l ≡ ok tt) ↔ AreDistinct placement_node l
check_nodes_iff l = (
  λ h. (check_nodes_accepted [] l h).0,
  λ d. check_nodes_accepts [] l d (AreFresh-nil placement_node l),
)
