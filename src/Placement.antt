-- ===== src/Placement.antt =====
-- placement/hrw.py: the choice of nodes by rendezvous hashing.
-- The BLAKE3 digest is a parameter. `heapq` is used as a priority queue: `heap` is the queue in
-- descending order, so its last item is the program's `heap[0]`.
pub mod Ranking
pub mod Choice
pub mod Epoch
mod EpochTests
pub mod Tests
use stopan.Prelude.{
  ℕ, zero, suc, ◌+◌, ◌*◌, ◌/◌, ◌%◌, ltb, leb, ◌==◌, Bool, true, false, ◌&&◌, ◌||◌, List, [], ◌∷◌,
  ◌++◌, map, if◌then◌else◌, length, Text, Bytes, text_lt, codes,
}
use stopan.Sorting.{insert_by, sort_by}
use stopan.Sorting.TopK.{above, last_or, init}

-- `str.encode("utf-8")`
unfoldable pub utf8_char : ℕ → Bytes
utf8_char c =
    if ltb c 0x80
    then c ∷ []
    else if ltb c 0x800
    then (0xc0 + c / 64) ∷ (0x80 + c % 64) ∷ []
    else if ltb c 0x10000
    then (0xe0 + c / 4096) ∷ (0x80 + c / 64 % 64) ∷ (0x80 + c % 64) ∷ []
    else (0xf0 + c / 262144) ∷ (0x80 + c / 4096 % 64) ∷ (0x80 + c / 64 % 64) ∷ (0x80 + c % 64) ∷ []

unfoldable pub utf8 : Text → Bytes
unfolding utf8_char
utf8 [] = []
utf8 (c ∷ s) = utf8_char c ++ utf8 s

-- `int.from_bytes(digest, "big")`
unfoldable pub from_bytes : ℕ → Bytes → ℕ
from_bytes acc [] = acc
from_bytes acc (b ∷ bs) = from_bytes (acc * 256 + b) bs

-- An entry of the heap: the pair of the score and the node.
abbrev pub Item : Type 0
Item = ℕ × Text

-- Python's `<` on such pairs.
unfoldable pub item_lt : Item → Item → Bool
item_lt (s, n) (t, m) = ltb s t || (s == t && text_lt n m)

module _ (digest : Bytes → Bytes) where
  unfoldable pub hrw_score : Text → Text → Text → ℕ
  unfolding utf8 from_bytes
  hrw_score chunk_hash node_id salt =
      from_bytes 0 (digest (utf8 (salt ++ codes "|" ++ node_id ++ codes "|" ++ chunk_hash)))

-- One round of the loop, for an item whose node has a name.
unfoldable pub heap_step : ℕ → Item → List Item → List Item
unfolding item_lt insert_by last_or init
heap_step k item heap =
    if ltb (length heap) k
    then insert_by (above item_lt) item heap
    else if item_lt (last_or item heap) item
    then insert_by (above item_lt) item (init heap)
    else heap

module _ (digest : Bytes → Bytes) (chunk_hash salt : Text) where
  unfoldable pub hrw_loop : ℕ → List Text → List Item → List Item
  unfolding hrw_score heap_step
  hrw_loop k [] heap = heap
  hrw_loop k ([] ∷ ids) heap = hrw_loop k ids heap
  hrw_loop k ((c ∷ cs) ∷ ids) heap =
      hrw_loop k ids (heap_step k (hrw_score digest chunk_hash (c ∷ cs) salt, c ∷ cs) heap)

  unfoldable pub hrw_top_k_node_ids : List Text → ℕ → List Text
  unfolding hrw_loop sort_by
  hrw_top_k_node_ids node_ids zero = []
  hrw_top_k_node_ids node_ids (suc k) =
      map (λ item. item.1) (sort_by (above item_lt) (hrw_loop (suc k) node_ids []))
