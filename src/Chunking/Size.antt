-- ===== src/Chunking/Size.antt =====
-- How large the caches of a backup grow.
use stopan.Prelude.{
  ℕ, suc, ◌+◌, ◌%◌, ◌≤◌, ltb, ◌==◌, max, ◌≡◌, refl, Bool, true, not, ◌&&◌, ◌||◌, Option, List, [],
  ◌∷◌, if-cases, Option-cases, inl, inr, length, Text, Dict, insert, arith,
}
use stopan.Protection.{ℤ}
use stopan.Chunking.{
  FastBoolCache, new_cache, cache_get, cache_clear, clear_if_full, cache_set, ChunkIndex, new_index,
  ChunkDecision, ChunkPlanner, cached, exists_local, is_remotely_protected, decide_remote, decide,
  after_decision, decide_all, process, skip_local, skip_synced,
}

-- Between two checks a cache grows by the writes since the last one.
abbrev IsBounded : ℕ → FastBoolCache → Type 0
IsBounded m cache = (cache.max_items ≡ m) × (length cache.entries ≤ m + cache.write_ops % 1024)

length-insert : (k : Text) (v : Bool) (d : Dict Bool) → length (insert k v d) ≤ suc (length d)
unfolding insert
length-insert k v [] = omega arith
length-insert k v ((j, w) ∷ d) = ground (arith, length-insert k v d)

cache_set-IsBounded :
    (m : ℕ) (k : Text) (v : Bool) (cache : FastBoolCache)
    → IsBounded m cache
    → IsBounded m (cache_set k v cache)
unfolding cache_set clear_if_full cache_clear
cache_set-IsBounded m k v cache (same, few) =
    if-cases (IsBounded m)
      (suc cache.write_ops % 1024 == 0 && ltb cache.max_items (length (insert k v cache.entries)))
      (λ _. (same, omega arith)) (λ h. (same, ground (arith, length-insert k v cache.entries)))

cached-IsBounded :
    (m : ℕ) (k : Text) (answer : Bool) (cache : FastBoolCache)
    → IsBounded m cache
    → IsBounded m ((cached k answer cache).1)
unfolding cached
cached-IsBounded m k answer cache h = elim (Option-cases (cache_get k cache)) [
  | inl e ↦ rw (cached, e) (cache_set-IsBounded m k answer cache h)
  | inr (v, e) ↦ rw (cached, e) h
]

AreBounded : ℕ → ChunkIndex → Type 0
AreBounded m index = IsBounded m index.local_exists × IsBounded m index.remotely_protected

AreBounded-new : (n : ℕ) → AreBounded (max n 1) (new_index n)
unfolding AreBounded new_index new_cache
AreBounded-new n = ((refl, omega arith), (refl, omega arith))

module _ (exists_in_store : Text → Bool)
    (is_chunk_remotely_protected : Text → ℤ → Option Text → Bool) (p : ChunkPlanner) (m : ℕ) where
  decide-AreBounded :
      (h : Text) (index : ChunkIndex)
      → AreBounded m index
      → AreBounded m ((decide exists_in_store is_chunk_remotely_protected p h index).1)
  unfolding decide decide_remote exists_local is_remotely_protected AreBounded
  decide-AreBounded h index (local, remote) =
      let P = λ (x : ChunkDecision × ChunkIndex). AreBounded m (x.1) in
      let local_after = cached-IsBounded m h (exists_in_store h) index.local_exists local in
      if-cases P (p.safe_mode || not p.fast_path_enabled) (λ _. (local, remote))
        (λ _.
          if-cases P ((cached h (exists_in_store h) index.local_exists).0)
            (λ _. (local_after, remote))
            (λ _.
              if-cases P p.allow_remote_protected_skip
                (λ _. (
                  local_after,
                  cached-IsBounded m h
                      (is_chunk_remotely_protected h p.desired_rf p.placement_epoch)
                      index.remotely_protected remote,
                ))
                (λ _. (local_after, remote))))

after_decision-AreBounded :
    (exists_in_store : Text → Bool) (m : ℕ) (d : ChunkDecision) (h : Text) (index : ChunkIndex)
    → AreBounded m index
    → AreBounded m ((after_decision d h exists_in_store index).1)
unfolding AreBounded
after_decision-AreBounded exists_in_store m process h index (local, remote) =
    (cache_set-IsBounded m h true index.local_exists local, remote)
after_decision-AreBounded exists_in_store m skip_local h index k = k
after_decision-AreBounded exists_in_store m skip_synced h index k = k

decide_all-AreBounded :
    (exists_in_store : Text → Bool) (is_chunk_remotely_protected : Text → ℤ → Option Text → Bool)
    (p : ChunkPlanner) (m : ℕ) (hashes : List Text) (index : ChunkIndex)
    → AreBounded m index
    → AreBounded m ((decide_all exists_in_store is_chunk_remotely_protected p hashes index).1)
unfolding decide_all
decide_all-AreBounded exists_in_store remote p m [] index h = h
decide_all-AreBounded exists_in_store remote p m (k ∷ hashes) index h =
    let first = decide exists_in_store remote p k index in
    decide_all-AreBounded ((after_decision (first.0) k exists_in_store (first.1)).0) remote p m
      hashes ((after_decision (first.0) k exists_in_store (first.1)).1)
      (after_decision-AreBounded exists_in_store m (first.0) k (first.1)
        (decide-AreBounded exists_in_store remote p m k index h))

-- After any number of decisions with a new index, each of its two caches has at most 1023 entries
-- more than the number of items that it was made for, which is at least 1.
pub decide_all-size :
    (exists_in_store : Text → Bool) (is_chunk_remotely_protected : Text → ℤ → Option Text → Bool)
    (p : ChunkPlanner) (max_items : ℕ) (hashes : List Text)
    → let index =
        (decide_all exists_in_store is_chunk_remotely_protected p hashes (new_index max_items)).1 in
      (length index.local_exists.entries ≤ max max_items 1 + 1023)
      × (length index.remotely_protected.entries ≤ max max_items 1 + 1023)
unfolding AreBounded
decide_all-size exists_in_store is_chunk_remotely_protected p max_items hashes =
    let ((_, local), (_, remote)) =
      decide_all-AreBounded exists_in_store is_chunk_remotely_protected p (max max_items 1) hashes
        (new_index max_items) (AreBounded-new max_items) in
    (omega arith, omega arith)
