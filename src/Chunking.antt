-- ===== src/Chunking.antt =====
-- chunking/chunk_index.py and chunking/planner.py: whether a chunk has to be processed in a
-- backup; and the loop of backup/worker.py that asks for it.
-- Each method is one step, without its lock. What the store and the database answer are parameters.
pub mod Caching
pub mod Recipes
pub mod Size
mod Tests
use stopan.Prelude.{
  ℕ, suc, ◌+◌, ◌%◌, ltb, ◌==◌, max, Bool, true, false, not, ◌&&◌, ◌||◌, Option, none, some, List,
  [], ◌∷◌, if◌then◌else◌, length, Text, text_eq, Dict, lookup, insert, Result, ok, err,
}
use stopan.Protection.{ℤ, pos, negsuc, ltz}

pub record FastBoolCache : Type 0 where
  pub max_items : ℕ
  pub entries : Dict Bool
  pub write_ops : ℕ

abbrev pub max_index_items : ℕ
max_index_items = 200000

-- `FastBoolCache(max_items)`
unfoldable pub new_cache : ℕ → FastBoolCache
new_cache max_items = record { max_items = max max_items 1; entries = []; write_ops = 0 }

unfoldable pub cache_get : Text → FastBoolCache → Option Bool
unfolding lookup
cache_get key cache = lookup key cache.entries

unfoldable pub cache_clear : FastBoolCache → FastBoolCache
cache_clear cache = record cache { entries = []; write_ops = 0 }

-- The check of the size, at each 1024th write.
unfoldable pub clear_if_full : FastBoolCache → FastBoolCache
unfolding cache_clear
clear_if_full cache =
    if cache.write_ops % 1024 == 0 && ltb cache.max_items (length cache.entries)
    then cache_clear cache
    else cache

unfoldable pub cache_set : Text → Bool → FastBoolCache → FastBoolCache
unfolding clear_if_full insert
cache_set key value cache =
    clear_if_full
      (record cache { entries = insert key value cache.entries; write_ops = suc cache.write_ops })

pub record ChunkIndex : Type 0 where
  pub local_exists : FastBoolCache
  pub remotely_protected : FastBoolCache

unfoldable pub new_index : ℕ → ChunkIndex
unfolding new_cache
new_index max_items = record {
  local_exists = new_cache max_items;
  remotely_protected = new_cache max_items;
}

pub data ChunkDecision : Type 0 where
  process skip_local skip_synced : ChunkDecision

pub record ChunkPlanner : Type 0 where
  pub fast_path_enabled : Bool
  pub safe_mode : Bool
  pub allow_remote_protected_skip : Bool
  pub desired_rf : ℤ
  pub placement_epoch : Option Text

pub data PlannerError : Type 0 where
  negative_rf : PlannerError

-- `ChunkPlanner(...)`, with a repository, a database and an index
unfoldable pub make_planner :
    Bool → Bool → Bool → ℤ → Option Text → Result PlannerError ChunkPlanner
make_planner fast_path_enabled safe_mode allow_remote_protected_skip desired_rf placement_epoch =
    if ltz desired_rf (pos 0)
    then err negative_rf
    else ok (record {
      fast_path_enabled = fast_path_enabled;
      safe_mode = safe_mode;
      allow_remote_protected_skip = allow_remote_protected_skip;
      desired_rf = desired_rf;
      placement_epoch = placement_epoch;
    })

-- A look in the cache, or an answer that is put there: the value and the cache after it.
unfoldable pub cached : Text → Bool → FastBoolCache → Bool × FastBoolCache
unfolding cache_get cache_set
cached key answer cache = elim (cache_get key cache) [
  | some value ↦ (value, cache)
  | none ↦ (answer, cache_set key answer cache)
]

module _ (exists_in_store : Text → Bool)
    (is_chunk_remotely_protected : Text → ℤ → Option Text → Bool) where
  unfoldable pub exists_local : Text → ChunkIndex → Bool × ChunkIndex
  unfolding cached
  exists_local chunk_hash index =
      let looked = cached chunk_hash (exists_in_store chunk_hash) index.local_exists in
      (looked.0, record index { local_exists = looked.1 })

  unfoldable pub is_remotely_protected : ChunkPlanner → Text → ChunkIndex → Bool × ChunkIndex
  unfolding cached
  is_remotely_protected p chunk_hash index =
      let looked =
        cached chunk_hash (is_chunk_remotely_protected chunk_hash p.desired_rf p.placement_epoch)
          index.remotely_protected in
      (looked.0, record index { remotely_protected = looked.1 })

  -- The decision on a chunk that is not in the local store.
  unfoldable pub decide_remote : ChunkPlanner → Text → ChunkIndex → ChunkDecision × ChunkIndex
  unfolding is_remotely_protected
  decide_remote p chunk_hash index =
      let looked = is_remotely_protected p chunk_hash index in
      if p.allow_remote_protected_skip
      then (if looked.0 then skip_synced else process, looked.1)
      else (process, index)

  unfoldable pub decide : ChunkPlanner → Text → ChunkIndex → ChunkDecision × ChunkIndex
  unfolding exists_local decide_remote
  decide p chunk_hash index =
      let looked = exists_local chunk_hash index in
      if p.safe_mode || not p.fast_path_enabled
      then (process, index)
      else if looked.0
      then (skip_local, looked.1)
      else decide_remote p chunk_hash (looked.1)

-- `repo.put`, as far as `exists_local` sees it: from here on the chunk is in the store.
unfoldable pub put : Text → (Text → Bool) → Text → Bool
put chunk_hash exists_in_store h = text_eq chunk_hash h || exists_in_store h

-- What the worker does after a decision: a chunk to process is stored, and known to be there.
abbrev pub after_decision :
    ChunkDecision → Text → (Text → Bool) → ChunkIndex → (Text → Bool) × ChunkIndex
after_decision process chunk_hash exists_in_store index = (
  put chunk_hash exists_in_store,
  record index { local_exists = cache_set chunk_hash true index.local_exists },
)
after_decision skip_local chunk_hash exists_in_store index = (exists_in_store, index)
after_decision skip_synced chunk_hash exists_in_store index = (exists_in_store, index)

-- The decisions of `process_file_worker` of backup/worker.py on the chunks of a file, one after the
-- other. Storing a chunk succeeds; where `put` raises, the worker gives up the file.
unfoldable pub decide_all :
    (Text → Bool)
    → (Text → ℤ → Option Text → Bool)
    → ChunkPlanner
    → List Text
    → ChunkIndex
    → List ChunkDecision × ChunkIndex
unfolding decide put cache_set
decide_all exists_in_store is_chunk_remotely_protected p [] index = ([], index)
decide_all exists_in_store is_chunk_remotely_protected p (chunk_hash ∷ hashes) index =
    let first = decide exists_in_store is_chunk_remotely_protected p chunk_hash index in
    let next = after_decision (first.0) chunk_hash exists_in_store (first.1) in
    let rest = decide_all (next.0) is_chunk_remotely_protected p hashes (next.1) in
    (first.0 ∷ rest.0, rest.1)
