-- ===== src/Chunking/Caching.antt =====
-- The decisions of a planner with its caches, against those without.
use stopan.Prelude.{
  ℕ, suc, ◌≡◌, refl, ap, ap₂, ◌∙◌, Bool, true, not, ◌&&◌, ◌||◌, ◌==◌, ◌%◌, ltb, Option, some, List,
  [], ◌∷◌, length, if◌then◌else◌, if-cases, Option-cases, inl, inr, Text, lookup, insert,
  lookup-insert, text_eq, text_eq_iff, arith,
}
use stopan.Protection.{ℤ}
use stopan.Chunking.{
  FastBoolCache, new_cache, cache_get, cache_clear, clear_if_full, cache_set, ChunkIndex, new_index,
  ChunkDecision, process, skip_local, skip_synced, ChunkPlanner, cached, exists_local,
  is_remotely_protected, decide_remote, decide, put, after_decision, decide_all,
}

-- What a cache holds is what `answer` says.
abbrev AgreesWith : (Text → Bool) → FastBoolCache → Type 0
AgreesWith answer cache = (k : Text) (v : Bool) → cache_get k cache ≡ some v → v ≡ answer k

AgreesWith-new : (answer : Text → Bool) (n : ℕ) → AgreesWith answer (new_cache n)
unfolding cache_get new_cache lookup
AgreesWith-new answer n k v h = cc

AgreesWith-set :
    (answer : Text → Bool) (j : Text) (cache : FastBoolCache)
    → AgreesWith answer cache
    → AgreesWith answer (cache_set j (answer j) cache)
unfolding cache_set clear_if_full cache_clear cache_get lookup
AgreesWith-set answer j cache agrees k v =
    if-cases (λ (c : FastBoolCache). lookup k c.entries ≡ some v → v ≡ answer k)
      (suc cache.write_ops % 1024 == 0
        && ltb cache.max_items (length (insert j (answer j) cache.entries)))
      (λ _ h. empty h) (λ _ h. inserted (rw (lookup-insert j k (answer j) cache.entries) at h))
  where
    empty : lookup k [] ≡ some v → v ≡ answer k
    empty h = cc

    inserted :
        (if text_eq j k then some (answer j) else lookup k cache.entries) ≡ some v → v ≡ answer k
    inserted h = ground (arith, text_eq_iff j k, agrees k v)

-- A chunk that is stored is put into the cache as such.
AgreesWith-put :
    (answer : Text → Bool) (j : Text) (cache : FastBoolCache)
    → AgreesWith answer cache
    → AgreesWith (put j answer) (cache_set j true cache)
unfolding put cache_set clear_if_full cache_clear cache_get lookup
AgreesWith-put answer j cache agrees k v =
    if-cases (λ (c : FastBoolCache). lookup k c.entries ≡ some v → v ≡ put j answer k)
      (suc cache.write_ops % 1024 == 0
        && ltb cache.max_items (length (insert j true cache.entries)))
      (λ _ h. empty h) (λ _ h. inserted (rw (lookup-insert j k true cache.entries) at h))
  where
    empty : lookup k [] ≡ some v → v ≡ put j answer k
    empty h = cc

    inserted :
        (if text_eq j k then some true else lookup k cache.entries) ≡ some v → v ≡ put j answer k
    inserted h = ground (arith, agrees k v)

-- The cached answer is the answer.
cached-eq :
    (answer : Text → Bool) (k : Text) (cache : FastBoolCache)
    → AgreesWith answer cache
    → ((cached k (answer k) cache).0 ≡ answer k) × AgreesWith answer ((cached k (answer k) cache).1)
unfolding cached
cached-eq answer k cache agrees = elim (Option-cases (cache_get k cache)) [
  | inl e ↦ rw (cached, e) (refl, AgreesWith-set answer k cache agrees)
  | inr (v, e) ↦ rw (cached, e) (agrees k v e, agrees)
]

module _ (exists_in_store : Text → Bool)
    (is_chunk_remotely_protected : Text → ℤ → Option Text → Bool) (p : ChunkPlanner) where
  abbrev protected : Text → Bool
  protected h = is_chunk_remotely_protected h p.desired_rf p.placement_epoch

  -- The policy of the planner, asking the store and the database each time.
  abbrev pub policy : Text → ChunkDecision
  policy h =
      if p.safe_mode || not p.fast_path_enabled
      then process
      else if exists_in_store h
      then skip_local
      else if p.allow_remote_protected_skip && protected h
      then skip_synced
      else process

  AgreesWithAll : ChunkIndex → Type 0
  AgreesWithAll index =
      AgreesWith exists_in_store index.local_exists × AgreesWith protected index.remotely_protected

  IsDecision : Text → ChunkDecision × ChunkIndex → Type 0
  IsDecision h d = (d.0 ≡ policy h) × AgreesWithAll (d.1)

  decide-eq :
      (h : Text) (index : ChunkIndex)
      → AgreesWithAll index
      → IsDecision h (decide exists_in_store is_chunk_remotely_protected p h index)
  unfolding decide decide_remote exists_local is_remotely_protected AgreesWithAll IsDecision
  decide-eq h index (local, remote) =
      let (here, local_after) = cached-eq exists_in_store h index.local_exists local in
      let (safe, remote_after) = cached-eq protected h index.remotely_protected remote in
      if-cases (IsDecision h) (p.safe_mode || not p.fast_path_enabled)
        (λ off. (ground arith, (local, remote)))
        (λ on.
          if-cases (IsDecision h) ((cached h (exists_in_store h) index.local_exists).0)
            (λ is_here. (ground arith, (local_after, remote)))
            (λ not_here.
              if-cases (IsDecision h) p.allow_remote_protected_skip
                (λ allowed. (ground arith, (local_after, remote_after)))
                (λ refused. (ground arith, (local_after, remote)))))

-- What is in the store after a decision of the policy.
abbrev pub exists_after : ChunkDecision → Text → (Text → Bool) → Text → Bool
exists_after process h exists_in_store = put h exists_in_store
exists_after skip_local h exists_in_store = exists_in_store
exists_after skip_synced h exists_in_store = exists_in_store

-- The policy for the chunks of a file one after the other, each processed chunk being in the store
-- from then on.
unfoldable pub policy_all :
    (Text → Bool) → (Text → ℤ → Option Text → Bool) → ChunkPlanner → List Text → List ChunkDecision
policy_all exists_in_store is_chunk_remotely_protected p [] = []
policy_all exists_in_store is_chunk_remotely_protected p (h ∷ hashes) =
    let decision = policy exists_in_store is_chunk_remotely_protected p h in
    decision
    ∷ policy_all (exists_after decision h exists_in_store) is_chunk_remotely_protected p hashes

-- Both loops go on in the same way after the same decision.
after_decision-AgreesWithAll :
    (exists_in_store : Text → Bool) (is_chunk_remotely_protected : Text → ℤ → Option Text → Bool)
    (p : ChunkPlanner) (d : ChunkDecision) (h : Text) (index : ChunkIndex)
    → AgreesWithAll exists_in_store is_chunk_remotely_protected p index
    → ((after_decision d h exists_in_store index).0 ≡ exists_after d h exists_in_store)
      × AgreesWithAll
          ((after_decision d h exists_in_store index).0)
          is_chunk_remotely_protected
          p
          ((after_decision d h exists_in_store index).1)
unfolding AgreesWithAll
after_decision-AgreesWithAll exists_in_store remote p process h index (here, there) =
    (refl, (AgreesWith-put exists_in_store h index.local_exists here, there))
after_decision-AgreesWithAll exists_in_store remote p skip_local h index agrees = (refl, agrees)
after_decision-AgreesWithAll exists_in_store remote p skip_synced h index agrees = (refl, agrees)

decide_all-eq :
    (exists_in_store : Text → Bool) (is_chunk_remotely_protected : Text → ℤ → Option Text → Bool)
    (p : ChunkPlanner) (hashes : List Text) (index : ChunkIndex)
    → AgreesWithAll exists_in_store is_chunk_remotely_protected p index
    → (decide_all exists_in_store is_chunk_remotely_protected p hashes index).0
      ≡ policy_all exists_in_store is_chunk_remotely_protected p hashes
unfolding decide_all policy_all IsDecision
decide_all-eq exists_in_store remote p [] index agrees = refl
decide_all-eq exists_in_store remote p (h ∷ hashes) index agrees =
    let first = decide exists_in_store remote p h index in
    let (same, next) = decide-eq exists_in_store remote p h index agrees in
    let (store, after) =
      after_decision-AgreesWithAll exists_in_store remote p (first.0) h (first.1) next in
    let rest =
      decide_all-eq ((after_decision (first.0) h exists_in_store (first.1)).0) remote p hashes
        ((after_decision (first.0) h exists_in_store (first.1)).1) after in
    let same_store = store ∙ ap (λ (d : ChunkDecision). exists_after d h exists_in_store) same in
    ap₂ (λ (d : ChunkDecision) (ds : List ChunkDecision). d ∷ ds) same
      (rest ∙ ap (λ (s : Text → Bool). policy_all s remote p hashes) same_store)

-- The decisions of a worker on the chunks of a file with a new index, caches of any size included,
-- are those of the policy that asks the store and the database about each chunk. The chunks that
-- were to be processed before are then in the store; the answers of the database do not change.
pub decide_all-policy :
    (exists_in_store : Text → Bool) (is_chunk_remotely_protected : Text → ℤ → Option Text → Bool)
    (p : ChunkPlanner) (max_items : ℕ) (hashes : List Text)
    → (decide_all exists_in_store is_chunk_remotely_protected p hashes (new_index max_items)).0
      ≡ policy_all exists_in_store is_chunk_remotely_protected p hashes
unfolding AgreesWithAll new_index
decide_all-policy exists_in_store is_chunk_remotely_protected p max_items hashes =
    decide_all-eq exists_in_store is_chunk_remotely_protected p hashes (new_index max_items) (
      AgreesWith-new exists_in_store max_items,
      AgreesWith-new (protected exists_in_store is_chunk_remotely_protected p) max_items,
    )
