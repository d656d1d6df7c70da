-- ===== src/Objects/Tests.antt =====
-- Runs of the graph walk on the sample.
use stopan.Prelude.{
  ◌≡◌, refl, ◌↔◌, true, some, List, [], ◌∷◌, Text, Bytes, contains, text_eq, Result, ok, err, arith,
  lookup, strip,
}
use stopan.Objects.Json.{get}
use stopan.Objects.Kinds.{ObjectType}
use stopan.Objects.Envelope.{WalkError, type_mismatch, require_hash64, iter_object_refs}
use stopan.Objects.Walk.{fetch, collect_reachable_object_hashes, collect_reachable_object_bytes}
use stopan.Objects.Walk.Reach.{Reach}
use stopan.Objects.Walk.Ends.{HasAll, work_left}
use stopan.Objects.Walk.Correct.{
  collect_reachable_object_hashes-Reach, collect_reachable_object_bytes-Reach,
  collect_reachable_object_hashes-ends,
}
use stopan.Objects.Sample.{
  hash_of, toy_codec, toy_read, toy_hexdigest, found, found_bytes, catalog_hash,
}

run : collect_reachable_object_hashes toy_codec toy_read 7 catalog_hash ≡ some (ok found)
unfolding collect_reachable_object_hashes text_eq get
run = refl

run_bytes : collect_reachable_object_bytes toy_codec toy_read 7 catalog_hash ≡ some (ok found_bytes)
unfolding collect_reachable_object_bytes text_eq get
run_bytes = refl

-- A snapshot index cannot be the root.
run_mismatch :
    collect_reachable_object_hashes toy_codec toy_read 7 (hash_of 2) ≡ some (err type_mismatch)
unfolding collect_reachable_object_hashes text_eq get
run_mismatch = refl

collect_reachable_object_hashes-Reach_example : (contains (hash_of 2) found ≡ true) ↔ (
    (t : ObjectType) × ((u : ObjectType)
      → Reach toy_codec toy_read (hash_of 1) (hash_of 2) u ↔ (u ≡ t)))
unfolding require_hash64 strip
collect_reachable_object_hashes-Reach_example =
    collect_reachable_object_hashes-Reach toy_codec toy_read 7 catalog_hash (hash_of 1) found
      (hash_of 2) run refl

collect_reachable_object_bytes-Reach_example :
    ((t : ObjectType) × Reach toy_codec toy_read (hash_of 1) (hash_of 2) t) ↔ (
      (b : Bytes) × (lookup (hash_of 2) found_bytes ≡ some b)
      × (toy_read (hash_of 2) ≡ some b)
      × (require_hash64 (hash_of 2) ≡ ok (toy_hexdigest b)))
unfolding require_hash64 strip
collect_reachable_object_bytes-Reach_example =
    collect_reachable_object_bytes-Reach toy_codec toy_read 7 catalog_hash (hash_of 1) found_bytes
      (hash_of 2) run_bytes refl

toy-HasAll : HasAll toy_codec toy_read (hash_of 1 ∷ hash_of 2 ∷ [])
unfolding contains
toy-HasAll h b e = ground arith

work : work_left toy_codec toy_read (hash_of 1 ∷ hash_of 2 ∷ []) [] ≡ 4
unfolding fetch text_eq get iter_object_refs contains
work = refl

collect_reachable_object_hashes-ends_example :
    (r : Result WalkError (List Text)) × (collect_reachable_object_hashes toy_codec toy_read 6
        catalog_hash
      ≡ some r)
collect_reachable_object_hashes-ends_example =
    collect_reachable_object_hashes-ends toy_codec toy_read (hash_of 1 ∷ hash_of 2 ∷ []) 6
      catalog_hash toy-HasAll (omega (arith, work))
