-- ===== src/Objects/Walk.antt =====
-- `_collect_reachable_objects` of metadata/objects/graph/walk.py and the two functions that call
-- it. The end of the list `pending` is the head of the list here. The loop runs on fuel: `none`
-- is a run that the fuel cuts short. `read` stands for `read_object_bytes`, and is `none` where
-- that raises.
pub mod Follow
pub mod Rounds
pub mod Reach
pub mod Ends
pub mod Correct
use stopan.Prelude.{
  ℕ, zero, suc, Bool, true, false, not, Option, none, some, List, [], ◌∷◌, if◌then◌else◌, Text,
  Bytes, text_eq, contains, Dict, lookup, insert, Result, ok, err, ◌>>=◌, ◌>>◌, raise_if, attempt,
  finish,
}
use stopan.Objects.Json.{Fields, object}
use stopan.Objects.Kinds.{ObjectType, catalog, same_type}
use stopan.Objects.Envelope.{
  WalkError, unreadable, type_mismatch, incompatible_types, Codec, Refs, ended, raised, yielded,
  decode_object_envelope, iter_object_refs, require_hash64,
}

pub record Walk : Type 0 where
  pub pending : List (Text × ObjectType)
  pub expected_types : Dict ObjectType
  pub seen : List Text
  pub objects : Dict Bytes

-- `d.setdefault(key, value)`
unfoldable pub setdefault : Text → ObjectType → Dict ObjectType → Dict ObjectType
unfolding lookup insert
setdefault key value d = elim (lookup key d) [ none ↦ insert key value d | some _ ↦ d ]

-- `previous_type is not None and previous_type != ref_type`
unfoldable pub disagrees : Option ObjectType → ObjectType → Bool
unfolding same_type
disagrees none ref_type = false
disagrees (some previous_type) ref_type = not (same_type previous_type ref_type)

-- The loop over the references of an object, with `expected_types` and `pending`.
unfoldable pub follow :
    List Text
    → Dict ObjectType
    → List (Text × ObjectType)
    → Refs
    → Result WalkError (Dict ObjectType × List (Text × ObjectType))
unfolding disagrees setdefault contains lookup
follow seen expected_types pending ended = ok (expected_types, pending)
follow seen expected_types pending (raised e) = err e
follow seen expected_types pending (yielded ref_type ref_hash rest) = do
  raise_if (disagrees (lookup ref_hash expected_types) ref_type) incompatible_types
  follow seen (setdefault ref_hash ref_type expected_types)
      (if contains ref_hash seen then pending else (ref_hash, ref_type) ∷ pending) rest

unfoldable pub read_bytes : Option Bytes → Result WalkError Bytes
read_bytes none = err unreadable
read_bytes (some canonical_bytes) = ok canonical_bytes

module _ (codec : Codec) (read : Text → Option Bytes) where
  -- Reading an object and decoding it against its hash.
  unfoldable pub fetch : Text → Result WalkError (Bytes × ObjectType × Fields)
  unfolding read_bytes decode_object_envelope
  fetch object_hash = do
    canonical_bytes ← read_bytes (read object_hash)
    decoded ← decode_object_envelope codec canonical_bytes (some object_hash)
    ok (canonical_bytes, decoded.0, decoded.1)

  -- The body of the loop for an item that is popped and was not seen.
  unfoldable pub visit :
      Bool → Walk → Text → ObjectType → List (Text × ObjectType) → Result WalkError Walk
  unfolding fetch follow same_type iter_object_refs insert
  visit collect_bytes w object_hash expected_type rest = do
    fetched ← fetch object_hash
    raise_if (not (same_type (fetched.1) expected_type)) type_mismatch
    let seen = object_hash ∷ w.seen
    followed ← follow seen w.expected_types rest (iter_object_refs (object (fetched.2)))
    ok (record {
      pending = followed.1;
      expected_types = followed.0;
      seen = seen;
      objects = if collect_bytes then insert object_hash (fetched.0) w.objects else w.objects;
    })

  -- One round of the `while` loop, after the pop.
  unfoldable pub round :
      Bool → Walk → Text → ObjectType → List (Text × ObjectType) → Result WalkError Walk
  unfolding contains visit
  round collect_bytes w object_hash expected_type rest =
      if contains object_hash w.seen
      then ok (record w { pending = rest })
      else visit collect_bytes w object_hash expected_type rest

  unfoldable pub walk_loop : ℕ → Bool → Walk → Option (Result WalkError Walk)
  unfolding round
  walk_loop zero collect_bytes w = none
  walk_loop (suc fuel) collect_bytes w = elim w.pending [
    | [] ↦ some (ok w)
    | top ∷ rest ↦ elim (round collect_bytes w (top.0) (top.1) rest) [
      | err e ↦ some (err e)
      | ok next ↦ walk_loop fuel collect_bytes next
    ]
  ]

  abbrev pub start : Text → Walk
  start root_hash = record {
    pending = (root_hash, catalog) ∷ [];
    expected_types = (root_hash, catalog) ∷ [];
    seen = [];
    objects = [];
  }

  unfoldable pub collect_reachable_objects :
      ℕ → Text → Bool → Option (Result WalkError (List Text × Dict Bytes))
  unfolding require_hash64 walk_loop
  collect_reachable_objects fuel catalog_hash collect_bytes =
      attempt (require_hash64 catalog_hash) (λ root_hash.
        finish (λ w. (w.seen, w.objects)) (walk_loop fuel collect_bytes (start root_hash)))

  unfoldable pub collect_reachable_object_hashes : ℕ → Text → Option (Result WalkError (List Text))
  unfolding collect_reachable_objects
  collect_reachable_object_hashes fuel catalog_hash =
      finish (λ found. found.0) (collect_reachable_objects fuel catalog_hash false)

  unfoldable pub collect_reachable_object_bytes : ℕ → Text → Option (Result WalkError (Dict Bytes))
  unfolding collect_reachable_objects
  collect_reachable_object_bytes fuel catalog_hash =
      finish (λ found. found.1) (collect_reachable_objects fuel catalog_hash true)
