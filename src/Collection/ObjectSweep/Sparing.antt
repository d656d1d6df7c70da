-- ===== src/Collection/ObjectSweep/Sparing.antt =====
-- Which stored objects the sweep leaves alone.
use stopan.Prelude.{
  ℕ, suc, ◌≡◌, refl, sym, ap, ◌∙◌, subst, ◌⊎◌, inl, inr, ⊎_elim, Bool, true, not, ◌||◌, Option,
  some, List, [], ◌∷◌, ◌++◌, map, if◌then◌else◌, if-cases, Bool-cases, Result, ok, err, arith, Text,
  Bytes, codes, contains, text_eq_iff, finish-eq-ok,
}
use stopan.Protection.{ℤ}
use stopan.Objects.Kinds.{ObjectType}
use stopan.Objects.Envelope.{Codec, require_hash64}
use stopan.Objects.Walk.{collect_reachable_object_hashes}
use stopan.Objects.Walk.Reach.{Reach}
use stopan.Objects.Walk.Correct.{Reach-collected}
use stopan.Collection.Files.{
  FilePath, path_eq, path_eq_iff, minus, Stat, is_directory, OsError, FileSystem,
}
use stopan.Collection.PathSafety.{is_filesystem_redirection}
use stopan.Collection.Removal.{IsQuiet, try_remove-keeps}
use stopan.Collection.ObjectSweep.{
  ObjectSweep, new_object_sweep, stem, ends_stobj, sweep_seen, sweep_object, sweep_names,
  is_prefix_dir, sweep_prefixes, sweep_inspected, sweep_objects, collect_objects,
}
use stopan.Collection.ObjectSweep.Dooming.{
  SparedObject, dry, live_object, malformed, young_object, irregular_object, Doomed,
  sweep_seen-state, SparedObject-Doomed,
}

module _ {State : Type 0} (fs : FileSystem State) (root : FilePath) (live : List Text) (cutoff : ℤ)
    (dry_run : Bool) where
  -- What a step of the sweep has to keep.
  Unchanged : FilePath → ObjectSweep State → ObjectSweep State → Type 0
  Unchanged q w next =
      SparedObject root live cutoff dry_run q (fs.lstat w.state q)
      → fs.lstat next.state q ≡ fs.lstat w.state q

  Unchanged-then :
      (q : FilePath) (w next last : ObjectSweep State)
      → Unchanged q w next
      → Unchanged q next last
      → Unchanged q w last
  unfolding Unchanged
  Unchanged-then q w next last h k spared =
      k (subst (SparedObject root live cutoff dry_run q) (sym (h spared)) spared) ∙ h spared

  sweep_object-keeps :
      (q path : FilePath) (w : ObjectSweep State)
      → IsQuiet fs root q
      → Unchanged q w (sweep_object fs root live cutoff dry_run path w)
  unfolding Unchanged sweep_object
  sweep_object-keeps q path w quiet spared =
      let counted = record w { files_seen = suc w.files_seen } in
      let next = sweep_seen fs root live cutoff dry_run path counted in
      elim (sweep_seen-state fs root live cutoff dry_run path counted) [
        | inl same ↦ ap (λ s. fs.lstat s q) same
        | inr d ↦ elim (Bool-cases (path_eq path q)) [
          | inl here ↦ absurd (
              SparedObject-Doomed fs root live cutoff dry_run q w.state next.state spared (
                subst (λ (p : FilePath). Doomed fs root live cutoff dry_run p w.state next.state)
                  ((path_eq_iff path q).0 here) d))
          | inr other ↦
              ap (λ s. fs.lstat s q) d.removal
              ∙ try_remove-keeps fs root q w.state path d.st quiet other
        ]
      ]

  sweep_names-keeps :
      (q dir : FilePath) (names : List Text) (w : ObjectSweep State)
      → IsQuiet fs root q
      → Unchanged q w (sweep_names fs root live cutoff dry_run dir names w)
  unfolding sweep_names Unchanged
  sweep_names-keeps q dir [] w quiet = λ _. refl
  sweep_names-keeps q dir (name ∷ names) w quiet =
      let path = dir ++ name ∷ [] in
      let next = if ends_stobj name then sweep_object fs root live cutoff dry_run path w else w in
      Unchanged-then q w next (sweep_names fs root live cutoff dry_run dir names next)
        (if-cases (Unchanged q w) (ends_stobj name) (λ _. sweep_object-keeps q path w quiet)
          (λ _ _. refl))
        (sweep_names-keeps q dir names next quiet)

  sweep_prefixes-keeps :
      (q objects_dir : FilePath) (prefixes : List Text) (w : ObjectSweep State)
      → IsQuiet fs root q
      → Unchanged q w (sweep_prefixes fs root live cutoff dry_run objects_dir prefixes w)
  unfolding sweep_prefixes Unchanged
  sweep_prefixes-keeps q objects_dir [] w quiet = λ _. refl
  sweep_prefixes-keeps q objects_dir (prefix ∷ prefixes) w quiet =
      let dir = objects_dir ++ prefix ∷ [] in
      let is_prefix = is_prefix_dir prefix (fs.lstat w.state dir) in
      let names = fs.iterdir w.state dir in
      let next = if is_prefix then sweep_names fs root live cutoff dry_run dir names w else w in
      Unchanged-then q w next (sweep_prefixes fs root live cutoff dry_run objects_dir prefixes next)
        (if-cases (Unchanged q w) is_prefix (λ _. sweep_names-keeps q dir names w quiet)
          (λ _ _. refl))
        (sweep_prefixes-keeps q objects_dir prefixes next quiet)

  sweep_inspected-keeps :
      (q objects_dir : FilePath) (look : Result OsError Stat) (s : State)
      → IsQuiet fs root q
      → SparedObject root live cutoff dry_run q (fs.lstat s q)
      → fs.lstat ((sweep_inspected fs root live cutoff dry_run objects_dir look s).state) q
        ≡ fs.lstat s q
  unfolding sweep_inspected Unchanged
  sweep_inspected-keeps q objects_dir (err x) s quiet spared = refl
  sweep_inspected-keeps q objects_dir (ok st) s quiet spared =
      if-cases (λ (x : ObjectSweep State). fs.lstat x.state q ≡ fs.lstat s q)
        (is_filesystem_redirection st || not (is_directory st)) (λ _. refl)
        (λ _.
          sweep_prefixes-keeps q objects_dir (fs.iterdir s objects_dir) (new_object_sweep s) quiet
            spared)

  pub sweep_objects-keeps :
      (q : FilePath) (enabled : Bool) (s : State)
      → IsQuiet fs root q
      → SparedObject root live cutoff dry_run q (fs.lstat s q)
      → fs.lstat ((sweep_objects fs root live cutoff dry_run enabled s).state) q ≡ fs.lstat s q
  unfolding sweep_objects
  sweep_objects-keeps q enabled s quiet spared =
      let objects_dir = root ++ codes "objects" ∷ [] in
      if-cases (λ (x : ObjectSweep State). fs.lstat x.state q ≡ fs.lstat s q)
        (not enabled || not (fs.exists s objects_dir)) (λ _. refl)
        (λ _. sweep_inspected-keeps q objects_dir (fs.lstat s objects_dir) s quiet spared)

contains-map :
    (f : Text → Text) (h : Text) (l : List Text)
    → contains h l ≡ true
    → contains (f h) (map f l) ≡ true
unfolding contains
contains-map f h [] m = cc
contains-map f h (k ∷ l) m =
    ground (arith, text_eq_iff h k, text_eq_iff (f h) (f k), contains-map f h l)

weaken :
    {root : FilePath} {live : List Text} {cutoff : ℤ} {dry_run : Bool} {q : FilePath}
    {seen : Result OsError Stat}
    → SparedObject root [] cutoff dry_run q seen
    → SparedObject root live cutoff dry_run q seen
unfolding contains
weaken (dry h) = dry h
weaken (live_object h) = cc
weaken (malformed h) = malformed h
weaken (young_object look h) = young_object look h
weaken (irregular_object look h) = irregular_object look h

-- A file that is the file of an object that references lead to from a catalog.
pub record IsReached (codec : Codec) (read : Text → Option Bytes) (storage_id : Text → Text)
    (catalog_root : Text) (q : FilePath) : Type 0 where
  pub object_hash : Text
  pub object_type : ObjectType
  pub reach : Reach codec read catalog_root object_hash object_type
  pub named : stem q ≡ storage_id object_hash

-- When the collection of objects returns, the file of each object that references lead to from the
-- latest catalog is as it was, and so is every file that is malformed, younger than the grace period
-- or not regular, and every file after a dry run; other programs leave the file alone, and no other
-- file that is removed is the same one under another path.
pub collect_objects-spares :
    {State : Type 0} (fs : FileSystem State) (codec : Codec) (read : State → Text → Option Bytes)
    (storage_id : Text → Text) (fuel : ℕ) (root : FilePath) (catalog_hash catalog_root : Text)
    (now grace : ℕ) (dry_run include_objects : Bool) (s : State) (w : ObjectSweep State)
    (q : FilePath)
    → collect_objects fs codec read storage_id fuel root catalog_hash now grace dry_run
        include_objects s
      ≡ some (ok w)
    → require_hash64 catalog_hash ≡ ok catalog_root
    → IsQuiet fs root q
    → IsReached codec (read s) storage_id catalog_root q
      ⊎ SparedObject root [] (minus now grace) dry_run q (fs.lstat s q)
    → fs.lstat w.state q ≡ fs.lstat s q
unfolding collect_objects
collect_objects-spares fs codec read storage_id fuel root catalog_hash catalog_root now grace
      dry_run include_objects s w q e valid quiet why =
    let (live_hashes, marked, swept) =
      finish-eq-ok _ (collect_reachable_object_hashes codec (read s) fuel catalog_hash) e in
    let live = map storage_id live_hashes in
    let is_live = λ (o : IsReached codec (read s) storage_id catalog_root q). live_object (
      subst (λ (x : Text). contains x live ≡ true) (sym o.named)
        (contains-map storage_id o.object_hash live_hashes (
          Reach-collected codec (read s) fuel catalog_hash catalog_root live_hashes o.object_hash
            o.object_type marked valid o.reach))) in
    ap (λ x. fs.lstat x.state q) swept
    ∙ sweep_objects-keeps fs root live (minus now grace) dry_run q include_objects s quiet
        (⊎_elim is_live weaken why)
