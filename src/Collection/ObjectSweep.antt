-- ===== src/Collection/ObjectSweep.antt =====
-- The sweep of the stored objects in metadata/objects/gc.py, after the walk that marks them. The
-- pointer to the latest catalog, the storage identifier of an object and the reading of an object
-- are parameters; the grace period is a natural number, so the check of it has nothing to reject.
pub mod Dooming
pub mod Sparing
use stopan.Prelude.{
  ℕ, zero, suc, ◌+◌, ◌-◌, leb, ltb, ◌==◌, Bool, true, false, not, ◌&&◌, ◌||◌, Option, none, some,
  List, [], ◌∷◌, ◌++◌, map, if◌then◌else◌, all, length, take, drop, Text, Bytes, codes, text_eq,
  contains, Result, ok, err, finish,
}
use stopan.Protection.{ℤ, pos, ltz}
use stopan.Erasure.Models.{is_hex_lower}
use stopan.Objects.Envelope.{Codec, WalkError}
use stopan.Objects.Walk.{collect_reachable_object_hashes}
use stopan.Collection.Files.{
  FilePath, path_le, name_of, parent, minus, Stat, is_directory, OsError, FileSystem,
}
use stopan.Collection.PathSafety.{is_filesystem_redirection, validate_gc_regular_file}
use stopan.Collection.Removal.{
  GcError, bad_path, not_inspected, root_not_a_directory, Removal, kept, removed, add_dir,
  try_remove, fsync_touched_dirs,
}

-- `_ObjectSweepStats` with the lists that the sweep extends, and the state of the file system.
pub record ObjectSweep (State : Type 0) : Type 0 where
  pub state : State
  pub files_seen : ℕ
  pub files_live : ℕ
  pub files_collectable : ℕ
  pub files_deleted : ℕ
  pub files_skipped_by_grace : ℕ
  pub files_malformed : ℕ
  pub bytes_collectable : ℕ
  pub bytes_deleted : ℕ
  pub errors : List GcError
  pub touched_dirs : List FilePath
  pub candidates : List FilePath

abbrev pub new_object_sweep : {State : Type 0} → State → ObjectSweep State
new_object_sweep s = record {
  state = s;
  files_seen = 0;
  files_live = 0;
  files_collectable = 0;
  files_deleted = 0;
  files_skipped_by_grace = 0;
  files_malformed = 0;
  bytes_collectable = 0;
  bytes_deleted = 0;
  errors = [];
  touched_dirs = [];
  candidates = [];
}

-- What stands before the last dot, if there is one.
unfoldable pub before_last_dot : Text → Option Text
before_last_dot [] = none
before_last_dot (c ∷ rest) = elim (before_last_dot rest) [
  | some front ↦ some (c ∷ front)
  | none ↦ if c == b'.' then some [] else none
]

-- `path.stem`: a name whose only dots are its first or its last character has no suffix.
unfoldable pub stem : FilePath → Text
unfolding name_of before_last_dot
stem path = elim (before_last_dot (name_of path)) [
  | none ↦ name_of path
  | some front ↦
      if ltb 0 (length front) && ltb (suc (length front)) (length (name_of path))
      then front
      else name_of path
]

-- `_STORAGE_FILE_RE`
unfoldable pub is_storage_file : Text → Bool
unfolding is_hex_lower text_eq
is_storage_file name =
    length name == 70 && all is_hex_lower (take 64 name) && text_eq (drop 64 name) (codes ".stobj")

unfoldable pub is_malformed : FilePath → Bool
unfolding is_storage_file name_of parent stem text_eq
is_malformed path =
    not (is_storage_file (name_of path))
    || not (text_eq (name_of (parent path)) (take 2 (stem path)))

-- `name.endswith(".stobj")`
unfoldable pub ends_stobj : Text → Bool
unfolding text_eq
ends_stobj name =
    if leb 6 (length name) then text_eq (drop (length name - 6) name) (codes ".stobj") else false

unfoldable pub after_object_removal :
    {State : Type 0} → FilePath → ObjectSweep State → Removal State → ObjectSweep State
unfolding add_dir parent
after_object_removal path w (kept e s) = record w { state = s; errors = w.errors ++ e ∷ [] }
after_object_removal path w (removed size s) = record w {
  state = s;
  files_deleted = suc w.files_deleted;
  bytes_deleted = w.bytes_deleted + size;
  touched_dirs = add_dir (parent path) w.touched_dirs;
}

unfoldable pub count_object :
    {State : Type 0} → FilePath → Stat → ObjectSweep State → ObjectSweep State
count_object path stat_result w = record w {
  files_collectable = suc w.files_collectable;
  bytes_collectable = w.bytes_collectable + stat_result.st_size;
  candidates = w.candidates ++ path ∷ [];
}

unfoldable pub is_prefix_dir : Text → Result OsError Stat → Bool
unfolding is_filesystem_redirection
is_prefix_dir name (err _) = false
is_prefix_dir name (ok st) =
    not (is_filesystem_redirection st || not (is_directory st) || not (length name == 2))

module _ {State : Type 0} (fs : FileSystem State) (root : FilePath) (live_storage_ids : List Text)
    (cutoff : ℤ) (dry_run : Bool) where
  -- A file that is not live and passed the checks on its path.
  unfoldable pub weigh_object : FilePath → Stat → ObjectSweep State → ObjectSweep State
  unfolding after_object_removal try_remove count_object
  weigh_object path stat_result w =
      if ltz cutoff (pos stat_result.st_mtime)
      then record w { files_skipped_by_grace = suc w.files_skipped_by_grace }
      else if dry_run
      then count_object path stat_result w
      else after_object_removal path (count_object path stat_result w)
          (try_remove fs w.state root path stat_result)

  unfoldable pub examine_object : FilePath → ObjectSweep State → ObjectSweep State
  unfolding validate_gc_regular_file weigh_object
  examine_object path w = elim (validate_gc_regular_file fs w.state root path) [
    | err e ↦ record w { errors = w.errors ++ bad_path e ∷ [] }
    | ok stat_result ↦ weigh_object path stat_result w
  ]

  -- The body of the loop, after the file is counted as seen.
  unfoldable pub sweep_seen : FilePath → ObjectSweep State → ObjectSweep State
  unfolding is_malformed contains stem examine_object
  sweep_seen path w =
      if is_malformed path
      then record w { files_malformed = suc w.files_malformed }
      else if contains (stem path) live_storage_ids
      then record w { files_live = suc w.files_live }
      else examine_object path w

  -- The body of the loop.
  unfoldable pub sweep_object : FilePath → ObjectSweep State → ObjectSweep State
  unfolding sweep_seen
  sweep_object path w = sweep_seen path (record w { files_seen = suc w.files_seen })

  -- The files of one directory of `_iter_object_files`, which yields between the removals.
  unfoldable pub sweep_names : FilePath → List Text → ObjectSweep State → ObjectSweep State
  unfolding ends_stobj sweep_object
  sweep_names dir [] w = w
  sweep_names dir (name ∷ names) w =
      sweep_names dir names (if ends_stobj name then sweep_object (dir ++ name ∷ []) w else w)

  -- The outer loop of `_iter_object_files`.
  unfoldable pub sweep_prefixes : FilePath → List Text → ObjectSweep State → ObjectSweep State
  unfolding is_prefix_dir sweep_names
  sweep_prefixes objects_dir [] w = w
  sweep_prefixes objects_dir (prefix ∷ prefixes) w =
      let dir = objects_dir ++ prefix ∷ [] in
      sweep_prefixes objects_dir prefixes (
        if is_prefix_dir prefix (fs.lstat w.state dir)
        then sweep_names dir (fs.iterdir w.state dir) w
        else w)

  -- The sweep of a directory that can be inspected.
  unfoldable pub sweep_inspected : FilePath → Result OsError Stat → State → ObjectSweep State
  unfolding is_filesystem_redirection sweep_prefixes fsync_touched_dirs
  sweep_inspected objects_dir (err _) s = record (new_object_sweep s) {
    errors = not_inspected ∷ [];
  }
  sweep_inspected objects_dir (ok st) s =
      if is_filesystem_redirection st || not (is_directory st)
      then record (new_object_sweep s) { errors = root_not_a_directory ∷ [] }
      else let w = sweep_prefixes objects_dir (fs.iterdir s objects_dir) (new_object_sweep s) in
        record w { errors = fsync_touched_dirs fs w.state w.touched_dirs w.errors }

  -- `_sweep_objects`
  unfoldable pub sweep_objects : Bool → State → ObjectSweep State
  unfolding sweep_inspected
  sweep_objects enabled s =
      let objects_dir = root ++ codes "objects" ∷ [] in
      if not enabled || not (fs.exists s objects_dir)
      then new_object_sweep s
      else sweep_inspected objects_dir (fs.lstat s objects_dir) s

-- The part of `collect` on objects: mark what the latest catalog reaches, and sweep the rest.
unfoldable pub collect_objects :
    {State : Type 0}
    → FileSystem State
    → Codec
    → (State → Text → Option Bytes)
    → (Text → Text)
    → ℕ
    → FilePath
    → Text
    → ℕ
    → ℕ
    → Bool
    → Bool
    → State
    → Option (Result WalkError (ObjectSweep State))
unfolding collect_reachable_object_hashes minus sweep_objects
collect_objects fs codec read storage_id fuel root catalog_hash now grace dry_run include_objects
      s =
    finish
      (λ live_hashes.
        sweep_objects fs root (map storage_id live_hashes) (minus now grace) dry_run include_objects
          s)
      (collect_reachable_object_hashes codec (read s) fuel catalog_hash)
