-- ===== src/Collection/LocalFiles.antt =====
-- gc/local_files.py and the record of gc/models.py. The root is given as `resolve` returns it,
-- `now` is what `time.time()` returns, and `candidates` are the paths that are reported.
pub mod Sparing
pub mod Counts
pub mod DryRun
use stopan.Prelude.{
  ℕ, suc, ◌+◌, Bool, true, false, not, Option, none, some, List, [], ◌∷◌, ◌++◌, if◌then◌else◌,
  Result, ok, err,
}
use stopan.Protection.{ℤ, pos, negsuc, ltz}
use stopan.Sorting.{sort_by}
use stopan.Collection.Files.{FilePath, path_le, parent, minus, Stat, FileSystem}
use stopan.Collection.PathSafety.{validate_gc_regular_file}
use stopan.Collection.Removal.{
  GcError, bad_path, root_not_a_directory, Removal, kept, removed, add_dir, try_remove,
  fsync_touched_dirs,
}

-- The local variables of `collect_files_by_age`, and the state of the file system.
pub record Sweep (State : Type 0) : Type 0 where
  pub state : State
  pub files_seen : ℕ
  pub files_collectable : ℕ
  pub files_deleted : ℕ
  pub files_retained_by_policy : ℕ
  pub files_skipped_by_age : ℕ
  pub bytes_collectable : ℕ
  pub bytes_deleted : ℕ
  pub errors : List GcError
  pub touched_dirs : List FilePath
  pub candidates : List FilePath

abbrev pub new_sweep : {State : Type 0} → State → Sweep State
new_sweep s = record {
  state = s;
  files_seen = 0;
  files_collectable = 0;
  files_deleted = 0;
  files_retained_by_policy = 0;
  files_skipped_by_age = 0;
  bytes_collectable = 0;
  bytes_deleted = 0;
  errors = [];
  touched_dirs = [];
  candidates = [];
}

-- `max(int(max_age_seconds), 0)`
unfoldable pub max_age : Option ℤ → Option ℕ
max_age none = none
max_age (some (pos n)) = some n
max_age (some (negsuc n)) = some 0

unfoldable pub cutoff_of : ℕ → Option ℕ → Option ℤ
unfolding minus
cutoff_of now none = none
cutoff_of now (some age) = some (minus now age)

-- `retain_file is not None and retain_file(path)`
unfoldable pub retains : Option (FilePath → Bool) → FilePath → Bool
retains none path = false
retains (some retain_file) path = retain_file path

unfoldable pub after_removal :
    {State : Type 0} → FilePath → Sweep State → Removal State → Sweep State
unfolding add_dir parent
after_removal path w (kept e s) = record w { state = s; errors = w.errors ++ e ∷ [] }
after_removal path w (removed size s) = record w {
  state = s;
  files_deleted = suc w.files_deleted;
  bytes_deleted = w.bytes_deleted + size;
  touched_dirs = add_dir (parent path) w.touched_dirs;
}

-- `files_collectable += 1`, and the report.
unfoldable pub count_file : {State : Type 0} → FilePath → Stat → Sweep State → Sweep State
count_file path stat_result w = record w {
  files_collectable = suc w.files_collectable;
  bytes_collectable = w.bytes_collectable + stat_result.st_size;
  candidates = w.candidates ++ path ∷ [];
}

module _ {State : Type 0} (fs : FileSystem State) (root : FilePath) (dry_run : Bool) where
  -- A file that is old enough.
  unfoldable pub collect_file : FilePath → Stat → Sweep State → Sweep State
  unfolding after_removal try_remove count_file
  collect_file path stat_result w =
      if dry_run
      then count_file path stat_result w
      else after_removal path (count_file path stat_result w)
          (try_remove fs w.state root path stat_result)

  module _ (retain_file : Option (FilePath → Bool)) where
    -- A file that passed the checks on its path, with the limit of its age.
    unfoldable pub weigh_file : ℤ → FilePath → Stat → Sweep State → Sweep State
    unfolding collect_file retains
    weigh_file limit path stat_result w =
        if retains retain_file path
        then record w { files_retained_by_policy = suc w.files_retained_by_policy }
        else if ltz limit (pos stat_result.st_mtime)
        then record w { files_skipped_by_age = suc w.files_skipped_by_age }
        else collect_file path stat_result w

  module _ (retain_file : Option (FilePath → Bool)) (cutoff : Option ℤ) where
    unfoldable pub consider_file : FilePath → Stat → Sweep State → Sweep State
    unfolding weigh_file
    consider_file path stat_result w = elim cutoff [
      | none ↦ w
      | some limit ↦ weigh_file retain_file limit path stat_result w
    ]

    -- The body of the loop.
    unfoldable pub consider : FilePath → Sweep State → Sweep State
    unfolding validate_gc_regular_file consider_file
    consider path w = elim (validate_gc_regular_file fs w.state root path) [
      | err e ↦ record w { errors = w.errors ++ bad_path e ∷ [] }
      | ok stat_result ↦ consider_file path stat_result (record w { files_seen = suc w.files_seen })
    ]

    unfoldable pub consider_all : List FilePath → Sweep State → Sweep State
    unfolding consider
    consider_all [] w = w
    consider_all (path ∷ files) w = consider_all files (consider path w)

-- The arguments of a collection.
pub record Request : Type 0 where
  pub root_dir : FilePath
  pub files : List FilePath
  pub max_age_seconds : Option ℤ
  pub dry_run : Bool
  pub retain_file : Option (FilePath → Bool)
  pub sort_files : Bool

-- The counters of the result are those of the sweep.
unfoldable pub collect_files_by_age :
    {State : Type 0} → FileSystem State → ℕ → Request → State → Sweep State
unfolding consider_all max_age cutoff_of sort_by path_le fsync_touched_dirs
collect_files_by_age fs now r s =
    if not (fs.exists s r.root_dir)
    then new_sweep s
    else if not (fs.is_dir s r.root_dir)
    then record (new_sweep s) { errors = root_not_a_directory ∷ [] }
    else let files = if r.sort_files then sort_by path_le r.files else r.files in
      let w =
        consider_all fs r.root_dir r.dry_run r.retain_file
          (cutoff_of now (max_age r.max_age_seconds)) files (new_sweep s) in
      record w { errors = fsync_touched_dirs fs w.state w.touched_dirs w.errors }
