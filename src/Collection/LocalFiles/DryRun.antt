-- ===== src/Collection/LocalFiles/DryRun.antt =====
-- What a dry run of `collect_files_by_age` reports.
use stopan.Prelude.{
  ℕ, ◌+◌, ◌≡◌, Bool, Option, List, [], ◌∷◌, ◌++◌, if◌then◌else◌, ◌||◌, Result, ok, err,
}
use stopan.Protection.{ℤ, pos, ltz}
use stopan.Collection.Files.{FilePath, Stat, FileSystem}
use stopan.Collection.PathSafety.{PathError, validate_gc_regular_file}
use stopan.Collection.LocalFiles.{Sweep, retains}

-- The paths and the sizes of files, and the sum of the sizes.
abbrev pub paths_of : List (FilePath × ℕ) → List FilePath
paths_of [] = []
paths_of ((path, size) ∷ files) = path ∷ paths_of files

abbrev pub total_of : List (FilePath × ℕ) → ℕ
total_of [] = 0
total_of ((path, size) ∷ files) = size + total_of files

module _ {State : Type 0} (fs : FileSystem State) (root : FilePath)
    (retain_file : Option (FilePath → Bool)) (limit : ℤ) (s : State) where
  -- A file with such checks of its path is to be collected, if it passes them, is not retained, and
  -- was not changed after the limit.
  abbrev pub judged : FilePath → Result PathError Stat → List (FilePath × ℕ)
  judged path (err e) = []
  judged path (ok st) =
      if retains retain_file path || ltz limit (pos st.st_mtime)
      then []
      else (path, st.st_size) ∷ []

  -- The files that are to be collected, in their order, with their sizes.
  unfoldable pub eligible : List FilePath → List (FilePath × ℕ)
  eligible [] = []
  eligible (path ∷ files) = judged path (validate_gc_regular_file fs s root path) ++ eligible files

-- From `w` to `w'` these files were reported and counted, and nothing else happened.
record IsReport {State : Type 0} (files : List (FilePath × ℕ)) (w w' : Sweep State) : Type 0 where
  same : w'.state ≡ w.state
  reported : w'.candidates ≡ w.candidates ++ paths_of files
  sizes : w'.bytes_collectable ≡ w.bytes_collectable + total_of files
  deleted : w'.files_deleted ≡ w.files_deleted
  freed : w'.bytes_deleted ≡ w.bytes_deleted
