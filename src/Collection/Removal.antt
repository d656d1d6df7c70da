-- ===== src/Collection/Removal.antt =====
-- The removal of one candidate, which gc/local_files.py and metadata/objects/gc.py do alike: look
-- at the file again, and unlink it if it is still the file that was seen.
use stopan.Prelude.{
  ℕ, ◌≡◌, refl, ◌∙◌, false, not, none, some, List, [], ◌∷◌, ◌++◌, if◌then◌else◌, if-cases, ok, err,
  inl, inr, Result-cases, Option-cases,
}
use stopan.Sorting.{sort_by}
use stopan.Collection.Files.{FilePath, path_eq, path_le, Stat, FileSystem}
use stopan.Collection.PathSafety.{PathError, validate_gc_regular_file, same_file_identity}

pub data GcError : Type 0 where
  bad_path : PathError → GcError
  changed unlink_failed not_inspected : GcError
  fsync_failed root_not_a_directory : GcError

pub data Removal (State : Type 0) : Type 0 where
  kept : GcError → State → Removal State
  removed : ℕ → State → Removal State

abbrev pub state_after : {State : Type 0} → Removal State → State
state_after (kept e s) = s
state_after (removed size s) = s

-- `touched_dirs.add(directory)`
unfoldable pub add_dir : FilePath → List FilePath → List FilePath
unfolding path_eq
add_dir directory [] = directory ∷ []
add_dir directory (d ∷ ds) = if path_eq directory d then d ∷ ds else d ∷ add_dir directory ds

module _ {State : Type 0} (fs : FileSystem State) where
  unfoldable pub unlinked : State → FilePath → Stat → Removal State
  unlinked s path current_stat = elim (fs.unlink s path) [
    | none ↦ kept unlink_failed s
    | some after ↦ removed current_stat.st_size after
  ]

  unfoldable pub try_remove : State → FilePath → FilePath → Stat → Removal State
  unfolding validate_gc_regular_file same_file_identity unlinked
  try_remove before root path stat_result =
      let s = fs.elapse before in
      elim (validate_gc_regular_file fs s root path) [
        | err e ↦ kept (bad_path e) s
        | ok current_stat ↦
            if not (same_file_identity stat_result current_stat)
            then kept changed s
            else unlinked s path current_stat
      ]

  -- `_fsync_touched_dirs`
  unfoldable pub fsync_dirs : State → List FilePath → List GcError → List GcError
  fsync_dirs s [] errors = errors
  fsync_dirs s (directory ∷ dirs) errors =
      fsync_dirs s dirs (if fs.fsync_dir s directory then errors else errors ++ fsync_failed ∷ [])

  unfoldable pub fsync_touched_dirs : State → List FilePath → List GcError → List GcError
  unfolding sort_by path_le fsync_dirs
  fsync_touched_dirs s touched_dirs errors = fsync_dirs s (sort_by path_le touched_dirs) errors

  -- A path whose file nobody else touches and that is no other name of a file that is removed.
  pub record IsQuiet (root q : FilePath) : Type 0 where
    pub elapse_keeps : (s : State) → fs.lstat (fs.elapse s) q ≡ fs.lstat s q
    pub unlink_keeps :
        (s after : State) (p : FilePath) (st : Stat)
        → validate_gc_regular_file fs s root p ≡ ok st
        → fs.unlink s p ≡ some after
        → path_eq p q ≡ false
        → fs.lstat after q ≡ fs.lstat s q

  unlinked-keeps :
      (root q : FilePath) (s : State) (p : FilePath) (st : Stat)
      → IsQuiet root q
      → validate_gc_regular_file fs s root p ≡ ok st
      → path_eq p q ≡ false
      → fs.lstat (state_after (unlinked s p st)) q ≡ fs.lstat s q
  unfolding unlinked
  unlinked-keeps root q s p st quiet valid other = elim (Option-cases (fs.unlink s p)) [
    | inl e ↦ rw (unlinked, e) refl
    | inr (after, e) ↦ rw (unlinked, e) (quiet.unlink_keeps s after p st valid e other)
  ]

  -- The removal of a file leaves the others.
  pub try_remove-keeps :
      (root q : FilePath) (s : State) (p : FilePath) (st : Stat)
      → IsQuiet root q
      → path_eq p q ≡ false
      → fs.lstat (state_after (try_remove s root p st)) q ≡ fs.lstat s q
  unfolding try_remove
  try_remove-keeps root q s p st quiet other =
      elim (Result-cases (validate_gc_regular_file fs (fs.elapse s) root p)) [
        | inl (x, e) ↦ rw (try_remove, e) (quiet.elapse_keeps s)
        | inr (current, e) ↦
            rw (try_remove, e)
              (if-cases (λ r. fs.lstat (state_after r) q ≡ fs.lstat s q)
                (not (same_file_identity st current)) (λ _. quiet.elapse_keeps s)
                (λ _.
                  unlinked-keeps root q (fs.elapse s) p current quiet e other
                  ∙ quiet.elapse_keeps s))
      ]
