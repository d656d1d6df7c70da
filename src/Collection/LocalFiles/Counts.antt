-- ===== src/Collection/LocalFiles/Counts.antt =====
-- What `collect_files_by_age` counts.
use stopan.Prelude.{
  ℕ, suc, ◌+◌, ◌≤◌, ◌<◌, ◌≡◌, refl, sym, ap, subst, inl, inr, Bool, not, Option, some, List, [],
  ◌∷◌, if◌then◌else◌, if-cases, Result-cases, arith, length, length-append,
}
use stopan.Protection.{ℤ, pos, ltz}
use stopan.Sorting.{sort_by}
use stopan.Collection.Files.{FilePath, path_le, Stat, FileSystem}
use stopan.Collection.PathSafety.{validate_gc_regular_file}
use stopan.Collection.Removal.{
  GcError, root_not_a_directory, fsync_touched_dirs, Removal, kept, removed, try_remove,
}
use stopan.Collection.LocalFiles.{
  Sweep, new_sweep, retains, cutoff_of, max_age, after_removal, count_file, collect_file,
  weigh_file, consider_file, consider, consider_all, Request, collect_files_by_age,
}

-- Each file seen is collectable, retained or too young, each collectable file was reported, and no
-- more were deleted.
pub record Counts {State : Type 0} (w : Sweep State) : Type 0 where
  pub total :
      w.files_seen ≡ w.files_collectable + w.files_retained_by_policy + w.files_skipped_by_age
  pub reported : length w.candidates ≡ w.files_collectable
  pub few : w.files_deleted ≤ w.files_collectable

-- The same with the file at hand not counted.
record Between {State : Type 0} (w : Sweep State) : Type 0 where
  total :
      w.files_seen ≡ suc (w.files_collectable + w.files_retained_by_policy + w.files_skipped_by_age)
  reported : length w.candidates ≡ w.files_collectable
  few : w.files_deleted ≤ w.files_collectable

after_removal-Counts :
    {State : Type 0} (path : FilePath) (w : Sweep State) (r : Removal State)
    → Counts w
    → w.files_deleted < w.files_collectable
    → Counts (after_removal path w r)
unfolding after_removal
after_removal-Counts path w (kept e s) c h = record {
  total = c.total;
  reported = c.reported;
  few = c.few;
}
after_removal-Counts path w (removed size s) c h = record {
  total = c.total;
  reported = c.reported;
  few = omega arith;
}

module _ {State : Type 0} (fs : FileSystem State) (root : FilePath) (dry_run : Bool)
    (retain_file : Option (FilePath → Bool)) where
  count_file-Counts :
      (path : FilePath) (st : Stat) (w : Sweep State) → Between w → Counts (count_file path st w)
  unfolding count_file
  count_file-Counts path st w b = record {
    total = omega (arith, b.total);
    reported = omega (arith, b.reported, length-append w.candidates (path ∷ []));
    few = omega (arith, b.few);
  }

  count_file-few :
      (path : FilePath) (st : Stat) (w : Sweep State)
      → Between w
      → (count_file path st w).files_deleted < (count_file path st w).files_collectable
  unfolding count_file
  count_file-few path st w b = omega (arith, b.few)

  collect_file-Counts :
      (path : FilePath) (st : Stat) (w : Sweep State)
      → Between w
      → Counts (collect_file fs root dry_run path st w)
  unfolding collect_file
  collect_file-Counts path st w b =
      if-cases Counts dry_run (λ _. count_file-Counts path st w b)
        (λ _.
          after_removal-Counts path (count_file path st w) (try_remove fs w.state root path st)
            (count_file-Counts path st w b) (count_file-few path st w b))

  weigh_file-Counts :
      (limit : ℤ) (path : FilePath) (st : Stat) (w : Sweep State)
      → Between w
      → Counts (weigh_file fs root dry_run retain_file limit path st w)
  unfolding weigh_file
  weigh_file-Counts limit path st w b =
      if-cases Counts (retains retain_file path)
        (λ _. record { total = omega (arith, b.total); reported = b.reported; few = b.few })
        (λ _.
          if-cases Counts (ltz limit (pos st.st_mtime))
            (λ _. record { total = omega (arith, b.total); reported = b.reported; few = b.few })
            (λ _. collect_file-Counts path st w b))

  consider-Counts :
      (limit : ℤ) (path : FilePath) (w : Sweep State)
      → Counts w
      → Counts (consider fs root dry_run retain_file (some limit) path w)
  unfolding consider consider_file
  consider-Counts limit path w c =
      elim (Result-cases (validate_gc_regular_file fs w.state root path)) [
        | inl (x, e) ↦
            rw (consider, e) (record { total = c.total; reported = c.reported; few = c.few })
        | inr (st, e) ↦
            rw (consider, e)
              (weigh_file-Counts limit path st (record w { files_seen = suc w.files_seen })
                (record { total = ap suc c.total; reported = c.reported; few = c.few }))
      ]

  consider_all-Counts :
      (limit : ℤ) (files : List FilePath) (w : Sweep State)
      → Counts w
      → Counts (consider_all fs root dry_run retain_file (some limit) files w)
  unfolding consider_all
  consider_all-Counts limit [] w c = c
  consider_all-Counts limit (path ∷ files) w c =
      consider_all-Counts limit files (consider fs root dry_run retain_file (some limit) path w)
        (consider-Counts limit path w c)

Counts-new : {State : Type 0} (s : State) → Counts (new_sweep s)
Counts-new s = record { total = refl; reported = refl; few = omega arith }

Counts-errors :
    {State : Type 0} (w : Sweep State) (errors : List GcError)
    → Counts w
    → Counts (record w { errors = errors })
Counts-errors w errors c = record { total = c.total; reported = c.reported; few = c.few }

-- A collection with a limit of the age keeps its counters in step.
pub collect_files_by_age-Counts :
    {State : Type 0} (fs : FileSystem State) (now : ℕ) (r : Request) (s : State) (limit : ℤ)
    → cutoff_of now (max_age r.max_age_seconds) ≡ some limit
    → Counts (collect_files_by_age fs now r s)
unfolding collect_files_by_age
collect_files_by_age-Counts fs now r s limit on =
    let files = if r.sort_files then sort_by path_le r.files else r.files in
    let w =
      consider_all fs r.root_dir r.dry_run r.retain_file (cutoff_of now (max_age r.max_age_seconds))
        files (new_sweep s) in
    let counted =
      subst
        (λ (c : Option ℤ).
          Counts (consider_all fs r.root_dir r.dry_run r.retain_file c files (new_sweep s)))
        (sym on)
        (consider_all-Counts fs r.root_dir r.dry_run r.retain_file limit files (new_sweep s)
          (Counts-new s)) in
    let start = Counts-new s in
    if-cases Counts (not (fs.exists s r.root_dir)) (λ _. start)
      (λ _.
        if-cases Counts (not (fs.is_dir s r.root_dir))
          (λ _. Counts-errors (new_sweep s) (root_not_a_directory ∷ []) start)
          (λ _. Counts-errors w (fsync_touched_dirs fs w.state w.touched_dirs w.errors) counted))
