-- ===== src/Collection/LocalFiles/Sparing.antt =====
-- Which files `collect_files_by_age` leaves alone.
use stopan.Prelude.{
  ℕ, suc, ◌≡◌, refl, sym, ap, ◌∙◌, subst, ◌⊎◌, inl, inr, ⊎_elim, Bool, true, false, not, Option,
  none, some, List, [], ◌∷◌, if◌then◌else◌, if-cases, Bool-cases, Option-cases, Result-cases,
  ok-inj, Result, ok,
}
use stopan.Protection.{ℤ, pos, ltz}
use stopan.Sorting.{sort_by}
use stopan.Collection.Files.{
  FilePath, path_le, path_eq, path_eq_iff, Stat, is_regular, OsError, FileSystem,
}
use stopan.Collection.PathSafety.{is_within, IsGcFile, validate_gc_regular_file, validate-IsGcFile}
use stopan.Collection.Removal.{
  Removal, kept, removed, state_after, try_remove, IsQuiet, try_remove-keeps,
}
use stopan.Collection.LocalFiles.{
  Sweep, new_sweep, count_file, weigh_file, retains, cutoff_of, max_age, after_removal,
  collect_file, consider_file, consider, consider_all, Request, collect_files_by_age,
}

after_removal-state :
    {State : Type 0} (path : FilePath) (w : Sweep State) (r : Removal State)
    → (after_removal path w r).state ≡ state_after r
unfolding after_removal
after_removal-state path w (kept e s) = refl
after_removal-state path w (removed size s) = refl

-- Why a file is not removed, from what `lstat` says of it at the start.
pub data Spared (root : FilePath) (retain_file : Option (FilePath → Bool)) (cutoff : Option ℤ)
    (q : FilePath) (seen : Result OsError Stat) : Type 0 where
  by_policy : retains retain_file q ≡ true → Spared root retain_file cutoff q seen
  disabled : cutoff ≡ none → Spared root retain_file cutoff q seen
  too_young :
      {st : Stat} {limit : ℤ}
      → seen ≡ ok st
      → cutoff ≡ some limit
      → ltz limit (pos st.st_mtime) ≡ true
      → Spared root retain_file cutoff q seen
  irregular :
      {st : Stat} → seen ≡ ok st → is_regular st ≡ false → Spared root retain_file cutoff q seen
  elsewhere : is_within root q ≡ false → Spared root retain_file cutoff q seen

module _ {State : Type 0} (fs : FileSystem State) (root : FilePath) (dry_run : Bool)
    (retain_file : Option (FilePath → Bool)) (cutoff : Option ℤ) where
  -- What led to the removal of a file.
  record Condemned (path : FilePath) (s after : State) : Type 0 where
    st : Stat
    limit : ℤ
    valid : validate_gc_regular_file fs s root path ≡ ok st
    enabled : cutoff ≡ some limit
    unretained : retains retain_file path ≡ false
    old : ltz limit (pos st.st_mtime) ≡ false
    wanted : dry_run ≡ false
    removal : after ≡ state_after (try_remove fs s root path st)

  collect_file-state :
      (path : FilePath) (st : Stat) (w : Sweep State)
      → ((collect_file fs root dry_run path st w).state ≡ w.state)
        ⊎ ((dry_run ≡ false)
            × ((collect_file fs root dry_run path st w).state
                ≡ state_after (try_remove fs w.state root path st)))
  unfolding collect_file count_file
  collect_file-state path st w =
      if-cases
        (λ (x : Sweep State).
          (x.state ≡ w.state)
          ⊎ ((dry_run ≡ false) × (x.state ≡ state_after (try_remove fs w.state root path st))))
        dry_run (λ _. inl refl)
        (λ h.
          inr (
            h,
            after_removal-state path (count_file path st w) (try_remove fs w.state root path st),
          ))

  -- Either nothing was removed, or the file was condemned.
  Left : FilePath → State → State → Type 0
  Left path s after = (after ≡ s) ⊎ Condemned path s after

  weigh_file-state :
      (limit : ℤ) (path : FilePath) (st : Stat) (w : Sweep State)
      → cutoff ≡ some limit
      → validate_gc_regular_file fs w.state root path ≡ ok st
      → Left path w.state (weigh_file fs root dry_run retain_file limit path st w).state
  unfolding weigh_file Left
  weigh_file-state limit path st w enabled valid =
      let P = λ (x : Sweep State). Left path w.state x.state in
      if-cases P (retains retain_file path) (λ _. inl refl)
        (λ unretained.
          if-cases P (ltz limit (pos st.st_mtime)) (λ _. inl refl)
            (λ old.
              ⊎_elim inl
                (λ (wanted, removal). inr (record {
                  st = st;
                  limit = limit;
                  valid = valid;
                  enabled = enabled;
                  unretained = unretained;
                  old = old;
                  wanted = wanted;
                  removal = removal;
                }))
                (collect_file-state path st w)))

  consider_file-state :
      (path : FilePath) (st : Stat) (w : Sweep State)
      → validate_gc_regular_file fs w.state root path ≡ ok st
      → Left path w.state (consider_file fs root dry_run retain_file cutoff path st w).state
  unfolding Left consider_file
  consider_file-state path st w valid = elim (Option-cases cutoff) [
    | inl off ↦ inl (ap (λ x. x.state) (off_case off))
    | inr (limit, on) ↦
        subst (λ (x : Sweep State). Left path w.state x.state) (sym (on_case limit on))
          (weigh_file-state limit path st w on valid)
  ]
    where
      off_case : cutoff ≡ none → consider_file fs root dry_run retain_file cutoff path st w ≡ w
      off_case off = rw (consider_file, off) refl

      on_case :
          (limit : ℤ)
          → cutoff ≡ some limit
          → consider_file fs root dry_run retain_file cutoff path st w
            ≡ weigh_file fs root dry_run retain_file limit path st w
      on_case limit on = rw (consider_file, on) refl

  consider-state :
      (path : FilePath) (w : Sweep State)
      → Left path w.state (consider fs root dry_run retain_file cutoff path w).state
  unfolding consider Left
  consider-state path w = elim (Result-cases (validate_gc_regular_file fs w.state root path)) [
    | inl (x, e) ↦ rw (consider, e) (inl refl)
    | inr (st, e) ↦
        rw (consider, e)
          (consider_file-state path st (record w { files_seen = suc w.files_seen }) e)
  ]

  -- A file that is spared was not condemned.
  Spared-Condemned :
      (q : FilePath) (s after : State)
      → Spared root retain_file cutoff q (fs.lstat s q)
      → Condemned q s after
      → ⊥
  Spared-Condemned q s after spared c = elim spared [
    | by_policy h ↦ cc (h, c.unretained)
    | disabled h ↦ cc (h, c.enabled)
    | too_young {st} {limit} look on young ↦
        let same_st = ok-inj (sym look ∙ file.seen) in
        let same_limit = some-inj (sym on ∙ c.enabled) in cc (young, c.old, same_st, same_limit)
    | irregular look h ↦
        let same_st = ok-inj (sym look ∙ file.seen) in cc (h, file.regular, same_st)
    | elsewhere h ↦ cc (h, file.inside)
  ]
    where
      some-inj : {a b : ℤ} → some a ≡ some b → a ≡ b
      some-inj h = cc

      file : IsGcFile fs s root q (c.st)
      file = validate-IsGcFile fs s root q c.st c.valid

  -- One round leaves a file that is spared.
  consider-keeps :
      (q path : FilePath) (w : Sweep State)
      → IsQuiet fs root q
      → Spared root retain_file cutoff q (fs.lstat w.state q)
      → fs.lstat ((consider fs root dry_run retain_file cutoff path w).state) q ≡ fs.lstat w.state q
  unfolding Left
  consider-keeps q path w quiet spared = elim (consider-state path w) [
    | inl same ↦ ap (λ s. fs.lstat s q) same
    | inr c ↦ elim (Bool-cases (path_eq path q)) [
      | inl here ↦ absurd (
          Spared-Condemned q w.state _ spared (
            subst
              (λ (p : FilePath).
                Condemned p w.state (consider fs root dry_run retain_file cutoff path w).state)
              ((path_eq_iff path q).0 here) c))
      | inr other ↦
          ap (λ s. fs.lstat s q) c.removal
          ∙ try_remove-keeps fs root q w.state path c.st quiet other
    ]
  ]

  consider_all-keeps :
      (q : FilePath) (files : List FilePath) (w : Sweep State)
      → IsQuiet fs root q
      → Spared root retain_file cutoff q (fs.lstat w.state q)
      → fs.lstat ((consider_all fs root dry_run retain_file cutoff files w).state) q
        ≡ fs.lstat w.state q
  unfolding consider_all
  consider_all-keeps q [] w quiet spared = refl
  consider_all-keeps q (path ∷ files) w quiet spared =
      let next = consider fs root dry_run retain_file cutoff path w in
      let same = consider-keeps q path w quiet spared in
      consider_all-keeps q files next quiet
        (subst (Spared root retain_file cutoff q) (sym same) spared)
      ∙ same

-- A file is as it was after `collect_files_by_age` if a policy retains it, if it is younger than
-- the maximum age or there is none, if it is no regular file, or if it is not below the root; other
-- programs leave it alone, and no other file that is removed is the same one under another path.
pub collect_files_by_age-spares :
    {State : Type 0} (fs : FileSystem State) (now : ℕ) (r : Request) (s : State) (q : FilePath)
    → IsQuiet fs r.root_dir q
    → Spared r.root_dir r.retain_file (cutoff_of now (max_age r.max_age_seconds)) q (fs.lstat s q)
    → fs.lstat ((collect_files_by_age fs now r s).state) q ≡ fs.lstat s q
unfolding collect_files_by_age
collect_files_by_age-spares fs now r s q quiet spared =
    let P = λ (x : Sweep _). fs.lstat x.state q ≡ fs.lstat s q in
    if-cases P (not (fs.exists s r.root_dir)) (λ _. refl)
      (λ _.
        if-cases P (not (fs.is_dir s r.root_dir)) (λ _. refl)
          (λ _.
            consider_all-keeps fs r.root_dir r.dry_run r.retain_file
              (cutoff_of now (max_age r.max_age_seconds)) q
              (if r.sort_files then sort_by path_le r.files else r.files) (new_sweep s) quiet
              spared))
