-- ===== src/Collection/ObjectSweep/Dooming.antt =====
-- What leads to the removal of a stored object.
use stopan.Prelude.{
  ◌≡◌, refl, sym, ◌∙◌, ◌⊎◌, inl, inr, Bool, true, false, List, if-cases, Result-cases, ok-inj,
  Result, ok, Text, contains,
}
use stopan.Protection.{ℤ, pos, ltz}
use stopan.Collection.Files.{FilePath, Stat, is_regular, OsError, FileSystem}
use stopan.Collection.PathSafety.{IsGcFile, validate_gc_regular_file, validate-IsGcFile}
use stopan.Collection.Removal.{Removal, kept, removed, state_after, try_remove}
use stopan.Collection.ObjectSweep.{
  ObjectSweep, stem, is_malformed, after_object_removal, count_object, weigh_object, examine_object,
  sweep_seen,
}

after_object_removal-state :
    {State : Type 0} (path : FilePath) (w : ObjectSweep State) (r : Removal State)
    → (after_object_removal path w r).state ≡ state_after r
unfolding after_object_removal
after_object_removal-state path w (kept e s) = refl
after_object_removal-state path w (removed size s) = refl

-- Why a stored object is not removed, from what `lstat` says of it at the start.
pub data SparedObject (root : FilePath) (live : List Text) (cutoff : ℤ) (dry_run : Bool)
    (q : FilePath) (seen : Result OsError Stat) : Type 0 where
  dry : dry_run ≡ true → SparedObject root live cutoff dry_run q seen
  live_object : contains (stem q) live ≡ true → SparedObject root live cutoff dry_run q seen
  malformed : is_malformed q ≡ true → SparedObject root live cutoff dry_run q seen
  young_object :
      {st : Stat}
      → seen ≡ ok st
      → ltz cutoff (pos st.st_mtime) ≡ true
      → SparedObject root live cutoff dry_run q seen
  irregular_object :
      {st : Stat}
      → seen ≡ ok st
      → is_regular st ≡ false
      → SparedObject root live cutoff dry_run q seen

module _ {State : Type 0} (fs : FileSystem State) (root : FilePath) (live : List Text) (cutoff : ℤ)
    (dry_run : Bool) where
  -- What led to the removal of an object.
  pub record Doomed (path : FilePath) (s after : State) : Type 0 where
    pub st : Stat
    pub valid : validate_gc_regular_file fs s root path ≡ ok st
    pub well_formed : is_malformed path ≡ false
    pub dead : contains (stem path) live ≡ false
    pub old : ltz cutoff (pos st.st_mtime) ≡ false
    pub wanted : dry_run ≡ false
    pub removal : after ≡ state_after (try_remove fs s root path st)

  abbrev pub LeftObject : FilePath → State → State → Type 0
  LeftObject path s after = (after ≡ s) ⊎ Doomed path s after

  weigh_object-state :
      (path : FilePath) (st : Stat) (w : ObjectSweep State)
      → validate_gc_regular_file fs w.state root path ≡ ok st
      → is_malformed path ≡ false
      → contains (stem path) live ≡ false
      → LeftObject path w.state (weigh_object fs root live cutoff dry_run path st w).state
  unfolding weigh_object count_object
  weigh_object-state path st w valid well_formed dead =
      let P = λ (x : ObjectSweep State). LeftObject path w.state x.state in
      if-cases P (ltz cutoff (pos st.st_mtime)) (λ _. inl refl)
        (λ old.
          if-cases P dry_run (λ _. inl refl)
            (λ wanted. inr (record {
              st = st;
              valid = valid;
              well_formed = well_formed;
              dead = dead;
              old = old;
              wanted = wanted;
              removal =
                  after_object_removal-state path (count_object path st w)
                    (try_remove fs w.state root path st);
            })))

  examine_object-state :
      (path : FilePath) (w : ObjectSweep State)
      → is_malformed path ≡ false
      → contains (stem path) live ≡ false
      → LeftObject path w.state (examine_object fs root live cutoff dry_run path w).state
  unfolding examine_object
  examine_object-state path w well_formed dead =
      elim (Result-cases (validate_gc_regular_file fs w.state root path)) [
        | inl (x, e) ↦ rw (examine_object, e) (inl refl)
        | inr (st, e) ↦ rw (examine_object, e) (weigh_object-state path st w e well_formed dead)
      ]

  pub sweep_seen-state :
      (path : FilePath) (w : ObjectSweep State)
      → LeftObject path w.state (sweep_seen fs root live cutoff dry_run path w).state
  unfolding sweep_seen
  sweep_seen-state path w =
      let P = λ (x : ObjectSweep State). LeftObject path w.state x.state in
      if-cases P (is_malformed path) (λ _. inl refl)
        (λ well_formed.
          if-cases P (contains (stem path) live) (λ _. inl refl)
            (examine_object-state path w well_formed))

  pub SparedObject-Doomed :
      (q : FilePath) (s after : State)
      → SparedObject root live cutoff dry_run q (fs.lstat s q)
      → Doomed q s after
      → ⊥
  SparedObject-Doomed q s after spared d = elim spared [
    | dry h ↦ cc (h, d.wanted)
    | live_object h ↦ cc (h, d.dead)
    | malformed h ↦ cc (h, d.well_formed)
    | young_object look h ↦ let same = ok-inj (sym look ∙ file.seen) in cc (h, d.old, same)
    | irregular_object look h ↦
        let same = ok-inj (sym look ∙ file.seen) in cc (h, file.regular, same)
  ]
    where
      file : IsGcFile fs s root q (d.st)
      file = validate-IsGcFile fs s root q d.st d.valid
