-- ===== src/Collection/Tests.antt =====
-- Collections on a small file system: a list of the paths and what `lstat` says of them.
use stopan.Prelude.{
  ℕ, ◌+◌, ◌≡◌, refl, subst, inl, Bool, true, false, none, some, List, [], ◌∷◌, ◌++◌, if◌then◌else◌,
  Text, codes, text_eq, Result, ok, err, arith, strip,
}
use stopan.Protection.{pos}
use stopan.Objects.Kinds.{catalog}
use stopan.Objects.Envelope.{require_hash64}
use stopan.Objects.Walk.Reach.{here}
use stopan.Objects.Sample.{hash_of, toy_codec, toy_read, catalog_hash}
use stopan.Collection.Files.{
  FilePath, path_eq, path_eq_iff, name_of, parent, Stat, is_directory, OsError, file_not_found,
  FileSystem,
}
use stopan.Collection.Removal.{IsQuiet}
use stopan.Collection.LocalFiles.{Request, collect_files_by_age, retains, cutoff_of, max_age}
use stopan.Collection.PathSafety.{validate_gc_regular_file}
use stopan.Collection.LocalFiles.Sparing.{too_young, collect_files_by_age-spares}
use stopan.Collection.LocalFiles.DryRun.{eligible}
use stopan.Collection.ObjectSweep.{ObjectSweep, collect_objects, stem}
use stopan.Collection.ObjectSweep.Sparing.{collect_objects-spares}

abbrev Files : Type 0
Files = List (FilePath × Stat)

abbrev look_up : Files → FilePath → Result OsError Stat
unfolding path_eq
look_up [] q = err file_not_found
look_up ((p, st) ∷ files) q = let rest = look_up files q in if path_eq p q then ok st else rest

abbrev without : FilePath → Files → Files
unfolding path_eq
without q [] = []
without q ((p, st) ∷ files) =
    let rest = without q files in if path_eq p q then rest else (p, st) ∷ rest

abbrev names_in : FilePath → Files → List Text
unfolding path_eq parent name_of
names_in q [] = []
names_in q ((p, st) ∷ files) =
    let rest = names_in q files in if path_eq (parent p) q then name_of p ∷ rest else rest

abbrev is_dir_at : Result OsError Stat → Bool
is_dir_at (err _) = false
is_dir_at (ok st) = is_directory st

abbrev is_there : Result OsError Stat → Bool
is_there (err _) = false
is_there (ok _) = true

abbrev disk : FileSystem Files
disk = record {
  lstat = look_up;
  realpath = λ s p. some p;
  exists = λ s p. is_there (look_up s p);
  is_dir = λ s p. is_dir_at (look_up s p);
  iterdir = λ s p. names_in p s;
  unlink = λ s p. some (without p s);
  fsync_dir = λ s p. true;
  elapse = λ s. s;
}

look_up-without :
    (s : Files) (p q : FilePath) → path_eq p q ≡ false → look_up (without p s) q ≡ look_up s q
unfolding look_up without path_eq
look_up-without [] p q h = refl
look_up-without ((r, st) ∷ s) p q h =
    ground (arith, path_eq_iff r p, path_eq_iff r q, path_eq_iff p q, look_up-without s p q h)

disk-IsQuiet : (root q : FilePath) → IsQuiet disk root q
disk-IsQuiet root q = record {
  elapse_keeps = λ s. refl;
  unlink_keeps = λ s after p st valid gone other.
      subst (λ (x : Files). look_up x q ≡ look_up s q) (some-inj gone)
        (look_up-without s p q other);
}
  where
    some-inj : {a b : Files} → some a ≡ some b → a ≡ b
    some-inj h = cc

abbrev stat_of : ℕ → ℕ → ℕ → Stat
stat_of mode ino mtime = record {
  st_mode = mode;
  st_ino = ino;
  st_dev = 1;
  st_size = 10;
  st_mtime = mtime;
  st_mtime_ns = mtime;
  st_ctime_ns = mtime;
  st_reparse_tag = 0;
}

abbrev objects_dir : FilePath
objects_dir = codes "r" ∷ codes "objects" ∷ []

abbrev object_path : ℕ → FilePath
object_path n = objects_dir ++ codes "00" ∷ (hash_of n ++ codes ".stobj") ∷ []

abbrev directories : Files
directories =
    (codes "r" ∷ [], stat_of 16384 1 1)
    ∷ (objects_dir, stat_of 16384 2 1)
    ∷ (objects_dir ++ codes "00" ∷ [], stat_of 16384 3 1)
    ∷ []

abbrev file_at : ℕ → ℕ → Files
file_at n mtime = (object_path n, stat_of 32768 (10 + n) mtime) ∷ []

-- The catalog and the index that it names, an old file and a young one.
abbrev stored : Files
stored = directories ++ file_at 1 5 ++ file_at 2 5 ++ file_at 3 5 ++ file_at 4 90

abbrev swept : ObjectSweep Files
swept = record {
  state = directories ++ file_at 1 5 ++ file_at 2 5 ++ file_at 4 90;
  files_seen = 4;
  files_live = 2;
  files_collectable = 1;
  files_deleted = 1;
  files_skipped_by_grace = 1;
  files_malformed = 0;
  bytes_collectable = 10;
  bytes_deleted = 10;
  errors = [];
  touched_dirs = (objects_dir ++ codes "00" ∷ []) ∷ [];
  candidates = object_path 3 ∷ [];
}

sweep_run :
    collect_objects disk toy_codec
      (λ _. toy_read)
      (λ h. h)
      7
      (codes "r" ∷ [])
      catalog_hash
      100
      50
      false
      true
      stored
    ≡ some (ok swept)
unfolding collect_objects look_up names_in without path_eq parent name_of text_eq
sweep_run = refl

abbrev request : Request
request = record {
  root_dir = codes "r" ∷ [];
  files = object_path 3 ∷ object_path 4 ∷ [];
  max_age_seconds = some (pos 50);
  dry_run = false;
  retain_file = none;
  sort_files = true;
}

local_run :
    (collect_files_by_age disk 100 request stored).state
    ≡ directories ++ file_at 1 5 ++ file_at 2 5 ++ file_at 4 90
unfolding collect_files_by_age look_up without path_eq
local_run = refl

collect_objects-spares_example :
    look_up (swept.state) (object_path 1) ≡ look_up stored (object_path 1)
unfolding require_hash64 strip stem path_eq
collect_objects-spares_example =
    collect_objects-spares disk toy_codec (λ _. toy_read) (λ h. h) 7 (codes "r" ∷ []) catalog_hash
      (hash_of 1) 100 50 false true stored swept (object_path 1) sweep_run refl
      (disk-IsQuiet (codes "r" ∷ []) (object_path 1))
      (inl (record { object_hash = hash_of 1; object_type = catalog; reach = here; named = refl }))

collect_files_by_age-spares_example :
    look_up ((collect_files_by_age disk 100 request stored).state) (object_path 4)
    ≡ look_up stored (object_path 4)
unfolding look_up path_eq cutoff_of max_age
collect_files_by_age-spares_example =
    collect_files_by_age-spares disk 100 request stored (object_path 4)
      (disk-IsQuiet (codes "r" ∷ []) (object_path 4))
      (too_young {st = stat_of 32768 14 90} {limit = pos 50} refl refl refl)

abbrev dry : Request
dry = record request { dry_run = true }

-- The old file is reported, and the young one is not.
abbrev reported : List (FilePath × ℕ)
reported = (object_path 3, 10) ∷ []

dry_listed : eligible disk (codes "r" ∷ []) none (pos 50) stored dry.files ≡ reported
unfolding eligible look_up path_eq validate_gc_regular_file retains
dry_listed = refl
