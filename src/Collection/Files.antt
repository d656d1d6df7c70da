-- ===== src/Collection/Files.antt =====
-- What garbage collection uses of the file system. A path is the list of its components, absolute
-- and normal, as `resolve` and `os.path.abspath` return it. The calls of `os` are the fields of
-- `FileSystem`, over a state that a parameter gives; `elapse` is what other programs do between
-- two looks at a file. Times are numbers of one clock.
use stopan.Prelude.{
  ℕ, ◌-◌, ◌/◌, ◌%◌, leb, ◌==◌, ◌≡◌, refl, ◌↔◌, Bool, true, false, ◌&&◌, Option, List, [], ◌∷◌,
  if◌then◌else◌, Text, text_eq, text_eq_iff, text_lt, arith, Result,
}
use stopan.Protection.{ℤ, pos, negsuc}

abbrev pub FilePath : Type 0
FilePath = List Text

unfoldable pub path_eq : FilePath → FilePath → Bool
unfolding text_eq
path_eq [] [] = true
path_eq (a ∷ p) (b ∷ q) = text_eq a b && path_eq p q
path_eq _ _ = false

pub path_eq_iff : (p q : FilePath) → (path_eq p q ≡ true) ↔ (p ≡ q)
unfolding path_eq
path_eq_iff [] [] = (λ _. refl, λ _. refl)
path_eq_iff [] (b ∷ q) = ground arith
path_eq_iff (a ∷ p) [] = ground arith
path_eq_iff (a ∷ p) (b ∷ q) = ground (arith, text_eq_iff a b, path_eq_iff p q)

-- `path.name`
unfoldable pub name_of : FilePath → Text
name_of [] = []
name_of (a ∷ []) = a
name_of (a ∷ (b ∷ p)) = name_of (b ∷ p)

-- `path.parent`
unfoldable pub parent : FilePath → FilePath
parent [] = []
parent (a ∷ []) = []
parent (a ∷ (b ∷ p)) = a ∷ parent (b ∷ p)

-- The difference of two times, which may be negative.
unfoldable pub minus : ℕ → ℕ → ℤ
minus a b = if leb b a then pos (a - b) else negsuc (b - a - 1)

-- The fields of `os.stat_result` that are read.
pub record Stat : Type 0 where
  pub st_mode : ℕ
  pub st_ino : ℕ
  pub st_dev : ℕ
  pub st_size : ℕ
  pub st_mtime : ℕ
  pub st_mtime_ns : ℕ
  pub st_ctime_ns : ℕ
  pub st_reparse_tag : ℕ

-- The file type in a mode: `stat.S_ISLNK`, `stat.S_ISDIR` and `stat.S_ISREG`.
abbrev pub file_type : Stat → ℕ
file_type st = (st.st_mode / 4096) % 16

abbrev pub is_link : Stat → Bool
is_link st = file_type st == 10

abbrev pub is_directory : Stat → Bool
is_directory st = file_type st == 4

abbrev pub is_regular : Stat → Bool
is_regular st = file_type st == 8

pub data OsError : Type 0 where
  file_not_found other_error : OsError

pub record FileSystem (State : Type 0) : Type 0 where
  pub lstat : State → FilePath → Result OsError Stat
  pub realpath : State → FilePath → Option FilePath
  pub exists : State → FilePath → Bool
  pub is_dir : State → FilePath → Bool
  pub iterdir : State → FilePath → List Text
  pub unlink : State → FilePath → Option State
  pub fsync_dir : State → FilePath → Bool
  pub elapse : State → State

-- `sorted` of paths compares their components.
unfoldable pub path_le : FilePath → FilePath → Bool
unfolding text_lt
path_le [] q = true
path_le (a ∷ p) [] = false
path_le (a ∷ p) (b ∷ q) =
    let rest = path_le p q in if text_lt a b then true else if text_lt b a then false else rest
