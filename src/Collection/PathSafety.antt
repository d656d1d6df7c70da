-- ===== src/Collection/PathSafety.antt =====
-- gc/path_safety.py: the checks on a file before it is removed.
use stopan.Prelude.{
  ℕ, ◌≡◌, ap, Bool, true, false, not, ◌&&◌, ◌||◌, ◌==◌, Option, none, some, List, [], ◌∷◌, ◌++◌,
  if◌then◌else◌, text_eq, Result, ok, err, ◌>>=◌, ◌>>◌, raise_if, >>=-eq-ok, >>-eq-ok,
  raise_if-eq-ok, arith, Text, ok-inj, ◌∙◌, subst, Option-cases, inl, inr,
}
use stopan.Collection.Files.{
  FilePath, Stat, is_link, is_directory, is_regular, OsError, file_not_found, other_error,
  FileSystem,
}

pub data PathError : Type 0 where
  outside disappeared unchecked redirected not_a_directory unresolved resolved_outside : PathError
  not_regular : PathError

-- `IO_REPARSE_TAG_SYMLINK` and `IO_REPARSE_TAG_MOUNT_POINT` of the module `stat`
abbrev pub redirect_tags : List ℕ
redirect_tags = 0xa000000c ∷ 0xa0000003 ∷ []

unfoldable pub is_tag : ℕ → List ℕ → Bool
is_tag tag [] = false
is_tag tag (t ∷ ts) = tag == t || is_tag tag ts

unfoldable pub is_filesystem_redirection : Stat → Bool
unfolding is_tag
is_filesystem_redirection st =
    if is_link st
    then true
    else not (st.st_reparse_tag == 0) && is_tag st.st_reparse_tag redirect_tags

-- `_is_within`, and what `relative_to` leaves of the candidate
unfoldable pub relative_to : FilePath → FilePath → Option FilePath
unfolding text_eq
relative_to [] candidate = some candidate
relative_to (a ∷ root) [] = none
relative_to (a ∷ root) (b ∷ candidate) =
    let rest = relative_to root candidate in if text_eq a b then rest else none

unfoldable pub is_within : FilePath → FilePath → Bool
unfolding relative_to
is_within root candidate = elim (relative_to root candidate) [ none ↦ false | some _ ↦ true ]

unfoldable pub require_relative : Option FilePath → Result PathError FilePath
require_relative none = err outside
require_relative (some relative) = ok relative

unfoldable pub require_stat : Result OsError Stat → Result PathError Stat
require_stat (err file_not_found) = err disappeared
require_stat (err other_error) = err unchecked
require_stat (ok st) = ok st

unfoldable pub require_real : Option FilePath → Result PathError FilePath
require_real none = err unresolved
require_real (some real) = ok real

-- The last look, where every `OSError` is the same.
unfoldable pub require_final : Result OsError Stat → Result PathError Stat
require_final (err _) = err unchecked
require_final (ok st) = ok st

-- `index < len(parts) - 1`
unfoldable pub is_inner : List Text → Bool
is_inner [] = false
is_inner (_ ∷ _) = true

unfoldable pub same_file_identity : Stat → Stat → Bool
same_file_identity first second =
    if not (first.st_ino == 0) && not (second.st_ino == 0)
    then first.st_dev == second.st_dev && first.st_ino == second.st_ino
    else first.st_mode == second.st_mode
      && first.st_size == second.st_size
      && first.st_mtime_ns == second.st_mtime_ns
      && first.st_ctime_ns == second.st_ctime_ns

require_final-ok : (o : Result OsError Stat) {st : Stat} → require_final o ≡ ok st → o ≡ ok st
unfolding require_final
require_final-ok (err e) h = cc
require_final-ok (ok st) h = ap ok (ok-inj h)

is_within-relative :
    (root candidate relative : FilePath)
    → require_relative (relative_to root candidate) ≡ ok relative
    → is_within root candidate ≡ true
unfolding is_within require_relative
is_within-relative root candidate relative h = elim (Option-cases (relative_to root candidate)) [
  | inl e ↦ cc
  | inr (r, e) ↦ ground arith
]

module _ {State : Type 0} (fs : FileSystem State) where
  -- The loop over the components.
  unfoldable pub check_parts : State → FilePath → List Text → Result PathError (Unit {0})
  unfolding require_stat is_filesystem_redirection is_inner
  check_parts s current [] = ok tt
  check_parts s current (component ∷ parts) = do
    st ← require_stat (fs.lstat s (current ++ component ∷ []))
    raise_if (is_filesystem_redirection st) redirected
    raise_if (is_inner parts && not (is_directory st)) not_a_directory
    check_parts s (current ++ component ∷ []) parts

  unfoldable pub validate_gc_regular_file : State → FilePath → FilePath → Result PathError Stat
  unfolding require_relative relative_to check_parts require_real is_within require_final
      is_filesystem_redirection
  validate_gc_regular_file s root candidate = do
    relative ← require_relative (relative_to root candidate)
    check_parts s root relative
    root_real ← require_real (fs.realpath s root)
    candidate_real ← require_real (fs.realpath s candidate)
    raise_if (not (is_within root_real candidate_real)) resolved_outside
    final_stat ← require_final (fs.lstat s candidate)
    raise_if (is_filesystem_redirection final_stat || not (is_regular final_stat)) not_regular
    ok final_stat

  -- A file that passes is the one that the path names: regular, and below the root.
  pub record IsGcFile (s : State) (root candidate : FilePath) (st : Stat) : Type 0 where
    pub seen : fs.lstat s candidate ≡ ok st
    pub regular : is_regular st ≡ true
    pub direct : is_filesystem_redirection st ≡ false
    pub inside : is_within root candidate ≡ true

  pub validate-IsGcFile :
      (s : State) (root candidate : FilePath) (st : Stat)
      → validate_gc_regular_file s root candidate ≡ ok st
      → IsGcFile s root candidate st
  unfolding validate_gc_regular_file
  validate-IsGcFile s root candidate st h =
      let (relative, below, h1) = >>=-eq-ok (require_relative (relative_to root candidate)) _ h in
      let (_, h2) = >>-eq-ok (check_parts s root relative) _ h1 in
      let (_, _, h3) = >>=-eq-ok (require_real (fs.realpath s root)) _ h2 in
      let (_, _, h4) = >>=-eq-ok (require_real (fs.realpath s candidate)) _ h3 in
      let (_, h5) = >>-eq-ok _ _ h4 in
      let (final, looked, h6) = >>=-eq-ok (require_final (fs.lstat s candidate)) _ h5 in
      let (is_fine, last) =
        >>-eq-ok (raise_if (is_filesystem_redirection final || not (is_regular final)) not_regular)
          _ h6 in
      let found = require_final-ok (fs.lstat s candidate) looked ∙ ap ok (ok-inj last) in
      let (direct, regular) =
        both_false (subst IsGood (ok-inj last) (raise_if-eq-ok _ not_regular is_fine)) in
      record {
        seen = found;
        regular = regular;
        direct = direct;
        inside = is_within-relative root candidate relative below;
      }
    where
      IsGood : Stat → Type 0
      IsGood st = (is_filesystem_redirection st || not (is_regular st)) ≡ false

      both_false : {a b : Bool} → (a || not b) ≡ false → (a ≡ false) × (b ≡ true)
      both_false h = ground arith
