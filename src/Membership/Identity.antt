-- ===== src/Membership/Identity.antt =====
-- node/identity.py: the identity file and its start-up. The file is absent, cannot be opened, or
-- holds a text. A new identifier (`uuid.uuid4().hex`) and how `atomic_write_bytes` of common/fs.py
-- ends are parameters of a call.
pub mod Lines
use stopan.Prelude.{
  ℕ, ◌+◌, ltb, ◌==◌, Bool, true, false, not, ◌&&◌, ◌||◌, List, [], ◌∷◌, ◌++◌, map, if◌then◌else◌,
  some, none, Option, Text, strip, Result, ok, err, ◌>>=◌, ◌>>◌, raise_if,
}
use stopan.Protection.{ℤ, pos, negsuc}
use stopan.Membership.Validation.{is_valid_node_id}
use stopan.Membership.Numerals.{int_of, str}

pub data IdentityFile : Type 0 where
  absent unreadable : IdentityFile
  holds : Text → IdentityFile

pub data IdentityError : Type 0 where
  not_read invalid_lines invalid_node_id invalid_incarnation not_written : IdentityError

pub record NodeIdentity : Type 0 where
  pub node_id : Text
  pub incarnation : ℕ

-- `_require_node_id`: 32 lower-case hexadecimal digits, as for `is_valid_node_id`.
unfoldable pub require_node_id : Text → Result IdentityError Text
unfolding strip is_valid_node_id
require_node_id value = do raise_if (not (is_valid_node_id value)) invalid_node_id; ok (strip value)

-- `_require_incarnation`, after its `int(value)`
unfoldable pub require_incarnation : Option ℤ → Result IdentityError ℕ
require_incarnation none = err invalid_incarnation
require_incarnation (some (negsuc n)) = err invalid_incarnation
require_incarnation (some (pos n)) = do raise_if (ltb n 1) invalid_incarnation; ok n

-- `handle.readlines()` in text mode, without the ends of the lines, which `strip` removes: they are
-- \n, \r and \r\n. `after_cr` says that the character before was \r.
unfoldable pub lines_from : Bool → Text → Text → List Text
lines_from after_cr [] [] = []
lines_from after_cr (x ∷ line) [] = (x ∷ line) ∷ []
lines_from after_cr line (c ∷ cs) =
    let same = lines_from false line cs in
    let next = lines_from (c == 13) [] cs in
    let longer = lines_from false (line ++ c ∷ []) cs in
    if c == 10 && after_cr then same else if c == 10 || c == 13 then line ∷ next else longer

unfoldable pub read_lines : List Text → Result IdentityError NodeIdentity
unfolding require_node_id require_incarnation int_of
read_lines (first ∷ second ∷ []) = do
  node_id ← require_node_id first
  incarnation ← require_incarnation (int_of second)
  ok (record { node_id = node_id; incarnation = incarnation })
read_lines _ = err invalid_lines

unfoldable pub read_unlocked : IdentityFile → Result IdentityError NodeIdentity
unfolding read_lines lines_from strip
read_unlocked absent = err not_read
read_unlocked unreadable = err not_read
read_unlocked (holds text) = read_lines (map strip (lines_from false [] text))

-- `atomic_write_bytes` replaces the file, raises before that, or raises after it.
pub data Write : Type 0 where
  done not_replaced raised_after : Write

abbrev pub atomic_write :
    Write → Text → IdentityFile → Result IdentityError (Unit {0}) × IdentityFile
atomic_write done text file = (ok tt, holds text)
atomic_write not_replaced text file = (err not_written, file)
atomic_write raised_after text file = (err not_written, holds text)

-- The two lines of the file.
unfoldable pub contents : Text → ℕ → Text
unfolding str
contents node_id incarnation = node_id ++ 10 ∷ (str incarnation ++ 10 ∷ [])

-- `_write_unlocked`, after its checks
abbrev pub write_checked :
    Write
    → IdentityFile
    → Result IdentityError NodeIdentity
    → Result IdentityError (Unit {0}) × IdentityFile
write_checked how file (err e) = (err e, file)
write_checked how file (ok i) = atomic_write how (contents i.node_id i.incarnation) file

unfoldable pub write_unlocked :
    Write → Text → ℕ → IdentityFile → Result IdentityError (Unit {0}) × IdentityFile
unfolding require_node_id require_incarnation contents
write_unlocked how node_id incarnation file = write_checked how file (do
  i ← require_node_id node_id
  n ← require_incarnation (some (pos incarnation))
  ok (record { node_id = i; incarnation = n }))

abbrev pub stored_or_new : Text → IdentityFile → Result IdentityError NodeIdentity
stored_or_new new_id absent = ok (record { node_id = new_id; incarnation = 0 })
stored_or_new new_id file = read_unlocked file

-- `load_for_startup`, once the identity is known
abbrev pub start_with :
    Write
    → IdentityFile
    → Result IdentityError NodeIdentity
    → Result IdentityError NodeIdentity × IdentityFile
start_with how file (err e) = (err e, file)
start_with how file (ok known) =
    let written = write_unlocked how known.node_id (known.incarnation + 1) file in
    (
      (written.0 >> ok (record { node_id = known.node_id; incarnation = known.incarnation + 1 })),
      written.1,
    )

-- What the call returns or raises, and the file after it.
unfoldable pub load_for_startup :
    Write → Text → IdentityFile → Result IdentityError NodeIdentity × IdentityFile
unfolding read_unlocked write_unlocked
load_for_startup how new_id file = start_with how file (stored_or_new new_id file)

-- The file after some start-ups, each with its own write and new identifier at hand.
unfoldable pub started : List (Write × Text) → IdentityFile → IdentityFile
unfolding load_for_startup
started [] file = file
started ((how, new_id) ∷ starts) file = started starts ((load_for_startup how new_id file).1)
