-- ===== src/Membership/Identity/Lines.antt =====
-- node/identity.py: what a start-up writes and a later one reads.
use stopan.Prelude.{
  ℕ, suc, ◌+◌, ◌≤◌, ltb, ◌==◌, ◌≡◌, refl, ap, ap₂, if◌then◌else◌, ◌>>◌, length, sym, ◌∙◌, true,
  false, Bool, List, [], ◌∷◌, ◌++◌, all, &&-eq-true, arith, Text, strip, strip-IsClean, Result, ok,
  map,
}
use mathlib.Core.List.{append_assoc, append-nil}
use stopan.Erasure.Models.{is_hex_lower}
use stopan.Erasure.Models.Hashes.{hex-IsClean}
use stopan.Membership.Validation.{is_node_id_char, is_valid_node_id}
use stopan.Membership.Numerals.{str, str-IsHex, int_of-str}
use stopan.Membership.Identity.{
  IdentityFile, IdentityError, start_with, absent, holds, NodeIdentity, require_node_id,
  require_incarnation, lines_from, read_lines, read_unlocked, Write, done, not_replaced,
  raised_after, contents, atomic_write, write_unlocked, load_for_startup, started,
}

-- A stored or a new identifier without white space around it.
abbrev pub IsNodeId : Text → Type 0
IsNodeId t = (is_valid_node_id t ≡ true) × (strip t ≡ t)

no_end : (c : ℕ) → is_hex_lower c ≡ true → ((c == 10) ≡ false) × ((c == 13) ≡ false)
unfolding is_hex_lower
no_end c h = (ground (arith, h), ground (arith, h))

-- A line of hexadecimal digits is read up to its end.
lines_from-hex :
    (line xs r : Text)
    → all is_hex_lower xs ≡ true
    → lines_from false line (xs ++ 10 ∷ r) ≡ (line ++ xs) ∷ lines_from false [] r
unfolding lines_from
lines_from-hex line [] r h = ap (λ l. l ∷ lines_from false [] r) (sym (append-nil line))
lines_from-hex line (x ∷ xs) r h =
    let (a, b) = &&-eq-true (is_hex_lower x) _ h in
    let (lf, cr) = no_end x a in
    rw (lf, cr)
      (lines_from-hex (line ++ x ∷ []) xs r b
        ∙ ap (λ l. l ∷ lines_from false [] r) (append_assoc line (x ∷ []) xs))

IsNodeId-hex : (t : Text) → IsNodeId t → all is_hex_lower t ≡ true
unfolding is_valid_node_id is_node_id_char is_hex_lower
IsNodeId-hex t (valid, same) =
    let (_, digits) = &&-eq-true (length (strip t) == 32) (all is_node_id_char (strip t)) valid in
    rw same at digits

read_lines-two :
    (node_id : Text) (n : ℕ)
    → IsNodeId node_id
    → 1 ≤ n
    → read_lines (node_id ∷ str n ∷ []) ≡ ok (record { node_id = node_id; incarnation = n })
unfolding read_lines require_node_id require_incarnation
read_lines-two node_id n v h =
    let low : ltb n 1 ≡ false = ground (arith, h) in rw (v.0, v.1, int_of-str n, low) refl

-- What is written is read again.
read_unlocked-contents :
    (node_id : Text) (n : ℕ)
    → IsNodeId node_id
    → 1 ≤ n
    → read_unlocked (holds (contents node_id n))
      ≡ ok (record { node_id = node_id; incarnation = n })
unfolding read_unlocked contents
read_unlocked-contents node_id n v h =
    let two =
      lines_from-hex [] node_id (str n ++ 10 ∷ []) (IsNodeId-hex node_id v)
      ∙ ap (λ (ls : List Text). node_id ∷ ls) (lines_from-hex [] (str n) [] (str-IsHex n)) in
    let clean = strip-IsClean (str n) (hex-IsClean (str n) (str-IsHex n)) in
    ap (λ (ls : List Text). read_lines (map strip ls)) two
    ∙ ap₂ (λ (a b : Text). read_lines (a ∷ b ∷ [])) v.1 clean
    ∙ read_lines-two node_id n v h

write_unlocked-valid :
    (how : Write) (node_id : Text) (n : ℕ) (file : IdentityFile)
    → IsNodeId node_id
    → 1 ≤ n
    → write_unlocked how node_id n file ≡ atomic_write how (contents node_id n) file
unfolding write_unlocked require_node_id require_incarnation
write_unlocked-valid how node_id n file v h =
    let low : ltb n 1 ≡ false = ground (arith, h) in rw (v.0, v.1, low) refl

-- Whether a write leaves a new file, and how many of some start-ups do.
abbrev pub replaces : Write → Bool
replaces done = true
replaces not_replaced = false
replaces raised_after = true

abbrev pub replacements : List (Write × Text) → ℕ
replacements [] = 0
replacements ((how, new_id) ∷ starts) =
    let rest = replacements starts in if replaces how then suc rest else rest

-- The outcome of a start-up that knows its identity.
start_with-valid :
    (how : Write) (node_id : Text) (n : ℕ) (file : IdentityFile)
    → IsNodeId node_id
    → start_with how file (ok (record { node_id = node_id; incarnation = n })) ≡ (
      ((atomic_write how (contents node_id (n + 1)) file).0
          >> ok (record { node_id = node_id; incarnation = n + 1 })),
      (atomic_write how (contents node_id (n + 1)) file).1,
    )
start_with-valid how node_id n file v =
    rw (write_unlocked-valid how node_id (n + 1) file v (omega arith)) refl

same_file :
    (node_id : Text) (n k : ℕ) → n ≡ k → holds (contents node_id n) ≡ holds (contents node_id k)
same_file node_id n k e = ap (λ (i : ℕ). holds (contents node_id i)) e

-- A start-up on the file of an earlier one.
restart :
    (how : Write) (new_id node_id : Text) (n : ℕ)
    → IsNodeId node_id
    → 1 ≤ n
    → (load_for_startup how new_id (holds (contents node_id n))).1
      ≡ holds (contents node_id (if replaces how then suc n else n))
unfolding load_for_startup
restart how new_id node_id n v h =
    ap
      (λ (o : Result IdentityError NodeIdentity). (start_with how (holds (contents node_id n)) o).1)
      (read_unlocked-contents node_id n v h)
    ∙ ap (λ (o : Result IdentityError NodeIdentity × IdentityFile). o.1)
        (start_with-valid how node_id n (holds (contents node_id n)) v)
    ∙ left how
  where
    left :
        (how : Write)
        → (atomic_write how (contents node_id (n + 1)) (holds (contents node_id n))).1
          ≡ holds (contents node_id (if replaces how then suc n else n))
    left done = same_file node_id (n + 1) (suc n) (omega arith)
    left not_replaced = refl
    left raised_after = same_file node_id (n + 1) (suc n) (omega arith)

started-contents :
    (starts : List (Write × Text)) (node_id : Text) (n : ℕ)
    → IsNodeId node_id
    → 1 ≤ n
    → started starts (holds (contents node_id n))
      ≡ holds (contents node_id (replacements starts + n))
unfolding started
started-contents [] node_id n v h = same_file node_id n (0 + n) (omega arith)
started-contents ((done, new_id) ∷ starts) node_id n v h =
    ap (started starts) (restart done new_id node_id n v h)
    ∙ started-contents starts node_id (suc n) v (omega arith)
    ∙ same_file node_id (replacements starts + suc n) (suc (replacements starts) + n) (omega arith)
started-contents ((not_replaced, new_id) ∷ starts) node_id n v h =
    ap (started starts) (restart not_replaced new_id node_id n v h)
    ∙ started-contents starts node_id n v h
started-contents ((raised_after, new_id) ∷ starts) node_id n v h =
    ap (started starts) (restart raised_after new_id node_id n v h)
    ∙ started-contents starts node_id (suc n) v (omega arith)
    ∙ same_file node_id (replacements starts + suc n) (suc (replacements starts) + n) (omega arith)

-- The first start-up, without a file.
first_start :
    (how : Write) (new_id : Text)
    → IsNodeId new_id
    → replaces how ≡ true
    → (load_for_startup how new_id absent).1 ≡ holds (contents new_id 1)
unfolding load_for_startup
first_start how new_id v h =
    ap (λ (o : Result IdentityError NodeIdentity × IdentityFile). o.1)
      (start_with-valid how new_id 0 absent v)
    ∙ left how h
  where
    left :
        (how : Write)
        → replaces how ≡ true
        → (atomic_write how (contents new_id 1) absent).1 ≡ holds (contents new_id 1)
    left done h = refl
    left not_replaced h = absurd (ground (arith, h))
    left raised_after h = refl

-- Without a file, a first start-up writes it. Let others follow, whose writes succeed, fail, or fail
-- after the file was replaced. Then a start-up whose write succeeds returns the identifier of the
-- first one, if that is well formed, with an incarnation that is one above the number of times that
-- the file was replaced before, and leaves a file with these two on its lines.
pub load_for_startup-started :
    (how : Write) (node_id new_id : Text) (starts : List (Write × Text))
    → IsNodeId node_id
    → replaces how ≡ true
    → load_for_startup done new_id (started ((how, node_id) ∷ starts) absent) ≡ (
      ok (record { node_id = node_id; incarnation = replacements starts + 2 }),
      holds (contents node_id (replacements starts + 2)),
    )
unfolding started load_for_startup
load_for_startup-started how node_id new_id starts v h =
    let file =
      ap (started starts) (first_start how node_id v h)
      ∙ started-contents starts node_id 1 v (omega arith) in
    let n = replacements starts + 1 in
    ap (load_for_startup done new_id) file
    ∙ ap (start_with done (holds (contents node_id n)))
        (read_unlocked-contents node_id n v (omega arith))
    ∙ start_with-valid done node_id n (holds (contents node_id n)) v
    ∙ ap
        (λ (k : ℕ).
          (ok (record { node_id = node_id; incarnation = k }), holds (contents node_id k)))
        (omega arith)
