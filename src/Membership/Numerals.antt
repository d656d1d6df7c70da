-- ===== src/Membership/Numerals.antt =====
-- The incarnation of node/identity.py as text: `int(text)` and `str(n)`. The limit of 4300 digits
-- that Python sets for both is left out.
use mathlib.Core.List.{append_assoc, append-nil}
use stopan.Prelude.{
  ℕ, zero, suc, ◌+◌, ◌*◌, ◌/◌, ◌%◌, ◌≤◌, ◌<◌, ltb, ◌==◌, ◌≡◌, refl, ap, sym, ◌∙◌, inl, inr, Bool,
  true, false, ◌&&◌, Option, none, some, [], ◌∷◌, ◌++◌, if◌then◌else◌, all, Bool-cases, &&-eq-true,
  arith, Text, strip, strip-IsClean,
}
use stopan.Protection.{ℤ, pos, negsuc}
use stopan.Erasure.Models.{is_hex_lower}
use stopan.Erasure.Models.Hashes.{hex-IsClean}
use stopan.Membership.Validation.{digit_zeros, digit_in}

-- The value of digits of any script, with one underscore between two of them allowed. `after_digit`
-- says whether the character before was a digit.
unfoldable pub int_from : ℕ → Bool → Text → Option ℕ
unfolding digit_in
int_from n after_digit [] = if after_digit then some n else none
int_from n after_digit (c ∷ cs) =
    let next = int_from n false cs in
    elim (digit_in digit_zeros c) [
      | some d ↦ int_from (n * 10 + d) true cs
      | none ↦ if c == b'_' && after_digit then next else none
    ]

abbrev pub negated : Option ℕ → Option ℤ
negated none = none
negated (some zero) = some (pos 0)
negated (some (suc n)) = some (negsuc n)

abbrev pub positive : Option ℕ → Option ℤ
positive none = none
positive (some n) = some (pos n)

abbrev pub signed : Text → Option ℤ
signed [] = none
signed (c ∷ cs) =
    if c == b'-'
    then negated (int_from 0 false cs)
    else if c == b'+'
    then positive (int_from 0 false cs)
    else positive (int_from 0 false (c ∷ cs))

-- `int(text)`
unfoldable pub int_of : Text → Option ℤ
unfolding strip int_from
int_of text = signed (strip text)

unfoldable pub digits : ℕ → ℕ → Text
digits zero n = (b'0' + n) ∷ []
digits (suc fuel) n =
    let rest = digits fuel (n / 10) in
    if ltb n 10 then (b'0' + n) ∷ [] else rest ++ (b'0' + n % 10) ∷ []

-- `str(n)`; a number has fewer digits than `n + 1`.
unfoldable pub str : ℕ → Text
unfolding digits
str n = digits n n

digit_in-digit : (d : ℕ) → d < 10 → digit_in digit_zeros (b'0' + d) ≡ some d
unfolding digit_in
digit_in-digit d h = ground (arith, h)

int_from-digit :
    (n d : ℕ) (b : Bool) (cs : Text)
    → d < 10
    → int_from n b ((b'0' + d) ∷ cs) ≡ int_from (n * 10 + d) true cs
unfolding int_from
int_from-digit n d b cs h = rw (int_from, digit_in-digit d h) refl

-- The digits of a number are read as that number.
int_from-digits :
    (fuel n : ℕ) (b : Bool) (cs : Text)
    → n ≤ fuel
    → int_from 0 b (digits fuel n ++ cs) ≡ int_from n true cs
unfolding digits
int_from-digits zero n b cs h =
    int_from-digit 0 n b cs (omega (arith, h)) ∙ ap (λ k. int_from k true cs) (omega arith)
int_from-digits (suc fuel) n b cs h = elim (Bool-cases (ltb n 10)) [
  | inl y ↦
      rw y
        (int_from-digit 0 n b cs (ground (arith, y)) ∙ ap (λ k. int_from k true cs) (omega arith))
  | inr big ↦ rw big (
      let last = b'0' + n % 10 in
      ap (int_from 0 b) (append_assoc (digits fuel (n / 10)) (last ∷ []) cs)
      ∙ int_from-digits fuel (n / 10) b (last ∷ cs) (ground (arith, big, h))
      ∙ int_from-digit (n / 10) (n % 10) true cs (omega arith)
      ∙ ap (λ k. int_from k true cs) (omega arith))
]

all-snoc :
    (p : ℕ → Bool) (xs : Text) (x : ℕ) → all p xs ≡ true → p x ≡ true → all p (xs ++ x ∷ []) ≡ true
all-snoc p [] x h k = rw k refl
all-snoc p (y ∷ xs) x h k = let (a, b) = &&-eq-true (p y) _ h in rw (a, all-snoc p xs x b k) refl

digits-IsHex : (fuel n : ℕ) → n ≤ fuel → all is_hex_lower (digits fuel n) ≡ true
unfolding digits is_hex_lower
digits-IsHex zero n h = ground (arith, h)
digits-IsHex (suc fuel) n h = elim (Bool-cases (ltb n 10)) [
  | inl y ↦ rw y (ground (arith, y))
  | inr big ↦ rw big (
      all-snoc is_hex_lower (digits fuel (n / 10)) (b'0' + n % 10)
        (digits-IsHex fuel (n / 10) (ground (arith, big, h))) (ground arith))
]

pub str-IsHex : (n : ℕ) → all is_hex_lower (str n) ≡ true
unfolding str
str-IsHex n = digits-IsHex n n (omega arith)

int_from-str : (n : ℕ) → int_from 0 false (str n) ≡ some n
unfolding str
int_from-str n =
    ap (int_from 0 false) (sym (append-nil (digits n n)))
    ∙ int_from-digits n n false [] (omega arith)
    ∙ unfold int_from in refl

no_sign : (c : ℕ) → is_hex_lower c ≡ true → ((c == b'-') ≡ false) × ((c == b'+') ≡ false)
unfolding is_hex_lower
no_sign c h = (ground (arith, h), ground (arith, h))

no_text : (n : ℕ) → int_from 0 false [] ≡ some n → signed [] ≡ some (pos n)
unfolding int_from
no_text n h = cc

unsigned :
    (t : Text) (n : ℕ)
    → all is_hex_lower t ≡ true
    → int_from 0 false t ≡ some n
    → signed t ≡ some (pos n)
unsigned [] n h r = no_text n r
unsigned (c ∷ cs) n h r =
    let (a, _) = &&-eq-true (is_hex_lower c) _ h in
    let (minus, plus) = no_sign c a in rw (minus, plus) (ap positive r)

-- A number is read from its own text.
pub int_of-str : (n : ℕ) → int_of (str n) ≡ some (pos n)
unfolding int_of
int_of-str n =
    rw (strip-IsClean (str n) (hex-IsClean (str n) (str-IsHex n)))
      (unsigned (str n) n (str-IsHex n) (int_from-str n))
