-- ===== src/Chunking/Recipes/Hex.antt =====
-- The bytes of a hexadecimal text in a recipe message.
use stopan.Prelude.{
  ℕ, suc, ◌+◌, ◌*◌, ◌<◌, leb, ◌≡◌, refl, sym, ap, ap₂, ◌∙◌, true, ◌&&◌, none, some, [], ◌∷◌,
  if◌then◌else◌, Text, Bytes, length, all, ok, ◌>>=◌, >>=-eq-ok, ok-inj, arith, &&-eq-true, ◌-◌,
}
use stopan.Erasure.Models.{is_hex_lower}
use stopan.Chunking.Recipes.{digit, hex_class, fromhex_from}
use stopan.Chunking.Recipes.BigEndian.{cons-inj}

-- The value of a lower-case digit.
abbrev value : ℕ → ℕ
value c = if leb b'0' c && leb c b'9' then c - 48 else c - 87

hex_class-digit : (c : ℕ) → is_hex_lower c ≡ true → hex_class c ≡ digit (value c)
unfolding hex_class is_hex_lower
hex_class-digit c h = ground arith

value_lt : (c : ℕ) → is_hex_lower c ≡ true → value c < 16
unfolding is_hex_lower
value_lt c h = ground arith

value-inj : (c d : ℕ) → is_hex_lower c ≡ true → is_hex_lower d ≡ true → value c ≡ value d → c ≡ d
unfolding is_hex_lower
value-inj c d h k e = ground arith

first_digit :
    (c : ℕ) (s : Text)
    → is_hex_lower c ≡ true
    → fromhex_from none (c ∷ s) ≡ fromhex_from (some (value c)) s
unfolding fromhex_from
first_digit c s h = rw (fromhex_from, hex_class-digit c h) refl

second_digit :
    (high c : ℕ) (s : Text)
    → is_hex_lower c ≡ true
    → fromhex_from (some high) (c ∷ s)
      ≡ (fromhex_from none s >>= λ rest. ok ((16 * high + value c) ∷ rest))
unfolding fromhex_from
second_digit high c s h = rw (fromhex_from, hex_class-digit c h) refl

abbrev pub IsHex : Text → Type 0
IsHex s = all is_hex_lower s ≡ true

IsHex-cons : (c : ℕ) (s : Text) → IsHex (c ∷ s) → (is_hex_lower c ≡ true) × IsHex s
IsHex-cons c s h = &&-eq-true (is_hex_lower c) (all is_hex_lower s) h

-- The second digit of a byte, and what follows it.
second_byte :
    (high c : ℕ) (s x : Bytes)
    → is_hex_lower c ≡ true
    → fromhex_from (some high) (c ∷ s) ≡ ok x
    → (rest : Bytes) × (fromhex_from none s ≡ ok rest) × (x ≡ (16 * high + value c) ∷ rest)
second_byte high c s x h e =
    let (rest, went, same) =
      >>=-eq-ok (fromhex_from none s) _ (sym (second_digit high c s h) ∙ e) in
    (rest, went, sym (ok-inj same))

mutual
  unfolding fromhex_from

  pub length-fromhex :
      (s x : Bytes) → IsHex s → fromhex_from none s ≡ ok x → length s ≡ 2 * length x
  length-fromhex [] x h e = omega (arith, ap length (ok-inj e))
  length-fromhex (c ∷ s) x h e =
      let (hc, hs) = IsHex-cons c s h in
      length-fromhex_second (value c) s x hs (sym (first_digit c s hc) ∙ e)

  length-fromhex_second :
      (high : ℕ) (s x : Bytes)
      → IsHex s
      → fromhex_from (some high) s ≡ ok x
      → suc (length s) ≡ 2 * length x
  length-fromhex_second high [] x h e = cc
  length-fromhex_second high (c ∷ s) x h e =
      let (hc, hs) = IsHex-cons c s h in
      let (rest, went, same) = second_byte high c s x hc e in
      omega (arith, length-fromhex s rest hs went, ap length same)

mutual
  unfolding fromhex_from

  pub fromhex_from-inj :
      (s t x : Bytes)
      → IsHex s
      → IsHex t
      → fromhex_from none s ≡ ok x
      → fromhex_from none t ≡ ok x
      → s ≡ t
  fromhex_from-inj [] [] x h k e f = refl
  fromhex_from-inj [] (d ∷ t) x h k e f =
      absurd (omega (arith, ap length (ok-inj e), length-fromhex (d ∷ t) x k f))
  fromhex_from-inj (c ∷ s) [] x h k e f =
      absurd (omega (arith, ap length (ok-inj f), length-fromhex (c ∷ s) x h e))
  fromhex_from-inj (c ∷ s) (d ∷ t) x h k e f =
      let (hc, hs) = IsHex-cons c s h in
      let (hd, ht) = IsHex-cons d t k in
      let (same, rest) =
        fromhex_second-inj (value c) (value d) s t x hs ht (sym (first_digit c s hc) ∙ e)
          (sym (first_digit d t hd) ∙ f) in
      ap₂ (λ (a : ℕ) (l : Bytes). a ∷ l) (value-inj c d hc hd same) rest

  fromhex_second-inj :
      (high low : ℕ) (s t x : Bytes)
      → IsHex s
      → IsHex t
      → fromhex_from (some high) s ≡ ok x
      → fromhex_from (some low) t ≡ ok x
      → (high ≡ low) × (s ≡ t)
  fromhex_second-inj high low [] t x h k e f = cc
  fromhex_second-inj high low (c ∷ s) [] x h k e f = cc
  fromhex_second-inj high low (c ∷ s) (d ∷ t) x h k e f =
      let (hc, hs) = IsHex-cons c s h in
      let (hd, ht) = IsHex-cons d t k in
      let (rest, went, same) = second_byte high c s x hc e in
      let (more, gone, also) = second_byte low d t x hd f in
      let (byte, tail) = cons-inj (sym same ∙ also) in
      (
        omega (arith, value_lt c hc, value_lt d hd),
        ap₂ (λ (a : ℕ) (l : Bytes). a ∷ l)
            (value-inj c d hc hd (omega (arith, value_lt c hc, value_lt d hd)))
            (fromhex_from-inj s t rest hs ht went (gone ∙ ap ok (sym tail))),
      )
