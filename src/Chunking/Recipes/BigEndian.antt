-- ===== src/Chunking/Recipes/BigEndian.antt =====
-- The bytes of a number in a recipe message.
use stopan.Prelude.{
  ℕ, zero, suc, ◌/◌, ◌%◌, ◌^◌, ◌<◌, ltb, ltb→lt, Bool-cases, inl, inr, ◌≡◌, refl, sym, ap, ap₂, ◌∙◌,
  [], ◌∷◌, ◌++◌, Bytes, length, length-append, Result, ok, err, ok-inj, arith,
}
use stopan.Protection.{ℤ, pos, negsuc}
use stopan.Chunking.Recipes.{RecipeError, big_endian, to_bytes, overflow}

pub cons-inj : {a b : ℕ} {x y : Bytes} → ◌≡◌ {A = Bytes} (a ∷ x) (b ∷ y) → (a ≡ b) × (x ≡ y)
cons-inj h = (cc, cc)

-- Two texts of the same length in front decide where each ends.
pub ++-inj : (a b x y : Bytes) → length a ≡ length b → a ++ x ≡ b ++ y → (a ≡ b) × (x ≡ y)
++-inj [] [] x y n h = (refl, h)
++-inj [] (d ∷ b) x y n h = absurd (omega arith)
++-inj (c ∷ a) [] x y n h = absurd (omega arith)
++-inj (c ∷ a) (d ∷ b) x y n h =
    let (same, rest) = cons-inj h in
    let (front, back) = ++-inj a b x y (omega arith) rest in
    (ap₂ (λ (e : ℕ) (l : Bytes). e ∷ l) same front, back)

length-big_endian : (w n : ℕ) → length (big_endian w n) ≡ w
unfolding big_endian
length-big_endian zero n = refl
length-big_endian (suc w) n =
    omega (
      arith,
      length-append (big_endian w (n / 256)) ((n % 256) ∷ []),
      length-big_endian w (n / 256),
    )

big_endian-inj : (w n m : ℕ) → n < 256 ^ w → m < 256 ^ w → big_endian w n ≡ big_endian w m → n ≡ m
unfolding big_endian
big_endian-inj zero n m h k e = omega arith
big_endian-inj (suc w) n m h k e =
    let (front, back) =
      ++-inj (big_endian w (n / 256)) (big_endian w (m / 256)) ((n % 256) ∷ []) ((m % 256) ∷ [])
        (length-big_endian w (n / 256) ∙ sym (length-big_endian w (m / 256))) e in
    let high = big_endian-inj w (n / 256) (m / 256) (omega arith) (omega arith) front in
    let (low, _) = cons-inj back in omega arith

to_bytes-pos :
    (w : ℕ) (a : ℤ) (x : Bytes)
    → to_bytes w a ≡ ok x
    → (n : ℕ) × (a ≡ pos n) × (n < 256 ^ w) × (x ≡ big_endian w n)
unfolding to_bytes
to_bytes-pos w (negsuc n) x h = cc
to_bytes-pos w (pos n) x h = elim (Bool-cases (ltb n (256 ^ w))) [
  | inl fits ↦ (n, refl, ltb→lt n (256 ^ w) fits, sym (ok-inj (rw (fits) at h)))
  | inr large ↦ absurd (no_bytes (rw (large) at h))
]
  where
    no_bytes : ◌≡◌ {A = Result RecipeError Bytes} (err overflow) (ok x) → ⊥
    no_bytes e = cc

pub length-to_bytes : (w : ℕ) (a : ℤ) (x : Bytes) → to_bytes w a ≡ ok x → length x ≡ w
length-to_bytes w a x h =
    let (n, _, _, same) = to_bytes-pos w a x h in ap length same ∙ length-big_endian w n

pub to_bytes-inj : (w : ℕ) (a b : ℤ) (x : Bytes) → to_bytes w a ≡ ok x → to_bytes w b ≡ ok x → a ≡ b
to_bytes-inj w a b x h k =
    let (n, is_n, small, x_n) = to_bytes-pos w a x h in
    let (m, is_m, little, x_m) = to_bytes-pos w b x k in
    is_n ∙ ap pos (big_endian-inj w n m small little (sym x_n ∙ x_m)) ∙ sym is_m
