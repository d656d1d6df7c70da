-- ===== src/Erasure/Parity.antt =====
-- A code of two blocks and one parity block, for the examples: bytes are added, and subtracted again.
use stopan.Prelude.{
  ℕ, zero, suc, ◌+◌, ◌-◌, ◌<◌, ◌≡◌, refl, ap, ap₂, sym, ◌∙◌, List, [], ◌∷◌, some, arith, length,
  get_elem?, All, Bytes,
}
use stopan.Erasure.Codec.{range}
use stopan.Erasure.Codec.Contract.{Encoder, IsIncreasing, Picks, IsErasureCode}

abbrev plus : Bytes → Bytes → Bytes
plus [] bs = []
plus (a ∷ at) [] = []
plus (a ∷ at) (b ∷ bs) = (a + b) ∷ plus at bs

abbrev minus : Bytes → Bytes → Bytes
minus [] bs = []
minus (a ∷ at) [] = []
minus (a ∷ at) (b ∷ bs) = (a - b) ∷ minus at bs

abbrev pub parity_encode : Encoder
parity_encode k n [] is = []
parity_encode k n (a ∷ []) is = []
parity_encode k n (a ∷ b ∷ bs) is = a ∷ b ∷ plus a b ∷ []

abbrev pub parity_decode : Encoder
parity_decode k n (x ∷ y ∷ got) (zero ∷ suc zero ∷ is) = x ∷ y ∷ []
parity_decode k n (x ∷ y ∷ got) (zero ∷ suc (suc j) ∷ is) = x ∷ minus y x ∷ []
parity_decode k n (x ∷ y ∷ got) (suc i ∷ is) = minus y x ∷ x ∷ []
parity_decode k n got is = []

minus-plus_left : (a b : Bytes) → length a ≡ length b → minus (plus a b) a ≡ b
minus-plus_left [] [] h = refl
minus-plus_left [] (b ∷ bs) h = absurd (omega arith)
minus-plus_left (a ∷ at) [] h = absurd (omega arith)
minus-plus_left (a ∷ at) (b ∷ bs) h =
    ap₂ (λ x xs. x ∷ xs) (omega arith) (minus-plus_left at bs (omega arith))

minus-plus_right : (a b : Bytes) → length a ≡ length b → minus (plus a b) b ≡ a
minus-plus_right [] [] h = refl
minus-plus_right [] (b ∷ bs) h = absurd (omega arith)
minus-plus_right (a ∷ at) [] h = absurd (omega arith)
minus-plus_right (a ∷ at) (b ∷ bs) h =
    ap₂ (λ x xs. x ∷ xs) (omega arith) (minus-plus_right at bs (omega arith))

length-plus : (a b : Bytes) → length a ≡ length b → length (plus a b) ≡ length a
length-plus [] bs h = refl
length-plus (a ∷ at) [] h = absurd (omega arith)
length-plus (a ∷ at) (b ∷ bs) h = ap suc (length-plus at bs (omega arith))

some_inj : {a b : Bytes} → some a ≡ some b → a ≡ b
some_inj h = cc

-- Any two of the three blocks determine the first two.
two_determine :
    (a b : Bytes) (i j : ℕ) (x y : Bytes)
    → length a ≡ length b
    → i < j
    → get_elem? (a ∷ b ∷ plus a b ∷ []) i ≡ some x
    → get_elem? (a ∷ b ∷ plus a b ∷ []) j ≡ some y
    → parity_decode 2 3 (x ∷ y ∷ []) (i ∷ j ∷ []) ≡ a ∷ b ∷ []
two_determine a b zero zero x y h l e f = absurd (omega arith)
two_determine a b zero (suc zero) x y h l e f =
    ap₂ (λ x y. x ∷ y ∷ []) (sym (some_inj e)) (sym (some_inj f))
two_determine a b zero (suc (suc zero)) x y h l e f =
    rw (← some_inj e, ← some_inj f, minus-plus_left a b h)
two_determine a b zero (suc (suc (suc j))) x y h l e f = cc
two_determine a b (suc zero) zero x y h l e f = absurd (omega arith)
two_determine a b (suc zero) (suc zero) x y h l e f = absurd (omega arith)
two_determine a b (suc zero) (suc (suc zero)) x y h l e f =
    rw (← some_inj e, ← some_inj f, minus-plus_right a b h)
two_determine a b (suc zero) (suc (suc (suc j))) x y h l e f = cc
two_determine a b (suc (suc i)) zero x y h l e f = absurd (omega arith)
two_determine a b (suc (suc i)) (suc zero) x y h l e f = absurd (omega arith)
two_determine a b (suc (suc i)) (suc (suc zero)) x y h l e f = absurd (omega arith)
two_determine a b (suc (suc i)) (suc (suc (suc j))) x y h l e f = cc

recovers :
    (blocks : List Bytes) (size : ℕ) (indexes : List ℕ) (got : List Bytes)
    → length blocks ≡ 2
    → All (λ b. length b ≡ size) blocks
    → IsIncreasing indexes
    → length indexes ≡ 2
    → Picks (parity_encode 2 3 blocks (range 3)) indexes got
    → parity_decode 2 3 got indexes ≡ blocks
recovers (a ∷ b ∷ []) size (i ∷ j ∷ []) (x ∷ y ∷ []) c s r d p =
    two_determine a b i j x y (s.0 ∙ sym s.1.0) r.0.0 p.0 p.1.0
recovers (a ∷ b ∷ []) size (i ∷ j ∷ []) (x ∷ y ∷ z ∷ got) c s r d p = absurd p.1.1
recovers (a ∷ b ∷ []) size (i ∷ j ∷ []) (x ∷ []) c s r d p = absurd p.1
recovers (a ∷ b ∷ []) size (i ∷ j ∷ []) [] c s r d p = absurd p
recovers (a ∷ b ∷ []) size [] got c s r d p = absurd (omega arith)
recovers (a ∷ b ∷ []) size (i ∷ []) got c s r d p = absurd (omega arith)
recovers (a ∷ b ∷ []) size (i ∷ j ∷ k ∷ is) got c s r d p = absurd (omega arith)
recovers [] size indexes got c s r d p = absurd (omega arith)
recovers (a ∷ []) size indexes got c s r d p = absurd (omega arith)
recovers (a ∷ b ∷ e ∷ blocks) size indexes got c s r d p = absurd (omega arith)

pub parity-IsErasureCode : IsErasureCode parity_encode parity_decode 2 3
parity-IsErasureCode = record { count = count; sizes = sizes; recovers = recovers }
  where
    count :
        (blocks : List Bytes) (size : ℕ)
        → length blocks ≡ 2
        → All (λ b. length b ≡ size) blocks
        → length (parity_encode 2 3 blocks (range 3)) ≡ 3
    count [] size c s = absurd (omega arith)
    count (a ∷ []) size c s = absurd (omega arith)
    count (a ∷ b ∷ blocks) size c s = refl

    sizes :
        (blocks : List Bytes) (size : ℕ)
        → length blocks ≡ 2
        → All (λ b. length b ≡ size) blocks
        → All (λ b. length b ≡ size) (parity_encode 2 3 blocks (range 3))
    sizes [] size c s = absurd (omega arith)
    sizes (a ∷ []) size c s = absurd (omega arith)
    sizes (a ∷ b ∷ blocks) size c s = (s.0, (s.1.0, (length-plus a b (s.0 ∙ sym s.1.0) ∙ s.0, tt)))
