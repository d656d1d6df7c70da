-- ===== src/Prelude/Results.antt =====
-- A call that returns a value or raises.
use mathlib.Core.Path.{◌≡◌, refl, subst}
use mathlib.Core.Logic.{◌⊎◌, inl, inr}
use mathlib.Core.Bool.{Bool, true, false}
use mathlib.Core.Option.{Option, none, some}

pub data Result {ℓ} (E : Type 0) (A : Type ℓ) : Type ℓ where
  err : E → Result E A
  ok : A → Result E A

module _ {E : Type 0} where
  infixl 5 ◌>>=◌ ◌>>◌
  -- `if test: raise e`
  abbrev pub raise_if : Bool → E → Result E (Unit {0})
  raise_if false raised = ok tt
  raise_if true raised = err raised

  -- What is raised ends the sequence.
  abbrev pub ◌>>=◌ {ℓ κ} : {A : Type ℓ} {B : Type κ} → Result E A → (A → Result E B) → Result E B
  err raised >>= next = err raised
  ok value >>= next = next value

  abbrev pub ◌>>◌ {ℓ} : {B : Type ℓ} → Result E (Unit {0}) → Result E B → Result E B
  first >> next = first >>= λ _. next

  pub raise_if-eq-ok : (b : Bool) (raised : E) {u : Unit {0}} → raise_if b raised ≡ ok u → b ≡ false
  raise_if-eq-ok false raised h = refl
  raise_if-eq-ok true raised h = cc

  -- A sequence that returns has run both parts.
  pub >>-eq-ok {ℓ} :
      {B : Type ℓ} (first : Result E (Unit {0})) (next : Result E B) {value : B}
      → (first >> next) ≡ ok value
      → (first ≡ ok tt) × (next ≡ ok value)
  >>-eq-ok (err raised) next h = cc
  >>-eq-ok (ok tt) next h = (refl, h)

  pub >>=-eq-ok {ℓ κ} :
      {A : Type ℓ} {B : Type κ} (first : Result E A) (next : A → Result E B) {value : B}
      → (first >>= next) ≡ ok value
      → (a : A) × (first ≡ ok a) × (next a ≡ ok value)
  >>=-eq-ok (err raised) next h = cc
  >>=-eq-ok (ok a) next h = (a, refl, h)

  pub ok-inj {ℓ} : {A : Type ℓ} {x y : A} → ◌≡◌ {A = Result E A} (ok x) (ok y) → x ≡ y
  ok-inj h = cc

  pub Result-cases {ℓ} :
      {A : Type ℓ} (r : Result E A) → ((e : E) × (r ≡ err e)) ⊎ ((a : A) × (r ≡ ok a))
  Result-cases (err e) = inl (e, refl)
  Result-cases (ok a) = inr (a, refl)

  -- A call that may run out of fuel: `none` is a run cut short.
  abbrev pub attempt {ℓ κ} :
      {A : Type ℓ} {B : Type κ} → Result E A → (A → Option (Result E B)) → Option (Result E B)
  attempt (err raised) next = some (err raised)
  attempt (ok value) next = next value

  abbrev pub finish {ℓ κ} :
      {A : Type ℓ} {B : Type κ} → (A → B) → Option (Result E A) → Option (Result E B)
  finish f none = none
  finish f (some (err raised)) = some (err raised)
  finish f (some (ok value)) = some (ok (f value))

  pub attempt-eq-ok {ℓ κ} :
      {A : Type ℓ} {B : Type κ} (first : Result E A) (next : A → Option (Result E B)) {value : B}
      → ◌≡◌ {A = Option (Result E B)} (attempt first next) (some (ok value))
      → (a : A) × (first ≡ ok a) × (next a ≡ some (ok value))
  attempt-eq-ok (err raised) next h = cc
  attempt-eq-ok (ok a) next h = (a, refl, h)

  pub finish-eq-ok {ℓ κ} :
      {A : Type ℓ} {B : Type κ} (f : A → B) (o : Option (Result E A)) {value : B}
      → ◌≡◌ {A = Option (Result E B)} (finish f o) (some (ok value))
      → (a : A) × (o ≡ some (ok a)) × (value ≡ f a)
  finish-eq-ok f none h = cc
  finish-eq-ok f (some (err raised)) h = cc
  finish-eq-ok f (some (ok a)) h = (a, refl, cc)

  pub finish-returns {ℓ κ} :
      {A : Type ℓ} {B : Type κ} (f : A → B) (o : Option (Result E A)) {r : Result E A}
      → o ≡ some r
      → (q : Result E B) × (finish f o ≡ some q)
  finish-returns f none h = cc
  finish-returns f (some (err raised)) h = (err raised, refl)
  finish-returns f (some (ok a)) h = (ok (f a), refl)

  pub attempt-returns {ℓ κ} :
      {A : Type ℓ} {B : Type κ} (first : Result E A) (next : A → Option (Result E B))
      → ((a : A) → (r : Result E B) × (next a ≡ some r))
      → (q : Result E B) × (attempt first next ≡ some q)
  attempt-returns (err raised) next h = (err raised, refl)
  attempt-returns (ok a) next h = h a

-- What holds of the value if there is one, with a rule for each step of a sequence.
pub data Ensures {E : Type 0} {A : Type 0} (P : A → Type 0) : Result E A → Type 0 where
  raised : {e : E} → Ensures P (err e)
  returned : {a : A} → P a → Ensures P (ok a)

module _ {E : Type 0} where
  pub Ensures-eq-ok :
      {A : Type 0} {P : A → Type 0} {r : Result E A} {a : A} → Ensures P r → r ≡ ok a → P a
  Ensures-eq-ok raised h = cc
  Ensures-eq-ok {P = P} (returned p) h = subst P (ok-inj h) p

  pub Ensures->>= :
      {A B : Type 0} {P : A → Type 0} {Q : B → Type 0} {first : Result E A} {next : A → Result E B}
      → Ensures P first
      → ((a : A) → P a → Ensures Q (next a))
      → Ensures Q (first >>= next)
  Ensures->>= raised h = raised
  Ensures->>= (returned {a = a} p) h = h a p

  pub Ensures-raise_if :
      {A : Type 0} {P : A → Type 0} (b : Bool) (e : E) {next : Result E A}
      → (b ≡ false → Ensures P next)
      → Ensures P (raise_if b e >> next)
  Ensures-raise_if false e h = h refl
  Ensures-raise_if true e h = raised

  pub Ensures-any : {A : Type 0} (r : Result E A) → Ensures (λ _. Unit {0}) r
  Ensures-any (err e) = raised
  Ensures-any (ok a) = returned tt
