-- ===== src/Objects/Walk/Follow.antt =====
-- The loop of `_collect_reachable_objects` over the references of one object.
use mathlib.Core.List.{Memᴰ}
use mathlib.Core.List.Memᴰ
use stopan.Prelude.{
  suc, ◌+◌, ◌≤◌, ◌≡◌, refl, ap, subst, ◌⊎◌, inl, inr, ap₂, true, false, some, List, [], ◌∷◌,
  if◌then◌else◌, if-cases, Option-cases, Text, text_eq, text_eq_iff, contains, Dict, lookup, insert,
  lookup-insert, ok-inj, ⊎_elim, ok, length, arith, >>-eq-ok, raise_if-eq-ok, raise_if,
}
use stopan.Objects.Kinds.{ObjectType, same_type_iff}
use stopan.Objects.Envelope.{Refs, ended, raised, yielded, incompatible_types}
use stopan.Objects.Walk.{setdefault, disagrees, follow}

-- The references that a generator yields, before it ends or raises.
abbrev pub refs_list : Refs → List (Text × ObjectType)
refs_list ended = []
refs_list (raised e) = []
refs_list (yielded ref_type ref_hash rest) = (ref_hash, ref_type) ∷ refs_list rest

pub text_eq_refl : (k : Text) → text_eq k k ≡ true
text_eq_refl k = (text_eq_iff k k).1 refl

lookup-insert_same :
    (k : Text) (v : ObjectType) (d : Dict ObjectType) → lookup k (insert k v d) ≡ some v
lookup-insert_same k v d = ground (arith, lookup-insert k k v d, text_eq_refl k)

setdefault_keeps :
    (k j : Text) (v t : ObjectType) (d : Dict ObjectType)
    → lookup j d ≡ some t
    → lookup j (setdefault k v d) ≡ some t
unfolding setdefault
setdefault_keeps k j v t d h = ground (arith, lookup-insert k j v d, text_eq_iff k j)

setdefault_adds :
    (k j : Text) (v t : ObjectType) (d : Dict ObjectType)
    → lookup j (setdefault k v d) ≡ some t
    → (lookup j d ≡ some t) ⊎ ((j ≡ k) × (t ≡ v))
unfolding setdefault
setdefault_adds k j v t d h = ground (arith, lookup-insert k j v d, text_eq_iff k j)

setdefault_sets :
    (k : Text) (v : ObjectType) (d : Dict ObjectType)
    → disagrees (lookup k d) v ≡ false
    → lookup k (setdefault k v d) ≡ some v
unfolding setdefault disagrees
setdefault_sets k v d h = elim (Option-cases (lookup k d)) [
  | inl e ↦ ground (arith, lookup-insert_same k v d)
  | inr (t, e) ↦ ground (arith, same_type_iff t v)
]

pub head-cases :
    {h k : Text} {t j : ObjectType} {xs : List (Text × ObjectType)}
    → Memᴰ (h, t) ((k, j) ∷ xs)
    → ((h ≡ k) × (t ≡ j)) ⊎ Memᴰ (h, t) xs
head-cases m = ⊎_elim (λ e. inl (ap (λ x. x.0) e, ap (λ x. x.1) e)) inr (Memᴰ.cases_cons m)

pub head_mem :
    {h k : Text} {t j : ObjectType} {xs : List (Text × ObjectType)}
    → (h ≡ k) × (t ≡ j)
    → Memᴰ (h, t) ((k, j) ∷ xs)
head_mem (e, f) = Memᴰ.head (ap₂ (λ (a : Text) (b : ObjectType). (a, b)) e f)

-- What the loop has done when it ends without an error.
pub record Followed (seen : List Text) (before : Dict ObjectType) (stack : List (Text × ObjectType))
    (refs : Refs) (after : Dict ObjectType) (pending : List (Text × ObjectType)) : Type 0 where
  pub keeps : (h : Text) (t : ObjectType) → lookup h before ≡ some t → lookup h after ≡ some t
  pub adds :
      (h : Text) (t : ObjectType)
      → lookup h after ≡ some t
      → (lookup h before ≡ some t) ⊎ Memᴰ (h, t) (refs_list refs)
  pub has_refs :
      (h : Text) (t : ObjectType) → Memᴰ (h, t) (refs_list refs) → lookup h after ≡ some t
  pub queued :
      (h : Text) (t : ObjectType)
      → Memᴰ (h, t) pending
      → Memᴰ (h, t) stack ⊎ Memᴰ (h, t) (refs_list refs)
  pub stays : (h : Text) (t : ObjectType) → Memᴰ (h, t) stack → Memᴰ (h, t) pending
  pub queues :
      (h : Text) (t : ObjectType)
      → Memᴰ (h, t) (refs_list refs)
      → (contains h seen ≡ true) ⊎ Memᴰ (h, t) pending
  pub few : length pending ≤ length stack + length (refs_list refs)

Followed_end :
    (seen : List Text) (e : Dict ObjectType) (p : List (Text × ObjectType))
    → Followed seen e p ended e p
Followed_end seen e p = record {
  keeps = λ h t m. m;
  adds = λ h t m. inl m;
  has_refs = λ h t m. absurd (Memᴰ.not-nil m);
  queued = λ h t m. inl m;
  stays = λ h t m. m;
  queues = λ h t m. absurd (Memᴰ.not-nil m);
  few = omega arith;
}

module _ (seen : List Text) (e e' : Dict ObjectType) (p p' : List (Text × ObjectType)) where
  -- The items of the stack after one reference.
  abbrev pushed : ObjectType → Text → List (Text × ObjectType)
  pushed j k = if contains k seen then p else (k, j) ∷ p

  pushed-few : (j : ObjectType) (k : Text) → length (pushed j k) ≤ suc (length p)
  pushed-few j k =
      if-cases (λ q. length q ≤ suc (length p)) (contains k seen) (λ _. omega arith)
        (λ _. omega arith)

  pushed_stays :
      (j : ObjectType) (k h : Text) (t : ObjectType) → Memᴰ (h, t) p → Memᴰ (h, t) (pushed j k)
  pushed_stays j k h t m = if-cases (Memᴰ (h, t)) (contains k seen) (λ _. m) (λ _. Memᴰ.tail m)

  pushed_queued :
      (j : ObjectType) (k h : Text) (t : ObjectType)
      → Memᴰ (h, t) (pushed j k)
      → Memᴰ (h, t) p ⊎ ((h ≡ k) × (t ≡ j))
  pushed_queued j k h t =
      if-cases (λ q. Memᴰ (h, t) q → Memᴰ (h, t) p ⊎ ((h ≡ k) × (t ≡ j))) (contains k seen)
        (λ _ m. inl m) (λ _ m. ⊎_elim inr inl (head-cases m))

  pushed_queues : (j : ObjectType) (k : Text) → (contains k seen ≡ true) ⊎ Memᴰ (k, j) (pushed j k)
  pushed_queues j k =
      if-cases (λ q. (contains k seen ≡ true) ⊎ Memᴰ (k, j) q) (contains k seen) inl
        (λ _. inr (Memᴰ.head refl))

  Followed_step :
      (j : ObjectType) (k : Text) (refs : Refs)
      → disagrees (lookup k e) j ≡ false
      → Followed seen (setdefault k j e) (pushed j k) refs e' p'
      → Followed seen e p (yielded j k refs) e' p'
  Followed_step j k refs agrees f = record {
    keeps = λ h t m. f.keeps h t (setdefault_keeps k h j t e m);
    adds = λ h t m.
        ⊎_elim (λ b. ⊎_elim inl (λ same. inr (head_mem same)) (setdefault_adds k h j t e b))
          (λ r. inr (Memᴰ.tail r)) (f.adds h t m);
    has_refs = λ h t m.
        ⊎_elim (λ (x, y). f.keeps h t (simp (x, y) (setdefault_sets k j e agrees))) (f.has_refs h t)
          (head-cases m);
    queued = λ h t m.
        ⊎_elim (λ b. ⊎_elim inl (λ same. inr (head_mem same)) (pushed_queued j k h t b))
          (λ r. inr (Memᴰ.tail r)) (f.queued h t m);
    stays = λ h t m. f.stays h t (pushed_stays j k h t m);
    queues = λ h t m.
        ⊎_elim
          (λ (x, y).
            ⊎_elim (λ b. inl (rw (x) b)) (λ q. inr (f.stays h t (simp (x, y) q)))
              (pushed_queues j k))
          (f.queues h t) (head-cases m);
    few = omega (arith, f.few, pushed-few j k);
  }

pub follow-Followed :
    (seen : List Text) (e e' : Dict ObjectType) (p p' : List (Text × ObjectType)) (refs : Refs)
    → follow seen e p refs ≡ ok (e', p')
    → Followed seen e p refs e' p'
unfolding follow
follow-Followed seen e e' p p' ended h =
    subst (λ (x : Dict ObjectType × List (Text × ObjectType)). Followed seen e p ended (x.0) (x.1))
      (ok-inj h) (Followed_end seen e p)
follow-Followed seen e e' p p' (raised x) h = cc
follow-Followed seen e e' p p' (yielded j k refs) h =
    let (agrees, rest) =
      >>-eq-ok (raise_if (disagrees (lookup k e) j) incompatible_types)
        (follow seen (setdefault k j e) (pushed seen e e' p p' j k) refs) h in
    Followed_step seen e e' p p' j k refs
      (raise_if-eq-ok (disagrees (lookup k e) j) incompatible_types agrees)
      (follow-Followed seen (setdefault k j e) e' (pushed seen e e' p p' j k) p' refs rest)
