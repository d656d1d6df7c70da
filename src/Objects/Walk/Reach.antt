-- ===== src/Objects/Walk/Reach.antt =====
-- What the walk marks: the objects that references lead to from the catalog.
use mathlib.Core.List.{Memᴰ}
use mathlib.Core.List.Memᴰ
use stopan.Prelude.{
  ℕ, ◌≡◌, refl, sym, ap, ◌∙◌, subst, ◌⊎◌, inl, inr, ◌↔◌, Bool, true, false, Option, some, List, [],
  ◌∷◌, Text, Bytes, text_eq_iff, contains, lookup, ok-inj, ⊎_elim, ok, arith,
}
use stopan.Objects.Json.{Fields, object}
use stopan.Objects.Kinds.{ObjectType, catalog}
use stopan.Objects.Envelope.{Codec, iter_object_refs}
use stopan.Objects.Walk.{Walk, round, walk_loop, start}
use stopan.Objects.Walk.Follow.{text_eq_refl, refs_list, head-cases, head_mem}
use stopan.Objects.Walk.Rounds.{IsObject, loop_rule, Visited, round-cases}

module _ (codec : Codec) (read : Text → Option Bytes) where
  pub data Reach (root : Text) : Text → ObjectType → Type 0 where
    here : Reach root root catalog
    step :
        {h k : Text} {t j : ObjectType} {payload : Fields}
        → Reach root h t
        → IsObject codec read h t payload
        → Memᴰ (k, j) (refs_list (iter_object_refs (object payload)))
        → Reach root k j

  pub record Inv (root : Text) (w : Walk) : Type 0 where
    pub rooted : lookup root w.expected_types ≡ some catalog
    pub sound : (h : Text) (t : ObjectType) → lookup h w.expected_types ≡ some t → Reach root h t
    pub queued :
        (h : Text) (t : ObjectType) → Memᴰ (h, t) w.pending → lookup h w.expected_types ≡ some t
    pub known :
        (h : Text) (t : ObjectType)
        → lookup h w.expected_types ≡ some t
        → (contains h w.seen ≡ true) ⊎ Memᴰ (h, t) w.pending
    pub visited :
        (h : Text)
        → contains h w.seen ≡ true
        → (t : ObjectType) × (payload : Fields) × IsObject codec read h t payload
          × (lookup h w.expected_types ≡ some t)
          × ((k : Text) (j : ObjectType)
              → Memᴰ (k, j) (refs_list (iter_object_refs (object payload)))
              → lookup k w.expected_types ≡ some j)

  contains-nil : (h : Text) → contains h [] ≡ false
  unfolding contains
  contains-nil h = refl

  start-expects :
      (root h : Text) (t : ObjectType)
      → lookup h ((root, catalog) ∷ []) ≡ some t
      → (h ≡ root) × (t ≡ catalog)
  unfolding lookup
  start-expects root h t m = ground (arith, text_eq_iff root h)

  start-expects_root : (root : Text) → lookup root ((root, catalog) ∷ []) ≡ some catalog
  unfolding lookup
  start-expects_root root = ground (arith, text_eq_refl root)

  Inv-start : (root : Text) → Inv root (start codec read root)
  Inv-start root = record {
    rooted = start-expects_root root;
    sound = λ h t m. let (x, y) = start-expects root h t m in rw (x, y) here;
    queued = λ h t m.
        ⊎_elim (λ (x, y). rw (x, y) (start-expects_root root)) (λ n. absurd (Memᴰ.not-nil n))
          (head-cases m);
    known = λ h t m. inr (head_mem (start-expects root h t m));
    visited = λ h m. cc (contains-nil h, m);
  }

  Inv-dropped :
      (root : Text) (w : Walk) (h : Text) (t : ObjectType) (rest : List (Text × ObjectType))
      → w.pending ≡ (h, t) ∷ rest
      → contains h w.seen ≡ true
      → Inv root w
      → Inv root (record w { pending = rest })
  Inv-dropped root w h t rest e was_seen i = record {
    rooted = i.rooted;
    sound = i.sound;
    queued = λ k j m. i.queued k j (simp (e) (Memᴰ.tail m));
    known = λ k j m.
        ⊎_elim inl
          (λ q. ⊎_elim (λ (x, _). inl (rw (x) was_seen)) inr (head-cases (subst (Memᴰ (k, j)) e q)))
          (i.known k j m);
    visited = i.visited;
  }

  pub contains-cons :
      (k h : Text) (seen : List Text)
      → contains k (h ∷ seen) ≡ true
      → (k ≡ h) ⊎ (contains k seen ≡ true)
  unfolding contains
  contains-cons k h seen m = ground (arith, text_eq_iff k h)

  pub contains-tail :
      (k h : Text) (seen : List Text) → contains k seen ≡ true → contains k (h ∷ seen) ≡ true
  unfolding contains
  contains-tail k h seen m = ground arith

  pub contains-head : (k h : Text) (seen : List Text) → k ≡ h → contains k (h ∷ seen) ≡ true
  unfolding contains
  contains-head k h seen m = ground (arith, text_eq_iff k h)

  Inv-visit :
      (root : Text) (cb : Bool) (w next : Walk) (h : Text) (t : ObjectType)
      (rest : List (Text × ObjectType))
      → w.pending ≡ (h, t) ∷ rest
      → Visited codec read cb w h t rest next
      → Inv root w
      → Inv root next
  Inv-visit root cb w next h t rest e v i = record {
    rooted = v.followed.keeps root catalog i.rooted;
    sound = λ k j m.
        ⊎_elim (i.sound k j) (step (i.sound h t top_expected) v.found) (v.followed.adds k j m);
    queued = λ k j m.
        ⊎_elim (λ q. v.followed.keeps k j (i.queued k j (in_stack k j q))) (v.followed.has_refs k j)
          (v.followed.queued k j m);
    known = λ k j m.
        ⊎_elim
          (λ b. ⊎_elim (λ s. in_seen k (contains-tail k h w.seen s)) (popped k j) (i.known k j b))
          (λ r. ⊎_elim (in_seen k) inr (v.followed.queues k j r)) (v.followed.adds k j m);
    visited = λ k m.
        ⊎_elim (λ x. at_top k x) (earlier k)
          (contains-cons k h w.seen (subst (λ s. contains k s ≡ true) v.marked m));
  }
    where
      top_expected : lookup h w.expected_types ≡ some t
      top_expected = i.queued h t (subst (Memᴰ (h, t)) (sym e) (Memᴰ.head refl))

      HasVisited : Text → Type 0
      HasVisited k =
          (s : ObjectType) × (payload : Fields) × IsObject codec read k s payload
          × (lookup k next.expected_types ≡ some s)
          × ((l : Text) (j : ObjectType)
              → Memᴰ (l, j) (refs_list (iter_object_refs (object payload)))
              → lookup l next.expected_types ≡ some j)

      at_top : (k : Text) → k ≡ h → HasVisited k
      at_top k x =
          subst HasVisited (sym x)
            (t, v.payload, v.found, v.followed.keeps h t top_expected, v.followed.has_refs)

      earlier : (k : Text) → contains k w.seen ≡ true → HasVisited k
      earlier k s =
          let (u, payload, found, typed, refs) = i.visited k s in
          (
            u,
            payload,
            found,
            v.followed.keeps k u typed,
            λ l j m. v.followed.keeps l j (refs l j m),
          )

      in_seen :
          (k : Text) {j : ObjectType}
          → contains k (h ∷ w.seen) ≡ true
          → (contains k next.seen ≡ true) ⊎ Memᴰ (k, j) next.pending
      in_seen k s = inl (subst (λ (l : List Text). contains k l ≡ true) (sym v.marked) s)

      popped :
          (k : Text) (j : ObjectType)
          → Memᴰ (k, j) w.pending
          → (contains k next.seen ≡ true) ⊎ Memᴰ (k, j) next.pending
      popped k j q =
          ⊎_elim (λ (x, _). in_seen k (contains-head k h w.seen x))
            (λ m. inr (v.followed.stays k j m)) (head-cases (subst (Memᴰ (k, j)) e q))

      in_stack : (k : Text) (j : ObjectType) → Memᴰ (k, j) rest → Memᴰ (k, j) w.pending
      in_stack k j q = subst (Memᴰ (k, j)) (sym e) (Memᴰ.tail q)

  Inv-round :
      (root : Text) (cb : Bool) (w next : Walk) (h : Text) (t : ObjectType)
      (rest : List (Text × ObjectType))
      → w.pending ≡ (h, t) ∷ rest
      → round codec read cb w h t rest ≡ ok next
      → Inv root w
      → Inv root next
  Inv-round root cb w next h t rest e went i =
      ⊎_elim (λ (was_seen, same). subst (Inv root) same (Inv-dropped root w h t rest e was_seen i))
        (λ (_, v). Inv-visit root cb w next h t rest e v i)
        (round-cases codec read cb w next h t rest went)

  -- With nothing pending, what is expected was seen.
  none_left :
      (root : Text) (w : Walk)
      → Inv root w
      → w.pending ≡ []
      → (h : Text) (t : ObjectType) → lookup h w.expected_types ≡ some t
      → contains h w.seen ≡ true
  none_left root w i e h t m =
      ⊎_elim (λ s. s) (λ q. absurd (Memᴰ.not-nil (subst (Memᴰ (h, t)) e q))) (i.known h t m)

  IsObject-payload :
      {h : Text} {t u : ObjectType} {a b : Fields}
      → IsObject codec read h t a
      → IsObject codec read h u b
      → a ≡ b
  IsObject-payload x y =
      ap (λ (f : Bytes × ObjectType × Fields). f.2) (ok-inj (sym x.fetched ∙ y.fetched))

  -- So what references lead to was expected.
  reached :
      (root : Text) (w : Walk)
      → Inv root w
      → w.pending ≡ []
      → {h : Text} {t : ObjectType} → Reach root h t
      → lookup h w.expected_types ≡ some t
  reached root w i e here = i.rooted
  reached root w i e (step {h} {k} {t} {j} {payload} r found m) =
      let seen = none_left root w i e h t (reached root w i e r) in
      let (_, _, again, _, refs) = i.visited h seen in
      refs k j (
        subst (λ (p : Fields). Memᴰ (k, j) (refs_list (iter_object_refs (object p))))
          (IsObject-payload found again) m)

  -- The state in which a walk from the catalog ends.
  pub walk-Inv :
      (fuel : ℕ) (cb : Bool) (root : Text) (last : Walk)
      → walk_loop codec read fuel cb (start codec read root) ≡ some (ok last)
      → Inv root last × (last.pending ≡ [])
  walk-Inv fuel cb root last h =
      loop_rule codec read (Inv root) cb (Inv-round root cb) fuel (start codec read root) last h
        (Inv-start root)

  pub Inv-seen :
      (root : Text) (w : Walk)
      → Inv root w
      → w.pending ≡ []
      → (h : Text) → (contains h w.seen ≡ true) ↔ ((t : ObjectType) × Reach root h t)
  Inv-seen root w i e h = (
    λ s. let (t, _, _, m, _) = i.visited h s in (t, i.sound h t m),
    λ (t, r). none_left root w i e h t (reached root w i e r),
  )

  pub Inv-types :
      (root : Text) (w : Walk)
      → Inv root w
      → w.pending ≡ []
      → {h : Text} {t u : ObjectType} → Reach root h t
      → Reach root h u
      → t ≡ u
  Inv-types root w i e r q = some-inj (sym (reached root w i e r) ∙ reached root w i e q)
    where
      some-inj : {a b : ObjectType} → some a ≡ some b → a ≡ b
      some-inj h = cc
