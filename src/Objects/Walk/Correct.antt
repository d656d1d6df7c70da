-- ===== src/Objects/Walk/Correct.antt =====
-- `collect_reachable_object_hashes` and `collect_reachable_object_bytes` as a whole.
use stopan.Prelude.{
  ℕ, suc, ◌<◌, ◌≡◌, refl, sym, ap, subst, ◌∙◌, ◌↔◌, ◌⊎◌, Bool, true, false, inl, inr, Option, some,
  List, [], ◌∷◌, Text, Bytes, contains, Result, ok, arith, lookup-insert, lookup, insert,
  Bool-cases, attempt-eq-ok, attempt-returns, finish-eq-ok, finish-returns, text_eq_iff, text_eq,
  Dict, ok-inj,
}
use stopan.Objects.Kinds.{ObjectType}
use stopan.Objects.Envelope.{Codec, WalkError, require_hash64}
use stopan.Objects.Walk.{
  Walk, round, walk_loop, start, collect_reachable_objects, collect_reachable_object_hashes,
  collect_reachable_object_bytes,
}
use stopan.Objects.Walk.Rounds.{IsObject-read, IsObject-hash, round-cases, loop_rule}
use stopan.Objects.Walk.Reach.{
  contains-cons, contains-head, contains-tail, Reach, Inv-seen, Inv-types, walk-Inv,
}
use stopan.Objects.Walk.Ends.{HasAll, work_left, walk_loop-ends}

module _ (codec : Codec) (read : Text → Option Bytes) where
  -- What the loop leaves when the walk returns.
  collect_reachable_objects-eq :
      (fuel : ℕ) (catalog_hash : Text) (cb : Bool) {found : List Text × Dict Bytes}
      → collect_reachable_objects codec read fuel catalog_hash cb ≡ some (ok found)
      → (root : Text) × (w : Walk) × (require_hash64 catalog_hash ≡ ok root)
        × (walk_loop codec read fuel cb (start codec read root) ≡ some (ok w))
        × (found ≡ (w.seen, w.objects))
  unfolding collect_reachable_objects
  collect_reachable_objects-eq fuel catalog_hash cb h =
      let (root, valid, run) = attempt-eq-ok (require_hash64 catalog_hash) _ h in
      let (w, ends, same) =
        finish-eq-ok _ (walk_loop codec read fuel cb (start codec read root)) run in
      (root, w, valid, ends, same)

  -- What was read of the objects seen so far.
  record Kept (seen : List Text) (objects : Dict Bytes) : Type 0 where
    has :
        (h : Text)
        → contains h seen ≡ true
        → (b : Bytes) × (lookup h objects ≡ some b)
          × (read h ≡ some b)
          × (require_hash64 h ≡ ok (codec.hexdigest b))
    only : (h : Text) (b : Bytes) → lookup h objects ≡ some b → contains h seen ≡ true

  Kept-insert :
      (seen : List Text) (objects : Dict Bytes) (h : Text) (b : Bytes)
      → read h ≡ some b
      → require_hash64 h ≡ ok (codec.hexdigest b)
      → Kept seen objects
      → Kept (h ∷ seen) (insert h b objects)
  Kept-insert seen objects h b got hash i = record {
    has = λ k m. elim (Bool-cases (text_eq h k)) [
      | inl same ↦
          let x = (text_eq_iff h k).0 same in
          (
            b,
            rw (lookup-insert h k b objects, same) refl,
            subst (λ (l : Text). read l ≡ some b) x got,
            subst (λ (l : Text). require_hash64 l ≡ ok (codec.hexdigest b)) x hash,
          )
      | inr other ↦
          let (a, found, was, valid) =
            i.has k (earlier k other (contains-cons codec read k h seen m)) in
          (a, rw (lookup-insert h k b objects, other) found, was, valid)
    ];
    only = λ k a m. elim (Bool-cases (text_eq h k)) [
      | inl same ↦ contains-head codec read k h seen (sym ((text_eq_iff h k).0 same))
      | inr other ↦
          contains-tail codec read k h seen
            (i.only k a (rw (lookup-insert h k b objects, other) at m))
    ];
  }
    where
      earlier :
          (k : Text)
          → text_eq h k ≡ false
          → (k ≡ h) ⊎ (contains k seen ≡ true)
          → contains k seen ≡ true
      earlier k other c = ground (arith, text_eq_iff h k)

  abbrev KeptBy : Walk → Type 0
  KeptBy w = Kept w.seen w.objects

  Kept-round :
      (w next : Walk) (h : Text) (t : ObjectType) (rest : List (Text × ObjectType))
      → w.pending ≡ (h, t) ∷ rest
      → round codec read true w h t rest ≡ ok next
      → KeptBy w
      → KeptBy next
  Kept-round w next h t rest e went i = elim (round-cases codec read true w next h t rest went) [
    | inl (_, same) ↦ subst KeptBy same i
    | inr (_, v) ↦ subst (Kept next.seen) (sym v.kept) (
        subst (λ (s : List Text). Kept s (insert h v.found.canonical_bytes w.objects))
          (sym v.marked)
          (Kept-insert w.seen w.objects h v.found.canonical_bytes (IsObject-read codec read v.found)
            (IsObject-hash codec read v.found) i))
  ]

  Kept-start : Kept [] []
  unfolding contains lookup
  Kept-start = record { has = λ h m. cc; only = λ h b m. cc }

  -- What `collect_reachable_object_hashes` found, once the catalog hash is checked.
  hashes-eq :
      (fuel : ℕ) (catalog_hash root : Text) (hashes : List Text)
      → collect_reachable_object_hashes codec read fuel catalog_hash ≡ some (ok hashes)
      → require_hash64 catalog_hash ≡ ok root
      → (w : Walk) × (walk_loop codec read fuel false (start codec read root) ≡ some (ok w))
        × (hashes ≡ w.seen)
  unfolding collect_reachable_object_hashes
  hashes-eq fuel catalog_hash root hashes e valid =
      let (found, ran, seen) =
        finish-eq-ok _ (collect_reachable_objects codec read fuel catalog_hash false) e in
      let (clean, w, checked, ends, same) =
        collect_reachable_objects-eq fuel catalog_hash false ran in
      let from_root =
        subst (λ (x : Text). walk_loop codec read fuel false (start codec read x) ≡ some (ok w))
          (ok-inj (sym checked ∙ valid)) ends in
      (w, from_root, seen ∙ ap (λ (f : List Text × Dict Bytes). f.0) same)

  -- When `collect_reachable_object_hashes` returns, the result holds a hash exactly if references
  -- lead to it from the catalog, and all of them expect one and the same type.
  pub collect_reachable_object_hashes-Reach :
      (fuel : ℕ) (catalog_hash root : Text) (hashes : List Text) (h : Text)
      → collect_reachable_object_hashes codec read fuel catalog_hash ≡ some (ok hashes)
      → require_hash64 catalog_hash ≡ ok root
      → (contains h hashes ≡ true)
        ↔ ((t : ObjectType) × ((u : ObjectType) → Reach codec read root h u ↔ (u ≡ t)))
  collect_reachable_object_hashes-Reach fuel catalog_hash root hashes h e valid =
      let (w, ends, seen) = hashes-eq fuel catalog_hash root hashes e valid in
      let (inv, empty) = walk-Inv codec read fuel false root w ends in
      let (sound, full) = Inv-seen codec read root w inv empty h in
      (
        λ m.
            let (t, r) = sound (subst (λ (l : List Text). contains h l ≡ true) seen m) in
            (
              t,
              λ u. (
                λ q. Inv-types codec read root w inv empty q r,
                λ same. subst (Reach codec read root h) (sym same) r,
              ),
            ),
        λ (t, only).
            subst (λ (l : List Text). contains h l ≡ true) (sym seen) (full (t, (only t).1 refl)),
      )

  -- What references lead to was collected.
  pub Reach-collected :
      (fuel : ℕ) (catalog_hash root : Text) (hashes : List Text) (h : Text) (t : ObjectType)
      → collect_reachable_object_hashes codec read fuel catalog_hash ≡ some (ok hashes)
      → require_hash64 catalog_hash ≡ ok root
      → Reach codec read root h t
      → contains h hashes ≡ true
  Reach-collected fuel catalog_hash root hashes h t e valid r =
      let (w, ends, seen) = hashes-eq fuel catalog_hash root hashes e valid in
      let (inv, empty) = walk-Inv codec read fuel false root w ends in
      subst (λ (l : List Text). contains h l ≡ true) (sym seen)
        ((Inv-seen codec read root w inv empty h).1 (t, r))

  -- When `collect_reachable_object_bytes` returns, references lead to a hash from the catalog exactly
  -- if the result holds the bytes that were read for it, and their digest is that hash without
  -- surrounding spaces.
  pub collect_reachable_object_bytes-Reach :
      (fuel : ℕ) (catalog_hash root : Text) (objects : Dict Bytes) (h : Text)
      → collect_reachable_object_bytes codec read fuel catalog_hash ≡ some (ok objects)
      → require_hash64 catalog_hash ≡ ok root
      → ((t : ObjectType) × Reach codec read root h t) ↔ (
          (b : Bytes) × (lookup h objects ≡ some b)
          × (read h ≡ some b)
          × (require_hash64 h ≡ ok (codec.hexdigest b)))
  unfolding collect_reachable_object_bytes
  collect_reachable_object_bytes-Reach fuel catalog_hash root objects h e valid =
      let (found, ran, kept) =
        finish-eq-ok _ (collect_reachable_objects codec read fuel catalog_hash true) e in
      let (clean, w, checked, ends, same) =
        collect_reachable_objects-eq fuel catalog_hash true ran in
      let (inv, empty) = walk-Inv codec read fuel true clean w ends in
      let (all, _) =
        loop_rule codec read KeptBy true Kept-round fuel (start codec read clean) w ends
          Kept-start in
      let objects_kept = kept ∙ ap (λ (f : List Text × Dict Bytes). f.1) same in
      let by_hash = subst (Kept w.seen) (sym objects_kept) all in
      let (sound, full) =
        subst
          (λ (x : Text). (contains h w.seen ≡ true) ↔ ((t : ObjectType) × Reach codec read x h t))
          (ok-inj (sym checked ∙ valid)) (Inv-seen codec read clean w inv empty h) in
      (λ r. by_hash.has h (full r), λ (b, m, _, _). sound (by_hash.only h b m))

  -- If every hash that can be read is in a finite list, the walk returns or raises with fuel for one
  -- more than a round for the catalog, each object of the list and each reference in them.
  pub collect_reachable_object_hashes-ends :
      (store : List Text) (fuel : ℕ) (catalog_hash : Text)
      → HasAll codec read store
      → suc (work_left codec read store []) < fuel
      → (r : Result WalkError (List Text)) × (collect_reachable_object_hashes codec read fuel
            catalog_hash
          ≡ some r)
  unfolding collect_reachable_object_hashes collect_reachable_objects
  collect_reachable_object_hashes-ends store fuel catalog_hash all enough =
      let (_, returned) = attempt-returns (require_hash64 catalog_hash) _ (λ root.
        let (_, ends) =
          walk_loop-ends codec read store false all fuel (start codec read root) (omega arith) in
        finish-returns (λ (w : Walk). (w.seen, w.objects)) _ ends) in
      finish-returns (λ (found : List Text × Dict Bytes). found.0) _ returned
