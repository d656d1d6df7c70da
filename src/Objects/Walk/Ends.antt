-- ===== src/Objects/Walk/Ends.antt =====
-- The `while` loop of `_collect_reachable_objects` ends on a store with finitely many objects.
use stopan.Prelude.{
  ℕ, zero, suc, ◌+◌, ◌≤◌, ◌<◌, ◌≡◌, ap, ◌∙◌, Bool, true, false, inl, inr, Option, some, List, [],
  ◌∷◌, if◌then◌else◌, Text, Bytes, contains, Result, ok, err, arith, length, List-cases,
  Result-cases, text_eq_iff,
}
use stopan.Objects.Json.{Fields, object}
use stopan.Objects.Kinds.{ObjectType}
use stopan.Objects.Envelope.{Codec, WalkError, iter_object_refs}
use stopan.Objects.Walk.{Walk, fetch, round, walk_loop}
use stopan.Objects.Walk.Follow.{refs_list}
use stopan.Objects.Walk.Rounds.{
  IsObject, IsObject-read, round-cases, walk_loop-nil, walk_loop-ok, walk_loop-err,
}

module _ (codec : Codec) (read : Text → Option Bytes) where
  -- The number of references in an object.
  abbrev pub refs_in : Text → ℕ
  refs_in h = elim (fetch codec read h) [
    | err _ ↦ 0
    | ok found ↦ length (refs_list (iter_object_refs (object (found.2))))
  ]

  -- The objects of a store that were not seen, and the references in them.
  abbrev pub work_left : List Text → List Text → ℕ
  work_left [] seen = 0
  work_left (h ∷ store) seen =
      (if contains h seen then 0 else suc (refs_in h)) + work_left store seen

  -- Each hash that can be read is one of `store`.
  abbrev pub HasAll : List Text → Type 0
  HasAll store = (h : Text) (b : Bytes) → read h ≡ some b → contains h store ≡ true

  work_left-seen :
      (store seen : List Text) (h : Text) → work_left store (h ∷ seen) ≤ work_left store seen
  unfolding contains
  work_left-seen [] seen h = omega arith
  work_left-seen (u ∷ store) seen h = ground (arith, work_left-seen store seen h)

  work_left-mark :
      (store seen : List Text) (h : Text)
      → contains h store ≡ true
      → contains h seen ≡ false
      → work_left store (h ∷ seen) + suc (refs_in h) ≤ work_left store seen
  unfolding contains
  work_left-mark [] seen h m fresh = cc
  work_left-mark (u ∷ store) seen h m fresh =
      ground (arith, work_left-mark store seen h, work_left-seen store seen h, text_eq_iff h u)

  IsObject-refs :
      {h : Text} {t : ObjectType} {payload : Fields}
      → IsObject codec read h t payload
      → refs_in h ≡ length (refs_list (iter_object_refs (object payload)))
  IsObject-refs found = ground (arith, found.fetched)

  round-work :
      (store : List Text) (cb : Bool) (w next : Walk) (h : Text) (t : ObjectType)
      (rest : List (Text × ObjectType))
      → HasAll store
      → round codec read cb w h t rest ≡ ok next
      → work_left store next.seen + length next.pending ≤ work_left store w.seen + length rest
  round-work store cb w next h t rest all e = elim (round-cases codec read cb w next h t rest e) [
    | inl (_, same) ↦
        omega (arith, ap (λ x. work_left store x.seen) same, ap (λ x. length x.pending) same)
    | inr (fresh, v) ↦
        let got = IsObject-read codec read v.found in
        omega (
          arith,
          work_left-mark store w.seen h (all h v.found.canonical_bytes got) fresh,
          v.followed.few,
          IsObject-refs v.found,
          ap (work_left store) v.marked,
        )
  ]

  pub walk_loop-ends :
      (store : List Text) (cb : Bool)
      → HasAll store
      → (fuel : ℕ) (w : Walk) → work_left store w.seen + length w.pending < fuel
      → (r : Result WalkError Walk) × (walk_loop codec read fuel cb w ≡ some r)
  walk_loop-ends store cb all zero w h = absurd (omega arith)
  walk_loop-ends store cb all (suc fuel) w h = elim (List-cases w.pending) [
    | inl empty ↦ (ok w, walk_loop-nil codec read fuel cb w empty)
    | inr ((k, t), rest, e) ↦ elim (Result-cases (round codec read cb w k t rest)) [
      | inl (x, failed) ↦ (err x, walk_loop-err codec read fuel cb w k t x rest e failed)
      | inr (next, went) ↦
          let (r, ends) =
            walk_loop-ends store cb all fuel next
              (omega (arith, round-work store cb w next k t rest all went, ap length e)) in
          (r, walk_loop-ok codec read fuel cb w next k t rest e went ∙ ends)
    ]
  ]
