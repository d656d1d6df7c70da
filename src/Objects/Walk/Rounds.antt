-- ===== src/Objects/Walk/Rounds.antt =====
-- The rounds of the `while` loop of `_collect_reachable_objects`.
use stopan.Prelude.{
  ℕ, zero, suc, ◌≡◌, refl, sym, ap, ◌∙◌, subst, ◌⊎◌, inl, inr, Bool, true, false, not, Option, none,
  some, List, [], ◌∷◌, if◌then◌else◌, Bool-cases, Text, Bytes, text_eq, text_eq_iff, contains,
  insert, ok-inj, List-cases, Result-cases, Result, ok, err, arith, >>-eq-ok, >>=-eq-ok,
  raise_if-eq-ok, raise_if,
}
use stopan.Objects.Json.{Fields, object}
use stopan.Objects.Kinds.{ObjectType, same_type, same_type_iff}
use stopan.Objects.Envelope.{
  Codec, WalkError, iter_object_refs, require_hash64, type_mismatch, hash_mismatch, check_hash,
  decode_object_envelope,
}
use stopan.Objects.Walk.{Walk, read_bytes, follow, fetch, visit, round, walk_loop}
use stopan.Objects.Walk.Follow.{Followed, follow-Followed}

read_bytes-ok :
    (o : Option Bytes) {b : Bytes}
    → ◌≡◌ {A = Result WalkError Bytes} (read_bytes o) (ok b)
    → o ≡ some b
unfolding read_bytes
read_bytes-ok none e = cc
read_bytes-ok (some x) e = ap some (ok-inj e)

text_eq-not : (s t : Text) → not (text_eq s t) ≡ false → s ≡ t
text_eq-not s t h = (text_eq_iff s t).0 (ground arith)

module _ (codec : Codec) (read : Text → Option Bytes) where
  -- What `fetch` found of an object, and the references in it.
  pub record IsObject (h : Text) (t : ObjectType) (payload : Fields) : Type 0 where
    pub canonical_bytes : Bytes
    pub fetched : fetch codec read h ≡ ok (canonical_bytes, t, payload)

  -- What was read of an object, under its hash.
  pub IsObject-read :
      {h : Text} {t : ObjectType} {payload : Fields} (found : IsObject h t payload)
      → read h ≡ some found.canonical_bytes
  unfolding fetch
  IsObject-read {h} found =
      let (b, got, e) = >>=-eq-ok (read_bytes (read h)) _ found.fetched in
      let (d, _, e1) = >>=-eq-ok (decode_object_envelope codec b (some h)) _ e in
      read_bytes-ok (read h)
        (got ∙ ap ok (ap (λ (f : Bytes × ObjectType × Fields). f.0) (ok-inj e1)))

  pub IsObject-hash :
      {h : Text} {t : ObjectType} {payload : Fields} (found : IsObject h t payload)
      → require_hash64 h ≡ ok (codec.hexdigest found.canonical_bytes)
  unfolding fetch decode_object_envelope check_hash
  IsObject-hash {h} found =
      let (b, got, e) = >>=-eq-ok (read_bytes (read h)) _ found.fetched in
      let (d, decoded, e1) = >>=-eq-ok (decode_object_envelope codec b (some h)) _ e in
      let (checked, _) = >>-eq-ok (check_hash (some h) (codec.hexdigest b)) _ decoded in
      let (clean, valid, e2) = >>=-eq-ok (require_hash64 h) _ checked in
      let same = raise_if-eq-ok (not (text_eq (codec.hexdigest b) clean)) hash_mismatch e2 in
      let same_bytes = ap (λ (f : Bytes × ObjectType × Fields). f.0) (ok-inj e1) in
      valid ∙ ap ok (sym (text_eq-not _ clean same) ∙ ap (codec.hexdigest) same_bytes)

  some-ok-inj :
      {w last : Walk}
      → ◌≡◌ {A = Option (Result WalkError Walk)} (some (ok w)) (some (ok last))
      → w ≡ last
  some-ok-inj h = cc

  walk_loop-zero : (cb : Bool) (w : Walk) → walk_loop codec read 0 cb w ≡ none
  unfolding walk_loop
  walk_loop-zero cb w = refl

  pub walk_loop-nil :
      (fuel : ℕ) (cb : Bool) (w : Walk)
      → w.pending ≡ []
      → walk_loop codec read (suc fuel) cb w ≡ some (ok w)
  unfolding walk_loop
  walk_loop-nil fuel cb w e = ground (arith, e)

  pub walk_loop-ok :
      (fuel : ℕ) (cb : Bool) (w next : Walk) (h : Text) (t : ObjectType)
      (rest : List (Text × ObjectType))
      → w.pending ≡ (h, t) ∷ rest
      → round codec read cb w h t rest ≡ ok next
      → walk_loop codec read (suc fuel) cb w ≡ walk_loop codec read fuel cb next
  unfolding walk_loop
  walk_loop-ok fuel cb w next h t rest e went = ground (arith, e, went)

  pub walk_loop-err :
      (fuel : ℕ) (cb : Bool) (w : Walk) (h : Text) (t : ObjectType) (x : WalkError)
      (rest : List (Text × ObjectType))
      → w.pending ≡ (h, t) ∷ rest
      → round codec read cb w h t rest ≡ err x
      → walk_loop codec read (suc fuel) cb w ≡ some (err x)
  unfolding walk_loop
  walk_loop-err fuel cb w h t x rest e failed = ground (arith, e, failed)

  -- An invariant that every round keeps holds when the loop ends, with nothing pending.
  pub loop_rule {ℓ} :
      (P : Walk → Type ℓ) (cb : Bool)
      → ((w next : Walk) (h : Text) (t : ObjectType) (rest : List (Text × ObjectType))
          → w.pending ≡ (h, t) ∷ rest
          → round codec read cb w h t rest ≡ ok next
          → P w
          → P next)
      → (fuel : ℕ) (w last : Walk) → walk_loop codec read fuel cb w ≡ some (ok last)
      → P w
      → P last × (last.pending ≡ [])
  loop_rule P cb keep zero w last h p = cc (walk_loop-zero cb w, h)
  loop_rule P cb keep (suc fuel) w last h p = elim (List-cases w.pending) [
    | inl empty ↦
        let same = some-ok-inj (sym (walk_loop-nil fuel cb w empty) ∙ h) in
        subst (λ x. P x × (x.pending ≡ [])) same (p, empty)
    | inr ((k, t), rest, e) ↦ elim (Result-cases (round codec read cb w k t rest)) [
      | inl (x, failed) ↦ cc (walk_loop-err fuel cb w k t x rest e failed, h)
      | inr (next, went) ↦
          loop_rule P cb keep fuel next last (sym (walk_loop-ok fuel cb w next k t rest e went) ∙ h)
            (keep w next k t rest e went p)
    ]
  ]

  -- The parts of a visit that succeeds.
  pub record Visited (cb : Bool) (w : Walk) (h : Text) (t : ObjectType)
      (rest : List (Text × ObjectType)) (next : Walk) : Type 0 where
    pub payload : Fields
    pub found : IsObject h t payload
    pub marked : next.seen ≡ h ∷ w.seen
    pub kept : next.objects ≡ (if cb then insert h (found.canonical_bytes) w.objects else w.objects)
    pub followed :
        Followed
          (h ∷ w.seen)
          w.expected_types
          rest
          (iter_object_refs (object payload))
          next.expected_types
          next.pending

  pub visit-Visited :
      (cb : Bool) (w next : Walk) (h : Text) (t : ObjectType) (rest : List (Text × ObjectType))
      → visit codec read cb w h t rest ≡ ok next
      → Visited cb w h t rest next
  unfolding visit
  visit-Visited cb w next h t rest e =
      let (fetched, got, e1) = >>=-eq-ok (fetch codec read h) _ e in
      let (checked, e2) = >>-eq-ok (raise_if (not (same_type (fetched.1) t)) type_mismatch) _ e1 in
      let (followed, went, e3) =
        >>=-eq-ok
          (follow (h ∷ w.seen) w.expected_types rest (iter_object_refs (object (fetched.2)))) _
          e2 in
      let typed = same_type-eq (fetched.1) t (raise_if-eq-ok _ type_mismatch checked) in
      subst (Visited cb w h t rest) (ok-inj e3) (record {
        payload = fetched.2;
        found = record {
          canonical_bytes = fetched.0;
          fetched =
              subst (λ (a : ObjectType). fetch codec read h ≡ ok (fetched.0, a, fetched.2)) typed
                got;
        };
        marked = refl;
        kept = refl;
        followed =
            follow-Followed (h ∷ w.seen) w.expected_types (followed.0) rest (followed.1)
              (iter_object_refs (object (fetched.2))) went;
      })
    where
      same_type-eq : (a b : ObjectType) → not (same_type a b) ≡ false → a ≡ b
      same_type-eq a b k = (same_type_iff a b).0 (ground arith)

  -- A round whose item was seen drops it; any other visits it.
  pub round-cases :
      (cb : Bool) (w next : Walk) (h : Text) (t : ObjectType) (rest : List (Text × ObjectType))
      → round codec read cb w h t rest ≡ ok next
      → ((contains h w.seen ≡ true) × (record w { pending = rest } ≡ next))
        ⊎ ((contains h w.seen ≡ false) × Visited cb w h t rest next)
  unfolding round
  round-cases cb w next h t rest e = elim (Bool-cases (contains h w.seen)) [
    | inl was_seen ↦ inl (was_seen, ok-inj (if_true _ _ was_seen e))
    | inr fresh ↦ inr (fresh, visit-Visited cb w next h t rest (if_false _ _ fresh e))
  ]
    where
      if_true :
          {b : Bool} (x y : Result WalkError Walk)
          → b ≡ true
          → (if b then x else y) ≡ ok next
          → x ≡ ok next
      if_true x y h k = ground arith

      if_false :
          {b : Bool} (x y : Result WalkError Walk)
          → b ≡ false
          → (if b then x else y) ≡ ok next
          → y ≡ ok next
      if_false x y h k = ground arith
