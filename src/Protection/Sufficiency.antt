-- ===== src/Protection/Sufficiency.antt =====
-- protection/policy.py: stored evidence and the states from thresholds.
use stopan.Prelude.{
  ℕ, zero, suc, ◌≤◌, ltb, leb, ◌≡◌, refl, inl, inr, Bool, true, false, not, ◌&&◌, Option, none,
  some, if◌then◌else◌, Bool-cases, arith, Text, text_eq_iff, &&-eq-true, ap, sym, ◌∙◌, Result, ok,
}
use stopan.Protection.{
  PolicyError, ℤ, pos, negsuc, ltz, placed, degraded, failed, counts_as_protected, ProtectionRecord,
  normalize_remote_rf, other_epoch, sufficient_for, after_rf, is_record_sufficient,
  protection_state_from_thresholds,
}

chain :
    (a b c d : Bool)
    → (if not a then false else if b then false else if c then false else if d then false else true)
      ≡ (a && (not b && (not c && not d)))
chain a b c d = ground arith

-- What the code's chain of tests comes to for a positive number of copies.
sufficient_lem :
    (row : ProtectionRecord) (n : ℕ) (epoch : Option Text)
    → sufficient_for (pos (suc n)) epoch (some row) ≡ (
        counts_as_protected row.protection_state
        && (not (ltz row.desired_rf (pos (suc n)))
            && (not (other_epoch row.placement_epoch epoch)
                && not (ltz row.protected_remote_copies (pos (suc n))))))
unfolding sufficient_for
sufficient_lem row n epoch =
    chain (counts_as_protected row.protection_state) (ltz row.desired_rf (pos (suc n)))
      (other_epoch row.placement_epoch epoch) (ltz row.protected_remote_copies (pos (suc n)))

all_four :
    (a b c d : Bool)
    → (a && (b && (c && d))) ≡ true
    → (a ≡ true) × (b ≡ true) × (c ≡ true) × (d ≡ true)
all_four a b c d h =
    let (x, bcd) = &&-eq-true a (b && (c && d)) h in
    let (y, cd) = &&-eq-true b (c && d) bcd in let (z, w) = &&-eq-true c d cd in (x, y, z, w)

checked :
    (row : Option ProtectionRecord) (n : ℕ) (epoch : Option Text)
    → is_record_sufficient row (pos n) epoch ≡ ok (sufficient_for (pos n) epoch row)
unfolding is_record_sufficient normalize_remote_rf after_rf
checked row n epoch = let h : ltb n 0 ≡ false = ground arith in rw h

ltz-fewer : (z : ℤ) (n m : ℕ) → m ≤ n → not (ltz z (pos n)) ≡ true → not (ltz z (pos m)) ≡ true
ltz-fewer (pos a) n m less h = ground (arith, h)
ltz-fewer (negsuc a) n m less h = cc

sufficient-fewer :
    (row : Option ProtectionRecord) (n m : ℕ) (epoch : Option Text)
    → m ≤ n
    → sufficient_for (pos n) epoch row ≡ true
    → sufficient_for (pos m) epoch row ≡ true
unfolding sufficient_for
sufficient-fewer row n zero epoch less h = refl
sufficient-fewer row zero (suc m) epoch less h = absurd (omega arith)
sufficient-fewer none (suc n) (suc m) epoch less h = cc
sufficient-fewer (some row) (suc n) (suc m) epoch less h =
    let (a, b, c, d) =
      all_four (counts_as_protected row.protection_state) (not (ltz row.desired_rf (pos (suc n))))
        (not (other_epoch row.placement_epoch epoch))
        (not (ltz row.protected_remote_copies (pos (suc n))))
        (sym (sufficient_lem row n epoch) ∙ h) in
    sufficient_lem row m epoch
    ∙ rw (
      a,
      ltz-fewer row.desired_rf (suc n) (suc m) less b,
      c,
      ltz-fewer row.protected_remote_copies (suc n) (suc m) less d,
    )

ok_inj : {a b : Bool} → ◌≡◌ {A = Result PolicyError Bool} (ok a) (ok b) → a ≡ b
ok_inj h = cc

-- Evidence that is enough for some number of remote copies is enough for any smaller number.
is_record_sufficient-fewer :
    (row : Option ProtectionRecord) (n m : ℕ) (epoch : Option Text)
    → m ≤ n
    → is_record_sufficient row (pos n) epoch ≡ ok true
    → is_record_sufficient row (pos m) epoch ≡ ok true
is_record_sufficient-fewer row n m epoch less h =
    checked row m epoch
    ∙ ap ok (sufficient-fewer row n m epoch less (ok_inj (sym (checked row n epoch) ∙ h)))

-- A row for `n` copies whose state was derived from the confirmed copies with that threshold is
-- enough for `n` copies in its own epoch exactly if all of them were confirmed; `n` is positive and
-- the lower threshold is whatever it is.
is_record_sufficient-thresholds :
    (chunk_hash epoch : Text) (n confirmed : ℕ) (lower : ℤ)
    → (is_record_sufficient
          (some (record {
            chunk_hash = chunk_hash;
            desired_rf = pos (suc n);
            protection_state =
                protection_state_from_thresholds
                  (pos confirmed)
                  (pos (suc n))
                  lower
                  placed
                  degraded
                  failed;
            protected_remote_copies = pos confirmed;
            placement_epoch = some epoch;
          }))
          (pos (suc n))
          (some epoch)
        ≡ ok (leb (suc n) confirmed))
unfolding protection_state_from_thresholds other_epoch
is_record_sufficient-thresholds chunk_hash epoch n confirmed lower =
    checked _ (suc n) (some epoch)
    ∙ ap ok (
        sufficient_lem _ n (some epoch)
        ∙ rw ((text_eq_iff epoch epoch).1 refl) (elim (Bool-cases (ltb confirmed (suc n))) [
          | inl few ↦
              let less : leb (suc n) confirmed ≡ false = ground (arith, few) in
              rw (few, less) (unenough (not (ltz (pos confirmed) lower)) _)
          | inr enough ↦
              let less : leb (suc n) confirmed ≡ true = ground (arith, enough) in
              let self : ltb (suc n) (suc n) ≡ false = ground arith in rw (enough, less, self) refl
        ]))
  where
    unenough : (b c : Bool) → (counts_as_protected (if b then degraded else failed) && c) ≡ false
    unenough true c = refl
    unenough false c = refl
