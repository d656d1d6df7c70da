-- ===== src/Protection/States.antt =====
-- protection/ec/states.py and protection/replication/states.py: the state that a number of
-- confirmed shards or copies gives.
use stopan.Prelude.{
  ℕ, ◌≤◌, ltb, leb, ◌≡◌, refl, inl, inr, Bool, true, false, ◌&&◌, Bool-cases, arith,
}
use stopan.Protection.{
  ℤ, pos, ProtectionState, placed, degraded, verified, failed, counts_as_protected,
  protection_state_from_thresholds,
}

unfoldable pub data_pack_state : ℤ → ℤ → ℤ → ProtectionState
unfolding protection_state_from_thresholds
data_pack_state protected_shards data_shards total_shards =
    protection_state_from_thresholds protected_shards total_shards data_shards placed degraded
      failed

unfoldable pub replication_push_state : ℤ → ℤ → ProtectionState
unfolding protection_state_from_thresholds
replication_push_state protected_remote_copies required_remote_copies =
    protection_state_from_thresholds protected_remote_copies required_remote_copies (pos 1) placed
      degraded failed

unfoldable pub replication_verify_state : ℤ → ℤ → ProtectionState
unfolding protection_state_from_thresholds
replication_verify_state verified_remote_copies required_remote_copies =
    protection_state_from_thresholds verified_remote_copies required_remote_copies (pos 0) verified
      degraded degraded

abbrev pub is_failed : ProtectionState → Bool
is_failed failed = true
is_failed _ = false

-- For K at most N, a pack of K data shards among N counts as protected exactly if all N are
-- confirmed, and has failed exactly if fewer than K are.
data_pack_state_lem :
    (confirmed k n : ℕ)
    → k ≤ n
    → (counts_as_protected (data_pack_state (pos confirmed) (pos k) (pos n)) ≡ leb n confirmed)
      × (is_failed (data_pack_state (pos confirmed) (pos k) (pos n)) ≡ ltb confirmed k)
unfolding data_pack_state
data_pack_state_lem confirmed k n h = elim (Bool-cases (ltb confirmed n)) [
  | inr all_there ↦
      let a : leb n confirmed ≡ true = ground (arith, all_there) in
      let b : ltb confirmed k ≡ false = ground (arith, all_there, h) in
      rw (all_there, a, b) (refl, refl)
  | inl some_miss ↦
      let a : leb n confirmed ≡ false = ground (arith, some_miss) in
      elim (Bool-cases (ltb confirmed k)) [
        | inl few ↦ rw (some_miss, few, a) (refl, refl)
        | inr enough ↦ rw (some_miss, enough, a) (refl, refl)
      ]
]

-- Pushing and verifying the same number of copies agree on whether a chunk is protected, namely
-- exactly if the required number is reached, and only pushing can end in failure, namely exactly
-- if copies are required and there is none.
replication_states_agree :
    (copies required : ℕ)
    → (counts_as_protected (replication_push_state (pos copies) (pos required))
        ≡ leb required copies)
      × (counts_as_protected (replication_verify_state (pos copies) (pos required))
          ≡ leb required copies)
      × (is_failed (replication_push_state (pos copies) (pos required))
          ≡ (ltb 0 required && leb copies 0))
      × (is_failed (replication_verify_state (pos copies) (pos required)) ≡ false)
unfolding replication_push_state replication_verify_state
replication_states_agree copies required = elim (Bool-cases (ltb copies required)) [
  | inr reached ↦
      let a : leb required copies ≡ true = ground (arith, reached) in
      let b : (ltb 0 required && leb copies 0) ≡ false = ground (arith, reached) in
      rw (reached, a, b) (refl, refl, refl, refl)
  | inl short ↦
      let a : leb required copies ≡ false = ground (arith, short) in
      let z : ltb copies 0 ≡ false = ground arith in
      let b : (ltb 0 required && leb copies 0) ≡ ltb copies 1 = ground (arith, short) in
      elim (Bool-cases (ltb copies 1)) [
        | inl nothing ↦ rw (short, a, b, z, nothing) (refl, refl, refl, refl)
        | inr something ↦ rw (short, a, b, z, something) (refl, refl, refl, refl)
      ]
]
