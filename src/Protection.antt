-- ===== src/Protection.antt =====
-- protection/policy.py: when the stored evidence about a chunk is enough to trust it.
-- The numbers are Python's integers. The dates and the error text of a row play no part.
pub mod Sufficiency
pub mod States
use stopan.Prelude.{
  ℕ, zero, ltb, leb, ◌==◌, Bool, true, false, not, ◌&&◌, Option, none, some, if◌then◌else◌, Text,
  text_eq, Result, ok, err,
}

pub data ℤ : Type 0 where
  pos : ℕ → ℤ
  negsuc : ℕ → ℤ

-- `a < b`
abbrev pub ltz : ℤ → ℤ → Bool
ltz (pos a) (pos b) = ltb a b
ltz (pos a) (negsuc b) = false
ltz (negsuc a) (pos b) = true
ltz (negsuc a) (negsuc b) = ltb b a

pub data ProtectionState : Type 0 where
  pending placed degraded verified failed : ProtectionState

abbrev pub counts_as_protected : ProtectionState → Bool
counts_as_protected placed = true
counts_as_protected verified = true
counts_as_protected _ = false

pub record ProtectionRecord : Type 0 where
  pub chunk_hash : Text
  pub desired_rf : ℤ
  pub protection_state : ProtectionState
  pub protected_remote_copies : ℤ
  pub placement_epoch : Option Text

pub data PolicyError : Type 0 where
  negative_rf : PolicyError

unfoldable pub normalize_remote_rf : ℤ → Result PolicyError ℤ
normalize_remote_rf value = if ltz value (pos 0) then err negative_rf else ok value

-- `current_epoch is not None and record.placement_epoch != current_epoch`
unfoldable pub other_epoch : Option Text → Option Text → Bool
other_epoch stored none = false
other_epoch none (some current) = true
other_epoch (some stored) (some current) = not (text_eq stored current)

unfoldable pub sufficient_for : ℤ → Option Text → Option ProtectionRecord → Bool
sufficient_for (pos zero) current_epoch row = true
sufficient_for required current_epoch none = false
sufficient_for required current_epoch (some row) =
    if not (counts_as_protected row.protection_state)
    then false
    else if ltz row.desired_rf required
    then false
    else if other_epoch row.placement_epoch current_epoch
    then false
    else if ltz row.protected_remote_copies required
    then false
    else true

unfoldable after_rf :
    Result PolicyError ℤ → Option Text → Option ProtectionRecord → Result PolicyError Bool
unfolding sufficient_for
after_rf (err e) current_epoch row = err e
after_rf (ok required) current_epoch row = ok (sufficient_for required current_epoch row)

unfoldable pub is_record_sufficient :
    Option ProtectionRecord → ℤ → Option Text → Result PolicyError Bool
unfolding after_rf normalize_remote_rf
is_record_sufficient row required_rf current_epoch =
    after_rf (normalize_remote_rf required_rf) current_epoch row

unfoldable pub protection_state_from_thresholds :
    ℤ → ℤ → ℤ → ProtectionState → ProtectionState → ProtectionState → ProtectionState
protection_state_from_thresholds confirmed success_threshold degraded_threshold success_state
      degraded_state failed_state =
    if not (ltz confirmed success_threshold)
    then success_state
    else if not (ltz confirmed degraded_threshold)
    then degraded_state
    else failed_state
