-- ===== src/Objects/Models/Protections.antt =====
-- The protection classes of metadata/objects/models.py.
pub mod Laws
use stopan.Prelude.{
  ℕ, ◌==◌, ◌≡◌, Bool, true, false, not, ◌||◌, List, [], Option, none, Text, codes, text_eq, All,
  Result, ok, ◌>>=◌, ◌>>◌, raise_if,
}
use stopan.Objects.Json.{Value}
use stopan.Objects.Kinds.{ObjectType}
use stopan.Objects.Models.Checks.{
  ModelError, Numbers, require_str, require_int, Number, require_number, require_hash64,
  require_prefix, optional, total_mismatch, invalid_state,
}
use stopan.Objects.Models.Checks.Laws.{IsFilled, IsNumber, IsHash64, IsPrefix, IsOptional}
use stopan.Objects.Models.Ordered.{Listing, check_listing, IsListing}
use stopan.Objects.Models.Ordered.Orders.{by_name}
use stopan.Objects.Models.Shards.{
  check_prefix, IndexShardRef, IsIndexShardRef, shard_ref_listing, total_count,
}

-- `_VALID_PROTECTION_STATES`
unfoldable pub is_protection_state : Text → Bool
unfolding text_eq
is_protection_state state =
    text_eq state (codes "PENDING")
    || text_eq state (codes "PLACED")
    || text_eq state (codes "DEGRADED")
    || text_eq state (codes "VERIFIED")
    || text_eq state (codes "FAILED")

pub record ProtectionRecord : Type 0 where
  pub chunk_hash : Text
  pub desired_rf : ℕ
  pub protection_state : Text
  pub protected_remote_copies : ℕ
  pub placement_epoch : Option Text
  pub last_push_at : Option Number
  pub last_verify_at : Option Number
  pub last_error : Option Text

unfoldable pub new_protection_record :
    Numbers
    → Value
    → Value
    → Value
    → Value
    → Value
    → Value
    → Value
    → Value
    → Result ModelError ProtectionRecord
unfolding is_protection_state optional require_hash64 require_int require_number require_str
new_protection_record numbers chunk_hash desired_rf protection_state protected_remote_copies
      placement_epoch last_push_at last_verify_at last_error =
    do
      chunk_hash ← require_hash64 chunk_hash
      desired_rf ← require_int 0 desired_rf
      protection_state ← require_str false protection_state
      raise_if (not (is_protection_state protection_state)) invalid_state
      protected_remote_copies ← require_int 0 protected_remote_copies
      placement_epoch ← optional (require_str true) placement_epoch
      last_push_at ← optional (require_number numbers true) last_push_at
      last_verify_at ← optional (require_number numbers true) last_verify_at
      last_error ← optional (require_str true) last_error
      ok (record {
        chunk_hash = chunk_hash;
        desired_rf = desired_rf;
        protection_state = protection_state;
        protected_remote_copies = protected_remote_copies;
        placement_epoch = placement_epoch;
        last_push_at = last_push_at;
        last_verify_at = last_verify_at;
        last_error = last_error;
      })

abbrev pub IsProtectionRecord : Numbers → ProtectionRecord → Type 0
IsProtectionRecord numbers x =
    IsHash64 x.chunk_hash
    × IsFilled x.protection_state
    × ((is_protection_state x.protection_state) ≡ true)
    × IsOptional (IsNumber numbers true) x.last_push_at
    × IsOptional (IsNumber numbers true) x.last_verify_at

unfoldable pub protection_listing : Text → Listing ProtectionRecord
unfolding by_name check_prefix
protection_listing prefix =
    by_name (λ (r : ProtectionRecord). r.chunk_hash)
      (λ (r : ProtectionRecord). check_prefix prefix r.chunk_hash)

pub record ProtectionShard : Type 0 where
  pub prefix : Text
  pub records : List ProtectionRecord

unfoldable pub new_protection_shard :
    Numbers → Value → List ProtectionRecord → Result ModelError ProtectionShard
unfolding check_listing protection_listing require_prefix
new_protection_shard numbers prefix records = do
  prefix ← require_prefix prefix
  check_listing (protection_listing prefix) [] none records
  ok (record { prefix = prefix; records = records })

abbrev pub IsProtectionShard : Numbers → ProtectionShard → Type 0
IsProtectionShard numbers x =
    IsPrefix x.prefix
    × All (IsProtectionRecord numbers) x.records
    × IsListing (protection_listing x.prefix) x.records

pub record ProtectionIndex : Type 0 where
  pub shards : List IndexShardRef
  pub total_records : ℕ

unfoldable pub new_protection_index : List IndexShardRef → Value → Result ModelError ProtectionIndex
unfolding check_listing require_int shard_ref_listing
new_protection_index shards total_records = do
  total_records ← require_int 0 total_records
  check_listing (shard_ref_listing ObjectType.protection_shard) [] none shards
  raise_if (not (total_count shards == total_records)) total_mismatch
  ok (record { shards = shards; total_records = total_records })

abbrev pub IsProtectionIndex : ProtectionIndex → Type 0
IsProtectionIndex x =
    All IsIndexShardRef x.shards
    × IsListing (shard_ref_listing ObjectType.protection_shard) x.shards
    × ((total_count x.shards == x.total_records) ≡ true)
