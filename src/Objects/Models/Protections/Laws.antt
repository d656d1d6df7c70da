-- ===== src/Objects/Models/Protections/Laws.antt =====
-- The lemmas on the protection classes.
use stopan.Prelude.{
  ◌==◌, ◌≡◌, refl, ◌↔◌, false, not, List, [], none, Text, All, ok, Ensures, returned, Ensures->>=,
  Ensures-raise_if,
}
use stopan.Protection.{pos}
use stopan.Objects.Json.{Value, integer, string}
use stopan.Objects.Kinds.{ObjectType}
use stopan.Objects.Models.Checks.{Numbers, total_mismatch}
use stopan.Objects.Models.Checks.Laws.{
  not-eq-false, require_str-string, require_int-AtLeast, number_value, require_hash64-string,
  require_prefix-IsPrefix, require_prefix-string, optional_value, optional-string,
  optional-number_value, Ensures-check, at_least_zero,
}
use stopan.Objects.Models.Checks.Rules.{ensures_rules}
use stopan.Objects.Models.Ordered.{check_listing, IsListing}
use stopan.Objects.Models.Ordered.Orders.{by_name_iff}
use stopan.Objects.Models.Shards.{
  check_prefix, IndexShardRef, IsIndexShardRef, shard_ref_listing, total_count,
}
use stopan.Objects.Models.Shards.Laws.{shard_ref_listing_iff}
use stopan.Objects.Models.Protections.{
  ProtectionRecord, new_protection_record, IsProtectionRecord, protection_listing, ProtectionShard,
  new_protection_shard, IsProtectionShard, ProtectionIndex, new_protection_index, IsProtectionIndex,
}

pub protection_listing_iff :
    (prefix : Text) (l : List ProtectionRecord)
    → (check_listing (protection_listing prefix) [] none l ≡ ok tt)
      ↔ IsListing (protection_listing prefix) l
unfolding protection_listing
protection_listing_iff prefix =
    by_name_iff (λ (r : ProtectionRecord). r.chunk_hash)
      (λ (r : ProtectionRecord). check_prefix prefix r.chunk_hash)

pub new_protection_record-IsProtectionRecord :
    (numbers : Numbers) (chunk_hash : Value) (desired_rf : Value) (protection_state : Value)
    (protected_remote_copies : Value) (placement_epoch : Value) (last_push_at : Value)
    (last_verify_at : Value) (last_error : Value)
    → Ensures (IsProtectionRecord numbers) (
        new_protection_record numbers chunk_hash desired_rf protection_state protected_remote_copies
          placement_epoch last_push_at last_verify_at last_error)
unfolding new_protection_record
new_protection_record-IsProtectionRecord numbers chunk_hash desired_rf protection_state
      protected_remote_copies placement_epoch last_push_at last_verify_at last_error =
    search (ensures_rules) depth 40 fits 4000

pub new_protection_record_valid :
    (numbers : Numbers) (x : ProtectionRecord)
    → IsProtectionRecord numbers x
    → new_protection_record numbers
        (string x.chunk_hash)
        (integer (pos x.desired_rf))
        (string x.protection_state)
        (integer (pos x.protected_remote_copies))
        (optional_value string x.placement_epoch)
        (optional_value number_value x.last_push_at)
        (optional_value number_value x.last_verify_at)
        (optional_value string x.last_error)
      ≡ ok x
unfolding new_protection_record
new_protection_record_valid numbers x (h0, h1, h2, h3, h4) =
    rw
      (
        require_hash64-string x.chunk_hash h0,
        at_least_zero x.desired_rf,
        require_str-string false x.protection_state h1,
        h2,
        at_least_zero x.protected_remote_copies,
        optional-string x.placement_epoch,
        optional-number_value numbers x.last_push_at h3,
        optional-number_value numbers x.last_verify_at h4,
        optional-string x.last_error,
      )
      refl

pub new_protection_shard-IsProtectionShard :
    (numbers : Numbers) (prefix : Value) (records : List ProtectionRecord)
    → All (IsProtectionRecord numbers) records
    → Ensures (IsProtectionShard numbers) (new_protection_shard numbers prefix records)
unfolding new_protection_shard
new_protection_shard-IsProtectionShard numbers prefix records r_records =
    Ensures->>= (require_prefix-IsPrefix prefix) λ prefix h0.
      Ensures-check (check_listing (protection_listing prefix) [] none records)
        λ h2. returned (h0, r_records, (protection_listing_iff prefix records).0 h2)

pub new_protection_shard_valid :
    (numbers : Numbers) (x : ProtectionShard)
    → IsProtectionShard numbers x
    → new_protection_shard numbers (string x.prefix) x.records ≡ ok x
unfolding new_protection_shard
new_protection_shard_valid numbers x (h0, h1, h2) =
    rw (require_prefix-string x.prefix h0, (protection_listing_iff x.prefix x.records).1 h2) refl

pub new_protection_index-IsProtectionIndex :
    (shards : List IndexShardRef) (total_records : Value)
    → All IsIndexShardRef shards
    → Ensures (IsProtectionIndex) (new_protection_index shards total_records)
unfolding new_protection_index
new_protection_index-IsProtectionIndex shards total_records r_shards =
    Ensures->>= (require_int-AtLeast 0 total_records) λ total_records _.
      Ensures-check (check_listing (shard_ref_listing ObjectType.protection_shard) [] none shards)
        λ h1. Ensures-raise_if (not (total_count shards == total_records)) total_mismatch λ h2.
          returned (
            r_shards,
            (shard_ref_listing_iff ObjectType.protection_shard shards).0 h1,
            not-eq-false _ h2,
          )

pub new_protection_index_valid :
    (x : ProtectionIndex)
    → IsProtectionIndex x
    → new_protection_index x.shards (integer (pos x.total_records)) ≡ ok x
unfolding new_protection_index
new_protection_index_valid x (h0, h1, h2) =
    rw
      (
        at_least_zero x.total_records,
        (shard_ref_listing_iff ObjectType.protection_shard x.shards).1 h1,
        h2,
      )
      refl
