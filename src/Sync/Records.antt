-- ===== src/Sync/Records.antt =====
-- `validate` of the single records (crates/vault-sync/src/lib.rs, `AccountV1` to `SpaceMemberV1`).
pub mod Laws
use safeory.Base.{◌>>◌, ensure, ◌||◌, not, length, is_empty, for_each}
use safeory.Base.{nat_eq}
use safeory.Sync.Types.{
  AccountV1, HouseholdV1, MembershipV1, SpaceV1, SpaceMemberV1, max_households_per_account,
  max_devices_per_account, max_memberships_per_household, max_spaces_per_household,
  empty_collection,
}
use safeory.Sync.Checks.{
  Check, require_version, require_non_nil, validate_revision, validate_key_generation, bounded,
  unique,
}

unfoldable pub validate_account : AccountV1 → Check
validate_account a = do
  require_version a.format_version
  require_non_nil "account ID" a.account_id
  bounded "account households" (length a.household_ids) max_households_per_account
  bounded "account devices" (length a.device_ids) max_devices_per_account
  ensure (not (is_empty a.household_ids || is_empty a.device_ids))
      (empty_collection "account topology")
  unique "account household IDs" a.household_ids
  unique "account device IDs" a.device_ids
  for_each (require_non_nil "account household ID") a.household_ids
  for_each (require_non_nil "account device ID") a.device_ids

unfoldable pub validate_household : HouseholdV1 → Check
validate_household h = do
  require_version h.format_version
  require_non_nil "household ID" h.household_id
  require_non_nil "encrypted household profile object ID" h.encrypted_profile_object_id
  validate_revision "household revision" h.revision
  bounded "household memberships" (length h.membership_ids) max_memberships_per_household
  bounded "household spaces" (length h.space_ids) max_spaces_per_household
  ensure (not (is_empty h.membership_ids || is_empty h.space_ids))
      (empty_collection "household topology")
  unique "household membership IDs" h.membership_ids
  unique "household space IDs" h.space_ids
  for_each (require_non_nil "household membership ID") h.membership_ids
  for_each (require_non_nil "household space ID") h.space_ids

unfoldable pub validate_membership : MembershipV1 → Check
validate_membership m = do
  require_version m.format_version
  require_non_nil "membership ID" m.membership_id
  require_non_nil "membership account ID" m.account_id
  require_non_nil "membership household ID" m.household_id
  validate_revision "membership revision" m.revision

unfoldable pub validate_space : SpaceV1 → Check
validate_space s = do
  require_version s.format_version
  require_non_nil "space ID" s.space_id
  require_non_nil "space household ID" s.household_id
  require_non_nil "encrypted space manifest object ID" s.encrypted_manifest_object_id
  validate_key_generation s.key_generation
  validate_revision "space revision" s.revision

unfoldable pub validate_space_member : SpaceMemberV1 → Check
validate_space_member m = do
  require_version m.format_version
  require_non_nil "space member space ID" m.space_id
  require_non_nil "space member membership ID" m.membership_id
  require_non_nil "space key envelope object ID" m.envelope_object_id
  require_non_nil "space member device ID" m.device_id
  validate_key_generation m.key_generation
  validate_revision "space member revision" m.revision
