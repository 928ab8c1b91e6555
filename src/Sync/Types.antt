-- ===== src/Sync/Types.antt =====
-- The data of crates/vault-sync/src/lib.rs: identifiers, enums, records, bounds and errors.
-- A UUID is the 128-bit number it spells, and the newtypes of `opaque_id!` are transparent.
use safeory.Base.{ℕ, String, List, Bool, true, false}

abbrev pub Uuid : Type 0
Uuid = ℕ

abbrev pub domain_format_version : ℕ
domain_format_version = 1

abbrev pub max_households_per_account : ℕ
max_households_per_account = 32

abbrev pub max_devices_per_account : ℕ
max_devices_per_account = 64

abbrev pub max_accounts_per_household : ℕ
max_accounts_per_household = 256

abbrev pub max_memberships_per_household : ℕ
max_memberships_per_household = 256

abbrev pub max_spaces_per_household : ℕ
max_spaces_per_household = 256

abbrev pub max_space_members : ℕ
max_space_members = 256

abbrev pub max_migrated_objects : ℕ
max_migrated_objects = 100_000

abbrev pub max_wire_integer : ℕ
max_wire_integer = 9_007_199_254_740_991

pub data MembershipRole : Type 0 where
  owner organizer member full_collaborator partial_collaborator legacy_collaborator : MembershipRole

pub data MembershipState : Type 0 where
  invited active revoked : MembershipState

pub data SpaceKind : Type 0 where
  private shared purpose : SpaceKind

pub data SpaceAccess : Type 0 where
  read edit manage : SpaceAccess

pub data TopologyAction : Type 0 where
  read write manage : TopologyAction

pub record AccountV1 : Type 0 where
  pub format_version : ℕ
  pub account_id : Uuid
  pub household_ids : List Uuid
  pub device_ids : List Uuid

pub record HouseholdV1 : Type 0 where
  pub format_version : ℕ
  pub household_id : Uuid
  pub encrypted_profile_object_id : Uuid
  pub membership_ids : List Uuid
  pub space_ids : List Uuid
  pub revision : ℕ

pub record MembershipV1 : Type 0 where
  pub format_version : ℕ
  pub membership_id : Uuid
  pub account_id : Uuid
  pub household_id : Uuid
  pub role : MembershipRole
  pub state : MembershipState
  pub revision : ℕ

pub record SpaceV1 : Type 0 where
  pub format_version : ℕ
  pub space_id : Uuid
  pub household_id : Uuid
  pub kind : SpaceKind
  pub encrypted_manifest_object_id : Uuid
  pub key_generation : ℕ
  pub revision : ℕ

pub record SpaceMemberV1 : Type 0 where
  pub format_version : ℕ
  pub space_id : Uuid
  pub membership_id : Uuid
  pub access : SpaceAccess
  pub envelope_object_id : Uuid
  pub device_id : Uuid
  pub key_generation : ℕ
  pub revision : ℕ

pub record HouseholdTopologyV1 : Type 0 where
  pub format_version : ℕ
  pub accounts : List AccountV1
  pub household : HouseholdV1
  pub memberships : List MembershipV1
  pub spaces : List SpaceV1
  pub space_members : List SpaceMemberV1

pub record ObjectSpaceAssignmentV1 : Type 0 where
  pub object_id : Uuid
  pub space_id : Uuid

pub record SingleOwnerMigrationV1 : Type 0 where
  pub format_version : ℕ
  pub topology : HouseholdTopologyV1
  pub private_space_id : Uuid
  pub object_assignments : List ObjectSpaceAssignmentV1

pub data ContractError : Type 0 where
  unsupported_format : ℕ → ContractError
  collection_too_large : String → ℕ → ℕ → ContractError
  empty_collection : String → ContractError
  duplicate_identifier : String → ContractError
  invalid_identifier : String → ContractError
  inconsistent_reference : String → ContractError
  missing_active_owner : ContractError
  invalid_private_space_membership : ContractError
  invalid_key_generation : ContractError
  integer_out_of_range : String → ContractError
  invalid_role_access : ContractError

-- The derived comparisons with a fixed constructor.
abbrev pub is_active : MembershipState → Bool
is_active active = true
is_active invited = false
is_active revoked = false

abbrev pub is_owner : MembershipRole → Bool
is_owner owner = true
is_owner _ = false

abbrev pub is_legacy_collaborator : MembershipRole → Bool
is_legacy_collaborator legacy_collaborator = true
is_legacy_collaborator _ = false

abbrev pub is_owner_or_organizer : MembershipRole → Bool
is_owner_or_organizer owner = true
is_owner_or_organizer organizer = true
is_owner_or_organizer _ = false

abbrev pub is_private : SpaceKind → Bool
is_private private = true
is_private shared = false
is_private purpose = false

abbrev pub is_manage : SpaceAccess → Bool
is_manage SpaceAccess.manage = true
is_manage SpaceAccess.edit = false
is_manage SpaceAccess.read = false

abbrev pub is_edit_or_manage : SpaceAccess → Bool
is_edit_or_manage SpaceAccess.manage = true
is_edit_or_manage SpaceAccess.edit = true
is_edit_or_manage SpaceAccess.read = false
