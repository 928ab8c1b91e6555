-- ===== src/Sync/Records/Laws.antt =====
-- What `validate` of each record accepts, as a description that does not mention the code.
use safeory.Base.{
  ℕ, ◌≤◌, ◌<◌, ◌≡◌, ◌≢◌, ◌↔◌, [], ◌∷◌, List, String, ok, for_each, nat_eq, All, Distinct, length,
  arith,
}
use safeory.Sync.Types.{
  Uuid, AccountV1, HouseholdV1, MembershipV1, SpaceV1, SpaceMemberV1, domain_format_version,
  max_wire_integer, max_households_per_account, max_devices_per_account,
  max_memberships_per_household, max_spaces_per_household,
}
use safeory.Sync.Checks.{
  require_version, require_non_nil, validate_revision, validate_key_generation, bounded,
}
use safeory.Sync.Checks.Laws.{require_non_nil_iff, unique_iff}
use safeory.Sync.Records.{
  validate_account, validate_household, validate_membership, validate_space, validate_space_member,
}

abbrev pub IsVersion : ℕ → Type 0
IsVersion v = v ≡ domain_format_version

abbrev pub IsIdentifier : Uuid → Type 0
IsIdentifier id = id ≢ 0

abbrev pub IsRevision : ℕ → Type 0
IsRevision r = r ≤ max_wire_integer

abbrev pub IsKeyGeneration : ℕ → Type 0
IsKeyGeneration g = (0 < g) × (g ≤ max_wire_integer)

-- A nonempty, bounded list of different identifiers.
pub record IsIdList (maximum : ℕ) (ids : List Uuid) : Type 0 where
  pub within : length ids ≤ maximum
  pub nonempty : ids ≢ []
  pub distinct : Distinct ids
  pub non_nil : All IsIdentifier ids

pub record IsAccount (a : AccountV1) : Type 0 where
  pub version : IsVersion a.format_version
  pub account_id : IsIdentifier a.account_id
  pub household_ids : IsIdList max_households_per_account a.household_ids
  pub device_ids : IsIdList max_devices_per_account a.device_ids

pub record IsHousehold (h : HouseholdV1) : Type 0 where
  pub version : IsVersion h.format_version
  pub household_id : IsIdentifier h.household_id
  pub profile : IsIdentifier h.encrypted_profile_object_id
  pub revision : IsRevision h.revision
  pub membership_ids : IsIdList max_memberships_per_household h.membership_ids
  pub space_ids : IsIdList max_spaces_per_household h.space_ids

pub record IsMembership (m : MembershipV1) : Type 0 where
  pub version : IsVersion m.format_version
  pub membership_id : IsIdentifier m.membership_id
  pub account_id : IsIdentifier m.account_id
  pub household_id : IsIdentifier m.household_id
  pub revision : IsRevision m.revision

pub record IsSpace (s : SpaceV1) : Type 0 where
  pub version : IsVersion s.format_version
  pub space_id : IsIdentifier s.space_id
  pub household_id : IsIdentifier s.household_id
  pub manifest : IsIdentifier s.encrypted_manifest_object_id
  pub key_generation : IsKeyGeneration s.key_generation
  pub revision : IsRevision s.revision

pub record IsSpaceMember (m : SpaceMemberV1) : Type 0 where
  pub version : IsVersion m.format_version
  pub space_id : IsIdentifier m.space_id
  pub membership_id : IsIdentifier m.membership_id
  pub envelope : IsIdentifier m.envelope_object_id
  pub device_id : IsIdentifier m.device_id
  pub key_generation : IsKeyGeneration m.key_generation
  pub revision : IsRevision m.revision

pub validate_membership_iff : (m : MembershipV1) → (validate_membership m ≡ ok tt) ↔ IsMembership m
unfolding validate_membership require_version require_non_nil validate_revision
validate_membership_iff m = ground arith

pub validate_space_iff : (s : SpaceV1) → (validate_space s ≡ ok tt) ↔ IsSpace s
unfolding validate_space require_version require_non_nil validate_revision validate_key_generation
validate_space_iff s = ground arith

pub validate_space_member_iff :
    (m : SpaceMemberV1) → (validate_space_member m ≡ ok tt) ↔ IsSpaceMember m
unfolding validate_space_member require_version require_non_nil validate_revision
    validate_key_generation
validate_space_member_iff m = ground arith

all_non_nil :
    (label : String) (ids : List Uuid)
    → (for_each (require_non_nil label) ids ≡ ok tt) ↔ All IsIdentifier ids
unfolding for_each
all_non_nil label [] = ground arith
all_non_nil label (id ∷ ids) = ground (arith, require_non_nil_iff label id, all_non_nil label ids)

pub validate_account_iff : (a : AccountV1) → (validate_account a ≡ ok tt) ↔ IsAccount a
unfolding validate_account require_version require_non_nil bounded
validate_account_iff a = ground (
  arith,
  unique_iff "account household IDs" a.household_ids,
  unique_iff "account device IDs" a.device_ids,
  all_non_nil "account household ID" a.household_ids,
  all_non_nil "account device ID" a.device_ids,
)

pub validate_household_iff : (h : HouseholdV1) → (validate_household h ≡ ok tt) ↔ IsHousehold h
unfolding validate_household require_version require_non_nil validate_revision bounded
validate_household_iff h = ground (
  arith,
  unique_iff "household membership IDs" h.membership_ids,
  unique_iff "household space IDs" h.space_ids,
  all_non_nil "household membership ID" h.membership_ids,
  all_non_nil "household space ID" h.space_ids,
)
