-- ===== src/Sync/Migration.antt =====
-- The upgrade of a local single-owner vault (`SingleOwnerMigrationV1`, crates/vault-sync/src/lib.rs).
pub mod Laws
use safeory.Base.{
  ℕ, Bool, not, ◌||◌, List, [], ◌∷◌, map, Result, ok, err, ◌>>=◌, ◌>>◌, ensure, ok_or, for_each,
  nat_eq, ◌==◌, length, any, contains,
}
use safeory.Sync.Types.{
  Uuid, AccountV1, HouseholdTopologyV1, ObjectSpaceAssignmentV1, SingleOwnerMigrationV1, SpaceV1,
  owner, active, private, SpaceAccess, domain_format_version, max_migrated_objects,
  duplicate_identifier, inconsistent_reference, is_private,
}
use safeory.Sync.Checks.{Check, require_version, require_non_nil, bounded, unique}
use safeory.Sync.Topology.{topology_object_ids, validate, find_space}

-- The identifiers that `new` draws from the random generator, in the order of the calls.
pub record FreshIds : Type 0 where
  pub account_id : Uuid
  pub household_id : Uuid
  pub membership_id : Uuid
  pub device_id : Uuid
  pub space_id : Uuid
  pub encrypted_profile_object_id : Uuid
  pub encrypted_manifest_object_id : Uuid
  pub envelope_object_id : Uuid

abbrev pub single_owner_topology : FreshIds → HouseholdTopologyV1
single_owner_topology ids = record {
  format_version = domain_format_version;
  accounts =
      record {
        format_version = domain_format_version;
        account_id = ids.account_id;
        household_ids = ids.household_id ∷ [];
        device_ids = ids.device_id ∷ [];
      }
      ∷ [];
  household = record {
    format_version = domain_format_version;
    household_id = ids.household_id;
    encrypted_profile_object_id = ids.encrypted_profile_object_id;
    membership_ids = ids.membership_id ∷ [];
    space_ids = ids.space_id ∷ [];
    revision = 0;
  };
  memberships =
      record {
        format_version = domain_format_version;
        membership_id = ids.membership_id;
        account_id = ids.account_id;
        household_id = ids.household_id;
        role = owner;
        state = active;
        revision = 0;
      }
      ∷ [];
  spaces =
      record {
        format_version = domain_format_version;
        space_id = ids.space_id;
        household_id = ids.household_id;
        kind = private;
        encrypted_manifest_object_id = ids.encrypted_manifest_object_id;
        key_generation = 1;
        revision = 0;
      }
      ∷ [];
  space_members =
      record {
        format_version = domain_format_version;
        space_id = ids.space_id;
        membership_id = ids.membership_id;
        access = SpaceAccess.manage;
        envelope_object_id = ids.envelope_object_id;
        device_id = ids.device_id;
        key_generation = 1;
        revision = 0;
      }
      ∷ [];
}

unfoldable pub new : FreshIds → List Uuid → SingleOwnerMigrationV1
new ids existing_object_ids = record {
  format_version = domain_format_version;
  topology = single_owner_topology ids;
  private_space_id = ids.space_id;
  object_assignments =
      map (λ object_id. record { object_id = object_id; space_id = ids.space_id })
        existing_object_ids;
}

abbrev pub check_assignment : ObjectSpaceAssignmentV1 → Check
check_assignment a = do
  require_non_nil "migrated object ID" a.object_id
  require_non_nil "migration space ID" a.space_id

unfoldable pub validate_migration : SingleOwnerMigrationV1 → Check
validate_migration m = do
  require_version m.format_version
  validate m.topology
  bounded "migrated objects" (length m.object_assignments) max_migrated_objects
  unique {A = Uuid} "migrated object IDs"
      (map (λ (a : ObjectSpaceAssignmentV1). a.object_id) m.object_assignments)
  for_each check_assignment m.object_assignments
  ensure
      (not (any (λ a. contains (topology_object_ids m.topology) a.object_id) m.object_assignments))
      (duplicate_identifier "migration/topology object IDs")
  private_space ←
      ok_or (inconsistent_reference "migration private space")
        (find_space m.topology m.private_space_id)
  ensure
      (not (
        not (is_private private_space.kind)
        || any (λ a. not (a.space_id == m.private_space_id)) m.object_assignments))
      (inconsistent_reference "migration assignment")
