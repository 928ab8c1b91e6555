-- ===== src/Examples/Sync.antt =====
-- A household of one owner with one device and one private space (crates/vault-sync).
use safeory.Base.{
  ◌≡◌, ◌≢◌, ◌↔◌, ok, arith, in-cons, ap, for_each, any, all, filter, find, contains, lookup, dedup,
  same_set, inl, inr, true, refl, [], ◌∷◌, In, here,
}
use safeory.Sync.Types.{
  AccountV1, HouseholdTopologyV1, SpaceV1, MembershipV1, TopologyAction, private, active,
}
use safeory.Sync.Scope.{account, space}
use safeory.Sync.Checks.{
  require_version, require_non_nil, validate_revision, validate_key_generation, bounded, unique,
  unique_from, is_nil,
}
use safeory.Sync.Records.{
  validate_household, validate_account, validate_membership, validate_space, validate_space_member,
}
use safeory.Sync.Topology.{
  validate, validate_collections, validate_references, bind_accounts, bind_devices, active_owners,
  check_membership, check_space, check_space_member, check_binding, check_private_space,
  find_membership, find_space, space_readers, household_lists_match, topology_object_ids,
}
use safeory.Sync.Topology.Spec.{IsValid}
use safeory.Sync.Topology.Exact.{validate_iff}
use safeory.Sync.Authorize.{
  authorizes_device_scope, device_authorized, scope_authorizes, find_account,
  space_member_authorizes, membership_authorizes,
}
use safeory.Sync.Authorize.Spec.{May, Organizes}
use safeory.Sync.Authorize.Exact.{authorizes_device_scope_iff}
use safeory.Sync.Authorize.Consequences.{private_space_one_account, manager-Organizes}
use safeory.Sync.Migration.{FreshIds, single_owner_topology, new, validate_migration}
use safeory.Sync.Migration.Laws.{IsFresh, IsMigratable, validate_migration-new_iff}

abbrev pub ids : FreshIds
ids = record {
  account_id = 1;
  household_id = 2;
  membership_id = 3;
  device_id = 4;
  space_id = 5;
  encrypted_profile_object_id = 6;
  encrypted_manifest_object_id = 7;
  envelope_object_id = 8;
}

abbrev pub home : HouseholdTopologyV1
home = single_owner_topology ids

pub home_valid : validate home ≡ ok tt
unfolding validate validate_collections validate_references validate_household validate_account
    validate_membership validate_space validate_space_member bind_accounts bind_devices
    active_owners check_membership check_space check_space_member check_binding check_private_space
    find_membership find_space space_readers household_lists_match topology_object_ids
    require_version require_non_nil validate_revision validate_key_generation bounded unique
    unique_from is_nil for_each any all filter find contains lookup dedup same_set
home_valid = refl

pub owner_may : (action : TopologyAction) → device_authorized home 1 4 (space 1 2 5) action ≡ true
unfolding device_authorized scope_authorizes find_account space_member_authorizes
    membership_authorizes find_membership find any contains is_nil
owner_may TopologyAction.read = refl
owner_may TopologyAction.write = refl
owner_may TopologyAction.manage = refl

owner_manages : authorizes_device_scope home 1 4 (space 1 2 5) TopologyAction.manage ≡ ok true
unfolding authorizes_device_scope
owner_manages = let d = owner_may TopologyAction.manage in ground (arith, home_valid)

owner_reads : authorizes_device_scope home 1 4 (space 1 2 5) TopologyAction.read ≡ ok true
unfolding authorizes_device_scope
owner_reads = let d = owner_may TopologyAction.read in ground (arith, home_valid)

validate_iff_example : (validate home ≡ ok tt) ↔ IsValid home
validate_iff_example = validate_iff home

authorizes_device_scope_iff_example :
    (authorizes_device_scope home 1 4 (space 1 2 5) TopologyAction.manage ≡ ok true)
    ↔ (IsValid home × May home 1 4 (space 1 2 5) TopologyAction.manage)
authorizes_device_scope_iff_example =
    authorizes_device_scope_iff home 1 4 (space 1 2 5) TopologyAction.manage

abbrev bedroom : SpaceV1
bedroom = record {
  format_version = 1;
  space_id = 5;
  household_id = 2;
  kind = private;
  encrypted_manifest_object_id = 7;
  key_generation = 1;
  revision = 0;
}

private_space_one_account_example : ids.account_id ≡ ids.account_id
private_space_one_account_example =
    private_space_one_account home bedroom 1 1 4 4 1 1 2 2 here refl owner_reads owner_reads

manager-Organizes_example :
    (m : MembershipV1) × In m home.memberships
    × (m.account_id ≡ 1)
    × (m.state ≡ active)
    × Organizes m.role
manager-Organizes_example = manager-Organizes home 1 4 1 2 5 owner_manages

abbrev me : AccountV1
me = record { format_version = 1; account_id = 1; household_ids = 2 ∷ []; device_ids = 4 ∷ [] }

stranger : (a : AccountV1) → a ≡ me → a.account_id ≢ 9
stranger a e q = absurd (ground (arith, ap (λ (x : AccountV1). x.account_id) e))

stranger-May_not : ¬ May home 9 4 (account 9) TopologyAction.read
stranger-May_not ((a, i, q, _), _) = elim (in-cons i) [
  | inl e ↦ absurd (stranger a e q)
  | inr m ↦ elim m [ ]
]

no_member : (m : MembershipV1) → In m home.memberships → m.account_id ≡ 9 → m.state ≢ active
no_member m i q = elim (in-cons i) [
  | inl e ↦ absurd (ground (arith, ap (λ (x : MembershipV1). x.account_id) e))
  | inr r ↦ elim r [ ]
]

fresh : IsFresh ids
fresh = record {
  account_id = omega arith;
  household_id = omega arith;
  membership_id = omega arith;
  device_id = omega arith;
  space_id = omega arith;
  profile = omega arith;
  manifest = omega arith;
  envelope = omega arith;
  profile_manifest = omega arith;
  profile_envelope = omega arith;
  manifest_envelope = omega arith;
}

validate_migration-new_iff_example :
    (validate_migration (new ids (21 ∷ 22 ∷ [])) ≡ ok tt) ↔ IsMigratable ids (21 ∷ 22 ∷ [])
validate_migration-new_iff_example = validate_migration-new_iff ids (21 ∷ 22 ∷ []) fresh
