-- ===== src/Sync/Authorize.antt =====
-- `HouseholdTopologyV1::authorizes_device_scope` (crates/vault-sync/src/lib.rs): what the server
-- lets a device do with the objects of a scope.
pub mod Spec
pub mod Exact
pub mod Consequences
use safeory.Base.{
  Bool, true, false, not, ◌&&◌, ◌||◌, Option, none, some, Result, ok, ◌>>◌, nat_eq, ◌==◌, any, find,
  contains, if◌then◌else◌,
}
use safeory.Sync.Types.{
  Uuid, AccountV1, MembershipV1, SpaceMemberV1, HouseholdTopologyV1, TopologyAction, ContractError,
  is_active, is_legacy_collaborator, is_owner_or_organizer, is_edit_or_manage, is_manage,
}
use safeory.Sync.Topology.{validate, find_membership}
use safeory.Sync.Scope.{ObjectScopeV1, account, household, space, scope_account_id}

abbrev pub household_action : TopologyAction → MembershipV1 → Bool
household_action TopologyAction.read m = not (is_legacy_collaborator m.role)
household_action TopologyAction.write m = is_owner_or_organizer m.role
household_action TopologyAction.manage m = is_owner_or_organizer m.role

abbrev pub space_action : TopologyAction → SpaceMemberV1 → Bool
space_action TopologyAction.read s = true
space_action TopologyAction.write s = is_edit_or_manage s.access
space_action TopologyAction.manage s = is_manage s.access

-- The closure over the memberships, for a household scope.
unfoldable pub membership_authorizes : Uuid → Uuid → TopologyAction → MembershipV1 → Bool
membership_authorizes account_id household_id action m =
    m.account_id == account_id
    && (m.household_id == household_id && (is_active m.state && household_action action m))

-- The closure over the space members, for a space scope.
unfoldable pub space_member_authorizes :
    HouseholdTopologyV1 → Uuid → Uuid → Uuid → TopologyAction → SpaceMemberV1 → Bool
space_member_authorizes t account_id device_id space_id action s =
    if not (s.space_id == space_id) || not (s.device_id == device_id)
    then false
    else elim (find_membership t s.membership_id) [
      | none ↦ false
      | some m ↦ m.account_id == account_id && (is_active m.state && space_action action s)
    ]

unfoldable pub scope_authorizes :
    HouseholdTopologyV1 → Uuid → Uuid → ObjectScopeV1 → TopologyAction → Bool
scope_authorizes t account_id device_id (account _) action = true
scope_authorizes t account_id device_id (household _ household_id) action =
    household_id == t.household.household_id
    && any (membership_authorizes account_id household_id action) t.memberships
scope_authorizes t account_id device_id (space _ household_id space_id) action =
    household_id == t.household.household_id
    && any (space_member_authorizes t account_id device_id space_id action) t.space_members

unfoldable pub find_account : HouseholdTopologyV1 → Uuid → Option AccountV1
find_account t account_id = find (λ (a : AccountV1). a.account_id == account_id) t.accounts

unfoldable pub device_authorized :
    HouseholdTopologyV1 → Uuid → Uuid → ObjectScopeV1 → TopologyAction → Bool
device_authorized t account_id device_id scope action = elim (find_account t account_id) [
  | none ↦ false
  | some a ↦
      if not (contains a.device_ids device_id) || not (scope_account_id scope == account_id)
      then false
      else scope_authorizes t account_id device_id scope action
]

unfoldable pub authorizes_device_scope :
    HouseholdTopologyV1 → Uuid → Uuid → ObjectScopeV1 → TopologyAction → Result ContractError Bool
authorizes_device_scope t account_id device_id scope action = do
  validate t
  ok (device_authorized t account_id device_id scope action)
