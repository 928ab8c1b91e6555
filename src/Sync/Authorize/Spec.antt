-- ===== src/Sync/Authorize/Spec.antt =====
-- Who may do what in a valid topology, described by membership alone.
use safeory.Base.{◌≡◌, ◌≢◌, ◌⊎◌, In}
use safeory.Sync.Types.{
  Uuid, MembershipRole, owner, organizer, legacy_collaborator, MembershipV1, SpaceMemberV1,
  HouseholdTopologyV1, SpaceAccess, TopologyAction, active,
}
use safeory.Sync.Scope.{ObjectScopeV1, account, household, space}
use safeory.Sync.Topology.Devices.{Owns}

abbrev pub Organizes : MembershipRole → Type 0
Organizes role = (role ≡ owner) ⊎ (role ≡ organizer)

abbrev pub RoleAllows : TopologyAction → MembershipRole → Type 0
RoleAllows TopologyAction.read role = role ≢ legacy_collaborator
RoleAllows TopologyAction.write role = Organizes role
RoleAllows TopologyAction.manage role = Organizes role

abbrev pub AccessAllows : TopologyAction → SpaceAccess → Type 0
AccessAllows TopologyAction.read access = Unit
AccessAllows TopologyAction.write access =
    (access ≡ SpaceAccess.edit) ⊎ (access ≡ SpaceAccess.manage)
AccessAllows TopologyAction.manage access = access ≡ SpaceAccess.manage

-- An active membership of the account whose role allows the action.
pub record MayInHousehold (t : HouseholdTopologyV1) (a : Uuid) (action : TopologyAction)
    (m : MembershipV1) : Type 0 where
  pub listed : In m t.memberships
  pub is_account : m.account_id ≡ a
  pub is_active : m.state ≡ active
  pub allowed : RoleAllows action m.role

-- An envelope of the space for the device, held by an active membership of the account.
pub record MayInSpace (t : HouseholdTopologyV1) (a d space_id : Uuid) (action : TopologyAction)
    (s : SpaceMemberV1) (m : MembershipV1) : Type 0 where
  pub listed : In s t.space_members
  pub is_space : s.space_id ≡ space_id
  pub is_device : s.device_id ≡ d
  pub membership : In m t.memberships
  pub named : m.membership_id ≡ s.membership_id
  pub is_account : m.account_id ≡ a
  pub is_active : m.state ≡ active
  pub allowed : AccessAllows action s.access

abbrev pub MayInScope : HouseholdTopologyV1 → Uuid → Uuid → ObjectScopeV1 → TopologyAction → Type 0
MayInScope t a d (account scope_account) action = scope_account ≡ a
MayInScope t a d (household scope_account household_id) action =
    (scope_account ≡ a)
    × (household_id ≡ t.household.household_id)
    × ((m : MembershipV1) × MayInHousehold t a action m)
MayInScope t a d (space scope_account household_id space_id) action =
    (scope_account ≡ a)
    × (household_id ≡ t.household.household_id)
    × ((s : SpaceMemberV1) × (m : MembershipV1) × MayInSpace t a d space_id action s m)

-- The device is the account's, and the scope admits the action.
abbrev pub May : HouseholdTopologyV1 → Uuid → Uuid → ObjectScopeV1 → TopologyAction → Type 0
May t a d scope action = Owns t.accounts d a × MayInScope t a d scope action
