-- ===== src/Sync/Topology.antt =====
-- `HouseholdTopologyV1::validate` (crates/vault-sync/src/lib.rs).
pub mod Devices
pub mod Spec
pub mod Parts
pub mod Members
pub mod Total
pub mod Exact
use safeory.Base.{
  ℕ, Bool, not, ◌&&◌, ◌||◌, Option, none, some, List, [], ◌∷◌, ◌++◌, map, Result, ok, err, ◌>>=◌,
  ◌>>◌, ensure, ok_or, for_each, nat_eq, pair_eq, option_eq, ◌==◌, ◌!=◌, length, is_empty, any,
  filter, find, contains, lookup, dedup, same_set,
}
use safeory.Sync.Types.{
  Uuid, AccountV1, MembershipV1, SpaceV1, SpaceMemberV1, HouseholdTopologyV1, ContractError,
  max_accounts_per_household, max_memberships_per_household, max_spaces_per_household,
  max_space_members, empty_collection, duplicate_identifier, inconsistent_reference,
  missing_active_owner, invalid_private_space_membership, invalid_role_access, is_active, is_owner,
  is_legacy_collaborator, is_owner_or_organizer, is_private, is_manage,
}
use safeory.Sync.Checks.{Check, require_version, bounded, unique}
use safeory.Sync.Records.{
  validate_account, validate_household, validate_membership, validate_space, validate_space_member,
}

-- The object IDs that the topology itself names.
unfoldable pub topology_object_ids : HouseholdTopologyV1 → List Uuid
topology_object_ids t =
    t.household.encrypted_profile_object_id
    ∷ (map (λ (s : SpaceV1). s.encrypted_manifest_object_id) t.spaces
        ++ map (λ (m : SpaceMemberV1). m.envelope_object_id) t.space_members)

-- Versions, bounds and the uniqueness of identifiers.
unfoldable pub validate_collections : HouseholdTopologyV1 → Check
unfolding topology_object_ids
validate_collections t = do
  require_version t.format_version
  validate_household t.household
  bounded "accounts" (length t.accounts) max_accounts_per_household
  bounded "memberships" (length t.memberships) max_memberships_per_household
  bounded "spaces" (length t.spaces) max_spaces_per_household
  bounded "space members" (length t.space_members) max_space_members
  ensure (not (is_empty t.accounts)) (empty_collection "household accounts")
  unique {A = Uuid} "account IDs" (map (λ (a : AccountV1). a.account_id) t.accounts)
  unique {A = Uuid} "membership IDs" (map (λ (m : MembershipV1). m.membership_id) t.memberships)
  unique {A = Uuid} "space IDs" (map (λ (s : SpaceV1). s.space_id) t.spaces)
  unique {A = Uuid × Uuid} "space/device memberships"
      (map (λ (m : SpaceMemberV1). (m.space_id, m.device_id)) t.space_members)
  unique "topology object IDs" (topology_object_ids t)

-- `device_accounts`, the account that each device belongs to.
abbrev pub DeviceAccounts : Type 0
DeviceAccounts = List (Uuid × Uuid)

-- The inner loop over the devices of one account.
unfoldable pub bind_devices :
    Uuid → List Uuid → DeviceAccounts → Result ContractError DeviceAccounts
bind_devices account_id [] device_accounts = ok device_accounts
bind_devices account_id (device_id ∷ device_ids) device_accounts =
    elim (lookup device_id device_accounts) [
      | none ↦ bind_devices account_id device_ids ((device_id, account_id) ∷ device_accounts)
      | some _ ↦ err (duplicate_identifier "cross-account device IDs")
    ]

-- The loop over the accounts.
unfoldable pub bind_accounts :
    Uuid → List AccountV1 → DeviceAccounts → Result ContractError DeviceAccounts
bind_accounts household_id [] device_accounts = ok device_accounts
bind_accounts household_id (account ∷ accounts) device_accounts = do
  validate_account account
  ensure (contains account.household_ids household_id) (inconsistent_reference "account households")
  bound ← bind_devices account.account_id account.device_ids device_accounts
  bind_accounts household_id accounts bound

unfoldable pub active_owners : List MembershipV1 → ℕ
active_owners memberships = length (filter (λ m. is_owner m.role && is_active m.state) memberships)

unfoldable pub check_membership : HouseholdTopologyV1 → MembershipV1 → Check
check_membership t membership = do
  validate_membership membership
  ensure
      (any (λ a. a.account_id == membership.account_id) t.accounts
        && membership.household_id == t.household.household_id)
      (inconsistent_reference "membership scope")

unfoldable pub check_space : HouseholdTopologyV1 → SpaceV1 → Check
check_space t space = do
  validate_space space
  ensure (space.household_id == t.household.household_id) (inconsistent_reference "space household")

-- A space member against its membership and its space, once these are found.
unfoldable pub check_binding : DeviceAccounts → SpaceMemberV1 → MembershipV1 → SpaceV1 → Check
check_binding device_accounts member membership space = do
  ensure
      (is_active membership.state
        && (lookup member.device_id device_accounts == some membership.account_id
            && member.key_generation == space.key_generation))
      (inconsistent_reference "space member binding")
  ensure
      (not (
        is_legacy_collaborator membership.role
        || (is_manage member.access && not (is_owner_or_organizer membership.role))))
      invalid_role_access

unfoldable pub find_membership : HouseholdTopologyV1 → Uuid → Option MembershipV1
find_membership t id = find (λ m. m.membership_id == id) t.memberships

unfoldable pub find_space : HouseholdTopologyV1 → Uuid → Option SpaceV1
find_space t id = find (λ s. s.space_id == id) t.spaces

unfoldable pub check_space_member : HouseholdTopologyV1 → DeviceAccounts → SpaceMemberV1 → Check
check_space_member t device_accounts member = do
  validate_space_member member
  membership ←
      ok_or (inconsistent_reference "space membership") (find_membership t member.membership_id)
  space ← ok_or (inconsistent_reference "space member space") (find_space t member.space_id)
  check_binding device_accounts member membership space

-- The memberships that hold an envelope of the space.
unfoldable pub space_readers : HouseholdTopologyV1 → Uuid → List Uuid
space_readers t space_id =
    map (λ (m : SpaceMemberV1). m.membership_id)
      (filter (λ (m : SpaceMemberV1). m.space_id == space_id) t.space_members)

-- The hash set of readable members has one element.
unfoldable pub check_private_space : HouseholdTopologyV1 → SpaceV1 → Check
unfolding space_readers
check_private_space t space =
    ensure (length (dedup (space_readers t space.space_id)) == 1) invalid_private_space_membership

-- The household's own lists of memberships and spaces are those of the topology, as sets.
unfoldable pub household_lists_match : HouseholdTopologyV1 → Bool
household_lists_match t =
    same_set (map (λ (m : MembershipV1). m.membership_id) t.memberships) t.household.membership_ids
    && same_set (map (λ (s : SpaceV1). s.space_id) t.spaces) t.household.space_ids

-- Everything after the accounts are bound.
unfoldable pub validate_references : HouseholdTopologyV1 → DeviceAccounts → Check
unfolding household_lists_match
validate_references t device_accounts = do
  ensure (household_lists_match t) (inconsistent_reference "household topology")
  ensure (active_owners t.memberships != 0) missing_active_owner
  for_each (check_membership t) t.memberships
  for_each (check_space t) t.spaces
  for_each (check_space_member t device_accounts) t.space_members
  for_each (check_private_space t) (filter (λ s. is_private s.kind) t.spaces)

unfoldable pub validate : HouseholdTopologyV1 → Check
validate t = do
  validate_collections t
  device_accounts ← bind_accounts t.household.household_id t.accounts []
  validate_references t device_accounts
