-- ===== src/Sync/Topology/Spec.antt =====
-- What a valid household topology is, described by membership and equality alone: no loop, no
-- search and no hash set of the code appears.
use safeory.Base.{◌≤◌, ◌≡◌, ◌≢◌, ◌⊎◌, SameElements, [], map, length, In, Distinct, nat_eq}
use safeory.Sync.Types.{
  Uuid, AccountV1, MembershipV1, SpaceV1, SpaceMemberV1, HouseholdTopologyV1, owner, organizer,
  legacy_collaborator, active, private, SpaceAccess, max_accounts_per_household,
  max_memberships_per_household, max_spaces_per_household, max_space_members,
}
use safeory.Sync.Records.Laws.{
  IsVersion, IsAccount, IsHousehold, IsMembership, IsSpace, IsSpaceMember,
}
use safeory.Sync.Topology.{topology_object_ids}
use safeory.Sync.Topology.Devices.{Owns}

-- Sizes, and identifiers that stand once.
pub record IsCollected (t : HouseholdTopologyV1) : Type 0 where
  pub version : IsVersion t.format_version
  pub household : IsHousehold t.household
  pub accounts_within : length t.accounts ≤ max_accounts_per_household
  pub memberships_within : length t.memberships ≤ max_memberships_per_household
  pub spaces_within : length t.spaces ≤ max_spaces_per_household
  pub space_members_within : length t.space_members ≤ max_space_members
  pub accounts_nonempty : t.accounts ≢ []
  pub account_ids : Distinct (map (λ (a : AccountV1). a.account_id) t.accounts)
  pub membership_ids : Distinct (map (λ (m : MembershipV1). m.membership_id) t.memberships)
  pub space_ids : Distinct (map (λ (s : SpaceV1). s.space_id) t.spaces)
  pub space_devices :
      Distinct {A = Uuid × Uuid}
        (map (λ (m : SpaceMemberV1). (m.space_id, m.device_id)) t.space_members)
  pub object_ids : Distinct (topology_object_ids t)

abbrev pub IsHeldBy : HouseholdTopologyV1 → MembershipV1 → Type 0
IsHeldBy t m = (a : AccountV1) × In a t.accounts × (a.account_id ≡ m.account_id)

-- The membership `m` entitles the space member `s`.
pub record Entitles (t : HouseholdTopologyV1) (m : MembershipV1) (s : SpaceMemberV1) : Type 0 where
  pub listed : In m t.memberships
  pub named : m.membership_id ≡ s.membership_id
  pub is_active : m.state ≡ active
  pub device : Owns t.accounts s.device_id m.account_id
  pub not_legacy : m.role ≢ legacy_collaborator
  pub manages : s.access ≡ SpaceAccess.manage → (m.role ≡ owner) ⊎ (m.role ≡ organizer)

-- The space that `s` is a member of, with its current key.
pub record Holds (t : HouseholdTopologyV1) (sp : SpaceV1) (s : SpaceMemberV1) : Type 0 where
  pub listed : In sp t.spaces
  pub named : sp.space_id ≡ s.space_id
  pub current : s.key_generation ≡ sp.key_generation

-- The members of a space all act for the membership `id`, and there is one.
pub record IsReadByOnly (t : HouseholdTopologyV1) (space_id id : Uuid) : Type 0 where
  pub reader :
      (s : SpaceMemberV1) × In s t.space_members × (s.space_id ≡ space_id) × (s.membership_id ≡ id)
  pub only :
      (s : SpaceMemberV1) → In s t.space_members → s.space_id ≡ space_id → s.membership_id ≡ id

pub record IsValid (t : HouseholdTopologyV1) : Type 0 where
  pub collected : IsCollected t
  pub account :
      (a : AccountV1) → In a t.accounts → IsAccount a × In t.household.household_id a.household_ids
  pub one_owner : (d a b : Uuid) → Owns t.accounts d a → Owns t.accounts d b → a ≡ b
  pub membership_list :
      SameElements
        (map (λ (m : MembershipV1). m.membership_id) t.memberships)
        t.household.membership_ids
  pub space_list : SameElements (map (λ (s : SpaceV1). s.space_id) t.spaces) t.household.space_ids
  pub active_owner : (m : MembershipV1) × In m t.memberships × (m.role ≡ owner) × (m.state ≡ active)
  pub membership :
      (m : MembershipV1)
      → In m t.memberships
      → IsMembership m × IsHeldBy t m × (m.household_id ≡ t.household.household_id)
  pub space :
      (s : SpaceV1) → In s t.spaces → IsSpace s × (s.household_id ≡ t.household.household_id)
  pub space_member :
      (s : SpaceMemberV1)
      → In s t.space_members
      → IsSpaceMember s × ((m : MembershipV1) × Entitles t m s) × ((sp : SpaceV1) × Holds t sp s)
  pub private_space :
      (sp : SpaceV1)
      → In sp t.spaces
      → sp.kind ≡ private
      → (id : Uuid) × IsReadByOnly t sp.space_id id
