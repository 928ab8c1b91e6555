-- ===== src/Sync/Equality.antt =====
-- The derived `PartialEq` of a topology and its parts (crates/vault-sync/src/lib.rs), field by
-- field.
use safeory.Base.{ℕ, Bool, true, ◌&&◌, ◌≡◌, ◌↔◌, Eq, nat_eq, list_eq, ◌==◌, ==_iff, eqb, arith}
use safeory.Sync.Types.{
  MembershipRole, MembershipState, SpaceKind, SpaceAccess, AccountV1, HouseholdV1, MembershipV1,
  SpaceV1, SpaceMemberV1, HouseholdTopologyV1,
}

abbrev role_tag : MembershipRole → ℕ
role_tag MembershipRole.owner = 0
role_tag MembershipRole.organizer = 1
role_tag MembershipRole.member = 2
role_tag MembershipRole.full_collaborator = 3
role_tag MembershipRole.partial_collaborator = 4
role_tag MembershipRole.legacy_collaborator = 5

abbrev role_beq : MembershipRole → MembershipRole → Bool
role_beq a b = eqb (role_tag a) (role_tag b)

pub role_beq_iff : (a b : MembershipRole) → (role_beq a b ≡ true) ↔ (a ≡ b)
role_beq_iff a b = ground arith

instance abbrev pub role_eq : Eq MembershipRole
role_eq = record { beq = role_beq; beq_iff = role_beq_iff }

abbrev state_tag : MembershipState → ℕ
state_tag MembershipState.invited = 0
state_tag MembershipState.active = 1
state_tag MembershipState.revoked = 2

abbrev state_beq : MembershipState → MembershipState → Bool
state_beq a b = eqb (state_tag a) (state_tag b)

pub state_beq_iff : (a b : MembershipState) → (state_beq a b ≡ true) ↔ (a ≡ b)
state_beq_iff a b = ground arith

instance abbrev pub state_eq : Eq MembershipState
state_eq = record { beq = state_beq; beq_iff = state_beq_iff }

abbrev kind_tag : SpaceKind → ℕ
kind_tag SpaceKind.private = 0
kind_tag SpaceKind.shared = 1
kind_tag SpaceKind.purpose = 2

abbrev kind_beq : SpaceKind → SpaceKind → Bool
kind_beq a b = eqb (kind_tag a) (kind_tag b)

pub kind_beq_iff : (a b : SpaceKind) → (kind_beq a b ≡ true) ↔ (a ≡ b)
kind_beq_iff a b = ground arith

instance abbrev pub kind_eq : Eq SpaceKind
kind_eq = record { beq = kind_beq; beq_iff = kind_beq_iff }

abbrev access_tag : SpaceAccess → ℕ
access_tag SpaceAccess.read = 0
access_tag SpaceAccess.edit = 1
access_tag SpaceAccess.manage = 2

abbrev access_beq : SpaceAccess → SpaceAccess → Bool
access_beq a b = eqb (access_tag a) (access_tag b)

pub access_beq_iff : (a b : SpaceAccess) → (access_beq a b ≡ true) ↔ (a ≡ b)
access_beq_iff a b = ground arith

instance abbrev pub access_eq : Eq SpaceAccess
access_eq = record { beq = access_beq; beq_iff = access_beq_iff }

abbrev pub account_beq : AccountV1 → AccountV1 → Bool
account_beq a b =
    a.format_version == b.format_version
    && (a.account_id == b.account_id
        && (a.household_ids == b.household_ids && (a.device_ids == b.device_ids)))

pub account_beq_iff : (a b : AccountV1) → (account_beq a b ≡ true) ↔ (a ≡ b)
account_beq_iff a b =
    ground (arith, ==_iff a.household_ids b.household_ids, ==_iff a.device_ids b.device_ids)

instance abbrev pub account_eq : Eq AccountV1
account_eq = record { beq = account_beq; beq_iff = account_beq_iff }

abbrev pub household_beq : HouseholdV1 → HouseholdV1 → Bool
household_beq a b =
    a.format_version == b.format_version
    && (a.household_id == b.household_id
        && (a.encrypted_profile_object_id == b.encrypted_profile_object_id
            && (a.membership_ids == b.membership_ids
                && (a.space_ids == b.space_ids && (a.revision == b.revision)))))

pub household_beq_iff : (a b : HouseholdV1) → (household_beq a b ≡ true) ↔ (a ≡ b)
household_beq_iff a b =
    ground (arith, ==_iff a.membership_ids b.membership_ids, ==_iff a.space_ids b.space_ids)

instance abbrev pub household_eq : Eq HouseholdV1
household_eq = record { beq = household_beq; beq_iff = household_beq_iff }

abbrev pub membership_beq : MembershipV1 → MembershipV1 → Bool
membership_beq a b =
    a.format_version == b.format_version
    && (a.membership_id == b.membership_id
        && (a.account_id == b.account_id
            && (a.household_id == b.household_id
                && (a.role == b.role && (a.state == b.state && (a.revision == b.revision))))))

pub membership_beq_iff : (a b : MembershipV1) → (membership_beq a b ≡ true) ↔ (a ≡ b)
membership_beq_iff a b = ground (arith, ==_iff a.role b.role, ==_iff a.state b.state)

instance abbrev pub membership_eq : Eq MembershipV1
membership_eq = record { beq = membership_beq; beq_iff = membership_beq_iff }

abbrev pub space_beq : SpaceV1 → SpaceV1 → Bool
space_beq a b =
    a.format_version == b.format_version
    && (a.space_id == b.space_id
        && (a.household_id == b.household_id
            && (a.kind == b.kind
                && (a.encrypted_manifest_object_id == b.encrypted_manifest_object_id
                    && (a.key_generation == b.key_generation && (a.revision == b.revision))))))

pub space_beq_iff : (a b : SpaceV1) → (space_beq a b ≡ true) ↔ (a ≡ b)
space_beq_iff a b = ground (arith, ==_iff a.kind b.kind)

instance abbrev pub space_eq : Eq SpaceV1
space_eq = record { beq = space_beq; beq_iff = space_beq_iff }

abbrev pub space_member_beq : SpaceMemberV1 → SpaceMemberV1 → Bool
space_member_beq a b =
    a.format_version == b.format_version
    && (a.space_id == b.space_id
        && (a.membership_id == b.membership_id
            && (a.access == b.access
                && (a.envelope_object_id == b.envelope_object_id
                    && (a.device_id == b.device_id
                        && (a.key_generation == b.key_generation && (a.revision == b.revision)))))))

pub space_member_beq_iff : (a b : SpaceMemberV1) → (space_member_beq a b ≡ true) ↔ (a ≡ b)
space_member_beq_iff a b = ground (arith, ==_iff a.access b.access)

instance abbrev pub space_member_eq : Eq SpaceMemberV1
space_member_eq = record { beq = space_member_beq; beq_iff = space_member_beq_iff }

unfoldable pub topology_beq : HouseholdTopologyV1 → HouseholdTopologyV1 → Bool
topology_beq a b =
    a.format_version == b.format_version
    && (a.accounts == b.accounts
        && (a.household == b.household
            && (a.memberships == b.memberships
                && (a.spaces == b.spaces && (a.space_members == b.space_members)))))

pub topology_beq_iff : (a b : HouseholdTopologyV1) → (topology_beq a b ≡ true) ↔ (a ≡ b)
unfolding topology_beq
topology_beq_iff a b = ground (
  arith,
  ==_iff a.accounts b.accounts,
  ==_iff a.household b.household,
  ==_iff a.memberships b.memberships,
  ==_iff a.spaces b.spaces,
  ==_iff a.space_members b.space_members,
)
