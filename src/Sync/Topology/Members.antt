-- ===== src/Sync/Topology/Members.antt =====
-- `check_space_member` against its description: what the searches find, and what the binding requires.
use safeory.Base.{◌≡◌, ◌↔◌, In, ok, some, nat_eq, ◌==◌, ==_iff, find→in, find_key, lookup, arith}
use safeory.Sync.Types.{Uuid, MembershipV1, SpaceV1, SpaceMemberV1, HouseholdTopologyV1}
use safeory.Sync.Records.{validate_space_member}
use safeory.Sync.Records.Laws.{IsSpaceMember, validate_space_member_iff}
use safeory.Sync.Topology.{
  DeviceAccounts, find_membership, find_space, check_space_member, check_binding,
}
use safeory.Sync.Topology.Devices.{Owns}
use safeory.Sync.Topology.Spec.{IsCollected, Entitles, Holds}
use safeory.Sync.Topology.Parts.{check_binding_iff}

abbrev pub IsMember : HouseholdTopologyV1 → SpaceMemberV1 → Type 0
IsMember t s =
    IsSpaceMember s × ((m : MembershipV1) × Entitles t m s) × ((sp : SpaceV1) × Holds t sp s)

module _ (t : HouseholdTopologyV1) where
  -- The searches of `check_space_member`, found.
  member_found :
      (da : DeviceAccounts) (s : SpaceMemberV1)
      → check_space_member t da s ≡ ok tt
      → (m : MembershipV1) × (sp : SpaceV1) × (find_membership t s.membership_id ≡ some m)
        × (find_space t s.space_id ≡ some sp)
        × (validate_space_member s ≡ ok tt)
        × (check_binding da s m sp ≡ ok tt)
  unfolding check_space_member
  member_found da s h = ground arith

  pub find_membership→listed :
      (id : Uuid) (m : MembershipV1)
      → find_membership t id ≡ some m
      → In m t.memberships × (m.membership_id ≡ id)
  unfolding find_membership
  find_membership→listed id m h =
      let (i, e) = find→in (λ (x : MembershipV1). x.membership_id == id) t.memberships h in
      (i, (==_iff m.membership_id id).0 e)

  find_space→listed :
      (id : Uuid) (sp : SpaceV1) → find_space t id ≡ some sp → In sp t.spaces × (sp.space_id ≡ id)
  unfolding find_space
  find_space→listed id sp h =
      let (i, e) = find→in (λ (x : SpaceV1). x.space_id == id) t.spaces h in
      (i, (==_iff sp.space_id id).0 e)

  module _ (c : IsCollected t) where
    pub listed→find_membership :
        (id : Uuid) (m : MembershipV1)
        → In m t.memberships
        → m.membership_id ≡ id
        → find_membership t id ≡ some m
    unfolding find_membership
    listed→find_membership id m i e =
        rw (← e) (find_key (λ (x : MembershipV1). x.membership_id) t.memberships c.membership_ids i)

    listed→find_space :
        (id : Uuid) (sp : SpaceV1) → In sp t.spaces → sp.space_id ≡ id → find_space t id ≡ some sp
    unfolding find_space
    listed→find_space id sp i e =
        rw (← e) (find_key (λ (x : SpaceV1). x.space_id) t.spaces c.space_ids i)

module _ (t : HouseholdTopologyV1) (da : DeviceAccounts)
    (owned : (d a : Uuid) → (lookup d da ≡ some a) ↔ Owns t.accounts d a) where
  pub check_space_member_inv :
      (s : SpaceMemberV1) → check_space_member t da s ≡ ok tt → IsMember t s
  check_space_member_inv s h =
      let (m, sp, fm, fs, v, b) = member_found t da s h in
      let (im, em) = find_membership→listed t s.membership_id m fm in
      let (is, es) = find_space→listed t s.space_id sp fs in
      let (state, device, current, role, manages) = (check_binding_iff da s m sp).0 b in
      (
        (validate_space_member_iff s).0 v,
        (
          m,
          record {
            listed = im;
            named = em;
            is_active = state;
            device = (owned s.device_id m.account_id).0 device;
            not_legacy = role;
            manages = manages;
          },
        ),
        (sp, record { listed = is; named = es; current = current }),
      )

  pub member_accepts :
      IsCollected t → (s : SpaceMemberV1) → IsMember t s → check_space_member t da s ≡ ok tt
  unfolding check_space_member
  member_accepts c s (v, (m, e), (sp, h)) =
      let binding = (check_binding_iff da s m sp).1 (
        e.is_active,
        (owned s.device_id m.account_id).1 e.device,
        h.current,
        e.not_legacy,
        e.manages,
      ) in
      ground (
        arith,
        (validate_space_member_iff s).1 v,
        listed→find_membership t c s.membership_id m e.listed e.named,
        listed→find_space t c s.space_id sp h.listed h.named,
        binding,
      )
