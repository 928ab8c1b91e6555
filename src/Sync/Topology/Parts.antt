-- ===== src/Sync/Topology/Parts.antt =====
-- What each check of `HouseholdTopologyV1::validate` accepts, one lemma for each.
use safeory.Base.{
  ◌≡◌, ◌≢◌, ◌↔◌, ◌⊎◌, refl, sym, ◌∙◌, List, map, In, ok, some, Bool, true, ◌&&◌, nat_eq, pair_eq,
  option_eq, SameElements, any_iff, length_of_in, in_of_length, ◌==◌, ==_iff, any, filter,
  in-filter, in-filter_inv, in-map, in-map_inv, lookup, same_set_iff, IsOnly, length-dedup-one_iff,
  arith,
}
use safeory.Sync.Types.{
  Uuid, AccountV1, MembershipV1, SpaceV1, SpaceMemberV1, HouseholdTopologyV1, owner, organizer,
  legacy_collaborator, active, SpaceAccess, is_owner, is_active,
}
use safeory.Sync.Checks.{require_version, bounded}
use safeory.Sync.Checks.Laws.{unique_iff}
use safeory.Sync.Records.Laws.{
  validate_household_iff, validate_membership_iff, validate_space_iff, IsMembership, IsSpace,
}
use safeory.Sync.Topology.{
  DeviceAccounts, validate_collections, topology_object_ids, active_owners, check_membership,
  check_space, check_binding, space_readers, check_private_space, household_lists_match,
}
use safeory.Sync.Topology.Spec.{IsCollected, IsHeldBy, IsReadByOnly}

abbrev is_active_owner : MembershipV1 → Bool
is_active_owner m = is_owner m.role && is_active m.state

pub active_owners_iff :
    (ms : List MembershipV1)
    → (active_owners ms ≢ 0)
      ↔ ((m : MembershipV1) × In m ms × (m.role ≡ owner) × (m.state ≡ active))
unfolding active_owners
active_owners_iff ms = (
  λ h.
      let (m, i) = in_of_length (filter is_active_owner ms) h in
      let (j, e) = in-filter_inv is_active_owner ms i in (m, j, ground arith, ground arith),
  λ (m, i, r, s). length_of_in (in-filter is_active_owner i (ground arith)),
)

pub check_binding_iff :
    (da : DeviceAccounts) (s : SpaceMemberV1) (m : MembershipV1) (sp : SpaceV1)
    → (check_binding da s m sp ≡ ok tt) ↔ (
        (m.state ≡ active)
        × (lookup s.device_id da ≡ some m.account_id)
        × (s.key_generation ≡ sp.key_generation)
        × (m.role ≢ legacy_collaborator)
        × (s.access ≡ SpaceAccess.manage → (m.role ≡ owner) ⊎ (m.role ≡ organizer)))
unfolding check_binding
check_binding_iff da s m sp = ground (arith, ==_iff (lookup s.device_id da) (some m.account_id))

module _ (t : HouseholdTopologyV1) where
  pub validate_collections_iff : (validate_collections t ≡ ok tt) ↔ IsCollected t
  unfolding validate_collections bounded require_version
  validate_collections_iff = ground (
    arith,
    validate_household_iff t.household,
    unique_iff {A = Uuid} "account IDs" (map (λ (a : AccountV1). a.account_id) t.accounts),
    unique_iff {A = Uuid} "membership IDs"
        (map (λ (m : MembershipV1). m.membership_id) t.memberships),
    unique_iff {A = Uuid} "space IDs" (map (λ (s : SpaceV1). s.space_id) t.spaces),
    unique_iff {A = Uuid × Uuid} "space/device memberships"
        (map (λ (m : SpaceMemberV1). (m.space_id, m.device_id)) t.space_members),
    unique_iff "topology object IDs" (topology_object_ids t),
  )

  held_iff :
      (m : MembershipV1)
      → (any (λ a. a.account_id == m.account_id) t.accounts ≡ true) ↔ IsHeldBy t m
  held_iff m =
      let i = any_iff (λ a. a.account_id == m.account_id) t.accounts in
      (
        λ h. let (a, j, e) = i.0 h in (a, j, (==_iff a.account_id m.account_id).0 e),
        λ w. i.1 (w.0, w.1, (==_iff w.0.account_id m.account_id).1 w.2),
      )

  pub check_membership_iff :
      (m : MembershipV1)
      → (check_membership t m ≡ ok tt)
        ↔ (IsMembership m × IsHeldBy t m × (m.household_id ≡ t.household.household_id))
  unfolding check_membership
  check_membership_iff m = ground (arith, validate_membership_iff m, held_iff m)

  pub check_space_iff :
      (s : SpaceV1)
      → (check_space t s ≡ ok tt) ↔ (IsSpace s × (s.household_id ≡ t.household.household_id))
  unfolding check_space
  check_space_iff s = ground (arith, validate_space_iff s)

  pub household_lists_match_iff : (household_lists_match t ≡ true) ↔ (
      SameElements
        (map (λ (m : MembershipV1). m.membership_id) t.memberships)
        t.household.membership_ids
      × SameElements (map (λ (s : SpaceV1). s.space_id) t.spaces) t.household.space_ids)
  unfolding household_lists_match
  household_lists_match_iff = ground (
    arith,
    same_set_iff (map (λ (m : MembershipV1). m.membership_id) t.memberships)
        t.household.membership_ids,
    same_set_iff (map (λ (s : SpaceV1). s.space_id) t.spaces) t.household.space_ids,
  )

  pub space_readers_iff :
      (space_id id : Uuid)
      → In id (space_readers t space_id) ↔ (
          (s : SpaceMemberV1) × In s t.space_members
          × (s.space_id ≡ space_id)
          × (s.membership_id ≡ id))
  unfolding space_readers
  space_readers_iff space_id id =
      let same = λ (s : SpaceMemberV1). s.space_id == space_id in
      let name = λ (s : SpaceMemberV1). s.membership_id in
      (
        λ m.
            let (s, i, e) = in-map_inv name (filter same t.space_members) m in
            let (j, q) = in-filter_inv same t.space_members i in
            (s, j, (==_iff s.space_id space_id).0 q, e),
        λ (s, i, q, e).
            rw (← e) (in-map name (in-filter same i ((==_iff s.space_id space_id).1 q))),
      )

  readers_iff :
      (space_id id : Uuid) → IsOnly id (space_readers t space_id) ↔ IsReadByOnly t space_id id
  readers_iff space_id id = (
    λ o. record {
      reader = (space_readers_iff space_id id).0 o.0;
      only = λ s i q.
          o.1 s.membership_id ((space_readers_iff space_id s.membership_id).1 (s, i, q, refl));
    },
    λ r. (
      (space_readers_iff space_id id).1 r.reader,
      λ b m. let (s, i, q, e) = (space_readers_iff space_id b).0 m in sym e ∙ r.only s i q,
    ),
  )

  pub check_private_space_iff :
      (sp : SpaceV1)
      → (check_private_space t sp ≡ ok tt) ↔ ((id : Uuid) × IsReadByOnly t sp.space_id id)
  unfolding check_private_space
  check_private_space_iff sp =
      let o = length-dedup-one_iff (space_readers t sp.space_id) in
      (
        λ h. let (id, only) = o.0 (ground arith) in (id, (readers_iff sp.space_id id).0 only),
        λ w. let one = o.1 (w.0, (readers_iff sp.space_id w.0).1 w.1) in ground arith,
      )
