-- ===== src/Sync/Authorize/Exact.antt =====
-- `authorizes_device_scope` against its description (crates/vault-sync/src/lib.rs).
use safeory.Base.{
  ◌≡◌, ◌↔◌, sym, ◌∙◌, true, some, In, contains, contains→in, in→contains, any, any_iff, find→in,
  find_key, key-injective, nat_eq, ◌==◌, ==_iff, ok, Option-cases, inl, inr, arith,
}
use safeory.Sync.Types.{
  Uuid, AccountV1, MembershipV1, SpaceMemberV1, HouseholdTopologyV1, TopologyAction,
}
use safeory.Sync.Scope.{ObjectScopeV1, account, household, space, scope_account_id}
use safeory.Sync.Topology.{find_membership}
use safeory.Sync.Topology.Devices.{Owns}
use safeory.Sync.Topology.Spec.{IsValid}
use safeory.Sync.Topology.Members.{find_membership→listed, listed→find_membership}
use safeory.Sync.Topology.Exact.{validate_iff, validate→IsValid}
use safeory.Sync.Authorize.{
  space_action, membership_authorizes, space_member_authorizes, scope_authorizes, find_account,
  device_authorized, authorizes_device_scope,
}
use safeory.Sync.Authorize.Spec.{MayInHousehold, MayInSpace, MayInScope, May, AccessAllows}

module _ (t : HouseholdTopologyV1) (v : IsValid t) (a d : Uuid) where
  membership_authorizes_iff :
      (action : TopologyAction) (m : MembershipV1)
      → In m t.memberships
      → (membership_authorizes a t.household.household_id action m ≡ true)
        ↔ MayInHousehold t a action m
  unfolding membership_authorizes
  membership_authorizes_iff action m i =
      elim action
        as (λ c.
          (membership_authorizes a t.household.household_id c m ≡ true) ↔ MayInHousehold t a c m) [
            | TopologyAction.read ↦ ground (arith, i, (v.membership m i).2)
            | TopologyAction.write ↦ ground (arith, i, (v.membership m i).2)
            | TopologyAction.manage ↦ ground (arith, i, (v.membership m i).2)
          ]

  access_iff :
      (action : TopologyAction) (s : SpaceMemberV1)
      → (space_action action s ≡ true) ↔ AccessAllows action s.access
  access_iff TopologyAction.read s = ground arith
  access_iff TopologyAction.write s = ground arith
  access_iff TopologyAction.manage s = ground arith

  space_member_found :
      (space_id : Uuid) (action : TopologyAction) (s : SpaceMemberV1)
      → In s t.space_members
      → space_member_authorizes t a d space_id action s ≡ true
      → (m : MembershipV1) × MayInSpace t a d space_id action s m
  unfolding space_member_authorizes
  space_member_found space_id action s i h =
      elim (Option-cases (find_membership t s.membership_id)) [
        | inl e ↦ absurd (ground arith)
        | inr (m, e) ↦
            let (listed, named) = find_membership→listed t s.membership_id m e in
            (m, ground (arith, i, listed, named, access_iff action s))
      ]

  space_member_holds :
      (space_id : Uuid) (action : TopologyAction) (s : SpaceMemberV1) (m : MembershipV1)
      → MayInSpace t a d space_id action s m
      → space_member_authorizes t a d space_id action s ≡ true
  unfolding space_member_authorizes
  space_member_holds space_id action s m e = ground (
    arith,
    listed→find_membership t v.collected s.membership_id m e.membership e.named,
    access_iff action s,
  )

  space_member_authorizes_iff :
      (space_id : Uuid) (action : TopologyAction) (s : SpaceMemberV1)
      → In s t.space_members
      → (space_member_authorizes t a d space_id action s ≡ true)
        ↔ ((m : MembershipV1) × MayInSpace t a d space_id action s m)
  space_member_authorizes_iff space_id action s i =
      (space_member_found space_id action s i, λ (m, e). space_member_holds space_id action s m e)

  household_any :
      (hid : Uuid) (action : TopologyAction)
      → hid ≡ t.household.household_id
      → (any (membership_authorizes a hid action) t.memberships ≡ true)
        ↔ ((m : MembershipV1) × MayInHousehold t a action m)
  household_any hid action q =
      let test = membership_authorizes a t.household.household_id action in
      let found = any_iff test t.memberships in
      rw q (
        λ h. let (m, i, e) = found.0 h in (m, (membership_authorizes_iff action m i).0 e),
        λ (m, e). found.1 (m, e.listed, (membership_authorizes_iff action m e.listed).1 e),
      )

  space_any :
      (sid : Uuid) (action : TopologyAction)
      → (any (space_member_authorizes t a d sid action) t.space_members ≡ true)
        ↔ ((s : SpaceMemberV1) × (m : MembershipV1) × MayInSpace t a d sid action s m)
  space_any sid action =
      let found = any_iff (space_member_authorizes t a d sid action) t.space_members in
      (
        λ h.
            let (s, i, e) = found.0 h in
            let (m, r) = (space_member_authorizes_iff sid action s i).0 e in (s, m, r),
        λ (s, m, r).
            found.1 (s, r.listed, (space_member_authorizes_iff sid action s r.listed).1 (m, r)),
      )

  scope_authorizes_iff :
      (scope : ObjectScopeV1) (action : TopologyAction)
      → ((scope_account_id scope ≡ a) × (scope_authorizes t a d scope action ≡ true))
        ↔ MayInScope t a d scope action
  unfolding scope_authorizes
  scope_authorizes_iff (account b) action = ground arith
  scope_authorizes_iff (household b hid) action = ground (arith, household_any hid action)
  scope_authorizes_iff (space b hid sid) action = ground (arith, space_any sid action)

  account-Owns_iff :
      (account : AccountV1)
      → In account t.accounts
      → account.account_id ≡ a
      → (contains account.device_ids d ≡ true) ↔ Owns t.accounts d a
  account-Owns_iff x i e = (
    λ h. (x, i, e, contains→in x.device_ids d h),
    λ (y, j, q, m).
        let same =
          key-injective (λ (z : AccountV1). z.account_id) t.accounts v.collected.account_ids i j
            (e ∙ sym q) in
        in→contains (rw same m),
  )

  found_account :
      (account : AccountV1)
      → find_account t a ≡ some account
      → In account t.accounts × (account.account_id ≡ a)
  unfolding find_account
  found_account x h =
      let (i, e) = find→in (λ (y : AccountV1). y.account_id == a) t.accounts h in
      (i, (==_iff x.account_id a).0 e)

  owner_found :
      (account : AccountV1)
      → In account t.accounts
      → account.account_id ≡ a
      → find_account t a ≡ some account
  unfolding find_account
  owner_found x i e =
      rw (← e) (find_key (λ (y : AccountV1). y.account_id) t.accounts v.collected.account_ids i)

  device_authorized_iff :
      (scope : ObjectScopeV1) (action : TopologyAction)
      → (device_authorized t a d scope action ≡ true) ↔ May t a d scope action
  unfolding device_authorized
  device_authorized_iff scope action = elim (Option-cases (find_account t a)) [
    | inl e ↦ (
      λ h. absurd (ground arith),
      λ w. let (x, i, q, _) = w.0 in absurd (ground (arith, owner_found x i q)),
    )
    | inr (x, e) ↦
        let (i, q) = found_account x e in
        ground (
          arith,
          e,
          account-Owns_iff x i q,
          scope_authorizes_iff scope action,
          ==_iff (scope_account_id scope) a,
        )
  ]

-- A device is authorized exactly when the topology is valid, the device is the account's, and the
-- scope admits the action by an active membership or an envelope of the space.
pub authorizes_device_scope_iff :
    (t : HouseholdTopologyV1) (a d : Uuid) (scope : ObjectScopeV1) (action : TopologyAction)
    → (authorizes_device_scope t a d scope action ≡ ok true) ↔ (IsValid t × May t a d scope action)
unfolding authorizes_device_scope
authorizes_device_scope_iff t a d scope action = (
  λ h.
      let valid = validate→IsValid t (ground arith) in
      (valid, (device_authorized_iff t valid a d scope action).0 (ground arith)),
  λ w. ground (arith, (validate_iff t).1 w.0, (device_authorized_iff t w.0 a d scope action).1 w.1),
)
