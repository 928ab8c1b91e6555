-- ===== src/Sync/Topology/Exact.antt =====
-- `HouseholdTopologyV1::validate` against its description (crates/vault-sync/src/lib.rs).
use safeory.Base.{
  ◌≡◌, ◌≢◌, ◌↔◌, inl, inr, List, [], In, All-in, All_of_in, ok, some, true, nat_eq, lookup, filter,
  in-filter, in-filter_inv, for_each, for_each-eq-ok, arith, lookup-nil,
}
use safeory.Sync.Types.{Uuid, SpaceV1, HouseholdTopologyV1, is_private}
use safeory.Sync.Records.Laws.{validate_account_iff}
use safeory.Sync.Checks.{Check}
use safeory.Sync.Topology.{
  DeviceAccounts, bind_accounts, check_membership, check_space, check_space_member,
  check_private_space, validate_collections, validate_references, validate, household_lists_match,
  active_owners,
}
use safeory.Sync.Topology.Devices.{Owns, IsBoundTo, bind_accounts-Binds, bind_accounts-IsBoundTo}
use safeory.Sync.Topology.Total.{bind_accounts_total}
use safeory.Sync.Topology.Spec.{IsValid}
use safeory.Sync.Topology.Parts.{
  validate_collections_iff, active_owners_iff, check_membership_iff, check_space_iff,
  household_lists_match_iff, check_private_space_iff,
}
use safeory.Sync.Topology.Members.{check_space_member_inv, member_accepts}

-- A loop accepts a list when its check accepts each element.
for_each→each :
    {A : Type 0} (f : A → Check) (xs : List A)
    → for_each f xs ≡ ok tt
    → (a : A) → In a xs
    → f a ≡ ok tt
for_each→each f xs h a m = All-in (λ x. f x ≡ ok tt) ((for_each-eq-ok f xs).0 h) m

each→for_each :
    {A : Type 0} (f : A → Check) (xs : List A)
    → ((a : A) → In a xs → f a ≡ ok tt)
    → for_each f xs ≡ ok tt
each→for_each f xs h = (for_each-eq-ok f xs).1 (All_of_in (λ x. f x ≡ ok tt) xs h)

-- The checks that run once the accounts are bound.
record References (t : HouseholdTopologyV1) (da : DeviceAccounts) : Type 0 where
  lists : household_lists_match t ≡ true
  owners : active_owners t.memberships ≢ 0
  memberships : for_each (check_membership t) t.memberships ≡ ok tt
  spaces : for_each (check_space t) t.spaces ≡ ok tt
  members : for_each (check_space_member t da) t.space_members ≡ ok tt
  privates : for_each (check_private_space t) (filter (λ s. is_private s.kind) t.spaces) ≡ ok tt

validate_references_iff :
    (t : HouseholdTopologyV1) (da : DeviceAccounts)
    → (validate_references t da ≡ ok tt) ↔ References t da
unfolding validate_references
validate_references_iff t da = ground arith

validate-eq-ok :
    (t : HouseholdTopologyV1)
    → validate t ≡ ok tt
    → (da : DeviceAccounts) × (bind_accounts t.household.household_id t.accounts [] ≡ ok da)
      × (validate_collections t ≡ ok tt)
      × (validate_references t da ≡ ok tt)
unfolding validate
validate-eq-ok t h = ground arith

-- With the map of the loop, the owner of a device is what the map holds.
owned_iff :
    (t : HouseholdTopologyV1) (da : DeviceAccounts)
    → bind_accounts t.household.household_id t.accounts [] ≡ ok da
    → (d a : Uuid) → (lookup d da ≡ some a) ↔ Owns t.accounts d a
owned_iff t da h d a =
    let b = bind_accounts-Binds t.household.household_id t.accounts [] da h in
    (
      λ l. elim (b.only d a l) [
        | inl old ↦ absurd (ground (arith, lookup-nil {V = Uuid} d))
        | inr o ↦ o
      ],
      b.bound d a,
    )

-- A topology that `validate` accepts is valid.
pub validate→IsValid : (t : HouseholdTopologyV1) → validate t ≡ ok tt → IsValid t
validate→IsValid t h =
    let (da, bound, collections, references) = validate-eq-ok t h in
    let r = (validate_references_iff t da).0 references in
    let owned = owned_iff t da bound in
    let lists = (household_lists_match_iff t).0 r.lists in
    record {
      collected = (validate_collections_iff t).0 collections;
      account = λ a i.
          let (v, m) =
            All-in (IsBoundTo t.household.household_id)
              (bind_accounts-IsBoundTo t.household.household_id t.accounts [] da bound) i in
          ((validate_account_iff a).0 v, m);
      one_owner = λ d a b o p. ground (arith, (owned d a).1 o, (owned d b).1 p);
      membership_list = lists.0;
      space_list = lists.1;
      active_owner = (active_owners_iff t.memberships).0 r.owners;
      membership = λ m i.
          (check_membership_iff t m).0
            (for_each→each (check_membership t) t.memberships r.memberships m i);
      space = λ s i. (check_space_iff t s).0 (for_each→each (check_space t) t.spaces r.spaces s i);
      space_member = λ s i.
          check_space_member_inv t da owned s
            (for_each→each (check_space_member t da) t.space_members r.members s i);
      private_space = λ sp i k. (check_private_space_iff t sp).0 (
          for_each→each (check_private_space t) (filter (λ s. is_private s.kind) t.spaces)
            r.privates sp (in-filter (λ s. is_private s.kind) i (ground arith)));
    }

private_accepts :
    (t : HouseholdTopologyV1)
    → IsValid t
    → (sp : SpaceV1) → In sp (filter (λ s. is_private s.kind) t.spaces)
    → check_private_space t sp ≡ ok tt
private_accepts t v sp i =
    let (j, k) = in-filter_inv (λ (s : SpaceV1). is_private s.kind) t.spaces i in
    (check_private_space_iff t sp).1 (v.private_space sp j (ground arith))

valid_accounts_bind :
    (t : HouseholdTopologyV1)
    → IsValid t
    → (da : DeviceAccounts) × (bind_accounts t.household.household_id t.accounts [] ≡ ok da)
valid_accounts_bind t v =
    bind_accounts_total t.household.household_id t.accounts [] v.account v.collected.account_ids
      v.one_owner (λ d a o. lookup-nil d)

-- A valid topology is accepted.
pub IsValid→validate : (t : HouseholdTopologyV1) → IsValid t → validate t ≡ ok tt
unfolding validate
IsValid→validate t v =
    let (da, bound) = valid_accounts_bind t v in
    let owned = owned_iff t da bound in
    let references = (validate_references_iff t da).1 (record {
      lists = (household_lists_match_iff t).1 (v.membership_list, v.space_list);
      owners = (active_owners_iff t.memberships).1 v.active_owner;
      memberships =
          each→for_each (check_membership t) t.memberships
            (λ m i. (check_membership_iff t m).1 (v.membership m i));
      spaces =
          each→for_each (check_space t) t.spaces (λ s i. (check_space_iff t s).1 (v.space s i));
      members =
          each→for_each (check_space_member t da) t.space_members
            (λ s i. member_accepts t da owned v.collected s (v.space_member s i));
      privates =
          each→for_each (check_private_space t) (filter (λ s. is_private s.kind) t.spaces)
            (λ sp i. private_accepts t v sp i);
    }) in
    ground (arith, (validate_collections_iff t).1 v.collected, bound, references)

-- HouseholdTopologyV1::validate accepts exactly the valid topologies, described by membership and
-- equality without the code's loops, searches and hash sets.
pub validate_iff : (t : HouseholdTopologyV1) → (validate t ≡ ok tt) ↔ IsValid t
validate_iff t = (validate→IsValid t, IsValid→validate t)
