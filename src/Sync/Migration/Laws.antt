-- ===== src/Sync/Migration/Laws.antt =====
-- The migration of a local vault: `new` against `validate` (crates/vault-sync/src/lib.rs).
use safeory.Base.{
  ◌≤◌, ◌≡◌, ◌≢◌, ◌↔◌, refl, ap, suc, List, [], ◌∷◌, map, In, here, there, in-cons, All, Distinct,
  length, ok, false, inl, inr, Bool-cases, any, all, filter, find, lookup, dedup, same_set, not,
  contains, contains→in, in→contains, for_each, nat_eq, pair_eq, ◌==◌, arith, option_eq,
}
use safeory.Sync.Types.{Uuid, ObjectSpaceAssignmentV1, max_migrated_objects}
use safeory.Sync.Checks.{
  unique, unique_from, validate_revision, validate_key_generation, bounded, require_version,
  require_non_nil,
}
use safeory.Sync.Checks.Laws.{unique_iff}
use safeory.Sync.Records.Laws.{IsIdentifier}
use safeory.Sync.Records.{
  validate_account, validate_household, validate_membership, validate_space, validate_space_member,
}
use safeory.Sync.Topology.{
  validate, find_space, topology_object_ids, validate_collections, validate_references,
  bind_accounts, bind_devices, active_owners, check_membership, check_space, check_space_member,
  check_binding, check_private_space, find_membership, space_readers, household_lists_match,
}
use safeory.Sync.Migration.{
  FreshIds, single_owner_topology, new, check_assignment, validate_migration,
}

-- The generator gave no nil identifier, and three different object identifiers.
pub record IsFresh (ids : FreshIds) : Type 0 where
  pub account_id : IsIdentifier ids.account_id
  pub household_id : IsIdentifier ids.household_id
  pub membership_id : IsIdentifier ids.membership_id
  pub device_id : IsIdentifier ids.device_id
  pub space_id : IsIdentifier ids.space_id
  pub profile : IsIdentifier ids.encrypted_profile_object_id
  pub manifest : IsIdentifier ids.encrypted_manifest_object_id
  pub envelope : IsIdentifier ids.envelope_object_id
  pub profile_manifest : ids.encrypted_profile_object_id ≢ ids.encrypted_manifest_object_id
  pub profile_envelope : ids.encrypted_profile_object_id ≢ ids.envelope_object_id
  pub manifest_envelope : ids.encrypted_manifest_object_id ≢ ids.envelope_object_id

module _ (ids : FreshIds) (f : IsFresh ids) where
  -- The topology of a fresh single-owner vault is valid.
  single_owner_topology_valid : validate (single_owner_topology ids) ≡ ok tt
  unfolding validate validate_collections validate_references validate_household validate_account
      validate_membership validate_space validate_space_member bind_accounts bind_devices
      active_owners check_membership check_space check_space_member check_binding
      check_private_space find_membership find_space space_readers household_lists_match
      topology_object_ids require_version require_non_nil validate_revision validate_key_generation
      bounded unique unique_from for_each any all filter find contains lookup dedup same_set
  single_owner_topology_valid = ground arith

-- The local objects fit the bound, are different, are not nil, and are not topology objects.
pub record IsMigratable (ids : FreshIds) (objects : List Uuid) : Type 0 where
  pub within : length objects ≤ max_migrated_objects
  pub distinct : Distinct objects
  pub non_nil : All IsIdentifier objects
  pub disjoint :
      (o : Uuid) → In o objects → ¬ In o (topology_object_ids (single_owner_topology ids))

module _ (ids : FreshIds) where
  abbrev assign : Uuid → ObjectSpaceAssignmentV1
  assign object_id = record { object_id = object_id; space_id = ids.space_id }

  object_ids-assign :
      (objects : List Uuid)
      → map (λ (a : ObjectSpaceAssignmentV1). a.object_id) (map assign objects) ≡ objects
  object_ids-assign [] = refl
  object_ids-assign (o ∷ objects) = ap (λ l. o ∷ l) (object_ids-assign objects)

  length-assign : (objects : List Uuid) → length (map assign objects) ≡ length objects
  length-assign [] = refl
  length-assign (o ∷ objects) = ap suc (length-assign objects)

  assignments_iff :
      (objects : List Uuid)
      → IsIdentifier ids.space_id
      → (for_each check_assignment (map assign objects) ≡ ok tt) ↔ All IsIdentifier objects
  unfolding for_each require_non_nil
  assignments_iff [] s = ground arith
  assignments_iff (o ∷ objects) s = ground (arith, assignments_iff objects s)

  same_space :
      (objects : List Uuid)
      → any (λ (a : ObjectSpaceAssignmentV1). not (a.space_id == ids.space_id)) (map assign objects)
        ≡ false
  unfolding any
  same_space [] = refl
  same_space (o ∷ objects) = ground (arith, same_space objects)

  disjoint_iff :
      (taken objects : List Uuid)
      → (any (λ (a : ObjectSpaceAssignmentV1). contains taken a.object_id) (map assign objects)
          ≡ false)
        ↔ ((o : Uuid) → In o objects → ¬ In o taken)
  unfolding any
  disjoint_iff taken [] = (λ _ o m. elim m [ ], λ _. refl)
  disjoint_iff taken (x ∷ objects) =
      let rest = disjoint_iff taken objects in
      (
        λ h o m. elim (in-cons m) [
          | inl e ↦ λ n. ground (arith, in→contains (rw e at n))
          | inr r ↦ rest.0 (ground arith) o r
        ],
        λ d. elim (Bool-cases (contains taken x)) [
          | inl bad ↦ absurd (d x here (contains→in taken x bad))
          | inr good ↦ ground (arith, rest.1 (λ o m. d o (there m)))
        ],
      )

  -- When the generated identifiers are not nil and the three object identifiers differ, the
  -- migration that new builds is accepted by validate exactly when the objects are at most
  -- 100,000, different, not nil and none of them a topology object.
  pub validate_migration-new_iff :
      (objects : List Uuid)
      → IsFresh ids
      → (validate_migration (new ids objects) ≡ ok tt) ↔ IsMigratable ids objects
  unfolding validate_migration new bounded require_version find_space find
  validate_migration-new_iff objects f = ground (
    arith,
    single_owner_topology_valid ids f,
    object_ids-assign objects,
    length-assign objects,
    unique_iff "migrated object IDs" objects,
    assignments_iff objects f.space_id,
    same_space objects,
    disjoint_iff (topology_object_ids (single_owner_topology ids)) objects,
  )
