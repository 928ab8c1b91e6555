-- ===== src/Api/Store/Access.antt =====
-- Who may write an object (apps/api/src/store.rs, crates/vault-sync/src/lib.rs).
use safeory.Base.{
  ◌≡◌, inl, inr, sym, ◌∙◌, ap, true, some, ok, nat_eq, option_eq, Option-cases, arith,
}
use safeory.Sync.Types.{Uuid, HouseholdTopologyV1, TopologyAction}
use safeory.Sync.Scope.{ObjectScopeV1, account, household, space}
use safeory.Sync.Topology.Spec.{IsValid}
use safeory.Sync.Authorize.{authorizes_device_scope}
use safeory.Sync.Authorize.Spec.{May}
use safeory.Sync.Authorize.Exact.{authorizes_device_scope_iff}
use safeory.Api.Store.{Upload, commit_object, check_scope, check_household}
use safeory.Api.Tables.{Database, TopologyRow, AuthContext, Ack, CommitResult, row_to_topology}
use safeory.Api.Store.Writes.{refused, replayed, wrote, commit_object-Way}

-- A valid topology that is stored for the household lets the device write in the scope.
pub record MayUnder (db : Database) (auth : AuthContext) (h : Uuid) (scope : ObjectScopeV1)
    : Type 0 where
  pub row : TopologyRow
  pub stored : db.topologies h ≡ some row
  pub named : row.topology.household.household_id ≡ h
  pub valid : IsValid row.topology
  pub may : May row.topology auth.account_id auth.device_id scope TopologyAction.write

abbrev pub MayWrite : Database → AuthContext → ObjectScopeV1 → Type 0
MayWrite db auth (account a) = a ≡ auth.account_id
MayWrite db auth (household a h) = MayUnder db auth h (household a h)
MayWrite db auth (space a h s) = MayUnder db auth h (space a h s)

row_topology :
    (h : Uuid) (row : TopologyRow) (t : HouseholdTopologyV1)
    → row_to_topology h row ≡ some t
    → (t ≡ row.topology) × (row.topology.household.household_id ≡ h)
unfolding row_to_topology
row_topology h row t q = ground arith

check_household-MayUnder :
    (db : Database) (auth : AuthContext) (h : Uuid) (scope : ObjectScopeV1)
    → check_household db auth h scope ≡ ok tt
    → MayUnder db auth h scope
unfolding check_household
check_household-MayUnder db auth h scope q = elim (Option-cases (db.topologies h)) [
  | inl lost ↦ absurd (ground arith)
  | inr (row, f) ↦ elim (Option-cases (row_to_topology h row)) [
    | inl bad ↦ absurd (ground arith)
    | inr (t, g) ↦
        let (same, named) = row_topology h row t g in
        let allowed : authorizes_device_scope t auth.account_id auth.device_id scope
              TopologyAction.write
            ≡ ok true =
          ground arith in
        let (v, m) =
          (authorizes_device_scope_iff row.topology auth.account_id auth.device_id scope
              TopologyAction.write).0
            (ap
                (λ x.
                  authorizes_device_scope x auth.account_id auth.device_id scope
                    TopologyAction.write)
                (sym same)
              ∙ allowed) in
        record { row = row; stored = f; named = named; valid = v; may = m }
  ]
]

check_scope-MayWrite :
    (db : Database) (auth : AuthContext) (scope : ObjectScopeV1)
    → check_scope db auth scope ≡ ok tt
    → MayWrite db auth scope
unfolding check_scope
check_scope-MayWrite db auth (account a) q = ground arith
check_scope-MayWrite db auth (household a h) q =
    check_household-MayUnder db auth h (household a h) q
check_scope-MayWrite db auth (space a h s) q = check_household-MayUnder db auth h (space a h s) q

-- An upload that succeeds, a replay included, is the account's own or is written by a device that
-- the valid topology stored for the household lets write in the scope.
pub commit_object-MayWrite :
    (db : Database) (u : Upload) (ack : Ack) (res : CommitResult)
    → (commit_object db u ack).0 ≡ ok res
    → MayWrite db u.auth u.mutation.object.scope
commit_object-MayWrite db u ack res h = elim (commit_object-Way db u ack) [
  | refused e _ q ↦ absurd (ground arith)
  | replayed row _ s q ↦ check_scope-MayWrite db u.auth u.mutation.object.scope s
  | wrote current cursor w q ↦ check_scope-MayWrite db u.auth u.mutation.object.scope w.authorized
]
