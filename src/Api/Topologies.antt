-- ===== src/Api/Topologies.antt =====
-- `MetadataStore::put_household_topology` (apps/api/src/store.rs). `json_len` is the length of the
-- JSON text that serde writes for a topology.
pub mod Principals
pub mod Fence
use safeory.Base.{
  ℕ, ◌*◌, Bool, true, false, not, ◌&&◌, ◌||◌, Option, none, some, List, [], ◌∷◌, ◌++◌, map, Result,
  ok, err, nat_eq, option_eq, ◌==◌, ltb, all, lookup, same_set, checked_add, length, if◌then◌else◌,
  filter,
}
use safeory.Sync.Types.{Uuid, AccountV1, HouseholdTopologyV1, TopologyAction}
use safeory.Sync.Equality.{topology_beq}
use safeory.Sync.Scope.{ObjectScopeV1, household}
use safeory.Sync.Topology.{validate}
use safeory.Sync.Authorize.{authorizes_device_scope}
use safeory.Api.Policy.{to_i64}
use safeory.Api.Tables.{
  AuthContext, Ack, acknowledged, applied_unseen, dropped_unseen, Database, DeviceRow, TopologyRow,
  row_to_topology,
}

pub data TopologyWriteOutcome : Type 0 where
  created updated replayed : TopologyWriteOutcome

pub data TopologyWriteError : Type 0 where
  database store invalid_contract unauthorized precondition_failed unknown_principal :
      TopologyWriteError

abbrev pub Written : Type 0 → Type 0
Written A = Result TopologyWriteError A

unfoldable pub topology_update_outcome :
    HouseholdTopologyV1 → HouseholdTopologyV1 → Written TopologyWriteOutcome
topology_update_outcome current candidate =
    if topology_beq candidate current
    then ok replayed
    else if checked_add current.household.revision 1 == some candidate.household.revision
    then ok updated
    else err precondition_failed

-- The stored topology under the row lock.
unfoldable pub current_topology : Database → Uuid → Written (Option HouseholdTopologyV1)
current_topology db household_id = elim (db.topologies household_id) [
  | none ↦ ok none
  | some row ↦ elim (row_to_topology household_id row) [
    | none ↦ err store
    | some current ↦ ok (some current)
  ]
]

-- The device manages the household of `t`.
unfoldable pub manages : AuthContext → HouseholdTopologyV1 → Written Bool
manages auth t =
    elim (authorizes_device_scope t auth.account_id auth.device_id
      (household auth.account_id t.household.household_id) TopologyAction.manage) [
        | err _ ↦ err invalid_contract
        | ok authorized ↦ ok authorized
      ]

abbrev pub is_only_account : Uuid → List AccountV1 → Bool
is_only_account account_id [] = false
is_only_account account_id (a ∷ []) = a.account_id == account_id
is_only_account account_id (_ ∷ _ ∷ _) = false

-- What the write would be, before the principals are looked up.
unfoldable pub admit :
    AuthContext → Option HouseholdTopologyV1 → HouseholdTopologyV1 → Written TopologyWriteOutcome
admit auth (some current) topology = elim (manages auth current) [
  | err e ↦ err e
  | ok authorized ↦
      if not authorized then err unauthorized else topology_update_outcome current topology
]
admit auth none topology =
    if not (is_only_account auth.account_id topology.accounts && topology.household.revision == 0)
    then err unauthorized
    else elim (manages auth topology) [
      | err e ↦ err e
      | ok bootstraps ↦ if not bootstraps then err unauthorized else ok created
    ]

-- A hash map of devices to their accounts. `lookup` finds the first entry of a device where the
-- hash map keeps the last; `validate` has refused a device that stands twice.
abbrev pub Devices : Type 0
Devices = List (Uuid × Uuid)

abbrev pub devices_of : AccountV1 → Devices
devices_of a = map (λ d. (d, a.account_id)) a.device_ids

unfoldable pub expected_devices : List AccountV1 → Devices
expected_devices [] = []
expected_devices (a ∷ accounts) = devices_of a ++ expected_devices accounts

abbrev pub is_some {ℓ} : {A : Type ℓ} → Option A → Bool
is_some none = false
is_some (some _) = true

-- The requested accounts that exist.
unfoldable pub actual_accounts : Database → List Uuid → List Uuid
actual_accounts db account_ids = filter (λ a. is_some (db.cursors a)) account_ids

-- The requested devices that are active, with their accounts.
unfoldable pub actual_devices : Database → Devices → Devices
actual_devices db [] = []
actual_devices db ((d, _) ∷ expected) =
    let rest = actual_devices db expected in
    elim (db.devices d) [
      | none ↦ rest
      | some row ↦ if row.is_revoked then rest else (d, row.account_id) ∷ rest
    ]

-- Equality of hash maps.
unfoldable pub same_devices : Devices → Devices → Bool
same_devices xs ys =
    all (λ (d, a). lookup d ys == some a) xs && all (λ (d, a). lookup d xs == some a) ys

unfoldable pub principal_sets_match : List Uuid → Devices → List Uuid → Devices → Bool
principal_sets_match expected_accounts expected actual_accounts actual =
    same_set expected_accounts actual_accounts && same_devices expected actual

unfoldable pub principals_known : Database → HouseholdTopologyV1 → Bool
principals_known db t =
    let ids = map (λ (a : AccountV1). a.account_id) t.accounts in
    let expected = expected_devices t.accounts in
    principal_sets_match ids expected (actual_accounts db ids) (actual_devices db expected)

unfoldable pub write_topology : Database → HouseholdTopologyV1 → Database
write_topology db t = record db {
  topologies = λ h.
      if h == t.household.household_id
      then some (record { revision = t.household.revision; topology = t })
      else db.topologies h;
}

abbrev pub Put : Type 0
Put = Written TopologyWriteOutcome × Database

-- A failed commit is a database error here, whether it was applied or not.
abbrev pub acknowledge_write : Ack → TopologyWriteOutcome → Database → Database → Put
acknowledge_write acknowledged outcome before after = (ok outcome, after)
acknowledge_write applied_unseen outcome before after = (err database, after)
acknowledge_write dropped_unseen outcome before after = (err database, before)

-- The end of the transaction, by what the write would be.
unfoldable pub put_admitted : Database → HouseholdTopologyV1 → Ack → TopologyWriteOutcome → Put
put_admitted db t ack replayed = acknowledge_write ack replayed db db
put_admitted db t ack created =
    if not (principals_known db t)
    then (err unknown_principal, db)
    else acknowledge_write ack created db (write_topology db t)
put_admitted db t ack updated =
    if not (principals_known db t)
    then (err unknown_principal, db)
    else acknowledge_write ack updated db (write_topology db t)

unfoldable pub put_household_topology :
    (HouseholdTopologyV1 → ℕ) → Database → AuthContext → HouseholdTopologyV1 → Ack → Put
put_household_topology json_len db auth t ack = elim (validate t) [
  | err _ ↦ (err invalid_contract, db)
  | ok _ ↦ elim (to_i64 t.household.revision) [
    | none ↦ (err invalid_contract, db)
    | some _ ↦
        if ltb (1024 * 1024) (json_len t)
        then (err invalid_contract, db)
        else elim (current_topology db t.household.household_id) [
          | err e ↦ (err e, db)
          | ok current ↦ elim (admit auth current t) [
            | err e ↦ (err e, db)
            | ok outcome ↦ put_admitted db t ack outcome
          ]
        ]
  ]
]
