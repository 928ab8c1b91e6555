-- ===== src/Api/Store.antt =====
-- `MetadataStore::commit_object` (apps/api/src/store.rs). A transaction is one step on the
-- database: an error rolls it back, and a failed commit leaves open whether it was applied. A row
-- keeps the header that its JSON column spells.
pub mod Rows
pub mod Writes
pub mod Commit
pub mod Outcome
pub mod Retry
pub mod Invariant
pub mod Access
pub mod Uploads
use safeory.Base.{
  ℕ, ◌+◌, String, Bool, true, false, not, ◌&&◌, ◌||◌, Option, none, some, List, [], ◌∷◌, ◌++◌, map,
  Result, ok, err, ◌>>=◌, nat_eq, option_eq, ◌==◌, leb, find, is_err, if◌then◌else◌, i64_max,
}
use safeory.Sync.Types.{Uuid, HouseholdTopologyV1, TopologyAction}
use safeory.Sync.Scope.{ObjectScopeV1, account, household, space, scope_account_id}
use safeory.Sync.Protocol.{Sha256, OpaqueObjectHeaderV1, OpaqueMutationV1}
use safeory.Sync.Topology.{validate}
use safeory.Sync.Authorize.{authorizes_device_scope}
use safeory.Api.Policy.{
  StoredObject, OperationOutcome, WritePrecondition, to_i64, validate_write_policy,
}
use safeory.Api.Tables.{
  AuthContext, CommitResult, CommitError, database, commit_outcome_unknown, store,
  precondition_failed, account_missing, operation_conflict, unauthorized_scope, invalid_contract,
  ObjectRow, OperationRow, TopologyRow, DeviceRow, Database, row_to_object, row_to_operation,
  row_to_topology, has_key, find_row, update_rows, Ack, acknowledged, applied_unseen,
  dropped_unseen,
}

-- The household's topology authorizes the device to write.
unfoldable pub check_household :
    Database → AuthContext → Uuid → ObjectScopeV1 → Result CommitError (Unit {0})
check_household db auth household_id scope = elim (db.topologies household_id) [
  | none ↦ err unauthorized_scope
  | some row ↦ elim (row_to_topology household_id row) [
    | none ↦ err store
    | some t ↦
        elim (authorizes_device_scope t auth.account_id auth.device_id scope TopologyAction.write) [
          | err _ ↦ err invalid_contract
          | ok authorized ↦ if authorized then ok tt else err unauthorized_scope
        ]
  ]
]

unfoldable pub check_scope : Database → AuthContext → ObjectScopeV1 → Result CommitError (Unit {0})
check_scope db auth (account scope_account) =
    if scope_account == auth.account_id then ok tt else err unauthorized_scope
check_scope db auth (household a household_id) =
    check_household db auth household_id (household a household_id)
check_scope db auth (space a household_id space_id) =
    check_household db auth household_id (space a household_id space_id)

-- The answer to an operation identifier that has been used.
unfoldable pub replay : Uuid → Sha256 → OperationRow → Result CommitError CommitResult
replay account_id request_sha256 row = elim (row_to_operation account_id row) [
  | err e ↦ err e
  | ok outcome ↦
      if not (outcome.request_sha256 == request_sha256)
      then err operation_conflict
      else elim (to_i64 outcome.header.revision) [
        | none ↦ err invalid_contract
        | some revision ↦ elim (to_i64 outcome.header.ciphertext_size_bytes) [
          | none ↦ err invalid_contract
          | some size ↦ ok (record {
            object = record {
              object_id = outcome.header.object_id;
              revision = revision;
              ciphertext_size_bytes = size;
              ciphertext_sha256 = outcome.header.ciphertext_sha256;
              change_seq = outcome.change_seq;
              storage_key = outcome.storage_key;
              header = outcome.header;
            };
            previous_storage_key = none;
            created = outcome.created;
            replayed = true;
          })
        ]
      ]
]

abbrev pub acknowledge :
    Ack → CommitResult → Database → Database → Result CommitError CommitResult × Database
acknowledge acknowledged result before after = (ok result, after)
acknowledge applied_unseen result before after = (err commit_outcome_unknown, after)
acknowledge dropped_unseen result before after = (err commit_outcome_unknown, before)

-- The arguments of `commit_object` but for the database.
pub record Upload : Type 0 where
  pub auth : AuthContext
  pub mutation : OpaqueMutationV1
  pub precondition : WritePrecondition
  pub ciphertext_size_bytes : ℕ
  pub ciphertext_sha256 : Sha256
  pub storage_key : String
  pub request_sha256 : Sha256

unfoldable pub new_row : Upload → ℕ → ℕ → ObjectRow
new_row u candidate_revision change_seq = record {
  account_id = u.auth.account_id;
  object_id = u.mutation.object.object_id;
  revision = candidate_revision;
  ciphertext_size_bytes = u.ciphertext_size_bytes;
  ciphertext_sha256 = u.ciphertext_sha256;
  change_seq = change_seq;
  storage_key = u.storage_key;
  header = u.mutation.object;
}

abbrev pub is_none {ℓ} : {A : Type ℓ} → Option A → Bool
is_none none = true
is_none (some _) = false

unfoldable pub new_operation : Upload → ℕ → Bool → OperationRow
new_operation u change_seq created = record {
  object_id = u.mutation.object.object_id;
  request_sha256 = u.request_sha256;
  header = u.mutation.object;
  storage_key = u.storage_key;
  change_seq = change_seq;
  created = created;
}

-- The three writes of the transaction.
unfoldable pub write_rows : Database → Upload → Option StoredObject → ℕ → ℕ → Database
write_rows db u current candidate_revision change_seq = record db {
  cursors = λ a. if a == u.auth.account_id then some change_seq else db.cursors a;
  objects =
      if is_none current
      then db.objects ++ new_row u candidate_revision change_seq ∷ []
      else update_rows (new_row u candidate_revision change_seq) db.objects;
  operations = λ a o.
      if a == u.auth.account_id && o == u.mutation.operation_id
      then some (new_operation u change_seq (is_none current))
      else db.operations a o;
}

abbrev pub previous_key : Option StoredObject → Option String
previous_key none = none
previous_key (some o) = some o.storage_key

unfoldable pub commit_result : Upload → Option StoredObject → ℕ → ℕ → CommitResult
commit_result u current candidate_revision change_seq = record {
  object = record {
    object_id = u.mutation.object.object_id;
    revision = candidate_revision;
    ciphertext_size_bytes = u.ciphertext_size_bytes;
    ciphertext_sha256 = u.ciphertext_sha256;
    change_seq = change_seq;
    storage_key = u.storage_key;
    header = u.mutation.object;
  };
  previous_storage_key = previous_key current;
  created = is_none current;
  replayed = false;
}

abbrev pub Committed : Type 0
Committed = Result CommitError CommitResult × Database

-- From the write policy on; `sync_cursor + 1` past the column's range fails in the database.
unfoldable pub commit_current : Database → Upload → Ack → Option StoredObject → ℕ → ℕ → Committed
commit_current db u ack current candidate_revision cursor =
    elim (validate_write_policy current candidate_revision u.precondition) [
      | err _ ↦ (err precondition_failed, db)
      | ok _ ↦
          if leb i64_max cursor
          then (err database, db)
          else acknowledge ack (commit_result u current candidate_revision (cursor + 1)) db
              (write_rows db u current candidate_revision (cursor + 1))
    ]

-- The object that the row lock finds.
unfoldable pub current_object : Database → Uuid → Uuid → Result CommitError (Option StoredObject)
current_object db account_id object_id = elim (find_row account_id object_id db.objects) [
  | none ↦ ok none
  | some row ↦ elim (row_to_object row) [ err e ↦ err e | ok o ↦ ok (some o) ]
]

-- The transaction of an account that exists.
unfoldable pub commit_operation : Database → Upload → Ack → ℕ → ℕ → Committed
commit_operation db u ack candidate_revision cursor =
    elim (check_scope db u.auth u.mutation.object.scope) [
      | err e ↦ (err e, db)
      | ok _ ↦ elim (db.operations u.auth.account_id u.mutation.operation_id) [
        | some row ↦ (replay u.auth.account_id u.request_sha256 row, db)
        | none ↦ elim (current_object db u.auth.account_id u.mutation.object.object_id) [
          | err e ↦ (err e, db)
          | ok current ↦ commit_current db u ack current candidate_revision cursor
        ]
      ]
    ]

unfoldable pub commit_object : Database → Upload → Ack → Committed
commit_object db u ack = elim (to_i64 u.mutation.object.revision) [
  | none ↦ (err precondition_failed, db)
  | some candidate_revision ↦ elim (db.cursors u.auth.account_id) [
    | none ↦ (err account_missing, db)
    | some cursor ↦ commit_operation db u ack candidate_revision cursor
  ]
]
