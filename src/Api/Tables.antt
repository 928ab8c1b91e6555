-- ===== src/Api/Tables.antt =====
-- The tables of the server and how a row is read (apps/api/src/store.rs, apps/api/migrations). The
-- columns that limit the length of a text are not modelled, nor a statement that fails for a
-- reason outside the tables; a header's text can always be written, and spells the header when it is
-- read, where it is validated.
use safeory.Base.{
  ℕ, String, Bool, not, ◌&&◌, ◌||◌, Option, none, some, List, [], ◌∷◌, Result, ok, err, nat_eq,
  option_eq, ◌==◌, find, is_err, if◌then◌else◌,
}
use safeory.Sync.Types.{Uuid, HouseholdTopologyV1}
use safeory.Sync.Scope.{scope_account_id}
use safeory.Sync.Protocol.{Sha256, OpaqueObjectHeaderV1, validate_header}
use safeory.Sync.Topology.{validate}
use safeory.Api.Policy.{StoredObject, OperationOutcome, to_i64}

pub record AuthContext : Type 0 where
  pub account_id : Uuid
  pub device_id : Uuid

pub record CommitResult : Type 0 where
  pub object : StoredObject
  pub previous_storage_key : Option String
  pub created : Bool
  pub replayed : Bool

pub data CommitError : Type 0 where
  database commit_outcome_unknown store precondition_failed account_missing : CommitError
  operation_conflict unauthorized_scope invalid_contract : CommitError

-- A row of `ciphertext_objects`.
pub record ObjectRow : Type 0 where
  pub account_id : Uuid
  pub object_id : Uuid
  pub revision : ℕ
  pub ciphertext_size_bytes : ℕ
  pub ciphertext_sha256 : Sha256
  pub change_seq : ℕ
  pub storage_key : String
  pub header : OpaqueObjectHeaderV1

-- A row of `sync_operations`, beside its key.
pub record OperationRow : Type 0 where
  pub object_id : Uuid
  pub request_sha256 : Sha256
  pub header : OpaqueObjectHeaderV1
  pub storage_key : String
  pub change_seq : ℕ
  pub created : Bool

-- A row of `household_topologies`, beside its key.
pub record TopologyRow : Type 0 where
  pub revision : ℕ
  pub topology : HouseholdTopologyV1

-- A row of `devices`, beside its key.
pub record DeviceRow : Type 0 where
  pub account_id : Uuid
  pub is_revoked : Bool

-- The tables: `sync_cursor` by account, objects, operations by account and operation,
-- topologies by household, and devices.
pub record Database : Type 0 where
  pub cursors : Uuid → Option ℕ
  pub objects : List ObjectRow
  pub operations : Uuid → Uuid → Option OperationRow
  pub topologies : Uuid → Option TopologyRow
  pub devices : Uuid → Option DeviceRow

-- A stored header is validated whenever it is read.
unfoldable pub parse_header : OpaqueObjectHeaderV1 → Result CommitError OpaqueObjectHeaderV1
parse_header header = elim (validate_header header) [ err _ ↦ err store | ok _ ↦ ok header ]

unfoldable pub row_to_object : ObjectRow → Result CommitError StoredObject
row_to_object row = elim (parse_header row.header) [
  | err e ↦ err e
  | ok header ↦
      if not (scope_account_id header.scope == row.account_id)
        || (not (header.object_id == row.object_id)
            || (not (to_i64 header.revision == some row.revision)
                || (not (to_i64 header.ciphertext_size_bytes == some row.ciphertext_size_bytes)
                    || not (header.ciphertext_sha256 == row.ciphertext_sha256))))
      then err store
      else ok (record {
        object_id = row.object_id;
        revision = row.revision;
        ciphertext_size_bytes = row.ciphertext_size_bytes;
        ciphertext_sha256 = row.ciphertext_sha256;
        change_seq = row.change_seq;
        storage_key = row.storage_key;
        header = header;
      })
]

unfoldable pub row_to_operation : Uuid → OperationRow → Result CommitError OperationOutcome
row_to_operation account_id row = elim (parse_header row.header) [
  | err e ↦ err e
  | ok header ↦
      if not (scope_account_id header.scope == account_id)
        || not (header.object_id == row.object_id)
      then err store
      else ok (record {
        request_sha256 = row.request_sha256;
        header = header;
        change_seq = row.change_seq;
        created = row.created;
        storage_key = row.storage_key;
      })
]

-- `none` is `StoreError::InvalidHouseholdTopology`.
unfoldable pub row_to_topology : Uuid → TopologyRow → Option HouseholdTopologyV1
row_to_topology household_id row =
    if is_err (validate row.topology)
      || (not (row.topology.household.household_id == household_id)
          || not (to_i64 row.topology.household.revision == some row.revision))
    then none
    else some row.topology

abbrev pub has_key : Uuid → Uuid → ObjectRow → Bool
has_key account_id object_id row = row.account_id == account_id && row.object_id == object_id

-- `SELECT … WHERE account_id = $1 AND object_id = $2`
unfoldable pub find_row : Uuid → Uuid → List ObjectRow → Option ObjectRow
find_row account_id object_id rows = find (has_key account_id object_id) rows

-- `UPDATE … WHERE account_id = $1 AND object_id = $2`
unfoldable pub update_rows : ObjectRow → List ObjectRow → List ObjectRow
update_rows new [] = []
update_rows new (row ∷ rows) =
    let rest = update_rows new rows in
    if has_key new.account_id new.object_id row then new ∷ rest else row ∷ rest

-- What the server learns of `COMMIT`, and whether the database applied it.
pub data Ack : Type 0 where
  acknowledged applied_unseen dropped_unseen : Ack
