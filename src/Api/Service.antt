-- ===== src/Api/Service.antt =====
-- Uploads and downloads of objects (apps/api/src/sync.rs), over the tables and the object storage.
-- A request comes with the device that its token authenticates; a message of a bad request is not
-- kept; an entity tag is the version that it spells.
pub mod Server
pub mod Content
pub mod Writes
pub mod Commit
pub mod Puts
pub mod Runs
pub mod Downloads
pub mod Roundtrip
pub mod Sources
use safeory.Base.{
  ℕ, String, Bool, true, false, not, ◌&&◌, ◌||◌, Option, none, some, List, [], ◌∷◌, Result, ok, err,
  nat_eq, string_eq, ◌==◌, ltb, leb, length, is_empty, if◌then◌else◌,
}
use safeory.Sync.Types.{Uuid, HouseholdTopologyV1, TopologyAction}
use safeory.Sync.Scope.{ObjectScopeV1, account, household, space}
use safeory.Sync.Protocol.{Sha256, OpaqueObjectHeaderV1, OpaqueMutationV1, validate_upload_binding}
use safeory.Sync.Authorize.{authorizes_device_scope}
use safeory.Api.Policy.{
  ObjectVersion, StoredObject, OperationOutcome, version, PolicyError, to_i64, read_precondition,
  validate_write_policy, max_wire_revision,
}
use safeory.Api.Tables.{
  AuthContext, CommitResult, CommitError, database, commit_outcome_unknown, store, account_missing,
  unauthorized_scope, invalid_contract, Database, row_to_operation, row_to_topology, Ack,
}
use safeory.Api.Store.{Upload, current_object, commit_object}

pub data ApiError : Type 0 where
  unauthorized forbidden not_found bad_request unsupported_media_type payload_too_large : ApiError
  precondition_failed operation_conflict identifier_conflict limit_reached : ApiError
  last_active_device enrollment_unavailable unavailable internal : ApiError

pub record ObjectMetadataResponse : Type 0 where
  pub object : OpaqueObjectHeaderV1
  pub change_seq : ℕ
  pub etag : ObjectVersion

-- `ObjectMetadataResponse::try_from`
unfoldable pub metadata_of : StoredObject → Option ObjectMetadataResponse
metadata_of o =
    if ltb max_wire_revision o.revision
    then none
    else if not (o.object_id == o.header.object_id)
        || (not (o.revision == o.header.revision)
            || (not (o.ciphertext_size_bytes == o.header.ciphertext_size_bytes)
                || not (o.ciphertext_sha256 == o.header.ciphertext_sha256)))
    then none
    else some (record { object = o.header; change_seq = o.change_seq; etag = version o })

-- The status is 201 Created or 200 OK.
pub record Response : Type 0 where
  pub created : Bool
  pub metadata : ObjectMetadataResponse

unfoldable pub object_metadata_response : Bool → StoredObject → Result ApiError Response
object_metadata_response created o = elim (metadata_of o) [
  | none ↦ err internal
  | some metadata ↦ ok (record { created = created; metadata = metadata })
]

unfoldable pub operation_outcome_response : OperationOutcome → Result ApiError Response
operation_outcome_response outcome = elim (to_i64 outcome.header.revision) [
  | none ↦ err internal
  | some revision ↦ elim (to_i64 outcome.header.ciphertext_size_bytes) [
    | none ↦ err internal
    | some size ↦ object_metadata_response outcome.created (record {
      object_id = outcome.header.object_id;
      revision = revision;
      ciphertext_size_bytes = size;
      ciphertext_sha256 = outcome.header.ciphertext_sha256;
      change_seq = outcome.change_seq;
      storage_key = "";
      header = outcome.header;
    })
  ]
]

unfoldable pub evaluate_scope :
    Option HouseholdTopologyV1 → AuthContext → ObjectScopeV1 → TopologyAction → Result ApiError Bool
evaluate_scope none auth scope action = ok false
evaluate_scope (some topology) auth scope action =
    elim (authorizes_device_scope topology auth.account_id auth.device_id scope action) [
      | err _ ↦ err internal
      | ok authorized ↦ ok authorized
    ]

-- The scope of a household, under the topology that is stored for it.
unfoldable pub household_authorized :
    Database → AuthContext → Uuid → ObjectScopeV1 → TopologyAction → Result ApiError Bool
household_authorized db auth household_id scope action = elim (db.topologies household_id) [
  | none ↦ evaluate_scope none auth scope action
  | some row ↦ elim (row_to_topology household_id row) [
    | none ↦ err unavailable
    | some topology ↦ evaluate_scope (some topology) auth scope action
  ]
]

unfoldable pub scope_authorized :
    Database → AuthContext → ObjectScopeV1 → TopologyAction → Result ApiError Bool
scope_authorized db auth (account a) action = ok (a == auth.account_id)
scope_authorized db auth (household a h) action =
    household_authorized db auth h (household a h) action
scope_authorized db auth (space a h s) action = household_authorized db auth h (space a h s) action

-- `get_operation` and `get_object` of the tables; a row that does not read back is a failed read.
unfoldable pub read_operation : Database → Uuid → Uuid → Result ApiError (Option OperationOutcome)
read_operation db account_id operation_id = elim (db.operations account_id operation_id) [
  | none ↦ ok none
  | some row ↦ elim (row_to_operation account_id row) [
    | err _ ↦ err unavailable
    | ok outcome ↦ ok (some outcome)
  ]
]

unfoldable pub read_object : Database → Uuid → Uuid → Result ApiError (Option StoredObject)
read_object db account_id object_id = elim (current_object db account_id object_id) [
  | err _ ↦ err unavailable
  | ok object ↦ ok object
]

unfoldable pub policy_error : PolicyError → ApiError
policy_error PolicyError.precondition_failed = precondition_failed
policy_error PolicyError.invalid_revision = bad_request

abbrev pub Body : Type 0
Body = List ℕ

-- An upload: the body and its mutation, the hash of the mutation's canonical text, and the storage
-- key of its account, its object and a new random identifier.
pub record PutRequest : Type 0 where
  pub auth : AuthContext
  pub object_id : Uuid
  pub body : Body
  pub mutation : OpaqueMutationV1
  pub request_sha256 : Sha256
  pub storage_key : String

-- What the checks come to: the answer, or a body to store and an upload to commit.
pub data Admission : Type 0 where
  answer : Result ApiError Response → Admission
  admit : Upload → Admission

-- The answer to an operation that has been committed before.
unfoldable pub answer_again : Sha256 → OperationOutcome → Result ApiError Response
answer_again request_sha256 outcome =
    if not (outcome.request_sha256 == request_sha256)
    then err operation_conflict
    else operation_outcome_response outcome

module _ (sha256 : Body → Sha256) where
  -- From the candidate revision on.
  unfoldable pub check_version : Database → PutRequest → Admission
  check_version db q = elim (to_i64 q.mutation.object.revision) [
    | none ↦ answer (err bad_request)
    | some candidate_revision ↦ elim (read_precondition q.mutation.precondition) [
      | none ↦ answer (err bad_request)
      | some precondition ↦ elim (read_object db q.auth.account_id q.object_id) [
        | err e ↦ answer (err e)
        | ok current ↦ elim (validate_write_policy current candidate_revision precondition) [
          | err e ↦ answer (err (policy_error e))
          | ok _ ↦ elim (to_i64 (length q.body)) [
            | none ↦ answer (err payload_too_large)
            | some size ↦ admit (record {
              auth = q.auth;
              mutation = q.mutation;
              precondition = precondition;
              ciphertext_size_bytes = size;
              ciphertext_sha256 = sha256 q.body;
              storage_key = q.storage_key;
              request_sha256 = q.request_sha256;
            })
          ]
        ]
      ]
    ]
  ]

  -- What `put_object` checks before it stores the body.
  unfoldable pub admit_put : Database → PutRequest → Admission
  admit_put db q =
      if is_empty q.body
      then answer (err bad_request)
      else elim (validate_upload_binding q.mutation q.auth.account_id q.object_id (length q.body)
          (sha256 q.body)) [
            | err _ ↦ answer (err bad_request)
            | ok _ ↦
                elim (scope_authorized db q.auth q.mutation.object.scope TopologyAction.write) [
                  | err e ↦ answer (err e)
                  | ok authorized ↦
                      if not authorized
                      then answer (err forbidden)
                      else elim (read_operation db q.auth.account_id q.mutation.operation_id) [
                        | err e ↦ answer (err e)
                        | ok known ↦ elim known [
                          | some outcome ↦ answer (answer_again q.request_sha256 outcome)
                          | none ↦ check_version db q
                        ]
                      ]
                ]
          ]
