-- ===== src/Api/Service/Server.antt =====
-- `put_object` and `get_object` (apps/api/src/sync.rs). The server is its tables and the object
-- storage. What the storage, `COMMIT` and the read that reconciles it come to are arguments. The
-- checks before the upload read tables that other requests may have changed since.
use safeory.Base.{
  ℕ, String, Bool, false, not, ◌||◌, Option, none, some, Result, ok, err, nat_eq, string_eq, ◌==◌,
  length, if◌then◌else◌,
}
use safeory.Sync.Types.{Uuid, TopologyAction}
use safeory.Sync.Protocol.{Sha256}
use safeory.Api.Policy.{ObjectVersion, StoredObject, version, to_i64}
use safeory.Api.Tables.{
  AuthContext, CommitResult, CommitError, database, commit_outcome_unknown, store, account_missing,
  unauthorized_scope, invalid_contract, Database, Ack,
}
use safeory.Api.Store.{Upload, commit_object}
use safeory.Api.Service.{
  ApiError, unauthorized, forbidden, not_found, unavailable, internal, Response,
  object_metadata_response, operation_outcome_response, scope_authorized, read_operation,
  read_object, Body, PutRequest, Admission, answer, admit, admit_put,
}

pub record Server : Type 0 where
  pub db : Database
  pub blobs : String → Option Body

abbrev pub set_blob : String → Option Body → (String → Option Body) → String → Option Body
set_blob key value blobs k = if k == key then value else blobs k

-- What a put comes to; one that fails may have stored the body.
pub data PutOutcome : Type 0 where
  put_done put_failed_stored put_failed : PutOutcome

pub record Outcomes : Type 0 where
  pub put : PutOutcome
  pub ack : Ack
  pub reconciled : Bool
  pub deleted : Bool

unfoldable pub best_effort_delete : Bool → String → Server → Server
best_effort_delete deleted key s =
    if deleted then record { db = s.db; blobs = set_blob key none s.blobs } else s

abbrev pub Answered : Type 0
Answered = Result ApiError Response × Server

-- The read of the operation after a commit of unknown outcome.
unfoldable pub reconcile : Server → Upload → Outcomes → Answered
reconcile s u o =
    if not o.reconciled
    then (err unavailable, s)
    else elim (read_operation s.db u.auth.account_id u.mutation.operation_id) [
      | err _ ↦ (err unavailable, s)
      | ok known ↦ elim known [
        | none ↦ (err unavailable, s)
        | some outcome ↦
            if outcome.request_sha256 == u.request_sha256
            then (
              operation_outcome_response outcome,
              (if outcome.storage_key == u.storage_key
                  then s
                  else best_effort_delete o.deleted u.storage_key s),
            )
            else (err unavailable, s)
      ]
    ]

-- The unknown outcome has its own branch before these.
unfoldable pub commit_error : CommitError → ApiError
commit_error CommitError.precondition_failed = ApiError.precondition_failed
commit_error account_missing = unauthorized
commit_error CommitError.operation_conflict = ApiError.operation_conflict
commit_error unauthorized_scope = forbidden
commit_error invalid_contract = internal
commit_error database = unavailable
commit_error store = unavailable
commit_error commit_outcome_unknown = internal

unfoldable pub clean_up : Server → Upload → Outcomes → CommitResult → Server
clean_up s u o committed =
    if committed.replayed
    then best_effort_delete o.deleted u.storage_key s
    else elim committed.previous_storage_key [
      | none ↦ s
      | some previous ↦ best_effort_delete o.deleted previous s
    ]

unfoldable pub finish_put : Server → Upload → Outcomes → Result CommitError CommitResult → Answered
finish_put s u o (ok committed) =
    (object_metadata_response committed.created committed.object, clean_up s u o committed)
finish_put s u o (err commit_outcome_unknown) = reconcile s u o
finish_put s u o (err e) = (err (commit_error e), best_effort_delete o.deleted u.storage_key s)

unfoldable pub commit_put : Server → Upload → Outcomes → Answered
commit_put s u o =
    let r = commit_object s.db u o.ack in finish_put (record { db = r.1; blobs = s.blobs }) u o r.0

abbrev pub with_blob : Server → String → Body → Server
with_blob s key body = record { db = s.db; blobs = set_blob key (some body) s.blobs }

-- From the upload of the body on, by what the put comes to.
unfoldable pub after_put : PutOutcome → Server → Upload → Body → Outcomes → Answered
after_put put_failed s u body o = (err unavailable, s)
after_put put_failed_stored s u body o = (err unavailable, with_blob s u.storage_key body)
after_put put_done s u body o = commit_put (with_blob s u.storage_key body) u o

unfoldable pub after_admission : Admission → Server → Body → Outcomes → Answered
after_admission (answer r) s body o = (r, s)
after_admission (admit u) s body o = after_put o.put s u body o

pub record Download : Type 0 where
  pub body : Body
  pub etag : ObjectVersion
  pub change_seq : ℕ

module _ (sha256 : Body → Sha256) where
  -- `seen` are the tables that the checks before the upload read.
  unfoldable pub put_object : Database → Server → PutRequest → Outcomes → Answered
  put_object seen s q o = after_admission (admit_put sha256 seen q) s q.body o

  -- The body that the storage returns, tested against the row.
  unfoldable pub check_download : StoredObject → Body → Result ApiError Download
  check_download object body = elim (to_i64 (length body)) [
    | none ↦ err internal
    | some actual_size ↦
        if not (actual_size == object.ciphertext_size_bytes)
          || not (sha256 body == object.ciphertext_sha256)
        then err unavailable
        else ok (record { body = body; etag = version object; change_seq = object.change_seq })
  ]

  -- `reachable` says whether the storage answers.
  unfoldable pub get_object : Bool → Server → AuthContext → Uuid → Result ApiError Download
  get_object reachable s auth object_id = elim (read_object s.db auth.account_id object_id) [
    | err e ↦ err e
    | ok known ↦ elim known [
      | none ↦ err not_found
      | some object ↦ elim (scope_authorized s.db auth object.header.scope TopologyAction.read) [
        | err e ↦ err e
        | ok authorized ↦
            if not authorized
            then err forbidden
            else elim (if reachable then s.blobs object.storage_key else none) [
              | none ↦ err unavailable
              | some body ↦ check_download object body
            ]
      ]
    ]
  ]

unfoldable pub get_object_metadata : Server → AuthContext → Uuid → Result ApiError Response
get_object_metadata s auth object_id = elim (read_object s.db auth.account_id object_id) [
  | err e ↦ err e
  | ok known ↦ elim known [
    | none ↦ err not_found
    | some object ↦ elim (scope_authorized s.db auth object.header.scope TopologyAction.read) [
      | err e ↦ err e
      | ok authorized ↦
          if not authorized then err forbidden else object_metadata_response false object
    ]
  ]
]
