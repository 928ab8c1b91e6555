-- ===== src/Api/Store/Writes.antt =====
-- The ways through `commit_object` (apps/api/src/store.rs), each with what it does to the tables.
use safeory.Base.{
  ℕ, ◌+◌, ◌≤◌, ◌<◌, ◌≡◌, ◌≢◌, inl, inr, sym, subst, Option, none, some, ok, err, nat_eq, Bool-cases,
  Option-cases, Result-cases, arith, i64_max, leb,
}
use safeory.Sync.Types.{Uuid}
use safeory.Api.Policy.{
  StoredObject, Permits, validate_write_policy, validate_write_policy_iff, max_wire_revision,
}
use safeory.Api.Store.{
  Upload, acknowledge, Committed, commit_object, commit_operation, commit_current, current_object,
  check_scope, replay, write_rows, commit_result, check_household,
}
use safeory.Api.Tables.{
  parse_header, Database, Ack, CommitError, CommitResult, commit_outcome_unknown, OperationRow,
  AuthContext, row_to_object,
}
use safeory.Sync.Scope.{ObjectScopeV1, account, household, space}

-- The transaction wrote: everything was checked, and `current` is what the object was.
pub record IsWrite (db : Database) (u : Upload) (current : Option StoredObject) (cursor : ℕ)
    : Type 0 where
  pub account : db.cursors u.auth.account_id ≡ some cursor
  pub authorized : check_scope db u.auth u.mutation.object.scope ≡ ok tt
  pub fresh : db.operations u.auth.account_id u.mutation.operation_id ≡ none
  pub read : current_object db u.auth.account_id u.mutation.object.object_id ≡ ok current
  pub permitted : Permits u.mutation.object.revision current u.precondition
  pub in_range : u.mutation.object.revision ≤ max_wire_revision
  pub room : cursor < i64_max

abbrev pub after_write : Database → Upload → Option StoredObject → ℕ → Database
after_write db u current cursor = write_rows db u current u.mutation.object.revision (cursor + 1)

abbrev pub written : Upload → Option StoredObject → ℕ → CommitResult
written u current cursor = commit_result u current u.mutation.object.revision (cursor + 1)

pub data Way (db : Database) (u : Upload) (ack : Ack) (r : Committed) : Type 0 where
  refused : (e : CommitError) → e ≢ commit_outcome_unknown → r ≡ (err e, db) → Way db u ack r
  replayed :
      (row : OperationRow)
      → db.operations u.auth.account_id u.mutation.operation_id ≡ some row
      → check_scope db u.auth u.mutation.object.scope ≡ ok tt
      → r ≡ (replay u.auth.account_id u.request_sha256 row, db)
      → Way db u ack r
  wrote :
      (current : Option StoredObject) (cursor : ℕ)
      → IsWrite db u current cursor
      → r ≡ acknowledge ack (written u current cursor) db (after_write db u current cursor)
      → Way db u ack r

current_way :
    (db : Database) (u : Upload) (ack : Ack) (current : Option StoredObject) (cursor : ℕ)
    → db.cursors u.auth.account_id ≡ some cursor
    → check_scope db u.auth u.mutation.object.scope ≡ ok tt
    → db.operations u.auth.account_id u.mutation.operation_id ≡ none
    → current_object db u.auth.account_id u.mutation.object.object_id ≡ ok current
    → Way db u ack (commit_current db u ack current u.mutation.object.revision cursor)
unfolding commit_current
current_way db u ack current cursor a s o c =
    let r = u.mutation.object.revision in
    elim (Result-cases (validate_write_policy current r u.precondition)) [
      | inr (e, v) ↦ refused CommitError.precondition_failed (ground arith) (ground arith)
      | inl (_, v) ↦ elim (Bool-cases (leb i64_max cursor)) [
        | inl full ↦ refused CommitError.database (ground arith) (ground arith)
        | inr room ↦
            let p = (validate_write_policy_iff r current u.precondition).0 v in
            wrote current cursor
              (record {
                account = a;
                authorized = s;
                fresh = o;
                read = c;
                permitted = p.1;
                in_range = p.0;
                room = ground arith;
              })
              (ground arith)
      ]
    ]

check_household_known :
    (db : Database) (auth : AuthContext) (h : Uuid) (scope : ObjectScopeV1) (e : CommitError)
    → check_household db auth h scope ≡ err e
    → e ≢ commit_outcome_unknown
unfolding check_household
check_household_known db auth h scope e q = ground arith

check_scope_known :
    (db : Database) (auth : AuthContext) (scope : ObjectScopeV1) (e : CommitError)
    → check_scope db auth scope ≡ err e
    → e ≢ commit_outcome_unknown
unfolding check_scope
check_scope_known db auth (account a) e q = ground arith
check_scope_known db auth (household a h) e q = check_household_known db auth h (household a h) e q
check_scope_known db auth (space a h s) e q = check_household_known db auth h (space a h s) e q

current_object_known :
    (db : Database) (a o : Uuid) (e : CommitError)
    → current_object db a o ≡ err e
    → e ≢ commit_outcome_unknown
unfolding current_object row_to_object parse_header
current_object_known db a o e q = ground arith

same_way :
    (db : Database) (u : Upload) (ack : Ack) (r r' : Committed)
    → r' ≡ r
    → Way db u ack r
    → Way db u ack r'
same_way db u ack r r' q w = subst (Way db u ack) (sym q) w

operation_way :
    (db : Database) (u : Upload) (ack : Ack) (cursor : ℕ)
    → db.cursors u.auth.account_id ≡ some cursor
    → Way db u ack (commit_operation db u ack u.mutation.object.revision cursor)
unfolding commit_operation
operation_way db u ack cursor a =
    elim (Result-cases (check_scope db u.auth u.mutation.object.scope)) [
      | inr (e, s) ↦
          refused e (check_scope_known db u.auth u.mutation.object.scope e s) (ground arith)
      | inl (_, s) ↦ elim (Option-cases (db.operations u.auth.account_id u.mutation.operation_id)) [
        | inr (row, o) ↦ replayed row o s (ground arith)
        | inl o ↦
            elim (Result-cases (current_object db u.auth.account_id u.mutation.object.object_id)) [
              | inr (e, c) ↦
                  refused e
                    (current_object_known db u.auth.account_id u.mutation.object.object_id e c)
                    (ground arith)
              | inl (current, c) ↦
                  same_way db u ack _ _ (ground arith) (current_way db u ack current cursor a s o c)
            ]
      ]
    ]

-- Every call of `commit_object` goes one of the three ways.
pub commit_object-Way :
    (db : Database) (u : Upload) (ack : Ack) → Way db u ack (commit_object db u ack)
unfolding commit_object
commit_object-Way db u ack = elim (Bool-cases (leb u.mutation.object.revision i64_max)) [
  | inr big ↦ refused CommitError.precondition_failed (ground arith) (ground arith)
  | inl fits ↦ elim (Option-cases (db.cursors u.auth.account_id)) [
    | inl lost ↦ refused CommitError.account_missing (ground arith) (ground arith)
    | inr (cursor, a) ↦ same_way db u ack _ _ (ground arith) (operation_way db u ack cursor a)
  ]
]
