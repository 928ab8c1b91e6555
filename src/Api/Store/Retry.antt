-- ===== src/Api/Store/Retry.antt =====
-- A repeated upload (apps/api/src/store.rs).
use safeory.Base.{
  ℕ, ◌+◌, ◌≤◌, ◌≡◌, ◌≢◌, refl, ◌∙◌, ap, true, false, Option, none, some, ok, nat_eq, option_eq,
  arith, i64_max, Bool,
}
use safeory.Sync.Scope.{ObjectScopeV1, account, household, space}
use safeory.Sync.Protocol.{validate_upload_binding}
use safeory.Sync.Protocol.Laws.{IsBound, validate_header_iff, validate_upload_binding_iff}
use safeory.Api.Policy.{StoredObject}
use safeory.Api.Store.{
  Upload, acknowledge, commit_object, commit_operation, check_scope, check_household, replay,
  commit_result, new_operation, is_none,
}
use safeory.Api.Tables.{
  parse_header, Database, Ack, acknowledged, applied_unseen, dropped_unseen, CommitResult,
  OperationRow, row_to_operation, AuthContext,
}
use safeory.Api.Store.Writes.{IsWrite, written, after_write}
use safeory.Api.Store.Commit.{commit_object-IsWrite, commit_object-write}
use safeory.Api.Store.Outcome.{write_Recorded}

-- The operation of a bound upload replays to the result that the write returned.
replay_own :
    (u : Upload) (s : ℕ) (created : Bool)
    → IsBound u.mutation u.auth.account_id u.mutation.object.object_id u.ciphertext_size_bytes
        u.ciphertext_sha256
    → u.mutation.object.revision ≤ i64_max
    → replay u.auth.account_id u.request_sha256 (new_operation u s created)
      ≡ ok (record {
        object = record {
          object_id = u.mutation.object.object_id;
          revision = u.mutation.object.revision;
          ciphertext_size_bytes = u.ciphertext_size_bytes;
          ciphertext_sha256 = u.ciphertext_sha256;
          change_seq = s;
          storage_key = u.storage_key;
          header = u.mutation.object;
        };
        previous_storage_key = none;
        created = created;
        replayed = true;
      })
unfolding replay row_to_operation parse_header new_operation
replay_own u s created b h =
    let z = b.mutation.object.size.1 in
    let valid = (validate_header_iff u.mutation.object).1 b.mutation.object in
    ground (arith, valid, b.account, b.size, b.sha256, z)

-- The answer to a retry: what the write returned, marked as a replay, with no old blob to delete.
unfoldable pub as_replay : CommitResult → CommitResult
as_replay res = record res { previous_storage_key = none; replayed = true }

check_scope_same :
    (db db' : Database) (auth : AuthContext) (scope : ObjectScopeV1)
    → db'.topologies ≡ db.topologies
    → check_scope db' auth scope ≡ check_scope db auth scope
unfolding check_scope check_household
check_scope_same db db' auth (account a) q = refl
check_scope_same db db' auth (household a h) q = rw q refl
check_scope_same db db' auth (space a h s) q = rw q refl

-- A used operation identifier is answered from its row.
commit_object-replay :
    (db : Database) (u : Upload) (ack : Ack) (cursor : ℕ) (row : OperationRow)
    → u.mutation.object.revision ≤ i64_max
    → db.cursors u.auth.account_id ≡ some cursor
    → check_scope db u.auth u.mutation.object.scope ≡ ok tt
    → db.operations u.auth.account_id u.mutation.operation_id ≡ some row
    → commit_object db u ack ≡ (replay u.auth.account_id u.request_sha256 row, db)
unfolding commit_object commit_operation
commit_object-replay db u ack cursor row r c s o = ground arith

retry_after_write :
    (db : Database) (u : Upload) (current : Option StoredObject) (cursor : ℕ) (again : Ack)
    → IsBound u.mutation u.auth.account_id u.mutation.object.object_id u.ciphertext_size_bytes
        u.ciphertext_sha256
    → IsWrite db u current cursor
    → commit_object (after_write db u current cursor) u again
      ≡ (ok (as_replay (written u current cursor)), after_write db u current cursor)
unfolding as_replay commit_result
retry_after_write db u current cursor again b w =
    let db' = after_write db u current cursor in
    let m = write_Recorded db u current cursor w in
    let fits : u.mutation.object.revision ≤ i64_max = omega (arith, w.in_range) in
    let scope =
      check_scope_same db db' u.auth u.mutation.object.scope m.topologies ∙ w.authorized in
    let r =
      commit_object-replay db' u again (m.counted.0 + 1)
        (new_operation u (cursor + 1) (is_none current)) fits m.counted.2 scope m.remembered in
    r ∙ ap (λ x. (x, db')) (replay_own u (cursor + 1) (is_none current) b fits)

-- Whether the client sees it or not, an applied commit leaves the same tables.
seen_or_not :
    (db : Database) (u : Upload) (current : Option StoredObject) (cursor : ℕ) (ack : Ack)
    → ack ≢ dropped_unseen
    → (acknowledge ack (written u current cursor) db (after_write db u current cursor)).1
      ≡ after_write db u current cursor
seen_or_not db u current cursor acknowledged k = refl
seen_or_not db u current cursor applied_unseen k = refl
seen_or_not db u current cursor dropped_unseen k = absurd (k refl)

commit_object_tables :
    (db : Database) (u : Upload) (current : Option StoredObject) (cursor : ℕ) (ack : Ack)
    → IsWrite db u current cursor
    → ack ≢ dropped_unseen
    → (commit_object db u ack).1 ≡ after_write db u current cursor
commit_object_tables db u current cursor ack w k =
    ap (λ r. r.1) (commit_object-write db u current cursor ack w)
    ∙ seen_or_not db u current cursor ack k

-- An upload that was applied, seen or not, and is sent again in the same words changes nothing and
-- is answered with the result of the first write, marked as a replay.
pub commit_object_retried :
    (db : Database) (u : Upload) (res : CommitResult) (ack again : Ack)
    → validate_upload_binding u.mutation u.auth.account_id u.mutation.object.object_id
        u.ciphertext_size_bytes u.ciphertext_sha256
      ≡ ok tt
    → (commit_object db u acknowledged).0 ≡ ok res
    → res.replayed ≡ false
    → ack ≢ dropped_unseen
    → commit_object (commit_object db u ack).1 u again
      ≡ (ok (as_replay res), (commit_object db u ack).1)
commit_object_retried db u res ack again v h n k =
    let (current, cursor, w, r, q) = commit_object-IsWrite db u acknowledged res h n in
    let b = (validate_upload_binding_iff _ _ _ _ _).0 v in
    let same = commit_object_tables db u current cursor ack w k in
    rw (same, r) (retry_after_write db u current cursor again b w)
