-- ===== src/Api/Store/Commit.antt =====
-- The errors and the writes of `commit_object` (apps/api/src/store.rs).
use safeory.Base.{
  ℕ, ◌+◌, ◌≡◌, ◌≢◌, inl, inr, sym, ◌∙◌, ap, true, false, Option, none, some, ok, err, nat_eq,
  Option-cases, arith, if◌then◌else◌,
}
use safeory.Sync.Types.{Uuid}
use safeory.Api.Policy.{validate_write_policy_iff, StoredObject}
use safeory.Api.Store.{
  Upload, acknowledge, commit_object, commit_operation, commit_current, current_object, replay,
  write_rows, new_row,
}
use safeory.Api.Tables.{
  Database, Ack, acknowledged, applied_unseen, dropped_unseen, CommitError, CommitResult,
  commit_outcome_unknown, OperationRow, ObjectRow, find_row, row_to_object, has_key,
}
use safeory.Api.Store.Rows.{find_row-insert, find_row-update_rows}
use safeory.Api.Store.Writes.{
  IsWrite, refused, replayed, wrote, written, after_write, commit_object-Way,
}

acknowledge_err :
    (ack : Ack) (res : CommitResult) (before after : Database) (e : CommitError)
    → (acknowledge ack res before after).0 ≡ err e
    → e ≡ commit_outcome_unknown
acknowledge_err acknowledged res before after e h = ground arith
acknowledge_err applied_unseen res before after e h = ground arith
acknowledge_err dropped_unseen res before after e h = ground arith

acknowledge_ok :
    (ack : Ack) (x res : CommitResult) (before after : Database)
    → (acknowledge ack x before after).0 ≡ ok res
    → (res ≡ x) × (acknowledge ack x before after ≡ (ok res, after))
acknowledge_ok acknowledged x res before after h = (ground arith, ground arith)
acknowledge_ok applied_unseen x res before after h = absurd (ground arith)
acknowledge_ok dropped_unseen x res before after h = absurd (ground arith)

-- An error of commit_object leaves the tables as they were, unless it is the unknown outcome of a
-- commit.
pub commit_object_err :
    (db : Database) (u : Upload) (ack : Ack) (e : CommitError)
    → (commit_object db u ack).0 ≡ err e
    → e ≢ commit_outcome_unknown
    → (commit_object db u ack).1 ≡ db
commit_object_err db u ack e h n = elim (commit_object-Way db u ack) [
  | refused f _ q ↦ ap (λ r. r.1) q
  | replayed row _ _ q ↦ ap (λ r. r.1) q
  | wrote current cursor w q ↦ absurd (n (acknowledge_err ack _ _ _ e (sym (ap (λ r. r.0) q) ∙ h)))
]

replay_replayed :
    (a : Uuid) (sha : ℕ) (row : OperationRow) (res : CommitResult)
    → replay a sha row ≡ ok res
    → res.replayed ≡ true
unfolding replay
replay_replayed a sha row res h = ground arith

-- A success that is no replay is a write.
pub commit_object-IsWrite :
    (db : Database) (u : Upload) (ack : Ack) (res : CommitResult)
    → (commit_object db u ack).0 ≡ ok res
    → res.replayed ≡ false
    → (current : Option StoredObject) × (cursor : ℕ) × IsWrite db u current cursor
      × (res ≡ written u current cursor)
      × (commit_object db u ack ≡ (ok res, after_write db u current cursor))
commit_object-IsWrite db u ack res h n = elim (commit_object-Way db u ack) [
  | refused f _ q ↦ absurd (ground arith)
  | replayed row _ _ q ↦
      let t =
        replay_replayed u.auth.account_id u.request_sha256 row res (sym (ap (λ r. r.0) q) ∙ h) in
      absurd (ground arith)
  | wrote current cursor w q ↦
      let k =
        acknowledge_ok ack (written u current cursor) res db (after_write db u current cursor)
          (sym (ap (λ r. r.0) q) ∙ h) in
      (current, cursor, w, k.0, q ∙ k.1)
]

pub current_none :
    (db : Database) (a o : Uuid) → current_object db a o ≡ ok none → find_row a o db.objects ≡ none
unfolding current_object
current_none db a o h = ground arith

pub current_some :
    (db : Database) (a o : Uuid) (c : StoredObject)
    → current_object db a o ≡ ok (some c)
    → (row : ObjectRow) × (find_row a o db.objects ≡ some row) × (row_to_object row ≡ ok c)
unfolding current_object
current_some db a o c h = elim (Option-cases (find_row a o db.objects)) [
  | inl lost ↦ absurd (ground arith)
  | inr (row, f) ↦ (row, f, ground arith)
]

-- After a write, the upload's key finds the new row, and every other key what it found.
pub find_row-after_write :
    (db : Database) (u : Upload) (current : Option StoredObject) (cursor : ℕ) (a o : Uuid)
    → IsWrite db u current cursor
    → find_row a o (after_write db u current cursor).objects ≡ (
        if has_key a o (new_row u u.mutation.object.revision (cursor + 1))
        then some (new_row u u.mutation.object.revision (cursor + 1))
        else find_row a o db.objects)
unfolding write_rows new_row
find_row-after_write db u none cursor a o w =
    find_row-insert a o (new_row u u.mutation.object.revision (cursor + 1)) db.objects
      (current_none db u.auth.account_id u.mutation.object.object_id w.read)
find_row-after_write db u (some c) cursor a o w =
    let (old, f, _) = current_some db u.auth.account_id u.mutation.object.object_id c w.read in
    find_row-update_rows a o (new_row u u.mutation.object.revision (cursor + 1)) old db.objects f

-- Where everything is checked, the call writes.
pub commit_object-write :
    (db : Database) (u : Upload) (current : Option StoredObject) (cursor : ℕ) (ack : Ack)
    → IsWrite db u current cursor
    → commit_object db u ack
      ≡ acknowledge ack (written u current cursor) db (after_write db u current cursor)
unfolding commit_object commit_operation commit_current
commit_object-write db u current cursor ack w =
    let v =
      (validate_write_policy_iff u.mutation.object.revision current u.precondition).1
        (w.in_range, w.permitted) in
    ground (arith, v, w.account, w.authorized, w.fresh, w.read, w.room, w.in_range)
