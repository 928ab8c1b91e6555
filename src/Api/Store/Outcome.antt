-- ===== src/Api/Store/Outcome.antt =====
-- What a write leaves in the tables (apps/api/src/store.rs).
use safeory.Base.{
  ℕ, ◌+◌, ◌<◌, ◌≡◌, ◌≢◌, refl, subst, ◌∙◌, true, false, Option, none, some, ok, nat_eq, option_eq,
  arith,
}
use safeory.Sync.Types.{Uuid}
use safeory.Api.Policy.{StoredObject, Permits, WritePrecondition, create_only, matching}
use safeory.Api.Store.{
  Upload, commit_object, current_object, write_rows, commit_result, new_row, new_operation, is_none,
}
use safeory.Api.Tables.{
  parse_header, Database, Ack, CommitResult, ObjectRow, find_row, row_to_object, has_key,
}
use safeory.Api.Store.Writes.{IsWrite, written, after_write}
use safeory.Api.Store.Commit.{
  commit_object-IsWrite, current_none, current_some, find_row-after_write,
}

-- The upload stands under the next change number, over an earlier revision or none, and the rest
-- of the tables is as before.
pub record Recorded (db : Database) (u : Upload) (res : CommitResult) (db' : Database)
    : Type 0 where
  pub counted :
      (c : ℕ) × (db.cursors u.auth.account_id ≡ some c)
      × (db'.cursors u.auth.account_id ≡ some (c + 1))
      × (res.object.change_seq ≡ c + 1)
  pub stored :
      find_row u.auth.account_id u.mutation.object.object_id db'.objects
      ≡ some (new_row u u.mutation.object.revision res.object.change_seq)
  pub later :
      (row : ObjectRow)
      → find_row u.auth.account_id u.mutation.object.object_id db.objects ≡ some row
      → row.revision < u.mutation.object.revision
  pub created :
      res.created ≡ is_none (find_row u.auth.account_id u.mutation.object.object_id db.objects)
  pub other_objects :
      (a o : Uuid)
      → ¬ ((a ≡ u.auth.account_id) × (o ≡ u.mutation.object.object_id))
      → find_row a o db'.objects ≡ find_row a o db.objects
  pub other_cursors : (a : Uuid) → a ≢ u.auth.account_id → db'.cursors a ≡ db.cursors a
  pub remembered :
      db'.operations u.auth.account_id u.mutation.operation_id
      ≡ some (new_operation u res.object.change_seq res.created)
  pub other_operations :
      (a p : Uuid)
      → ¬ ((a ≡ u.auth.account_id) × (p ≡ u.mutation.operation_id))
      → db'.operations a p ≡ db.operations a p
  pub topologies : db'.topologies ≡ db.topologies

row_revision :
    (row : ObjectRow) (c : StoredObject) → row_to_object row ≡ ok c → c.revision ≡ row.revision
unfolding row_to_object parse_header
row_revision row c h = ground arith

current_created :
    (db : Database) (a o : Uuid) (current : Option StoredObject)
    → current_object db a o ≡ ok current
    → is_none current ≡ is_none (find_row a o db.objects)
current_created db a o none h = let f = current_none db a o h in ground arith
current_created db a o (some c) h = let (row, f, _) = current_some db a o c h in ground arith

Permits-later :
    (r : ℕ) (c : StoredObject) (p : WritePrecondition) → Permits r (some c) p → c.revision < r
Permits-later r c create_only h = elim h [ ]
Permits-later r c (matching v) h = h.2

current_later :
    (db : Database) (u : Upload) (current : Option StoredObject) (cursor : ℕ) (row : ObjectRow)
    → IsWrite db u current cursor
    → find_row u.auth.account_id u.mutation.object.object_id db.objects ≡ some row
    → row.revision < u.mutation.object.revision
current_later db u none cursor row w f =
    let n = current_none db u.auth.account_id u.mutation.object.object_id w.read in
    absurd (ground arith)
current_later db u (some c) cursor row w f =
    let (old, g, e) = current_some db u.auth.account_id u.mutation.object.object_id c w.read in
    let r = row_revision old c e in
    let same : old ≡ row = ground arith in
    let l : c.revision < u.mutation.object.revision =
      Permits-later u.mutation.object.revision c u.precondition w.permitted in
    subst (λ (x : ObjectRow). x.revision < u.mutation.object.revision) same (omega (arith, r, l))

own_key :
    (u : Upload) (r s : ℕ)
    → has_key u.auth.account_id u.mutation.object.object_id (new_row u r s) ≡ true
unfolding new_row
own_key u r s = ground arith

other_key :
    (u : Upload) (r s a o : ℕ)
    → ¬ ((a ≡ u.auth.account_id) × (o ≡ u.mutation.object.object_id))
    → has_key a o (new_row u r s) ≡ false
unfolding new_row
other_key u r s a o n = ground arith

-- What the writes of one transaction leave behind.
pub write_Recorded :
    (db : Database) (u : Upload) (current : Option StoredObject) (cursor : ℕ)
    → IsWrite db u current cursor
    → Recorded db u (written u current cursor) (after_write db u current cursor)
unfolding write_rows commit_result
write_Recorded db u current cursor w =
    let f = find_row-after_write db u current cursor in
    record {
      counted = (cursor, w.account, ground arith, refl);
      stored =
          f u.auth.account_id u.mutation.object.object_id w
          ∙ ground (arith, own_key u u.mutation.object.revision (cursor + 1));
      later = λ row h. current_later db u current cursor row w h;
      created = current_created db u.auth.account_id u.mutation.object.object_id current w.read;
      other_objects = λ a o n.
          f a o w ∙ ground (arith, other_key u u.mutation.object.revision (cursor + 1) a o n);
      other_cursors = λ a n. ground arith;
      remembered = ground arith;
      other_operations = λ a p n. ground arith;
      topologies = refl;
    }

-- A success that is no replay wrote the upload under the next change number of its account, over
-- an earlier revision or none, remembers the operation, and leaves every other object and every
-- other account's cursor alone.
pub commit_object-Recorded :
    (db : Database) (u : Upload) (ack : Ack) (res : CommitResult)
    → (commit_object db u ack).0 ≡ ok res
    → res.replayed ≡ false
    → Recorded db u res (commit_object db u ack).1
commit_object-Recorded db u ack res h n =
    let (current, cursor, w, r, q) = commit_object-IsWrite db u ack res h n in
    rw (q, r) (write_Recorded db u current cursor w)
