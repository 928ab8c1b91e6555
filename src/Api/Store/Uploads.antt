-- ===== src/Api/Store/Uploads.antt =====
-- Sequences of uploads (apps/api/src/store.rs).
use safeory.Base.{
  ℕ, ◌+◌, ◌≤◌, ◌≡◌, inl, inr, refl, sym, subst, ◌∙◌, ap, Option, none, some, List, [], ◌∷◌, ok,
  nat_eq, ◌==◌, ◌&&◌, All, Bool-cases, arith,
}
use safeory.Sync.Types.{Uuid}
use safeory.Sync.Protocol.{validate_upload_binding}
use safeory.Api.Policy.{StoredObject}
use safeory.Api.Store.{Upload, acknowledge, commit_result, Committed, commit_object, new_row}
use safeory.Api.Tables.{
  Database, Ack, acknowledged, applied_unseen, dropped_unseen, ObjectRow, find_row,
}
use safeory.Api.Store.Writes.{
  refused, replayed, wrote, IsWrite, written, after_write, commit_object-Way,
}
use safeory.Api.Store.Outcome.{write_Recorded}
use safeory.Api.Store.Invariant.{IsStore, commit_object-IsStore}

-- The tables after a sequence of calls, each with what becomes of its commit.
unfoldable pub run_uploads : List (Upload × Ack) → Database → Database
run_uploads [] db = db
run_uploads ((u, ack) ∷ uploads) db = run_uploads uploads (commit_object db u ack).1

-- The transport has bound the upload.
abbrev pub IsBoundUpload : Upload × Ack → Type 0
IsBoundUpload (u, _) =
    validate_upload_binding u.mutation u.auth.account_id u.mutation.object.object_id
      u.ciphertext_size_bytes u.ciphertext_sha256
    ≡ ok tt

-- The object is there, at this revision or a later one.
abbrev pub IsAtLeast : ℕ → Option ObjectRow → Type 0
IsAtLeast n none = ⊥
IsAtLeast n (some row) = n ≤ row.revision

after_write-IsAtLeast :
    (db : Database) (u : Upload) (current : Option StoredObject) (cursor : ℕ) (a o : Uuid)
    (row : ObjectRow)
    → IsWrite db u current cursor
    → find_row a o db.objects ≡ some row
    → IsAtLeast row.revision (find_row a o (after_write db u current cursor).objects)
unfolding new_row commit_result
after_write-IsAtLeast db u current cursor a o row w f =
    let r = write_Recorded db u current cursor w in
    elim (Bool-cases (a == u.auth.account_id && o == u.mutation.object.object_id)) [
      | inl e ↦
          let p : a ≡ u.auth.account_id = ground arith in
          let q : o ≡ u.mutation.object.object_id = ground arith in
          let g : find_row u.auth.account_id u.mutation.object.object_id db.objects ≡ some row =
            rw (← p, ← q) f in
          let l = r.later row g in
          let s : find_row a o (after_write db u current cursor).objects
              ≡ some (new_row u u.mutation.object.revision (cursor + 1)) =
            rw (p, q) r.stored in
          subst (IsAtLeast row.revision) (sym s) (omega (arith, l))
      | inr e ↦
          let s = r.other_objects a o (ground arith) in
          subst (IsAtLeast row.revision) (sym (s ∙ f)) (omega arith)
    ]

acknowledge-IsAtLeast :
    (db : Database) (u : Upload) (ack : Ack) (current : Option StoredObject) (cursor : ℕ)
    (a o : Uuid) (row : ObjectRow)
    → IsWrite db u current cursor
    → find_row a o db.objects ≡ some row
    → IsAtLeast row.revision (
        find_row a o
          (acknowledge ack
            (written u current cursor)
            db
            (after_write db u current cursor)).1.objects)
acknowledge-IsAtLeast db u acknowledged c n a o row w f = after_write-IsAtLeast db u c n a o row w f
acknowledge-IsAtLeast db u applied_unseen c n a o row w f =
    after_write-IsAtLeast db u c n a o row w f
acknowledge-IsAtLeast db u dropped_unseen c n a o row w f =
    subst (IsAtLeast row.revision) (sym f) (omega arith)

same_tables :
    (db db' : Database) (a o : Uuid) (row : ObjectRow)
    → db' ≡ db
    → find_row a o db.objects ≡ some row
    → IsAtLeast row.revision (find_row a o db'.objects)
same_tables db db' a o row q f =
    let g : find_row a o db'.objects ≡ some row =
      ap (λ (x : Database). find_row a o x.objects) q ∙ f in
    subst (IsAtLeast row.revision) (sym g) (omega arith)

commit_object-IsAtLeast :
    (db : Database) (u : Upload) (ack : Ack) (a o : Uuid) (row : ObjectRow)
    → find_row a o db.objects ≡ some row
    → IsAtLeast row.revision (find_row a o (commit_object db u ack).1.objects)
commit_object-IsAtLeast db u ack a o row f = elim (commit_object-Way db u ack) [
  | refused e _ q ↦ same_tables db _ a o row (ap (λ r. r.1) q) f
  | replayed _ _ _ q ↦ same_tables db _ a o row (ap (λ r. r.1) q) f
  | wrote current cursor w q ↦
      subst (λ (r : Committed). IsAtLeast row.revision (find_row a o r.1.objects)) (sym q)
        (acknowledge-IsAtLeast db u ack current cursor a o row w f)
]

IsAtLeast-some :
    (n : ℕ) (x : Option ObjectRow)
    → IsAtLeast n x
    → (row : ObjectRow) × (x ≡ some row) × (n ≤ row.revision)
IsAtLeast-some n none h = elim h [ ]
IsAtLeast-some n (some row) h = (row, refl, h)

-- Whatever uploads follow, in whatever order and whatever becomes of their commits, an object
-- never disappears and never falls back to an earlier revision.
pub run_uploads_monotone :
    (uploads : List (Upload × Ack)) (db : Database) (a o : Uuid) (row : ObjectRow)
    → find_row a o db.objects ≡ some row
    → (later : ObjectRow) × (find_row a o (run_uploads uploads db).objects ≡ some later)
      × (row.revision ≤ later.revision)
unfolding run_uploads
run_uploads_monotone [] db a o row f = (row, f, omega arith)
run_uploads_monotone ((u, ack) ∷ uploads) db a o row f =
    let (next, g, l) = IsAtLeast-some row.revision _ (commit_object-IsAtLeast db u ack a o row f) in
    let (last, k, m) = run_uploads_monotone uploads (commit_object db u ack).1 a o next g in
    (last, k, omega (arith, l, m))

-- Bound uploads keep the invariant of the tables, in whatever order and whatever becomes of their
-- commits.
pub run_uploads-IsStore :
    (uploads : List (Upload × Ack)) (db : Database)
    → All IsBoundUpload uploads
    → IsStore db
    → IsStore (run_uploads uploads db)
unfolding run_uploads
run_uploads-IsStore [] db b i = i
run_uploads-IsStore ((u, ack) ∷ uploads) db b i =
    run_uploads-IsStore uploads (commit_object db u ack).1 b.1
      (commit_object-IsStore db u ack b.0 i)
