-- ===== src/Api/Store/Invariant.antt =====
-- The invariant of the tables under uploads (apps/api/src/store.rs).
use safeory.Base.{
  ℕ, ◌+◌, ◌≤◌, ◌<◌, ◌≡◌, ◌⊎◌, inl, inr, sym, subst, ◌∙◌, ap, some, ok, nat_eq, option_eq, ◌==◌,
  ◌&&◌, Bool-cases, arith,
}
use safeory.Sync.Types.{Uuid}
use safeory.Sync.Protocol.{validate_upload_binding}
use safeory.Sync.Protocol.Laws.{IsBound, validate_header_iff, validate_upload_binding_iff}
use safeory.Api.Policy.{StoredObject}
use safeory.Api.Store.{Upload, acknowledge, Committed, commit_object, new_row, new_operation}
use safeory.Api.Tables.{
  parse_header, Database, Ack, acknowledged, applied_unseen, dropped_unseen, CommitResult,
  OperationRow, ObjectRow, find_row, row_to_object,
}
use safeory.Api.Store.Writes.{refused, replayed, wrote, written, after_write, commit_object-Way}
use safeory.Api.Store.Outcome.{Recorded, write_Recorded}

-- Each object's row is well formed and counted by its account's cursor, and no two objects of an
-- account share a change number (the unique index of the table).
pub record IsStore (db : Database) : Type 0 where
  pub readable :
      (a o : Uuid) (row : ObjectRow)
      → find_row a o db.objects ≡ some row
      → (c : StoredObject) × (row_to_object row ≡ ok c)
  pub counted :
      (a o : Uuid) (row : ObjectRow)
      → find_row a o db.objects ≡ some row
      → (n : ℕ) × (db.cursors a ≡ some n) × (0 < row.change_seq) × (row.change_seq ≤ n)
  pub remembered :
      (a p : Uuid) (row : OperationRow)
      → db.operations a p ≡ some row
      → (n : ℕ) × (db.cursors a ≡ some n) × (0 < row.change_seq) × (row.change_seq ≤ n)
  pub one_object :
      (a o o' : Uuid) (row row' : ObjectRow)
      → find_row a o db.objects ≡ some row
      → find_row a o' db.objects ≡ some row'
      → row.change_seq ≡ row'.change_seq
      → o ≡ o'

-- A row that is found after a write is the new one, or it was there before under another key.
pub found_cases :
    (db : Database) (u : Upload) (res : CommitResult) (db' : Database) (a o : Uuid)
    (row : ObjectRow)
    → Recorded db u res db'
    → find_row a o db'.objects ≡ some row
    → ((a ≡ u.auth.account_id)
        × (o ≡ u.mutation.object.object_id)
        × (row ≡ new_row u u.mutation.object.revision res.object.change_seq))
      ⊎ ((¬ ((a ≡ u.auth.account_id) × (o ≡ u.mutation.object.object_id)))
          × (find_row a o db.objects ≡ some row))
found_cases db u res db' a o row r h =
    elim (Bool-cases (a == u.auth.account_id && o == u.mutation.object.object_id)) [
      | inl e ↦
          let p : a ≡ u.auth.account_id = ground arith in
          let q : o ≡ u.mutation.object.object_id = ground arith in
          let f : find_row a o db'.objects
              ≡ some (new_row u u.mutation.object.revision res.object.change_seq) =
            rw (p, q) r.stored in
          inl (p, q, ground (arith, f, h))
      | inr e ↦
          let n : ¬ ((a ≡ u.auth.account_id) × (o ≡ u.mutation.object.object_id)) = ground arith in
          inr (n, sym (r.other_objects a o n) ∙ h)
    ]

new_row_readable :
    (u : Upload) (s : ℕ)
    → IsBound u.mutation u.auth.account_id u.mutation.object.object_id u.ciphertext_size_bytes
        u.ciphertext_sha256
    → (c : StoredObject) × (row_to_object (new_row u u.mutation.object.revision s) ≡ ok c)
unfolding row_to_object parse_header new_row
new_row_readable u s b =
    let z = b.mutation.object.size.1 in
    let y = b.mutation.object.revision in
    let valid = (validate_header_iff u.mutation.object).1 b.mutation.object in
    (
      record {
        object_id = u.mutation.object.object_id;
        revision = u.mutation.object.revision;
        ciphertext_size_bytes = u.ciphertext_size_bytes;
        ciphertext_sha256 = u.ciphertext_sha256;
        change_seq = s;
        storage_key = u.storage_key;
        header = u.mutation.object;
      },
      ground (arith, valid, b.account, b.size, b.sha256, z, y),
    )

module _ (db : Database) (u : Upload) (res : CommitResult) (db' : Database)
    (r : Recorded db u res db') (i : IsStore db) where
  -- No cursor moves back.
  grown : (a n : ℕ) → db.cursors a ≡ some n → (n' : ℕ) × (db'.cursors a ≡ some n') × (n ≤ n')
  grown a n h = elim (Bool-cases (a == u.auth.account_id)) [
    | inl e ↦
        let p : a ≡ u.auth.account_id = ground arith in
        let (c, before, after, _) = r.counted in
        let f : db'.cursors a ≡ some (c + 1) = rw p after in
        let g : db.cursors a ≡ some c = rw p before in (c + 1, f, ground (arith, g, h))
    | inr e ↦ let k = r.other_cursors a (ground arith) in (n, k ∙ h, omega arith)
  ]

  -- The new change number is above every number that the account has used.
  above :
      (o : Uuid) (row : ObjectRow)
      → find_row u.auth.account_id o db.objects ≡ some row
      → row.change_seq < res.object.change_seq
  above o row h =
      let (n, cur, _, le) = i.counted u.auth.account_id o row h in
      let (c, before, _, q) = r.counted in
      let same : n ≡ c = ground (arith, cur, before) in omega (arith, le, q, same)

  counted_after :
      (a o : Uuid) (row : ObjectRow)
      → find_row a o db'.objects ≡ some row
      → (n : ℕ) × (db'.cursors a ≡ some n) × (0 < row.change_seq) × (row.change_seq ≤ n)
  unfolding new_row
  counted_after a o row h = elim (found_cases db u res db' a o row r h) [
    | inl (p, _, e) ↦
        let (c, _, after, q) = r.counted in
        let s : row.change_seq ≡ res.object.change_seq = ap (λ (x : ObjectRow). x.change_seq) e in
        (c + 1, rw p after, omega (arith, s, q), omega (arith, s, q))
    | inr (_, f) ↦
        let (n, cur, pos, le) = i.counted a o row f in
        let (n', cur', le') = grown a n cur in (n', cur', pos, omega (arith, le, le'))
  ]

  one_object_after :
      (a o o' : Uuid) (row row' : ObjectRow)
      → find_row a o db'.objects ≡ some row
      → find_row a o' db'.objects ≡ some row'
      → row.change_seq ≡ row'.change_seq
      → o ≡ o'
  unfolding new_row
  one_object_after a o o' row row' h h' e = elim (found_cases db u res db' a o row r h) [
    | inl (p, q, x) ↦
        let s : row.change_seq ≡ res.object.change_seq = ap (λ (y : ObjectRow). y.change_seq) x in
        elim (found_cases db u res db' a o' row' r h') [
          | inl (_, q', _) ↦ q ∙ sym q'
          | inr (_, f) ↦ let l = above o' row' (rw (sym p) f) in absurd (omega (arith, l, s, e))
        ]
    | inr (_, f) ↦ elim (found_cases db u res db' a o' row' r h') [
      | inl (p, q, x) ↦
          let s : row'.change_seq ≡ res.object.change_seq =
            ap (λ (y : ObjectRow). y.change_seq) x in
          let l = above o row (rw (sym p) f) in absurd (omega (arith, l, s, e))
      | inr (_, f') ↦ i.one_object a o o' row row' f f' e
    ]
  ]

  remembered_after :
      (a p : Uuid) (row : OperationRow)
      → db'.operations a p ≡ some row
      → (n : ℕ) × (db'.cursors a ≡ some n) × (0 < row.change_seq) × (row.change_seq ≤ n)
  unfolding new_operation
  remembered_after a p row h =
      elim (Bool-cases (a == u.auth.account_id && p == u.mutation.operation_id)) [
        | inl e ↦
            let x : a ≡ u.auth.account_id = ground arith in
            let y : p ≡ u.mutation.operation_id = ground arith in
            let f : db'.operations a p ≡ some (new_operation u res.object.change_seq res.created) =
              rw (x, y) r.remembered in
            let s : row.change_seq ≡ res.object.change_seq = ground (arith, f, h) in
            let (c, _, after, q) = r.counted in
            (c + 1, rw x after, omega (arith, s, q), omega (arith, s, q))
        | inr e ↦
            let f : db.operations a p ≡ some row =
              sym (r.other_operations a p (ground arith)) ∙ h in
            let (n, cur, pos, le) = i.remembered a p row f in
            let (n', cur', le') = grown a n cur in (n', cur', pos, omega (arith, le, le'))
      ]

  readable_after :
      IsBound u.mutation u.auth.account_id u.mutation.object.object_id u.ciphertext_size_bytes
        u.ciphertext_sha256
      → (a o : Uuid) (row : ObjectRow) → find_row a o db'.objects ≡ some row
      → (c : StoredObject) × (row_to_object row ≡ ok c)
  readable_after b a o row h = elim (found_cases db u res db' a o row r h) [
    | inl (_, _, e) ↦
        let (c, q) = new_row_readable u res.object.change_seq b in (c, ap row_to_object e ∙ q)
    | inr (_, f) ↦ i.readable a o row f
  ]

  pub recorded_IsStore :
      IsBound u.mutation u.auth.account_id u.mutation.object.object_id u.ciphertext_size_bytes
        u.ciphertext_sha256
      → IsStore db'
  recorded_IsStore b = record {
    readable = readable_after b;
    counted = counted_after;
    remembered = remembered_after;
    one_object = one_object_after;
  }

pub acknowledge-IsStore :
    (ack : Ack) (res : CommitResult) (before after : Database)
    → IsStore before
    → IsStore after
    → IsStore (acknowledge ack res before after).1
acknowledge-IsStore acknowledged res before after i j = j
acknowledge-IsStore applied_unseen res before after i j = j
acknowledge-IsStore dropped_unseen res before after i j = i

-- Whatever becomes of a bound upload, an error, a replay, a write or a commit of unknown outcome,
-- the tables keep their invariant: rows that read back, their stored headers valid, change numbers
-- within the cursor of the account, and no change number on two objects.
pub commit_object-IsStore :
    (db : Database) (u : Upload) (ack : Ack)
    → validate_upload_binding u.mutation u.auth.account_id u.mutation.object.object_id
        u.ciphertext_size_bytes u.ciphertext_sha256
      ≡ ok tt
    → IsStore db
    → IsStore (commit_object db u ack).1
commit_object-IsStore db u ack v i = elim (commit_object-Way db u ack) [
  | refused f _ q ↦ subst (λ (r : Committed). IsStore r.1) (sym q) i
  | replayed row _ _ q ↦ subst (λ (r : Committed). IsStore r.1) (sym q) i
  | wrote current cursor w q ↦
      let b = (validate_upload_binding_iff _ _ _ _ _).0 v in
      let m = write_Recorded db u current cursor w in
      let j =
        recorded_IsStore db u (written u current cursor) (after_write db u current cursor) m i b in
      subst (λ (r : Committed). IsStore r.1) (sym q)
        (acknowledge-IsStore ack (written u current cursor) db (after_write db u current cursor) i
          j)
]
