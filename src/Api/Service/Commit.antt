-- ===== src/Api/Service/Commit.antt =====
-- What `put_object` leaves behind, once the body is stored (apps/api/src/sync.rs).
use safeory.Base.{
  ℕ, String, ◌≡◌, ◌≢◌, ◌⊎◌, refl, sym, subst, ◌∙◌, inl, inr, Bool, true, false, Option, none, some,
  List, ◌∷◌, ok, err, nat_eq, string_eq, ◌==◌, ==_refl, In, Result-cases, arith,
}
use safeory.Sync.Types.{Uuid}
use safeory.Sync.Protocol.{Sha256}
use safeory.Api.Policy.{StoredObject}
use safeory.Api.Tables.{
  parse_header, Ack, acknowledged, applied_unseen, dropped_unseen, CommitError, CommitResult,
  OperationRow, database, commit_outcome_unknown, store, precondition_failed, account_missing,
  operation_conflict, unauthorized_scope, invalid_contract, row_to_operation,
}
use safeory.Api.Store.{
  Upload, Committed, acknowledge, commit_object, replay, previous_key, commit_result, new_operation,
}
use safeory.Api.Store.Outcome.{write_Recorded}
use safeory.Api.Store.Writes.{
  IsWrite, written, after_write, refused, replayed, wrote, commit_object-Way,
}
use safeory.Api.Service.{Body, read_operation}
use safeory.Api.Service.Server.{
  Server, Outcomes, best_effort_delete, reconcile, clean_up, finish_put, commit_put,
}
use safeory.Api.Service.Content.{IsServer, Keeps, delete-Keeps, more-IsServer, fresh-IsUnheld}
use safeory.Api.Service.Writes.{Puts, IsStored, recorded-Puts, previous-IsUnheld}

-- Nothing that is held changes, or the body of one object does.
abbrev pub Effect : (Body → Sha256) → Server → Server → List String → Uuid → Uuid → Body → Type 0
Effect sha256 s s' used a o body = Keeps sha256 s s' used ⊎ Puts sha256 s s' used a o body

finish_put-refused :
    (s : Server) (u : Upload) (o : Outcomes) (e : CommitError)
    → e ≢ commit_outcome_unknown
    → (finish_put s u o (err e)).1 ≡ best_effort_delete o.deleted u.storage_key s
unfolding finish_put
finish_put-refused s u o database n = refl
finish_put-refused s u o commit_outcome_unknown n = absurd (n refl)
finish_put-refused s u o store n = refl
finish_put-refused s u o precondition_failed n = refl
finish_put-refused s u o account_missing n = refl
finish_put-refused s u o operation_conflict n = refl
finish_put-refused s u o unauthorized_scope n = refl
finish_put-refused s u o invalid_contract n = refl

replay_cases :
    (a : Uuid) (sha : Sha256) (row : OperationRow)
    → ((res : CommitResult) × (replay a sha row ≡ ok res) × (res.replayed ≡ true))
      ⊎ ((e : CommitError) × (replay a sha row ≡ err e) × (e ≢ commit_outcome_unknown))
unfolding replay row_to_operation parse_header
replay_cases a sha row = elim (Result-cases (replay a sha row)) [
  | inl (res, q) ↦ inl (res, q, ground arith)
  | inr (e, q) ↦ inr (e, q, ground arith)
]

-- A replay deletes the body that it was sent with, as an error does.
finish_put-replayed :
    (s : Server) (u : Upload) (o : Outcomes) (row : OperationRow)
    → (finish_put s u o (replay u.auth.account_id u.request_sha256 row)).1
      ≡ best_effort_delete o.deleted u.storage_key s
unfolding finish_put clean_up
finish_put-replayed s u o row = elim (replay_cases u.auth.account_id u.request_sha256 row) [
  | inl (res, q, t) ↦ rw q (rw t refl)
  | inr (e, q, n) ↦ rw q (finish_put-refused s u o e n)
]

-- An operation that is not there, or that remembers the upload's own key, leaves all as it is.
reconcile-missing :
    (s : Server) (u : Upload) (o : Outcomes)
    → s.db.operations u.auth.account_id u.mutation.operation_id ≡ none
    → (reconcile s u o).1 ≡ s
unfolding reconcile read_operation
reconcile-missing s u o h = ground arith

reconcile-own :
    (s : Server) (u : Upload) (o : Outcomes) (row : OperationRow)
    → s.db.operations u.auth.account_id u.mutation.operation_id ≡ some row
    → row.storage_key ≡ u.storage_key
    → (reconcile s u o).1 ≡ s
unfolding reconcile read_operation row_to_operation parse_header
reconcile-own s u o row h k =
    let same : (row.storage_key == u.storage_key) ≡ true = rw k (==_refl u.storage_key) in
    ground arith

module _ (sha256 : Body → Sha256) (s : Server) (used : List String) (u : Upload) (body : Body)
    (v : IsServer sha256 s used) (fresh : ¬ In u.storage_key used) (st : IsStored sha256 s u body)
    (o : Outcomes) where
  abbrev more : List String
  more = u.storage_key ∷ used

  deleted-Keeps : Keeps sha256 s (best_effort_delete o.deleted u.storage_key s) more
  deleted-Keeps =
      delete-Keeps sha256 o.deleted u.storage_key s more
        (fresh-IsUnheld sha256 s used u.storage_key v fresh)
        (more-IsServer sha256 s used u.storage_key v)

  stays-Keeps : Keeps sha256 s s more
  stays-Keeps = record { server = more-IsServer sha256 s used u.storage_key v; same = λ a o. refl }

  module _ (current : Option StoredObject) (cursor : ℕ) (w : IsWrite s.db u current cursor) where
    abbrev next : Server
    next = record { db = after_write s.db u current cursor; blobs = s.blobs }

    abbrev Done : Server → Type 0
    Done s' = Puts sha256 s s' more u.auth.account_id u.mutation.object.object_id body

    next-Puts : Done next
    next-Puts =
        recorded-Puts sha256 s used u body (written u current cursor)
          (after_write s.db u current cursor) v fresh st (write_Recorded s.db u current cursor w)

    -- A deletion of a key that is not held any more.
    delete_previous-Puts :
        (k : String) → previous_key current ≡ some k → Done (best_effort_delete o.deleted k next)
    delete_previous-Puts k e =
        let p = next-Puts in
        let d =
          delete-Keeps sha256 o.deleted k next more
            (previous-IsUnheld sha256 s used u body current cursor k v fresh st w e) p.server in
        record {
          server = d.server;
          stored = d.same u.auth.account_id u.mutation.object.object_id ∙ p.stored;
          others = λ a o' n. d.same a o' ∙ p.others a o' n;
        }

    clean_up-Puts :
        (previous : Option String)
        → previous_key current ≡ previous
        → Done (elim previous [ none ↦ next | some k ↦ best_effort_delete o.deleted k next ])
    clean_up-Puts none e = next-Puts
    clean_up-Puts (some k) e = delete_previous-Puts k e

    wrote-Effect :
        (ack : Ack)
        → Effect sha256 s
            (finish_put
              (record {
                db =
                    (acknowledge ack
                      (written u current cursor)
                      s.db
                      (after_write s.db u current cursor)).1;
                blobs = s.blobs;
              })
              u
              o
              (acknowledge ack
                (written u current cursor)
                s.db
                (after_write s.db u current cursor)).0).1
            more
            u.auth.account_id
            u.mutation.object.object_id
            body
    unfolding finish_put clean_up commit_result new_operation
    wrote-Effect acknowledged = inr (clean_up-Puts (previous_key current) refl)
    wrote-Effect applied_unseen =
        let m = write_Recorded s.db u current cursor w in
        let q = reconcile-own next u o _ m.remembered refl in inr (subst Done (sym q) next-Puts)
    wrote-Effect dropped_unseen =
        let q = reconcile-missing s u o w.fresh in
        inl (subst (λ s'. Keeps sha256 s s' more) (sym q) stays-Keeps)

  abbrev finished : Committed → Server
  finished r = (finish_put (record { db = r.1; blobs = s.blobs }) u o r.0).1

  abbrev Affects : Server → Type 0
  Affects s' = Effect sha256 s s' more u.auth.account_id u.mutation.object.object_id body

  -- The commit and what follows it.
  pub commit_put-Effect :
      Effect sha256 s (commit_put s u o).1 more u.auth.account_id u.mutation.object.object_id body
  unfolding commit_put
  commit_put-Effect = elim (commit_object-Way s.db u o.ack) [
    | refused e n q ↦
        subst (λ r. Affects (finished r)) (sym q)
          (inl (
            subst (λ s'. Keeps sha256 s s' more) (sym (finish_put-refused s u o e n))
              deleted-Keeps))
    | replayed row _ _ q ↦
        subst (λ r. Affects (finished r)) (sym q)
          (inl (
            subst (λ s'. Keeps sha256 s s' more) (sym (finish_put-replayed s u o row))
              deleted-Keeps))
    | wrote current cursor w q ↦
        subst (λ r. Affects (finished r)) (sym q) (wrote-Effect current cursor w o.ack)
  ]

  delete_db :
      (deleted : Bool) (k : String) (t : Server) → (best_effort_delete deleted k t).db ≡ t.db
  unfolding best_effort_delete
  delete_db true k t = refl
  delete_db false k t = refl

  clean_up_db :
      (t : Server) (previous : Option String)
      → (let t' : Server = elim previous [ none ↦ t | some k ↦ best_effort_delete o.deleted k t ] in
          t'.db ≡ t.db)
  clean_up_db t none = refl
  clean_up_db t (some k) = delete_db o.deleted k t

  -- After an acknowledged write.
  pub commit_put-written :
      (current : Option StoredObject) (cursor : ℕ)
      → IsWrite s.db u current cursor
      → commit_object s.db u o.ack
        ≡ (ok (written u current cursor), after_write s.db u current cursor)
      → Puts sha256 s (commit_put s u o).1 more u.auth.account_id u.mutation.object.object_id body
        × ((commit_put s u o).1.db ≡ after_write s.db u current cursor)
  unfolding commit_put finish_put clean_up commit_result
  commit_put-written current cursor w q =
      subst
        (λ r.
          Puts sha256 s (finished r) more u.auth.account_id u.mutation.object.object_id body
          × ((finished r).db ≡ after_write s.db u current cursor))
        (sym q)
        (
          clean_up-Puts current cursor w (previous_key current) refl,
          clean_up_db (next current cursor w) (previous_key current),
        )
