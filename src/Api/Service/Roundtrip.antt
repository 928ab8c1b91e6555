-- ===== src/Api/Service/Roundtrip.antt =====
-- An upload that is acknowledged, and the download after it (apps/api/src/sync.rs).
use safeory.Base.{
  ℕ, String, ◌+◌, ◌≡◌, refl, ap, subst, ◌∙◌, inl, inr, true, false, Option, some, List, ok, nat_eq,
  option_eq, In, Option-cases, arith,
}
use safeory.Sync.Types.{Uuid, TopologyAction}
use safeory.Sync.Scope.{ObjectScopeV1, account, household, space}
use safeory.Sync.Protocol.{Sha256}
use safeory.Sync.Authorize.{authorizes_device_scope}
use safeory.Sync.Authorize.Consequences.{authorizes-Weaker}
use safeory.Api.Policy.{StoredObject}
use safeory.Api.Tables.{Database, AuthContext, find_row, row_to_topology, CommitResult}
use safeory.Api.Store.{Upload, commit_object, commit_result, check_scope, check_household, new_row}
use safeory.Api.Store.Commit.{commit_object-IsWrite}
use safeory.Api.Store.Outcome.{write_Recorded}
use safeory.Api.Store.Writes.{IsWrite, written, after_write}
use safeory.Api.Service.{
  Body, PutRequest, admit, admit_put, scope_authorized, household_authorized, evaluate_scope,
}
use safeory.Api.Service.Server.{
  Server, Outcomes, put_done, with_blob, put_object, after_admission, after_put, commit_put,
  get_object,
}
use safeory.Api.Service.Content.{IsServer, with_blob-Keeps, fresh-IsUnheld}
use safeory.Api.Service.Writes.{IsStored}
use safeory.Api.Service.Commit.{commit_put-written}
use safeory.Api.Service.Puts.{admit_put-IsBound, with_blob-IsStored}
use safeory.Api.Service.Downloads.{download_of, get_object-IsServer}

-- Who may write may read.
household_write_read :
    (db : Database) (auth : AuthContext) (h : Uuid) (scope : ObjectScopeV1)
    → check_household db auth h scope ≡ ok tt
    → household_authorized db auth h scope TopologyAction.read ≡ ok true
unfolding check_household household_authorized evaluate_scope
household_write_read db auth h scope e = elim (Option-cases (db.topologies h)) [
  | inl lost ↦ absurd (ground arith)
  | inr (row, f) ↦ elim (Option-cases (row_to_topology h row)) [
    | inl bad ↦ absurd (ground arith)
    | inr (t, g) ↦
        let writes : authorizes_device_scope t auth.account_id auth.device_id scope
              TopologyAction.write
            ≡ ok true =
          ground arith in
        let reads =
          authorizes-Weaker t auth.account_id auth.device_id scope TopologyAction.read
            TopologyAction.write tt writes in
        ground (arith, f, g, reads)
  ]
]

scope_write_read :
    (db : Database) (auth : AuthContext) (scope : ObjectScopeV1)
    → check_scope db auth scope ≡ ok tt
    → scope_authorized db auth scope TopologyAction.read ≡ ok true
unfolding check_scope scope_authorized
scope_write_read db auth (account a) e = ground arith
scope_write_read db auth (household a h) e = household_write_read db auth h (household a h) e
scope_write_read db auth (space a h s) e = household_write_read db auth h (space a h s) e

-- The scopes are read from the topologies alone.
household_authorized_same :
    (db db' : Database) (auth : AuthContext) (h : Uuid) (scope : ObjectScopeV1)
    (action : TopologyAction)
    → db'.topologies ≡ db.topologies
    → household_authorized db' auth h scope action ≡ household_authorized db auth h scope action
unfolding household_authorized
household_authorized_same db db' auth h scope action e = rw e refl

scope_authorized_same :
    (db db' : Database) (auth : AuthContext) (scope : ObjectScopeV1) (action : TopologyAction)
    → db'.topologies ≡ db.topologies
    → scope_authorized db' auth scope action ≡ scope_authorized db auth scope action
unfolding scope_authorized
scope_authorized_same db db' auth (account a) action e = refl
scope_authorized_same db db' auth (household a h) action e =
    household_authorized_same db db' auth h (household a h) action e
scope_authorized_same db db' auth (space a h s) action e =
    household_authorized_same db db' auth h (space a h s) action e

module _ (sha256 : Body → Sha256) where
  put_object_admitted :
      (seen : Database) (s : Server) (q : PutRequest) (o : Outcomes) (u : Upload)
      → admit_put sha256 seen q ≡ admit u
      → o.put ≡ put_done
      → put_object sha256 seen s q o ≡ commit_put (with_blob s u.storage_key q.body) u o
  unfolding put_object after_admission after_put
  put_object_admitted seen s q o u h p =
      ap (λ c. after_admission c s q.body o) h ∙ ap (λ x. after_put x s u q.body o) p

  some_inj : (x y : Body) (m : Option Body) → m ≡ some x → m ≡ some y → x ≡ y
  some_inj x y m a b = ground (arith, a, b)

  -- In the words of the upload.
  written_download :
      (s : Server) (used : List String) (u : Upload) (o : Outcomes) (body : Body)
      (current : Option StoredObject) (cursor : ℕ)
      → IsServer sha256 s used
      → ¬ In u.storage_key used
      → IsStored sha256 s u body
      → IsWrite s.db u current cursor
      → commit_object s.db u o.ack
        ≡ (ok (written u current cursor), after_write s.db u current cursor)
      → get_object sha256 true (commit_put s u o).1 u.auth u.mutation.object.object_id
        ≡ ok (download_of (new_row u u.mutation.object.revision (cursor + 1)) body)
  unfolding commit_result new_row
  written_download s used u o body current cursor v n st w e =
      let row = new_row u u.mutation.object.revision (cursor + 1) in
      let t = (commit_put s u o).1 in
      let (p, d) = commit_put-written sha256 s used u body v n st o current cursor w e in
      let m = write_Recorded s.db u current cursor w in
      let found : find_row u.auth.account_id u.mutation.object.object_id t.db.objects ≡ some row =
        ap (λ (x : Database). find_row u.auth.account_id u.mutation.object.object_id x.objects) d
        ∙ m.stored in
      let topologies : t.db.topologies ≡ s.db.topologies =
        ap (λ (x : Database). x.topologies) d ∙ m.topologies in
      let allowed =
        scope_authorized_same s.db t.db u.auth u.mutation.object.scope TopologyAction.read
          topologies
        ∙ scope_write_read s.db u.auth u.mutation.object.scope w.authorized in
      let (b, c, g) =
        get_object-IsServer sha256 t _ u.auth u.mutation.object.object_id row p.server found
          allowed in
      let same = some_inj b body _ c p.stored in g ∙ ap (λ x. ok (download_of row x)) same

  -- On a server in order, after an admitted upload under a new storage key, whose body the storage
  -- took and whose commit was acknowledged and no replay, a download of the object by the same
  -- device, when the storage answers, returns the body, under the revision and the hash of the
  -- upload and its change number.
  pub put_object-get_object :
      (seen : Database) (s : Server) (used : List String) (q : PutRequest) (o : Outcomes)
      (u : Upload) (res : CommitResult)
      → IsServer sha256 s used
      → ¬ In q.storage_key used
      → admit_put sha256 seen q ≡ admit u
      → o.put ≡ put_done
      → (commit_object s.db u o.ack).0 ≡ ok res
      → res.replayed ≡ false
      → get_object sha256 true (put_object sha256 seen s q o).1 q.auth q.object_id
        ≡ ok (record {
          body = q.body;
          etag = record {
            revision = q.mutation.object.revision;
            ciphertext_sha256 = sha256 q.body;
          };
          change_seq = res.object.change_seq;
        })
  unfolding commit_result new_row
  put_object-get_object seen s used q o u res v n h p c f =
      let (x, b) = admit_put-IsBound sha256 seen q u h in
      let fresh : ¬ In u.storage_key used = λ m. n (subst (λ k. In {A = String} k used) x.key m) in
      let s1 = with_blob s u.storage_key q.body in
      let k =
        with_blob-Keeps sha256 u.storage_key q.body s used
          (fresh-IsUnheld sha256 s used u.storage_key v fresh) v in
      let (current, cursor, w, r, e) = commit_object-IsWrite s.db u o.ack res c f in
      let g =
        written_download s1 used u o q.body current cursor k.server fresh
          (with_blob-IsStored sha256 s q u x b) w
          (e ∙ ap (λ y. (ok y, after_write s.db u current cursor)) r) in
      let seq : res.object.change_seq ≡ cursor + 1 =
        ap (λ (y : CommitResult). y.object.change_seq) r in
      rw (put_object_admitted seen s q o u h p, ← x.auth, ← b.object, ← x.mutation, ← x.hash, seq) g
