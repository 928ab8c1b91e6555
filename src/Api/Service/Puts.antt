-- ===== src/Api/Service/Puts.antt =====
-- `put_object` (apps/api/src/sync.rs) as a change of the bodies that the server holds, whatever
-- tables its first checks saw and whatever becomes of its calls of the storage and the database.
use safeory.Base.{
  String, ◌≡◌, refl, sym, subst, ◌∙◌, inl, inr, some, List, ◌∷◌, ok, nat_eq, length, In, arith,
}
use safeory.Sync.Types.{Uuid}
use safeory.Sync.Protocol.{Sha256, validate_upload_binding}
use safeory.Sync.Protocol.Laws.{IsBound, validate_upload_binding_iff}
use safeory.Api.Tables.{Database, AuthContext}
use safeory.Api.Store.{Upload}
use safeory.Api.Service.{Body, PutRequest, Admission, answer, admit, admit_put, check_version}
use safeory.Api.Service.Server.{
  Server, Outcomes, PutOutcome, put_done, put_failed_stored, put_failed, with_blob, after_put,
  after_admission, put_object,
}
use safeory.Api.Service.Content.{
  IsServer, Keeps, set_blob-same, with_blob-Keeps, more-IsServer, fresh-IsUnheld,
}
use safeory.Api.Service.Writes.{IsStored}
use safeory.Api.Service.Commit.{Effect, commit_put-Effect}

-- What an admitted upload is made of.
pub record IsAdmitted (sha256 : Body → Sha256) (q : PutRequest) (u : Upload) : Type 0 where
  pub auth : u.auth ≡ q.auth
  pub mutation : u.mutation ≡ q.mutation
  pub size : u.ciphertext_size_bytes ≡ length q.body
  pub hash : u.ciphertext_sha256 ≡ sha256 q.body
  pub key : u.storage_key ≡ q.storage_key
  pub request : u.request_sha256 ≡ q.request_sha256

module _ (sha256 : Body → Sha256) where
  check_version-IsAdmitted :
      (db : Database) (q : PutRequest) (u : Upload)
      → check_version sha256 db q ≡ admit u
      → IsAdmitted sha256 q u
  unfolding check_version
  check_version-IsAdmitted db q u h = record {
    auth = ground arith;
    mutation = ground arith;
    size = ground arith;
    hash = ground arith;
    key = ground arith;
    request = ground arith;
  }

  -- An admitted upload has been bound and has passed the last checks.
  admit_put_checked :
      (db : Database) (q : PutRequest) (u : Upload)
      → admit_put sha256 db q ≡ admit u
      → (validate_upload_binding q.mutation q.auth.account_id q.object_id
            (length q.body)
            (sha256 q.body)
          ≡ ok tt)
        × (check_version sha256 db q ≡ admit u)
  unfolding admit_put
  admit_put_checked db q u h = ground arith

  pub admit_put-IsBound :
      (db : Database) (q : PutRequest) (u : Upload)
      → admit_put sha256 db q ≡ admit u
      → IsAdmitted sha256 q u
        × IsBound u.mutation u.auth.account_id q.object_id u.ciphertext_size_bytes
            u.ciphertext_sha256
  admit_put-IsBound db q u h =
      let (b, c) = admit_put_checked db q u h in
      let x = check_version-IsAdmitted db q u c in
      (x, rw (x.auth, x.mutation, x.size, x.hash) ((validate_upload_binding_iff _ _ _ _ _).0 b))

  pub with_blob-IsStored :
      (s : Server) (q : PutRequest) (u : Upload)
      → IsAdmitted sha256 q u
      → IsBound u.mutation u.auth.account_id q.object_id u.ciphertext_size_bytes u.ciphertext_sha256
      → IsStored sha256 (with_blob s u.storage_key q.body) u q.body
  with_blob-IsStored s q u x b = record {
    bound = record {
      mutation = b.mutation;
      account = b.account;
      object = refl;
      size = b.size;
      sha256 = b.sha256;
    };
    blob = set_blob-same u.storage_key (some q.body) s.blobs;
    size = sym x.size;
    hash = sym x.hash;
  }

  module _ (s : Server) (used : List String) (v : IsServer sha256 s used) where
    -- A change after the body has been stored is a change of what was there before.
    after_blob :
        (key : String) (body : Body) (s' : Server) (more : List String) (a o : Uuid)
        → ¬ In key used
        → Effect sha256 (with_blob s key body) s' more a o body
        → Effect sha256 s s' more a o body
    after_blob key body s' more a o n e =
        let k = with_blob-Keeps sha256 key body s used (fresh-IsUnheld sha256 s used key v n) v in
        elim e [
          | inl c ↦ inl (record { server = c.server; same = λ a' o'. c.same a' o' ∙ k.same a' o' })
          | inr c ↦ inr (record {
            server = c.server;
            stored = c.stored;
            others = λ a' o' m. c.others a' o' m ∙ k.same a' o';
          })
        ]

    stored-Keeps :
        (key : String) (body : Body)
        → ¬ In key used
        → Keeps sha256 s (with_blob s key body) (key ∷ used)
    stored-Keeps key body n =
        let k = with_blob-Keeps sha256 key body s used (fresh-IsUnheld sha256 s used key v n) v in
        record {
          server = more-IsServer sha256 (with_blob s key body) used key k.server;
          same = k.same;
        }

    unchanged-Keeps : (key : String) → Keeps sha256 s s (key ∷ used)
    unchanged-Keeps key = record { server = more-IsServer sha256 s used key v; same = λ a o. refl }

    after_put-Effect :
        (put : PutOutcome) (q : PutRequest) (u : Upload) (o : Outcomes)
        → IsAdmitted sha256 q u
        → IsBound u.mutation u.auth.account_id q.object_id u.ciphertext_size_bytes
            u.ciphertext_sha256
        → ¬ In u.storage_key used
        → Effect sha256 s
            (after_put put s u q.body o).1
            (u.storage_key ∷ used)
            u.auth.account_id
            u.mutation.object.object_id
            q.body
    unfolding after_put
    after_put-Effect put_failed q u o x b n = inl (unchanged-Keeps u.storage_key)
    after_put-Effect put_failed_stored q u o x b n = inl (stored-Keeps u.storage_key q.body n)
    after_put-Effect put_done q u o x b n =
        let k =
          with_blob-Keeps sha256 u.storage_key q.body s used
            (fresh-IsUnheld sha256 s used u.storage_key v n) v in
        let c =
          commit_put-Effect sha256 (with_blob s u.storage_key q.body) used u q.body k.server n
            (with_blob-IsStored s q u x b) o in
        after_blob u.storage_key q.body _ _ _ _ n c

    admitted-Effect :
        (q : PutRequest) (u : Upload) (s' : Server)
        → IsAdmitted sha256 q u
        → u.mutation.object.object_id ≡ q.object_id
        → Effect sha256 s s'
            (u.storage_key ∷ used)
            u.auth.account_id
            u.mutation.object.object_id
            q.body
        → Effect sha256 s s' (q.storage_key ∷ used) q.auth.account_id q.object_id q.body
    admitted-Effect q u s' x id e =
        subst (λ k. Effect sha256 s s' (k ∷ used) q.auth.account_id q.object_id q.body) x.key
          (subst
            (λ (a : AuthContext).
              Effect sha256 s s' (u.storage_key ∷ used) a.account_id q.object_id q.body)
            x.auth
            (subst (λ i. Effect sha256 s s' (u.storage_key ∷ used) u.auth.account_id i q.body) id
              e))

    after_admission-Effect :
        (c : Admission) (seen : Database) (q : PutRequest) (o : Outcomes)
        → admit_put sha256 seen q ≡ c
        → ¬ In q.storage_key used
        → Effect sha256 s
            (after_admission c s q.body o).1
            (q.storage_key ∷ used)
            q.auth.account_id
            q.object_id
            q.body
    unfolding after_admission
    after_admission-Effect (answer r) seen q o e n = inl (unchanged-Keeps q.storage_key)
    after_admission-Effect (admit u) seen q o e n =
        let (x, b) = admit_put-IsBound seen q u e in
        let fresh : ¬ In u.storage_key used =
          λ m. n (subst (λ k. In {A = String} k used) x.key m) in
        admitted-Effect q u _ x b.object (after_put-Effect o.put q u o x b fresh)

    -- An upload changes nothing that the server holds, or replaces the body of its own object.
    pub put_object-Effect :
        (seen : Database) (q : PutRequest) (o : Outcomes)
        → ¬ In q.storage_key used
        → Effect sha256 s
            (put_object sha256 seen s q o).1
            (q.storage_key ∷ used)
            q.auth.account_id
            q.object_id
            q.body
    unfolding put_object
    put_object-Effect seen q o n = after_admission-Effect (admit_put sha256 seen q) seen q o refl n
