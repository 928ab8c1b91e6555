-- ===== src/Api/Service/Writes.antt =====
-- What one write of the tables does to the bodies that the server holds (apps/api/src/sync.rs).
use safeory.Base.{
  ℕ, String, ◌≡◌, ◌≢◌, sym, ap, subst, ◌∙◌, inl, inr, Option, none, some, List, ◌∷◌, ok, nat_eq, In,
  here, there, length, arith,
}
use safeory.Sync.Types.{Uuid}
use safeory.Sync.Protocol.{Sha256}
use safeory.Sync.Protocol.Laws.{IsBound}
use safeory.Api.Policy.{StoredObject}
use safeory.Api.Tables.{parse_header, ObjectRow, Database, CommitResult, find_row, row_to_object}
use safeory.Api.Store.{Upload, new_row, previous_key}
use safeory.Api.Store.Commit.{current_some}
use safeory.Api.Store.Outcome.{Recorded, write_Recorded}
use safeory.Api.Store.Invariant.{found_cases, recorded_IsStore}
use safeory.Api.Store.Writes.{IsWrite, written, after_write}
use safeory.Api.Service.{Body}
use safeory.Api.Service.Server.{Server}
use safeory.Api.Service.Content.{body_of, content, IsUnheld, IsIntact, IsServer}

-- The body of one object is new, and every other one is as before.
pub record Puts (sha256 : Body → Sha256) (s s' : Server) (used : List String) (a o : Uuid)
    (body : Body) : Type 0 where
  pub server : IsServer sha256 s' used
  pub stored : content s' a o ≡ some body
  pub others : (a' o' : Uuid) → ¬ ((a' ≡ a) × (o' ≡ o)) → content s' a' o' ≡ content s a' o'

-- The body of a bound upload is in the storage.
pub record IsStored (sha256 : Body → Sha256) (s : Server) (u : Upload) (body : Body) : Type 0 where
  pub bound :
      IsBound u.mutation u.auth.account_id u.mutation.object.object_id u.ciphertext_size_bytes
        u.ciphertext_sha256
  pub blob : s.blobs u.storage_key ≡ some body
  pub size : length body ≡ u.ciphertext_size_bytes
  pub hash : sha256 body ≡ u.ciphertext_sha256

module _ (sha256 : Body → Sha256) (s : Server) (used : List String) (u : Upload) (body : Body)
    (res : CommitResult) (db' : Database) (v : IsServer sha256 s used)
    (fresh : ¬ In u.storage_key used) (st : IsStored sha256 s u body)
    (r : Recorded s.db u res db') where
  abbrev after : Server
  after = record { db = db'; blobs = s.blobs }

  abbrev stored_row : ObjectRow
  stored_row = new_row u u.mutation.object.revision res.object.change_seq

  new_key : (row : ObjectRow) → row ≡ stored_row → row.storage_key ≡ u.storage_key
  unfolding new_row
  new_key row e = ap (λ (x : ObjectRow). x.storage_key) e

  new-IsIntact : (row : ObjectRow) → row ≡ stored_row → IsIntact sha256 s.blobs row
  unfolding new_row
  new-IsIntact row e = subst (IsIntact sha256 s.blobs) (sym e) (body, st.blob, st.size, st.hash)

  -- A row from before does not hold the new key.
  old_key :
      (a o : Uuid) (row : ObjectRow)
      → find_row a o s.db.objects ≡ some row
      → row.storage_key ≢ u.storage_key
  old_key a o row f e = fresh (subst (λ k. In {A = String} k used) e (v.keyed a o row f))

  IsIntact-after :
      (a o : Uuid) (row : ObjectRow)
      → find_row a o db'.objects ≡ some row
      → IsIntact sha256 s.blobs row
  IsIntact-after a o row f = elim (found_cases s.db u res db' a o row r f) [
    | inl (_, _, e) ↦ new-IsIntact row e
    | inr (_, g) ↦ v.intact a o row g
  ]

  keyed_after :
      (a o : Uuid) (row : ObjectRow)
      → find_row a o db'.objects ≡ some row
      → In row.storage_key (u.storage_key ∷ used)
  keyed_after a o row f = elim (found_cases s.db u res db' a o row r f) [
    | inl (_, _, e) ↦
        subst (λ k. In {A = String} k (u.storage_key ∷ used)) (sym (new_key row e)) here
    | inr (_, g) ↦ there (v.keyed a o row g)
  ]

  apart_after :
      (a o a' o' : Uuid) (row row' : ObjectRow)
      → find_row a o db'.objects ≡ some row
      → find_row a' o' db'.objects ≡ some row'
      → row.storage_key ≡ row'.storage_key
      → (a ≡ a') × (o ≡ o')
  apart_after a o a' o' row row' f f' k = elim (found_cases s.db u res db' a o row r f) [
    | inl (p, q, e) ↦ elim (found_cases s.db u res db' a' o' row' r f') [
      | inl (p', q', _) ↦ (p ∙ sym p', q ∙ sym q')
      | inr (_, g) ↦ absurd (old_key a' o' row' g (sym k ∙ new_key row e))
    ]
    | inr (_, g) ↦ elim (found_cases s.db u res db' a' o' row' r f') [
      | inl (_, _, e) ↦ absurd (old_key a o row g (k ∙ new_key row' e))
      | inr (_, g') ↦ v.apart a o a' o' row row' g g' k
    ]
  ]

  pub recorded-Puts :
      Puts sha256 s after (u.storage_key ∷ used) u.auth.account_id u.mutation.object.object_id body
  unfolding new_row
  recorded-Puts = record {
    server = record {
      store = recorded_IsStore s.db u res db' r v.store st.bound;
      intact = IsIntact-after;
      keyed = keyed_after;
      apart = apart_after;
    };
    stored = ap (body_of s.blobs) r.stored ∙ st.blob;
    others = λ a o n. ap (body_of s.blobs) (r.other_objects a o n);
  }

  -- The key of the version that was replaced is held no more.
  pub replaced-IsUnheld :
      (old : ObjectRow) (k : String)
      → find_row u.auth.account_id u.mutation.object.object_id s.db.objects ≡ some old
      → k ≡ old.storage_key
      → IsUnheld db' k
  replaced-IsUnheld old k g e a o row f h = elim (found_cases s.db u res db' a o row r f) [
    | inl (_, _, x) ↦ old_key _ _ old g (sym (h ∙ e) ∙ new_key row x)
    | inr (n, g') ↦
        n (v.apart a o u.auth.account_id u.mutation.object.object_id row old g' g (h ∙ e))
  ]

row_key :
    (row : ObjectRow) (c : StoredObject)
    → row_to_object row ≡ ok c
    → c.storage_key ≡ row.storage_key
unfolding row_to_object parse_header
row_key row c h = ground arith

-- The key that the cleanup after a write deletes.
pub previous-IsUnheld :
    (sha256 : Body → Sha256) (s : Server) (used : List String) (u : Upload) (body : Body)
    (current : Option StoredObject) (cursor : ℕ) (k : String)
    → IsServer sha256 s used
    → ¬ In u.storage_key used
    → IsStored sha256 s u body
    → IsWrite s.db u current cursor
    → previous_key current ≡ some k
    → IsUnheld (after_write s.db u current cursor) k
previous-IsUnheld sha256 s used u body none cursor k v fresh st w e = absurd (ground arith)
previous-IsUnheld sha256 s used u body (some c) cursor k v fresh st w e =
    let (old, f, q) = current_some s.db u.auth.account_id u.mutation.object.object_id c w.read in
    replaced-IsUnheld sha256 s used u body (written u (some c) cursor)
      (after_write s.db u (some c) cursor) v fresh st (write_Recorded s.db u (some c) cursor w) old
      k f (ground (arith, row_key old c q))
