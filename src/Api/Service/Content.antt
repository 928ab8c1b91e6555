-- ===== src/Api/Service/Content.antt =====
-- What the server holds (apps/api/src/sync.rs): the body of each object, and the invariant that
-- ties the object storage to the tables.
use safeory.Base.{
  String, ◌≡◌, ◌≢◌, refl, subst, ◌∙◌, inl, inr, Bool, true, false, Option, none, some, List, ◌∷◌,
  nat_eq, string_eq, ◌==◌, ==_refl, ==_iff, In, there, Bool-cases, length,
}
use safeory.Sync.Types.{Uuid}
use safeory.Sync.Protocol.{Sha256}
use safeory.Api.Tables.{ObjectRow, Database, find_row}
use safeory.Api.Store.Invariant.{IsStore}
use safeory.Api.Service.{Body}
use safeory.Api.Service.Server.{Server, set_blob, best_effort_delete, with_blob}

abbrev pub body_of : (String → Option Body) → Option ObjectRow → Option Body
body_of blobs none = none
body_of blobs (some row) = blobs row.storage_key

-- The body of an object.
abbrev pub content : Server → Uuid → Uuid → Option Body
content s a o = body_of s.blobs (find_row a o s.db.objects)

-- No row holds the key.
abbrev pub IsUnheld : Database → String → Type 0
IsUnheld db key =
    (a o : Uuid) (row : ObjectRow) → find_row a o db.objects ≡ some row → row.storage_key ≢ key

module _ (sha256 : Body → Sha256) where
  -- The storage has the body that the row describes.
  abbrev pub IsIntact : (String → Option Body) → ObjectRow → Type 0
  IsIntact blobs row =
      (body : Body) × (blobs row.storage_key ≡ some body)
      × (length body ≡ row.ciphertext_size_bytes)
      × (sha256 body ≡ row.ciphertext_sha256)

  -- The tables are in order, every row's body is stored and intact, no two objects share a storage
  -- key, and every key that a row holds has been used.
  pub record IsServer (s : Server) (used : List String) : Type 0 where
    pub store : IsStore s.db
    pub intact :
        (a o : Uuid) (row : ObjectRow) → find_row a o s.db.objects ≡ some row → IsIntact s.blobs row
    pub keyed :
        (a o : Uuid) (row : ObjectRow)
        → find_row a o s.db.objects ≡ some row
        → In row.storage_key used
    pub apart :
        (a o a' o' : Uuid) (row row' : ObjectRow)
        → find_row a o s.db.objects ≡ some row
        → find_row a' o' s.db.objects ≡ some row'
        → row.storage_key ≡ row'.storage_key
        → (a ≡ a') × (o ≡ o')

pub set_blob-other :
    (key : String) (value : Option Body) (blobs : String → Option Body) (k : String)
    → k ≢ key
    → set_blob key value blobs k ≡ blobs k
set_blob-other key value blobs k n = elim (Bool-cases (k == key)) [
  | inl e ↦ absurd (n ((==_iff k key).0 e))
  | inr e ↦ rw e refl
]

pub set_blob-same :
    (key : String) (value : Option Body) (blobs : String → Option Body)
    → set_blob key value blobs key ≡ value
set_blob-same key value blobs = rw (==_refl key) refl

body_of-set_blob :
    (key : String) (value : Option Body) (blobs : String → Option Body) (row : Option ObjectRow)
    → ((r : ObjectRow) → row ≡ some r → r.storage_key ≢ key)
    → body_of (set_blob key value blobs) row ≡ body_of blobs row
body_of-set_blob key value blobs none n = refl
body_of-set_blob key value blobs (some r) n =
    set_blob-other key value blobs r.storage_key (n r refl)

-- A change of a key that no row holds is not seen.
pub content-set_blob :
    (db : Database) (blobs : String → Option Body) (key : String) (value : Option Body) (a o : Uuid)
    → IsUnheld db key
    → content (record { db = db; blobs = set_blob key value blobs }) a o
      ≡ content (record { db = db; blobs = blobs }) a o
content-set_blob db blobs key value a o n =
    body_of-set_blob key value blobs (find_row a o db.objects) (λ r f. n a o r f)

pub set_blob-IsServer :
    (sha256 : Body → Sha256) (db : Database) (blobs : String → Option Body) (used : List String)
    (key : String) (value : Option Body)
    → IsUnheld db key
    → IsServer sha256 (record { db = db; blobs = blobs }) used
    → IsServer sha256 (record { db = db; blobs = set_blob key value blobs }) used
set_blob-IsServer sha256 db blobs used key value n v = record {
  store = v.store;
  intact = λ a o row f.
      let (body, b, l, h) = v.intact a o row f in
      (body, set_blob-other key value blobs row.storage_key (n a o row f) ∙ b, l, h);
  keyed = v.keyed;
  apart = v.apart;
}

-- The same bodies, and a server in order.
pub record Keeps (sha256 : Body → Sha256) (s s' : Server) (used : List String) : Type 0 where
  pub server : IsServer sha256 s' used
  pub same : (a o : Uuid) → content s' a o ≡ content s a o

pub delete-Keeps :
    (sha256 : Body → Sha256) (deleted : Bool) (key : String) (s : Server) (used : List String)
    → IsUnheld s.db key
    → IsServer sha256 s used
    → Keeps sha256 s (best_effort_delete deleted key s) used
unfolding best_effort_delete
delete-Keeps sha256 true key s used n v = record {
  server = set_blob-IsServer sha256 s.db s.blobs used key none n v;
  same = λ a o. content-set_blob s.db s.blobs key none a o n;
}
delete-Keeps sha256 false key s used n v = record { server = v; same = λ a o. refl }

pub with_blob-Keeps :
    (sha256 : Body → Sha256) (key : String) (body : Body) (s : Server) (used : List String)
    → IsUnheld s.db key
    → IsServer sha256 s used
    → Keeps sha256 s (with_blob s key body) used
with_blob-Keeps sha256 key body s used n v = record {
  server = set_blob-IsServer sha256 s.db s.blobs used key (some body) n v;
  same = λ a o. content-set_blob s.db s.blobs key (some body) a o n;
}

-- A key that has not been used is held by no row.
pub fresh-IsUnheld :
    (sha256 : Body → Sha256) (s : Server) (used : List String) (key : String)
    → IsServer sha256 s used
    → ¬ In key used
    → IsUnheld s.db key
fresh-IsUnheld sha256 s used key v n a o row f e =
    n (subst (λ k. In {A = String} k used) e (v.keyed a o row f))

pub more-IsServer :
    (sha256 : Body → Sha256) (s : Server) (used : List String) (key : String)
    → IsServer sha256 s used
    → IsServer sha256 s (key ∷ used)
more-IsServer sha256 s used key v = record {
  store = v.store;
  intact = v.intact;
  keyed = λ a o row f. there (v.keyed a o row f);
  apart = v.apart;
}
