-- ===== src/Api/Service/Downloads.antt =====
-- `get_object` (apps/api/src/sync.rs) on a server in order, and after an upload.
use safeory.Base.{String, ◌≡◌, ◌≤◌, true, some, List, ok, nat_eq, option_eq, length, arith, i64_max}
use safeory.Sync.Types.{Uuid, TopologyAction}
use safeory.Sync.Protocol.{Sha256}
use safeory.Api.Policy.{StoredObject, version}
use safeory.Api.Tables.{parse_header, ObjectRow, AuthContext, find_row, row_to_object}
use safeory.Api.Store.{current_object}
use safeory.Api.Service.{Body, scope_authorized, read_object}
use safeory.Api.Service.Server.{Server, Download, check_download, get_object}
use safeory.Api.Service.Content.{IsServer, content}

-- What a row says of the body that is downloaded.
abbrev pub download_of : ObjectRow → Body → Download
download_of row body = record {
  body = body;
  etag = record { revision = row.revision; ciphertext_sha256 = row.ciphertext_sha256 };
  change_seq = row.change_seq;
}

record Reads (row : ObjectRow) (c : StoredObject) : Type 0 where
  revision : c.revision ≡ row.revision
  size : c.ciphertext_size_bytes ≡ row.ciphertext_size_bytes
  hash : c.ciphertext_sha256 ≡ row.ciphertext_sha256
  change_seq : c.change_seq ≡ row.change_seq
  key : c.storage_key ≡ row.storage_key
  header : c.header ≡ row.header
  in_range : row.ciphertext_size_bytes ≤ i64_max

row_to_object-Reads : (row : ObjectRow) (c : StoredObject) → row_to_object row ≡ ok c → Reads row c
unfolding row_to_object parse_header
row_to_object-Reads row c h = record {
  revision = ground arith;
  size = ground arith;
  hash = ground arith;
  change_seq = ground arith;
  key = ground arith;
  header = ground arith;
  in_range = ground arith;
}

module _ (sha256 : Body → Sha256) where
  check_download_lem :
      (row : ObjectRow) (c : StoredObject) (body : Body)
      → Reads row c
      → length body ≡ row.ciphertext_size_bytes
      → sha256 body ≡ row.ciphertext_sha256
      → check_download sha256 c body ≡ ok (download_of row body)
  unfolding check_download version
  check_download_lem row c body r l h =
      ground (arith, r.revision, r.size, r.hash, r.change_seq, r.in_range)

  -- On a server in order, a device that may read an object downloads the body that is stored for
  -- it, with the row's version and change number: the integrity check does not fail when the
  -- storage answers.
  pub get_object-IsServer :
      (s : Server) (used : List String) (auth : AuthContext) (object_id : Uuid) (row : ObjectRow)
      → IsServer sha256 s used
      → find_row auth.account_id object_id s.db.objects ≡ some row
      → scope_authorized s.db auth row.header.scope TopologyAction.read ≡ ok true
      → (body : Body) × (content s auth.account_id object_id ≡ some body)
        × (get_object sha256 true s auth object_id ≡ ok (download_of row body))
  unfolding get_object read_object current_object
  get_object-IsServer s used auth object_id row v f a =
      let (c, q) = v.store.readable auth.account_id object_id row f in
      let r = row_to_object-Reads row c q in
      let (body, b, l, h) = v.intact auth.account_id object_id row f in
      let stored : s.blobs c.storage_key ≡ some body = rw r.key b in
      let allowed : scope_authorized s.db auth c.header.scope TopologyAction.read ≡ ok true =
        rw r.header a in
      let checked = check_download_lem row c body r l h in
      (body, rw f b, ground (arith, f, q, allowed, stored, checked))
