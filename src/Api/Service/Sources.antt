-- ===== src/Api/Service/Sources.antt =====
-- Where the body of a download comes from (apps/api/src/sync.rs).
use safeory.Base.{
  String, ◌≡◌, ◌⊎◌, sym, ap, ◌∙◌, inl, inr, Bool, true, some, List, [], ◌∷◌, ok, nat_eq, option_eq,
  In, here, there, Bool-cases, Option-cases, Result-cases, arith,
}
use safeory.Sync.Types.{Uuid, TopologyAction}
use safeory.Sync.Protocol.{Sha256}
use safeory.Api.Policy.{StoredObject}
use safeory.Api.Tables.{parse_header, AuthContext, ObjectRow, row_to_object}
use safeory.Api.Store.{current_object}
use safeory.Api.Store.Commit.{current_some}
use safeory.Api.Service.{Body, PutRequest, scope_authorized, read_object}
use safeory.Api.Service.Server.{Server, Download, check_download, get_object}
use safeory.Api.Service.Content.{IsServer, content}
use safeory.Api.Service.Runs.{
  Put, AreFresh, Bodies, is_object, set_body, Follows, run_puts, run_puts-Follows,
}

-- A request of the sequence sent the body for the object.
abbrev pub Sent : List Put → Uuid → Uuid → Body → Type 0
Sent puts a o body =
    (p : Put) × In p puts
    × (p.request.auth.account_id ≡ a)
    × (p.request.object_id ≡ o)
    × (p.request.body ≡ body)

Sent-cons :
    (p : Put) (puts : List Put) (a o : Uuid) (body : Body)
    → Sent puts a o body
    → Sent (p ∷ puts) a o body
Sent-cons p puts a o body (x, i, k, l, m) = (x, there i, k, l, m)

set_body_cases :
    (q : PutRequest) (m : Bodies) (a o : Uuid) (body : Body)
    → set_body q m a o ≡ some body
    → (m a o ≡ some body) ⊎ ((q.auth.account_id ≡ a) × (q.object_id ≡ o) × (q.body ≡ body))
set_body_cases q m a o body h = elim (Bool-cases (is_object q a o)) [
  | inl e ↦ inr (ground arith, ground arith, ground arith)
  | inr e ↦ inl (ground arith)
]

Follows-Sent :
    (puts : List Put) (m m' : Bodies) (a o : Uuid) (body : Body)
    → Follows puts m m'
    → m' a o ≡ some body
    → (m a o ≡ some body) ⊎ Sent puts a o body
Follows-Sent [] m m' a o body f h = inl (sym (f a o) ∙ h)
Follows-Sent (p ∷ puts) m m' a o body (inl f) h = elim (Follows-Sent puts m m' a o body f h) [
  | inl e ↦ inl e
  | inr e ↦ inr (Sent-cons p puts a o body e)
]
Follows-Sent (p ∷ puts) m m' a o body (inr f) h =
    elim (Follows-Sent puts (set_body p.request m) m' a o body f h) [
      | inl e ↦ elim (set_body_cases p.request m a o body e) [
        | inl k ↦ inl k
        | inr (x, y, z) ↦ inr (p, here, x, y, z)
      ]
      | inr e ↦ inr (Sent-cons p puts a o body e)
    ]

row_key :
    (row : ObjectRow) (c : StoredObject)
    → row_to_object row ≡ ok c
    → row.storage_key ≡ c.storage_key
unfolding row_to_object parse_header
row_key row c h = ground arith

module _ (sha256 : Body → Sha256) where
  check_download_body :
      (c : StoredObject) (body : Body) (d : Download)
      → check_download sha256 c body ≡ ok d
      → d.body ≡ body
  unfolding check_download
  check_download_body c body d h = ground arith

  -- What a download has passed.
  record Passed (reachable : Bool) (s : Server) (auth : AuthContext) (object_id : Uuid)
      (d : Download) : Type 0 where
    object : StoredObject
    body : Body
    read : current_object s.db auth.account_id object_id ≡ ok (some object)
    allowed : scope_authorized s.db auth object.header.scope TopologyAction.read ≡ ok true
    stored : s.blobs object.storage_key ≡ some body
    checked : check_download sha256 object body ≡ ok d

  get_object-Passed :
      (reachable : Bool) (s : Server) (auth : AuthContext) (object_id : Uuid) (d : Download)
      → get_object sha256 reachable s auth object_id ≡ ok d
      → Passed reachable s auth object_id d
  unfolding get_object read_object
  get_object-Passed reachable s auth object_id d h =
      elim (Result-cases (current_object s.db auth.account_id object_id)) [
        | inr (e, q) ↦ absurd (ground arith)
        | inl (known, q) ↦ elim (Option-cases known) [
          | inl lost ↦ absurd (ground arith)
          | inr (object, k) ↦ elim (Bool-cases reachable) [
            | inr off ↦ absurd (ground arith)
            | inl on ↦ elim (Option-cases (s.blobs object.storage_key)) [
              | inl gone ↦ absurd (ground arith)
              | inr (body, b) ↦ record {
                object = object;
                body = body;
                read = q ∙ ap ok k;
                allowed = ground arith;
                stored = b;
                checked = ground arith;
              }
            ]
          ]
        ]
      ]

  -- A download is the body that the server holds for the object.
  get_object-content :
      (reachable : Bool) (s : Server) (auth : AuthContext) (object_id : Uuid) (d : Download)
      → get_object sha256 reachable s auth object_id ≡ ok d
      → content s auth.account_id object_id ≡ some d.body
  get_object-content reachable s auth object_id d h =
      let x = get_object-Passed reachable s auth object_id d h in
      let (row, f, q) = current_some s.db auth.account_id object_id x.object x.read in
      let stored : s.blobs row.storage_key ≡ some x.body = rw (row_key row x.object q) x.stored in
      rw (f, check_download_body x.object x.body d x.checked) stored

  -- On a server in order, after uploads with new storage keys, whatever becomes of their calls,
  -- the body of a download is the one that the server held for that object before, or one that an
  -- upload of the sequence sent for that object of that account.
  pub run_puts_download :
      (puts : List Put) (s : Server) (used : List String) (reachable : Bool) (auth : AuthContext)
      (object_id : Uuid) (d : Download)
      → IsServer sha256 s used
      → AreFresh used puts
      → get_object sha256 reachable (run_puts sha256 puts s) auth object_id ≡ ok d
      → (content s auth.account_id object_id ≡ some d.body)
        ⊎ Sent puts auth.account_id object_id d.body
  run_puts_download puts s used reachable auth object_id d v f h =
      let (_, g) = run_puts-Follows sha256 puts s used v f in
      Follows-Sent puts (content s) (content (run_puts sha256 puts s)) auth.account_id object_id
        d.body g (get_object-content reachable (run_puts sha256 puts s) auth object_id d h)
