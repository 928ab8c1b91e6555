-- ===== src/Api/Service/Runs.antt =====
-- Sequences of uploads (apps/api/src/sync.rs), each with the tables that its first checks saw and
-- with what its calls come to, against a map from objects to bodies.
use safeory.Base.{
  String, ◌≡◌, ◌⊎◌, refl, ◌∙◌, inl, inr, Bool, ◌&&◌, Option, some, List, [], ◌∷◌, nat_eq, option_eq,
  ◌==◌, In, Bool-cases, arith, if◌then◌else◌,
}
use safeory.Sync.Types.{Uuid}
use safeory.Sync.Protocol.{Sha256}
use safeory.Api.Tables.{Database}
use safeory.Api.Service.{Body, PutRequest}
use safeory.Api.Service.Server.{Server, Outcomes, put_object}
use safeory.Api.Service.Content.{IsServer, content}
use safeory.Api.Service.Writes.{Puts}
use safeory.Api.Service.Puts.{put_object-Effect}

pub record Put : Type 0 where
  pub seen : Database
  pub request : PutRequest
  pub outcomes : Outcomes

-- The storage keys are new: none has been used, and none is used twice.
abbrev pub AreFresh : List String → List Put → Type 0
AreFresh used [] = Unit {0}
AreFresh used (p ∷ puts) =
    (¬ In p.request.storage_key used) × AreFresh (p.request.storage_key ∷ used) puts

abbrev pub keys_after : List String → List Put → List String
keys_after used [] = used
keys_after used (p ∷ puts) = keys_after (p.request.storage_key ∷ used) puts

abbrev pub Bodies : Type 0
Bodies = Uuid → Uuid → Option Body

abbrev pub is_object : PutRequest → Uuid → Uuid → Bool
is_object q a o = a == q.auth.account_id && o == q.object_id

abbrev pub set_body : PutRequest → Bodies → Bodies
set_body q m a o = if is_object q a o then some q.body else m a o

-- What a map of bodies may come to: each request replaces the body of its object or does nothing.
abbrev pub Follows : List Put → Bodies → Bodies → Type 0
Follows [] m m' = (a o : Uuid) → m' a o ≡ m a o
Follows (p ∷ puts) m m' = Follows puts m m' ⊎ Follows puts (set_body p.request m) m'

Follows-same :
    (puts : List Put) (m n m' : Bodies)
    → ((a o : Uuid) → n a o ≡ m a o)
    → Follows puts n m'
    → Follows puts m m'
Follows-same [] m n m' e f = λ a o. f a o ∙ e a o
Follows-same (p ∷ puts) m n m' e (inl f) = inl (Follows-same puts m n m' e f)
Follows-same (p ∷ puts) m n m' e (inr f) = inr (
    Follows-same puts (set_body p.request m) (set_body p.request n) m'
      (λ a o. ground (arith, e a o)) f)

module _ (sha256 : Body → Sha256) where
  unfoldable pub run_puts : List Put → Server → Server
  run_puts [] s = s
  run_puts (p ∷ puts) s = run_puts puts (put_object sha256 p.seen s p.request p.outcomes).1

  Puts-set_body :
      (s s' : Server) (used : List String) (q : PutRequest)
      → Puts sha256 s s' used q.auth.account_id q.object_id q.body
      → (a o : Uuid) → content s' a o ≡ set_body q (content s) a o
  Puts-set_body s s' used q p a o = elim (Bool-cases (is_object q a o)) [
    | inl e ↦
        let x : a ≡ q.auth.account_id = ground arith in
        let y : o ≡ q.object_id = ground arith in
        let f : content s' a o ≡ some q.body = rw (x, y) p.stored in ground (arith, f)
    | inr e ↦ ground (arith, p.others a o (ground arith))
  ]

  -- Uploads with new storage keys, in whatever order, whatever tables their first checks saw, and
  -- whatever becomes of their puts, commits, reconciliations and deletions, keep a server in order
  -- (tables with their invariant, the intact body of every row in the storage, one storage key for
  -- each object), and change the map from objects to bodies as a map in which each request sets
  -- the body of its own object or does nothing.
  pub run_puts-Follows :
      (puts : List Put) (s : Server) (used : List String)
      → IsServer sha256 s used
      → AreFresh used puts
      → IsServer sha256 (run_puts puts s) (keys_after used puts)
        × Follows puts (content s) (content (run_puts puts s))
  unfolding run_puts
  run_puts-Follows [] s used v f = (v, λ a o. refl)
  run_puts-Follows (p ∷ puts) s used v (n, f) =
      let next = (put_object sha256 p.seen s p.request p.outcomes).1 in
      let m = content (run_puts puts next) in
      elim (put_object-Effect sha256 s used v p.seen p.request p.outcomes n) [
        | inl k ↦
            let (w, g) = run_puts-Follows puts next _ k.server f in
            (w, inl (Follows-same puts (content s) (content next) m k.same g))
        | inr k ↦
            let (w, g) = run_puts-Follows puts next _ k.server f in
            (
              w,
              inr (
                  Follows-same puts (set_body p.request (content s)) (content next) m
                    (Puts-set_body s next _ p.request k) g),
            )
      ]
