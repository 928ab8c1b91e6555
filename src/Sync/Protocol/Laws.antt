-- ===== src/Sync/Protocol/Laws.antt =====
-- What the opaque object protocol accepts, as a description that does not mention the code.
use safeory.Base.{
  ℕ, ◌≤◌, ◌<◌, ◌≡◌, ◌≢◌, ◌↔◌, inl, inr, sym, ap, Bool-cases, ok, true, false, arith, nat_eq,
}
use safeory.Sync.Types.{Uuid, max_wire_integer}
use safeory.Sync.Compatibility.{sync_protocol_version, object_header_format_version}
use safeory.Sync.Scope.{
  ObjectClassV1, is_account_bootstrap, ObjectScopeV1, account, household, space, scope_account_id,
  account_bootstrap, validate_scope, non_nil,
}
use safeory.Sync.Protocol.{
  Sha256, OpaqueObjectHeaderV1, OpaqueMutationV1, WritePreconditionV1, create_only, matching,
  max_sync_ciphertext_bytes, max_account_bootstrap_ciphertext_bytes, opaque_mutation_format_version,
  violates_class_contract, is_bootstrap_shape, validate_header, validate_precondition,
  validate_mutation, validate_upload_binding,
}

abbrev pub IsScope : ObjectScopeV1 → Type 0
IsScope (account a) = a ≢ 0
IsScope (household a h) = (a ≢ 0) × (h ≢ 0)
IsScope (space a h s) = (a ≢ 0) × (h ≢ 0) × (s ≢ 0)

-- The one bootstrap object of an account: it carries the account's identifier.
pub record IsBootstrap (h : OpaqueObjectHeaderV1) : Type 0 where
  pub scope : h.scope ≡ account h.object_id
  pub revision : 0 < h.revision
  pub payload_version : h.payload_version ≡ 1
  pub envelope_version : h.envelope_version ≡ 1
  pub size : h.ciphertext_size_bytes ≤ max_account_bootstrap_ciphertext_bytes
  pub lives : h.tombstone ≡ false

pub record IsHeader (h : OpaqueObjectHeaderV1) : Type 0 where
  pub format_version : h.format_version ≡ object_header_format_version
  pub protocol_version : h.protocol_version ≡ sync_protocol_version
  pub object_id : h.object_id ≢ 0
  pub scope : IsScope h.scope
  pub revision : h.revision ≤ max_wire_integer
  pub payload_version : 0 < h.payload_version
  pub envelope_version : 0 < h.envelope_version
  pub size : (0 < h.ciphertext_size_bytes) × (h.ciphertext_size_bytes ≤ max_sync_ciphertext_bytes)
  pub bootstrap : h.class ≡ account_bootstrap → IsBootstrap h
  pub no_bootstrap : h.class ≢ account_bootstrap → h.object_id ≢ scope_account_id h.scope

validate_scope_iff : (s : ObjectScopeV1) → (validate_scope s ≡ ok tt) ↔ IsScope s
unfolding validate_scope
validate_scope_iff (account a) = ground arith
validate_scope_iff (household a h) = ground arith
validate_scope_iff (space a h s) = ground arith

is_bootstrap_shape_iff :
    (h : OpaqueObjectHeaderV1) (s : ObjectScopeV1)
    → (is_bootstrap_shape h s ≡ true) ↔ (
        (s ≡ account h.object_id)
        × (0 < h.revision)
        × (h.payload_version ≡ 1)
        × (h.envelope_version ≡ 1)
        × (h.ciphertext_size_bytes ≤ max_account_bootstrap_ciphertext_bytes)
        × (h.tombstone ≡ false))
unfolding is_bootstrap_shape
is_bootstrap_shape_iff h (account a) = ground arith
is_bootstrap_shape_iff h (household a b) = ground arith
is_bootstrap_shape_iff h (space a b c) = ground arith

IsBootstrap_iff : (h : OpaqueObjectHeaderV1) → (is_bootstrap_shape h h.scope ≡ true) ↔ IsBootstrap h
IsBootstrap_iff h = ground (arith, is_bootstrap_shape_iff h h.scope)

is_account_bootstrap_iff :
    (c : ObjectClassV1) → (is_account_bootstrap c ≡ true) ↔ (c ≡ account_bootstrap)
unfolding is_account_bootstrap
is_account_bootstrap_iff c = ground arith

class_contract_iff :
    (h : OpaqueObjectHeaderV1)
    → (violates_class_contract h ≡ false) ↔ (
        (h.class ≡ account_bootstrap → IsBootstrap h)
        × (h.class ≢ account_bootstrap → h.object_id ≢ scope_account_id h.scope))
unfolding violates_class_contract
class_contract_iff h = ground (arith, is_account_bootstrap_iff h.class, IsBootstrap_iff h)

pub validate_header_iff : (h : OpaqueObjectHeaderV1) → (validate_header h ≡ ok tt) ↔ IsHeader h
unfolding validate_header non_nil
validate_header_iff h = ground (arith, validate_scope_iff h.scope, class_contract_iff h)

-- The mutation writes a later revision than the one that it replaces.
abbrev pub IsPrecondition : ℕ → WritePreconditionV1 → Type 0
IsPrecondition written create_only = Unit
IsPrecondition written (matching revision _) = (revision ≤ max_wire_integer) × (revision < written)

pub record IsMutation (m : OpaqueMutationV1) : Type 0 where
  pub format_version : m.format_version ≡ opaque_mutation_format_version
  pub operation_id : m.operation_id ≢ 0
  pub object : IsHeader m.object
  pub precondition : IsPrecondition m.object.revision m.precondition

validate_precondition_iff :
    (written : ℕ) (p : WritePreconditionV1)
    → (validate_precondition written p ≡ ok tt) ↔ IsPrecondition written p
unfolding validate_precondition
validate_precondition_iff written create_only = ground arith
validate_precondition_iff written (matching revision hash) = ground arith

-- A mutation is accepted exactly when it has the format version, an operation identifier that is
-- not nil, an accepted header, and a precondition whose revision is before the one it writes.
pub validate_mutation_iff : (m : OpaqueMutationV1) → (validate_mutation m ≡ ok tt) ↔ IsMutation m
unfolding validate_mutation non_nil
validate_mutation_iff m = ground (
  arith,
  validate_header_iff m.object,
  validate_precondition_iff m.object.revision m.precondition,
)

-- The mutation is well formed and says what the transport has established.
pub record IsBound (m : OpaqueMutationV1) (account_id object_id : Uuid) (bytes : ℕ) (hash : Sha256)
    : Type 0 where
  pub mutation : IsMutation m
  pub account : scope_account_id m.object.scope ≡ account_id
  pub object : m.object.object_id ≡ object_id
  pub size : m.object.ciphertext_size_bytes ≡ bytes
  pub sha256 : m.object.ciphertext_sha256 ≡ hash

-- An upload is bound exactly when its mutation is well formed and its header names the account,
-- the path, the size and the hash.
pub validate_upload_binding_iff :
    (m : OpaqueMutationV1) (account_id object_id : Uuid) (size : ℕ) (sha256 : Sha256)
    → (validate_upload_binding m account_id object_id size sha256 ≡ ok tt)
      ↔ IsBound m account_id object_id size sha256
unfolding validate_upload_binding
validate_upload_binding_iff m account_id object_id size sha256 =
    ground (arith, validate_mutation_iff m)

-- In an accepted header the object that carries the account's identifier is the account's
-- bootstrap, and no other object is.
pub bootstrap_iff :
    (h : OpaqueObjectHeaderV1)
    → validate_header h ≡ ok tt
    → (h.class ≡ account_bootstrap) ↔ (h.object_id ≡ scope_account_id h.scope)
bootstrap_iff h v =
    let i = (validate_header_iff h).0 v in
    (
      λ e. sym (ap scope_account_id (i.bootstrap e).scope),
      λ e. elim (Bool-cases (is_account_bootstrap h.class)) [
        | inl y ↦ (is_account_bootstrap_iff h.class).0 y
        | inr n ↦ absurd (i.no_bootstrap (λ q. ground (arith, is_account_bootstrap_iff h.class)) e)
      ],
    )
