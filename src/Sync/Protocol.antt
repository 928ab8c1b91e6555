-- ===== src/Sync/Protocol.antt =====
-- Opaque object headers and mutations (crates/vault-sync/src/sync_protocol.rs). A SHA-256 value is
-- the 256-bit number that its 32 bytes spell; it is only compared.
pub mod Laws
use safeory.Base.{
  ℕ, String, Bool, false, not, ◌&&◌, ◌||◌, ◌*◌, Result, ok, err, ◌>>◌, nat_eq, ◌==◌, ltb, leb,
  ensure, if◌then◌else◌,
}
use safeory.Sync.Types.{Uuid, max_wire_integer}
use safeory.Sync.Compatibility.{sync_protocol_version, object_header_format_version}
use safeory.Sync.Scope.{
  ProtocolError, unsupported_header_format, unsupported_protocol, unsupported_mutation_format,
  integer_out_of_range, invalid_version, invalid_ciphertext_size, invalid_object_class_contract,
  revision_did_not_advance, authenticated_account_mismatch, path_object_mismatch,
  ciphertext_metadata_mismatch, ObjectClassV1, is_account_bootstrap, ObjectScopeV1, account,
  household, space, scope_account_id, non_nil, validate_scope,
}

abbrev pub Sha256 : Type 0
Sha256 = ℕ

abbrev pub opaque_mutation_format_version : ℕ
opaque_mutation_format_version = 1

abbrev pub max_sync_ciphertext_bytes : ℕ
max_sync_ciphertext_bytes = 128 * 1024 * 1024

abbrev pub max_account_bootstrap_ciphertext_bytes : ℕ
max_account_bootstrap_ciphertext_bytes = 4 * 1024

abbrev pub Verdict : Type 0
Verdict = Result ProtocolError (Unit {0})

unfoldable pub safe_integer : String → ℕ → Verdict
safe_integer label value =
    if ltb max_wire_integer value then err (integer_out_of_range label) else ok tt

pub record OpaqueObjectHeaderV1 : Type 0 where
  pub format_version : ℕ
  pub protocol_version : ℕ
  pub object_id : Uuid
  pub class : ObjectClassV1
  pub scope : ObjectScopeV1
  pub revision : ℕ
  pub payload_version : ℕ
  pub envelope_version : ℕ
  pub ciphertext_size_bytes : ℕ
  pub ciphertext_sha256 : Sha256
  pub tombstone : Bool

-- The `matches!` on the scope of an account bootstrap.
unfoldable pub is_bootstrap_shape : OpaqueObjectHeaderV1 → ObjectScopeV1 → Bool
is_bootstrap_shape h (account account_id) =
    account_id == h.object_id
    && (ltb 0 h.revision
        && (h.payload_version == 1
            && (h.envelope_version == 1
                && (leb h.ciphertext_size_bytes max_account_bootstrap_ciphertext_bytes
                    && not h.tombstone))))
is_bootstrap_shape h (household _ _) = false
is_bootstrap_shape h (space _ _ _) = false

unfoldable pub violates_class_contract : OpaqueObjectHeaderV1 → Bool
violates_class_contract h =
    let uses_account_bootstrap_id = h.object_id == scope_account_id h.scope in
    (is_account_bootstrap h.class && not (is_bootstrap_shape h h.scope))
    || (not (is_account_bootstrap h.class) && uses_account_bootstrap_id)

unfoldable pub validate_header : OpaqueObjectHeaderV1 → Verdict
unfolding safe_integer
validate_header h = do
  ensure (h.format_version == object_header_format_version) unsupported_header_format
  ensure (h.protocol_version == sync_protocol_version) unsupported_protocol
  non_nil "object ID" h.object_id
  validate_scope h.scope
  safe_integer "object revision" h.revision
  ensure (not (h.payload_version == 0 || h.envelope_version == 0)) invalid_version
  ensure
      (not (h.ciphertext_size_bytes == 0 || ltb max_sync_ciphertext_bytes h.ciphertext_size_bytes))
      invalid_ciphertext_size
  ensure (not (violates_class_contract h)) invalid_object_class_contract

pub data WritePreconditionV1 : Type 0 where
  create_only : WritePreconditionV1
  matching : ℕ → Sha256 → WritePreconditionV1

pub record OpaqueMutationV1 : Type 0 where
  pub format_version : ℕ
  pub operation_id : Uuid
  pub object : OpaqueObjectHeaderV1
  pub precondition : WritePreconditionV1

-- The `match` on the precondition, with the revision that the mutation writes.
unfoldable pub validate_precondition : ℕ → WritePreconditionV1 → Verdict
unfolding safe_integer
validate_precondition written create_only = ok tt
validate_precondition written (matching revision _) = do
  safe_integer "precondition revision" revision
  if leb written revision then err revision_did_not_advance else ok tt

unfoldable pub validate_mutation : OpaqueMutationV1 → Verdict
unfolding validate_precondition
validate_mutation m = do
  ensure (m.format_version == opaque_mutation_format_version) unsupported_mutation_format
  non_nil "operation ID" m.operation_id
  validate_header m.object
  validate_precondition m.object.revision m.precondition

unfoldable pub validate_upload_binding : OpaqueMutationV1 → Uuid → Uuid → ℕ → Sha256 → Verdict
validate_upload_binding m authenticated_account_id path_object_id size sha256 = do
  validate_mutation m
  ensure (scope_account_id m.object.scope == authenticated_account_id)
      authenticated_account_mismatch
  ensure (m.object.object_id == path_object_id) path_object_mismatch
  ensure
      (not (
        not (m.object.ciphertext_size_bytes == size) || not (m.object.ciphertext_sha256 == sha256)))
      ciphertext_metadata_mismatch
