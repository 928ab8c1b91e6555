-- ===== src/Sync/Scope.antt =====
-- The routing scope of an object and the kinds of objects (crates/vault-sync/src/sync_protocol.rs).
use safeory.Base.{Bool, true, false, Result, ok, err, ◌>>◌, if◌then◌else◌, String}
use safeory.Sync.Types.{Uuid}
use safeory.Sync.Checks.{is_nil}

pub data ProtocolError : Type 0 where
  unsupported_header_format unsupported_protocol unsupported_mutation_format : ProtocolError
  invalid_identifier : String → ProtocolError
  integer_out_of_range : String → ProtocolError
  invalid_version invalid_ciphertext_size invalid_object_class_contract : ProtocolError
  revision_did_not_advance authenticated_account_mismatch path_object_mismatch : ProtocolError
  ciphertext_metadata_mismatch : ProtocolError

pub data ObjectClassV1 : Type 0 where
  account_bootstrap device_bootstrap household_profile space_manifest space_key_envelope item
        attachment_manifest attachment_chunk item_history reminder activity inbox secure_link_copy
        recovery_capsule emergency_capsule security_event :
      ObjectClassV1

unfoldable pub is_account_bootstrap : ObjectClassV1 → Bool
is_account_bootstrap account_bootstrap = true
is_account_bootstrap _ = false

pub data ObjectScopeV1 : Type 0 where
  account : Uuid → ObjectScopeV1
  household : Uuid → Uuid → ObjectScopeV1
  space : Uuid → Uuid → Uuid → ObjectScopeV1

abbrev pub scope_account_id : ObjectScopeV1 → Uuid
scope_account_id (account account_id) = account_id
scope_account_id (household account_id _) = account_id
scope_account_id (space account_id _ _) = account_id

unfoldable pub non_nil : String → Uuid → Result ProtocolError (Unit {0})
unfolding is_nil
non_nil label value = if is_nil value then err (invalid_identifier label) else ok tt

unfoldable pub validate_scope : ObjectScopeV1 → Result ProtocolError (Unit {0})
unfolding non_nil
validate_scope (account account_id) = non_nil "account ID" account_id
validate_scope (household account_id household_id) = do
  non_nil "account ID" account_id
  non_nil "household ID" household_id
validate_scope (space account_id household_id space_id) = do
  non_nil "account ID" account_id
  non_nil "household ID" household_id
  non_nil "space ID" space_id
