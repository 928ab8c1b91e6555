-- ===== src/Examples/Protocol.antt =====
-- Two peers that share version 2, and the upload of an account's bootstrap (crates/vault-sync).
use safeory.Base.{◌≡◌, ◌↔◌, ok, false, refl}
use safeory.Sync.Checks.{is_nil}
use safeory.Sync.Scope.{account, account_bootstrap, non_nil, validate_scope, is_account_bootstrap}
use safeory.Sync.Compatibility.{
  CompatibilityAdvertisementV1, NegotiatedCompatibility, negotiate_compatibility,
  validate_advertisement, validate_range, highest_common,
}
use safeory.Sync.Compatibility.Laws.{IsAgreement, negotiate_compatibility_iff}
use safeory.Sync.Protocol.{
  OpaqueObjectHeaderV1, OpaqueMutationV1, matching, validate_header, validate_upload_binding,
  safe_integer, is_bootstrap_shape, violates_class_contract,
}
use safeory.Sync.Protocol.Laws.{IsHeader, IsBound, validate_header_iff, validate_upload_binding_iff}

abbrev phone : CompatibilityAdvertisementV1
phone = record {
  format_version = 1;
  protocol_versions = record { minimum = 1; maximum = 2 };
  object_header_versions = record { minimum = 1; maximum = 1 };
  envelope_versions = record { minimum = 1; maximum = 3 };
}

abbrev server : CompatibilityAdvertisementV1
server = record {
  format_version = 1;
  protocol_versions = record { minimum = 2; maximum = 5 };
  object_header_versions = record { minimum = 1; maximum = 2 };
  envelope_versions = record { minimum = 2; maximum = 3 };
}

abbrev agreed : NegotiatedCompatibility
agreed = record { protocol_version = 2; object_header_version = 1; envelope_version = 3 }

they_agree : negotiate_compatibility phone server ≡ ok agreed
unfolding negotiate_compatibility validate_advertisement validate_range highest_common
they_agree = refl

negotiate_compatibility_iff_example :
    (negotiate_compatibility phone server ≡ ok agreed) ↔ IsAgreement phone server agreed
negotiate_compatibility_iff_example = negotiate_compatibility_iff phone server agreed

abbrev pub bootstrap : OpaqueObjectHeaderV1
bootstrap = record {
  format_version = 1;
  protocol_version = 1;
  object_id = 7;
  class = account_bootstrap;
  scope = account 7;
  revision = 4;
  payload_version = 1;
  envelope_version = 1;
  ciphertext_size_bytes = 512;
  ciphertext_sha256 = 99;
  tombstone = false;
}

abbrev upload : OpaqueMutationV1
upload = record {
  format_version = 1;
  operation_id = 30;
  object = bootstrap;
  precondition = matching 3 98;
}

bootstrap_valid : validate_header bootstrap ≡ ok tt
unfolding validate_header validate_scope non_nil is_nil safe_integer violates_class_contract
    is_bootstrap_shape is_account_bootstrap
bootstrap_valid = refl

validate_header_iff_example : (validate_header bootstrap ≡ ok tt) ↔ IsHeader bootstrap
validate_header_iff_example = validate_header_iff bootstrap

validate_upload_binding_iff_example :
    (validate_upload_binding upload 7 7 512 99 ≡ ok tt) ↔ IsBound upload 7 7 512 99
validate_upload_binding_iff_example = validate_upload_binding_iff upload 7 7 512 99
