-- ===== src/Sync/Compatibility.antt =====
-- Version ranges and their negotiation (crates/vault-sync/src/sync_protocol.rs).
pub mod Laws
use safeory.Base.{
  ℕ, min, max, Bool, ◌&&◌, ◌||◌, Result, ok, err, ◌>>=◌, ◌>>◌, nat_eq, ◌==◌, ltb, leb, not,
  if◌then◌else◌,
}

abbrev pub sync_protocol_version : ℕ
sync_protocol_version = 1

abbrev pub object_header_format_version : ℕ
object_header_format_version = 1

abbrev pub compatibility_format_version : ℕ
compatibility_format_version = 1

pub data CompatibilityError : Type 0 where
  unsupported_format invalid_range no_common_version : CompatibilityError

pub record VersionRangeV1 : Type 0 where
  pub minimum : ℕ
  pub maximum : ℕ

unfoldable pub exact : ℕ → VersionRangeV1
exact version = record { minimum = version; maximum = version }

unfoldable pub validate_range : VersionRangeV1 → Result CompatibilityError (Unit {0})
validate_range r = if r.minimum == 0 || ltb r.maximum r.minimum then err invalid_range else ok tt

unfoldable pub range_contains : VersionRangeV1 → ℕ → Bool
range_contains r version = leb r.minimum version && leb version r.maximum

pub record CompatibilityAdvertisementV1 : Type 0 where
  pub format_version : ℕ
  pub protocol_versions : VersionRangeV1
  pub object_header_versions : VersionRangeV1
  pub envelope_versions : VersionRangeV1

unfoldable pub current : CompatibilityAdvertisementV1
unfolding exact
current = record {
  format_version = compatibility_format_version;
  protocol_versions = exact sync_protocol_version;
  object_header_versions = exact object_header_format_version;
  envelope_versions = exact 1;
}

unfoldable pub validate_advertisement :
    CompatibilityAdvertisementV1 → Result CompatibilityError (Unit {0})
unfolding validate_range
validate_advertisement a =
    if not (a.format_version == compatibility_format_version) then err unsupported_format else do
      validate_range a.protocol_versions
      validate_range a.object_header_versions
      validate_range a.envelope_versions

pub record NegotiatedCompatibility : Type 0 where
  pub protocol_version : ℕ
  pub object_header_version : ℕ
  pub envelope_version : ℕ

unfoldable pub highest_common : VersionRangeV1 → VersionRangeV1 → Result CompatibilityError ℕ
highest_common left right =
    let minimum = max left.minimum right.minimum in
    let maximum = min left.maximum right.maximum in
    if ltb maximum minimum then err no_common_version else ok maximum

unfoldable pub negotiate_compatibility :
    CompatibilityAdvertisementV1
    → CompatibilityAdvertisementV1
    → Result CompatibilityError NegotiatedCompatibility
unfolding validate_advertisement highest_common
negotiate_compatibility local remote = do
  validate_advertisement local
  validate_advertisement remote
  protocol ← highest_common local.protocol_versions remote.protocol_versions
  header ← highest_common local.object_header_versions remote.object_header_versions
  envelope ← highest_common local.envelope_versions remote.envelope_versions
  ok (record {
    protocol_version = protocol;
    object_header_version = header;
    envelope_version = envelope;
  })
