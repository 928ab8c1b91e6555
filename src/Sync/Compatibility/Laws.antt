-- ===== src/Sync/Compatibility/Laws.antt =====
-- What the negotiation agrees on (crates/vault-sync/src/sync_protocol.rs).
use safeory.Base.{ℕ, min, ◌≤◌, ◌<◌, ◌≡◌, ◌↔◌, ok, true, arith, nat_eq}
use safeory.Sync.Compatibility.{
  VersionRangeV1, range_contains, highest_common, CompatibilityAdvertisementV1,
  NegotiatedCompatibility, validate_advertisement, negotiate_compatibility,
  compatibility_format_version,
}

-- A nonempty range that does not start at version zero.
abbrev pub IsRange : VersionRangeV1 → Type 0
IsRange r = (0 < r.minimum) × (r.minimum ≤ r.maximum)

pub record IsAdvertisement (a : CompatibilityAdvertisementV1) : Type 0 where
  pub format_version : a.format_version ≡ compatibility_format_version
  pub protocol_versions : IsRange a.protocol_versions
  pub object_header_versions : IsRange a.object_header_versions
  pub envelope_versions : IsRange a.envelope_versions

-- Both ranges contain the version, and no higher one.
pub record IsHighest (l r : VersionRangeV1) (v : ℕ) : Type 0 where
  pub left : range_contains l v ≡ true
  pub right : range_contains r v ≡ true
  pub highest : (w : ℕ) → range_contains l w ≡ true → range_contains r w ≡ true → w ≤ v

pub validate_advertisement_iff :
    (a : CompatibilityAdvertisementV1) → (validate_advertisement a ≡ ok tt) ↔ IsAdvertisement a
unfolding validate_advertisement
validate_advertisement_iff a = ground arith

highest_common-IsHighest :
    (l r : VersionRangeV1) (v : ℕ)
    → IsRange l
    → IsRange r
    → highest_common l r ≡ ok v
    → IsHighest l r v
unfolding highest_common range_contains
highest_common-IsHighest l r v hl hr h = record {
  left = ground arith;
  right = ground arith;
  highest = λ w p q. ground arith;
}

IsHighest→highest_common :
    (l r : VersionRangeV1) (v : ℕ)
    → IsRange l
    → IsRange r
    → IsHighest l r v
    → highest_common l r ≡ ok v
unfolding highest_common range_contains
IsHighest→highest_common l r v hl hr h = ground (arith, h.highest (min l.maximum r.maximum))

-- Both advertisements are well formed, and each negotiated version is the highest common one.
pub record IsAgreement (local remote : CompatibilityAdvertisementV1) (n : NegotiatedCompatibility)
    : Type 0 where
  pub local_valid : IsAdvertisement local
  pub remote_valid : IsAdvertisement remote
  pub protocol : IsHighest local.protocol_versions remote.protocol_versions n.protocol_version
  pub object_header :
      IsHighest local.object_header_versions remote.object_header_versions n.object_header_version
  pub envelope : IsHighest local.envelope_versions remote.envelope_versions n.envelope_version

-- The three searches of a negotiation that succeeds.
record Searches (local remote : CompatibilityAdvertisementV1) (n : NegotiatedCompatibility)
    : Type 0 where
  local_valid : validate_advertisement local ≡ ok tt
  remote_valid : validate_advertisement remote ≡ ok tt
  protocol : highest_common local.protocol_versions remote.protocol_versions ≡ ok n.protocol_version
  object_header :
      highest_common local.object_header_versions remote.object_header_versions
      ≡ ok n.object_header_version
  envelope : highest_common local.envelope_versions remote.envelope_versions ≡ ok n.envelope_version

negotiation_iff :
    (local remote : CompatibilityAdvertisementV1) (n : NegotiatedCompatibility)
    → (negotiate_compatibility local remote ≡ ok n) ↔ Searches local remote n
unfolding negotiate_compatibility
negotiation_iff local remote n = ground arith

-- The negotiation succeeds with n exactly when both advertisements are well formed and each
-- version of n is the highest that both ranges contain.
pub negotiate_compatibility_iff :
    (local remote : CompatibilityAdvertisementV1) (n : NegotiatedCompatibility)
    → (negotiate_compatibility local remote ≡ ok n) ↔ IsAgreement local remote n
negotiate_compatibility_iff local remote n = (
  λ h.
      let s = (negotiation_iff local remote n).0 h in
      let l = (validate_advertisement_iff local).0 s.local_valid in
      let r = (validate_advertisement_iff remote).0 s.remote_valid in
      record {
        local_valid = l;
        remote_valid = r;
        protocol =
            highest_common-IsHighest _ _ _ l.protocol_versions r.protocol_versions s.protocol;
        object_header =
            highest_common-IsHighest _ _ _ l.object_header_versions r.object_header_versions
              s.object_header;
        envelope =
            highest_common-IsHighest _ _ _ l.envelope_versions r.envelope_versions s.envelope;
      },
  λ a.
      let l = a.local_valid in
      let r = a.remote_valid in
      (negotiation_iff local remote n).1 (record {
        local_valid = (validate_advertisement_iff local).1 l;
        remote_valid = (validate_advertisement_iff remote).1 r;
        protocol =
            IsHighest→highest_common _ _ _ l.protocol_versions r.protocol_versions a.protocol;
        object_header =
            IsHighest→highest_common _ _ _ l.object_header_versions r.object_header_versions
              a.object_header;
        envelope =
            IsHighest→highest_common _ _ _ l.envelope_versions r.envelope_versions a.envelope;
      }),
)

IsHighest-symm : {l r : VersionRangeV1} {v : ℕ} → IsHighest l r v → IsHighest r l v
IsHighest-symm h = record { left = h.right; right = h.left; highest = λ w p q. h.highest w q p }

-- When a negotiation succeeds, the other peer comes to the same agreement.
pub negotiate_compatibility_symm :
    (local remote : CompatibilityAdvertisementV1) (n : NegotiatedCompatibility)
    → negotiate_compatibility local remote ≡ ok n
    → negotiate_compatibility remote local ≡ ok n
negotiate_compatibility_symm local remote n h =
    let a = (negotiate_compatibility_iff local remote n).0 h in
    (negotiate_compatibility_iff remote local n).1 (record {
      local_valid = a.remote_valid;
      remote_valid = a.local_valid;
      protocol = IsHighest-symm a.protocol;
      object_header = IsHighest-symm a.object_header;
      envelope = IsHighest-symm a.envelope;
    })
