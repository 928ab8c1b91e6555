-- ===== src/Models/Identity/Card.antt =====
-- The validation of an emergency card (crates/vault-models/src/lib.rs).
use Prim.Native.String.{count}
use safeory.Base.{
  ℕ, ◌+◌, Bool, false, not, ◌||◌, Option, none, some, List, [], ◌∷◌, Result, ok, err, ◌>>=◌, nat_eq,
  list_eq, ◌==◌, ltb, length, any, contains, if◌then◌else◌,
}
use safeory.Sync.Types.{Uuid}
use safeory.Sync.Checks.{is_nil}
use safeory.Models.Identity.{
  Curves, EmergencyCard, EmergencyContact, Hex, TrustedDevice, TrustedPrincipal,
  VaultItemValidationError, invalid_trusted_principal, too_large, Verdict, decode_public_key_hex,
  emergency_card_id, is_blank, is_canonical_x25519_u_coordinate, max_card_contacts, max_card_items,
  max_item_notes_chars, max_item_title_chars, max_retired_trusted_devices,
  max_retired_trusted_principals, max_retired_trusted_signing_keys,
  max_trusted_devices_per_principal, max_trusted_principals, to_ascii_lowercase,
}

-- The identifiers and keys that the loops have met, the latest first.
pub record Seen : Type 0 where
  pub principal_ids : List Uuid
  pub device_ids : List Uuid
  pub encryption_keys : List Hex
  pub signing_keys : List Hex

abbrev pub nothing_seen : Seen
nothing_seen = record {
  principal_ids = [];
  device_ids = [];
  encryption_keys = [];
  signing_keys = [];
}

-- The sizes that the first test bounds.
unfoldable pub active_device_count : List TrustedPrincipal → ℕ
active_device_count [] = 0
active_device_count (p ∷ principals) = length p.devices + active_device_count principals

unfoldable pub signing_key_count : List TrustedDevice → ℕ
signing_key_count [] = 0
signing_key_count (d ∷ devices) =
    elim d.signing_public_key_hex [ none ↦ 0 | some _ ↦ 1 ] + signing_key_count devices

unfoldable pub active_signing_key_count : List TrustedPrincipal → ℕ
unfolding signing_key_count
active_signing_key_count [] = 0
active_signing_key_count (p ∷ principals) =
    signing_key_count p.devices + active_signing_key_count principals

unfoldable pub is_too_large : EmergencyCard → Bool
is_too_large card =
    ltb max_card_items (length card.selected_item_ids)
    || (ltb max_card_contacts (length card.contacts)
        || (ltb max_trusted_principals (length card.principals)
            || (ltb max_retired_trusted_principals (length card.retired_principal_ids)
                || (ltb max_retired_trusted_devices (length card.retired_device_ids)
                    || (ltb max_retired_trusted_signing_keys
                          (length card.retired_signing_public_key_hexes)
                        || (ltb max_retired_trusted_principals
                              (length card.retired_principal_ids + length card.principals)
                            || (ltb max_retired_trusted_devices (
                                  length card.retired_device_ids
                                  + active_device_count card.principals)
                                || (ltb max_retired_trusted_signing_keys (
                                      length card.retired_signing_public_key_hexes
                                      + active_signing_key_count card.principals)
                                    || ltb max_item_notes_chars (count card.instructions)))))))))

unfoldable pub is_large_contact : EmergencyContact → Bool
is_large_contact contact =
    ltb max_item_title_chars (count contact.name)
    || (ltb max_item_title_chars (count contact.relation)
        || (ltb max_item_title_chars (count contact.phone)
            || (ltb max_item_title_chars (count contact.email)
                || ltb max_item_notes_chars (count contact.notes))))

module _ (curves : Curves) where
  unfoldable pub valid_device_public_key_hex : Hex → Bool
  valid_device_public_key_hex value = elim (decode_public_key_hex value) [
    | none ↦ false
    | some public_key ↦
        if not (is_canonical_x25519_u_coordinate public_key)
        then false
        else curves.contributes public_key
  ]

  unfoldable pub valid_signing_public_key_hex : Hex → Bool
  valid_signing_public_key_hex value = elim (decode_public_key_hex value) [
    | none ↦ false
    | some public_key ↦ curves.verifies public_key
  ]

  unfoldable pub check_signing_key :
      EmergencyCard → Seen → Option Hex → Result VaultItemValidationError Seen
  check_signing_key card seen none = ok seen
  check_signing_key card seen (some key) =
      if not (valid_signing_public_key_hex key)
        || (contains card.retired_signing_public_key_hexes (to_ascii_lowercase key)
            || contains seen.signing_keys (to_ascii_lowercase key))
      then err invalid_trusted_principal
      else ok (record seen { signing_keys = to_ascii_lowercase key ∷ seen.signing_keys })

  unfoldable pub check_device :
      EmergencyCard → Seen → TrustedDevice → Result VaultItemValidationError Seen
  check_device card seen device =
      if is_nil device.id
        || (device.id == emergency_card_id
            || (contains card.retired_device_ids device.id
                || (ltb max_item_title_chars (count device.label)
                    || (contains seen.device_ids device.id
                        || not (valid_device_public_key_hex device.encryption_public_key_hex)))))
      then err invalid_trusted_principal
      else if contains seen.encryption_keys (to_ascii_lowercase device.encryption_public_key_hex)
      then err invalid_trusted_principal
      else check_signing_key card
          (record seen {
            device_ids = device.id ∷ seen.device_ids;
            encryption_keys =
                to_ascii_lowercase device.encryption_public_key_hex ∷ seen.encryption_keys;
          })
          device.signing_public_key_hex

  unfoldable pub check_devices :
      EmergencyCard → Seen → List TrustedDevice → Result VaultItemValidationError Seen
  check_devices card seen [] = ok seen
  check_devices card seen (d ∷ devices) = do
    seen' ← check_device card seen d
    check_devices card seen' devices

  unfoldable pub check_principal :
      EmergencyCard → Seen → TrustedPrincipal → Result VaultItemValidationError Seen
  check_principal card seen principal =
      if is_nil principal.id
        || (principal.id == emergency_card_id
            || (contains card.retired_principal_ids principal.id
                || (is_blank principal.name
                    || (ltb max_item_title_chars (count principal.name)
                        || (ltb max_item_title_chars (count principal.relation)
                            || (ltb max_trusted_devices_per_principal (length principal.devices)
                                || contains seen.principal_ids principal.id))))))
      then err invalid_trusted_principal
      else check_devices card (record seen { principal_ids = principal.id ∷ seen.principal_ids })
          principal.devices

  unfoldable pub check_principals :
      EmergencyCard → Seen → List TrustedPrincipal → Result VaultItemValidationError Seen
  check_principals card seen [] = ok seen
  check_principals card seen (p ∷ principals) = do
    seen' ← check_principal card seen p
    check_principals card seen' principals

  abbrev pub is_bad_retired_key : Hex → Bool
  is_bad_retired_key key =
      not (key == to_ascii_lowercase key) || not (valid_signing_public_key_hex key)

  unfoldable pub validate_emergency_card : EmergencyCard → Verdict
  validate_emergency_card card =
      if is_too_large card
      then err too_large
      else if any is_large_contact card.contacts
      then err too_large
      else if any is_bad_retired_key card.retired_signing_public_key_hexes
      then err invalid_trusted_principal
      else elim (check_principals card nothing_seen card.principals) [
        | err e ↦ err e
        | ok _ ↦ ok tt
      ]
