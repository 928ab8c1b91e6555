-- ===== src/Examples/Identity.antt =====
-- A trusted person with one device, and the updates of the card (crates/vault-models).
use safeory.Base.{
  ℕ, ◌≡◌, ◌↔◌, ◌<◌, ◌^◌, ◌-◌, refl, true, none, ok, List, [], ◌∷◌, any, all, contains, lookup,
  for_each, here, nat_eq, list_eq, option_eq, arith, decode_pairs,
}
use safeory.Sync.Checks.{is_nil}
use safeory.Models.Identity.{
  Hex, Curves, TrustedDevice, EmergencyCard, decode_public_key_hex, is_ascii_hexdigit,
  is_canonical_x25519_u_coordinate, compare_down, to_ascii_lowercase, is_blank,
}
use safeory.Models.Identity.Card.{
  validate_emergency_card, is_too_large, check_principals, check_principal, check_devices,
  check_device, check_signing_key, valid_device_public_key_hex, active_device_count,
  active_signing_key_count,
}
use safeory.Models.Identity.Keys.{le_value, is_canonical_iff}
use safeory.Models.Identity.Continuity.{
  Binding, bind_principals, replace_cards, replace_card, all_devices, retire_devices,
  retire_principals, retire_signing_keys, set_add, set_extend,
  carry_forward_trusted_identity_retirements, validate_trusted_identity_continuity, continue_device,
  revives,
}
use safeory.Models.Identity.Continuity.Unique.{IsBound, IsRetired}
use safeory.Models.Identity.Continuity.History.{replace_cards_bound, replace_cards_retired}

abbrev public_key : List ℕ
public_key =
    9 ∷ 20 ∷ 31 ∷ 42 ∷ 53 ∷ 64 ∷ 75 ∷ 86 ∷ 97 ∷ 108 ∷ 119 ∷ 2 ∷ 13 ∷ 24 ∷ 35 ∷ 46 ∷ 57 ∷ 68 ∷ 79
    ∷ 90 ∷ 101 ∷ 112 ∷ 123 ∷ 6 ∷ 17 ∷ 28 ∷ 39 ∷ 50 ∷ 61 ∷ 72 ∷ 83 ∷ 94 ∷ []

is_canonical_iff_example :
    (is_canonical_x25519_u_coordinate public_key ≡ true) ↔ (le_value public_key < 2 ^ 255 - 19)
is_canonical_iff_example = is_canonical_iff public_key (omega arith) refl

abbrev key_text : Hex
key_text =
    48 ∷ 57 ∷ 49 ∷ 52 ∷ 49 ∷ 102 ∷ 50 ∷ 97 ∷ 51 ∷ 53 ∷ 52 ∷ 48 ∷ 52 ∷ 98 ∷ 53 ∷ 54 ∷ 54 ∷ 49 ∷ 54
    ∷ 99 ∷ 55 ∷ 55 ∷ 48 ∷ 50 ∷ 48 ∷ 100 ∷ 49 ∷ 56 ∷ 50 ∷ 51 ∷ 50 ∷ 101 ∷ 51 ∷ 57 ∷ 52 ∷ 52 ∷ 52
    ∷ 102 ∷ 53 ∷ 97 ∷ 54 ∷ 53 ∷ 55 ∷ 48 ∷ 55 ∷ 98 ∷ 48 ∷ 54 ∷ 49 ∷ 49 ∷ 49 ∷ 99 ∷ 50 ∷ 55 ∷ 51 ∷ 50
    ∷ 51 ∷ 100 ∷ 52 ∷ 56 ∷ 53 ∷ 51 ∷ 53 ∷ 101 ∷ []

abbrev curves : Curves
curves = record { contributes = λ key. true; verifies = λ key. true }

abbrev phone : TrustedDevice
phone = record {
  id = 20;
  label = "phone";
  encryption_public_key_hex = key_text;
  signing_public_key_hex = none;
}

abbrev card_of : List TrustedDevice → EmergencyCard
card_of devices = record {
  selected_item_ids = [];
  contacts = [];
  principals = record { id = 10; name = "Ada"; relation = "sister"; devices = devices } ∷ [];
  retired_principal_ids = [];
  retired_device_ids = [];
  retired_signing_public_key_hexes = [];
  instructions = "";
}

abbrev bound : Binding
bound = record { principal_id = 10; key = key_text; signing_key = none }

abbrev updates : List EmergencyCard
updates = card_of [] ∷ card_of (phone ∷ []) ∷ []

valid : validate_emergency_card curves (card_of (phone ∷ [])) ≡ ok tt
unfolding validate_emergency_card is_too_large active_device_count active_signing_key_count any
    check_principals check_principal contains is_blank check_devices check_device is_nil
    valid_device_public_key_hex decode_public_key_hex is_ascii_hexdigit all decode_pairs
    is_canonical_x25519_u_coordinate compare_down to_ascii_lowercase check_signing_key
valid = refl

stands : IsBound (card_of (phone ∷ [])) 20 bound
unfolding bind_principals to_ascii_lowercase
stands = here

-- The device is taken off the card, and the update that puts it back is refused.
removed : (replace_cards curves (card_of (phone ∷ [])) updates).retired_device_ids ≡ 20 ∷ []
unfolding replace_cards replace_card carry_forward_trusted_identity_retirements retire_devices
    retire_principals retire_signing_keys set_extend set_add all_devices
    validate_trusted_identity_continuity for_each continue_device bind_principals lookup revives
    validate_emergency_card is_too_large active_device_count active_signing_key_count any
    check_principals check_principal contains is_blank check_devices check_device is_nil
    valid_device_public_key_hex decode_public_key_hex is_ascii_hexdigit all decode_pairs
    is_canonical_x25519_u_coordinate compare_down to_ascii_lowercase check_signing_key
removed = refl

abbrev relabelled : List EmergencyCard
relabelled = card_of (record phone { label = "new phone" } ∷ []) ∷ []

still_stands : IsBound (replace_cards curves (card_of (phone ∷ [])) relabelled) 20 bound
unfolding replace_cards replace_card carry_forward_trusted_identity_retirements retire_devices
    retire_principals retire_signing_keys set_extend set_add all_devices
    validate_trusted_identity_continuity for_each continue_device bind_principals lookup revives
    validate_emergency_card is_too_large active_device_count active_signing_key_count any
    check_principals check_principal contains is_blank check_devices check_device is_nil
    valid_device_public_key_hex decode_public_key_hex is_ascii_hexdigit all decode_pairs
    is_canonical_x25519_u_coordinate compare_down to_ascii_lowercase check_signing_key
still_stands = here

replace_cards_bound_example : ◌≡◌ {A = Binding} bound bound
replace_cards_bound_example =
    replace_cards_bound curves relabelled (card_of (phone ∷ [])) 20 bound bound valid stands
      still_stands

abbrev without : EmergencyCard
without = record (card_of []) { retired_device_ids = 20 ∷ [] }

without_valid : validate_emergency_card curves without ≡ ok tt
unfolding validate_emergency_card is_too_large active_device_count active_signing_key_count any
    check_principals check_principal contains is_blank check_devices is_nil
without_valid = refl

is_out : IsRetired without 20
unfolding contains any
is_out = refl

replace_cards_retired_example :
    ¬ IsBound (replace_cards curves without (card_of (phone ∷ []) ∷ [])) 20 bound
replace_cards_retired_example =
    replace_cards_retired curves (card_of (phone ∷ []) ∷ []) without 20 bound without_valid is_out
