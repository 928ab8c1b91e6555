-- ===== src/Models/Identity/Continuity.antt =====
-- The retirement and the continuity of trusted identities (crates/vault-models/src/lib.rs), and how
-- `set_emergency_card` of crates/vault-core/src/lib.rs composes them.
pub mod Unique
pub mod Entries
pub mod Step
pub mod History
use safeory.Base.{
  ℕ, Bool, true, false, not, ◌&&◌, ◌||◌, Option, none, some, List, [], ◌∷◌, ◌++◌, map, Result, ok,
  err, ◌>>=◌, ◌>>◌, Eq, nat_eq, list_eq, option_eq, ◌==◌, any, all, contains, lookup, for_each,
  if◌then◌else◌,
}
use safeory.Sync.Types.{Uuid}
use safeory.Models.Identity.{
  Hex, VaultItemValidationError, invalid_trusted_principal, Verdict, TrustedDevice,
  TrustedPrincipal, EmergencyCard, Curves, to_ascii_lowercase,
}
use safeory.Models.Identity.Card.{validate_emergency_card}

abbrev pub lower_signing_key : TrustedDevice → Option Hex
lower_signing_key d = elim d.signing_public_key_hex [
  | none ↦ none
  | some key ↦ some (to_ascii_lowercase key)
]

abbrev pub is_paired : TrustedDevice → Bool
is_paired d = elim d.signing_public_key_hex [ none ↦ false | some _ ↦ true ]

-- `principals.iter().flat_map(|principal| principal.devices.iter())`
unfoldable pub all_devices : List TrustedPrincipal → List TrustedDevice
all_devices [] = []
all_devices (p ∷ principals) = p.devices ++ all_devices principals

unfoldable pub validate_trusted_devices_unpaired : EmergencyCard → Verdict
validate_trusted_devices_unpaired card =
    if any is_paired (all_devices card.principals) then err invalid_trusted_principal else ok tt

module _ {ℓ} {A : Type ℓ} ⦃e : Eq A⦄ where
  -- `insert` and `extend` of a set.
  unfoldable pub set_add : A → List A → List A
  set_add a set = if contains set a then set else a ∷ set

  unfoldable pub set_extend : List A → List A → List A
  unfolding set_add
  set_extend set [] = set
  set_extend set (a ∷ more) = set_extend (set_add a set) more

  abbrev pub is_subset : List A → List A → Bool
  is_subset xs ys = all (contains ys) xs

-- The principals that are gone.
unfoldable pub retire_principals : List Uuid → List Uuid → List TrustedPrincipal → List Uuid
retire_principals next_ids retired [] = retired
retire_principals next_ids retired (p ∷ principals) =
    retire_principals next_ids (if contains next_ids p.id then retired else set_add p.id retired)
      principals

-- The devices that are gone, and their signing keys.
unfoldable pub retire_devices : List Uuid → List Uuid → List TrustedDevice → List Uuid
retire_devices next_ids retired [] = retired
retire_devices next_ids retired (d ∷ devices) =
    retire_devices next_ids (if contains next_ids d.id then retired else set_add d.id retired)
      devices

abbrev pub add_signing_key : Option Hex → List Hex → List Hex
add_signing_key none keys = keys
add_signing_key (some key) keys = set_add (to_ascii_lowercase key) keys

unfoldable pub retire_signing_keys : List Uuid → List Hex → List TrustedDevice → List Hex
retire_signing_keys next_ids retired [] = retired
retire_signing_keys next_ids retired (d ∷ devices) =
    retire_signing_keys next_ids
      (if contains next_ids d.id then retired else add_signing_key d.signing_public_key_hex retired)
      devices

abbrev pub device_ids : EmergencyCard → List Uuid
device_ids card = map (λ (d : TrustedDevice). d.id) (all_devices card.principals)

unfoldable pub carry_forward_trusted_identity_retirements :
    EmergencyCard → EmergencyCard → EmergencyCard
carry_forward_trusted_identity_retirements previous next = record next {
  retired_principal_ids =
      retire_principals (map (λ (p : TrustedPrincipal). p.id) next.principals)
        (set_extend next.retired_principal_ids previous.retired_principal_ids) previous.principals;
  retired_device_ids =
      retire_devices (device_ids next)
        (set_extend next.retired_device_ids previous.retired_device_ids)
        (all_devices previous.principals);
  retired_signing_public_key_hexes =
      retire_signing_keys (device_ids next)
        (set_extend next.retired_signing_public_key_hexes previous.retired_signing_public_key_hexes)
        (all_devices previous.principals);
}

-- What a device's identifier is bound to.
pub record Binding : Type 0 where
  pub principal_id : Uuid
  pub key : Hex
  pub signing_key : Option Hex

abbrev pub Bindings : Type 0
Bindings = List (Uuid × Binding)

abbrev pub binding : Uuid → TrustedDevice → Binding
binding principal_id d = record {
  principal_id = principal_id;
  key = to_ascii_lowercase d.encryption_public_key_hex;
  signing_key = lower_signing_key d;
}

-- The loops that fill the map of the previous devices, the latest entry first.
unfoldable pub bind_trusted_devices : Uuid → Bindings → List TrustedDevice → Bindings
bind_trusted_devices principal_id known [] = known
bind_trusted_devices principal_id known (d ∷ devices) =
    bind_trusted_devices principal_id ((d.id, binding principal_id d) ∷ known) devices

unfoldable pub bind_principals : Bindings → List TrustedPrincipal → Bindings
unfolding bind_trusted_devices
bind_principals known [] = known
bind_principals known (p ∷ principals) =
    bind_principals (bind_trusted_devices p.id known p.devices) principals

abbrev pub bindings : EmergencyCard → Bindings
bindings card = bind_principals [] card.principals

unfoldable pub continue_device : Bindings → Uuid → TrustedDevice → Verdict
continue_device previous_devices principal_id d = elim (lookup d.id previous_devices) [
  | none ↦ if is_paired d then err invalid_trusted_principal else ok tt
  | some b ↦
      if not (b.principal_id == principal_id)
        || (not (b.key == to_ascii_lowercase d.encryption_public_key_hex)
            || not (b.signing_key == lower_signing_key d))
      then err invalid_trusted_principal
      else ok tt
]

unfoldable pub revives : EmergencyCard → TrustedPrincipal → Bool
revives previous p =
    contains previous.retired_principal_ids p.id
    || any (λ (d : TrustedDevice). contains previous.retired_device_ids d.id) p.devices

unfoldable pub validate_trusted_identity_continuity : EmergencyCard → EmergencyCard → Verdict
validate_trusted_identity_continuity previous next =
    if not (is_subset previous.retired_principal_ids next.retired_principal_ids)
      || (not (is_subset previous.retired_device_ids next.retired_device_ids)
          || (not (
                is_subset previous.retired_signing_public_key_hexes
                  next.retired_signing_public_key_hexes)
              || any (revives previous) next.principals))
    then err invalid_trusted_principal
    else for_each
        (λ (p : TrustedPrincipal). for_each (continue_device (bindings previous) p.id) p.devices)
        next.principals

abbrev pub or_keep : EmergencyCard → Result VaultItemValidationError EmergencyCard → EmergencyCard
or_keep previous (ok next) = next
or_keep previous (err _) = previous

module _ (curves : Curves) where
  -- The first emergency card.
  unfoldable pub first_card : EmergencyCard → Result VaultItemValidationError EmergencyCard
  first_card card = do
    validate_emergency_card curves card
    validate_trusted_devices_unpaired card
    ok card

  -- The card that replaces another.
  unfoldable pub replace_card :
      EmergencyCard → EmergencyCard → Result VaultItemValidationError EmergencyCard
  replace_card previous card =
      let next = carry_forward_trusted_identity_retirements previous card in
      do
        validate_emergency_card curves card
        validate_emergency_card curves next
        validate_trusted_identity_continuity previous next
        ok next

  -- The card after a sequence of updates; one that is refused changes nothing.
  unfoldable pub replace_cards : EmergencyCard → List EmergencyCard → EmergencyCard
  replace_cards previous [] = previous
  replace_cards previous (card ∷ cards) =
      replace_cards (or_keep previous (replace_card previous card)) cards
