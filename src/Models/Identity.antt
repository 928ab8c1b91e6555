-- ===== src/Models/Identity.antt =====
-- The emergency card with its trusted principals and devices, and its validation
-- (crates/vault-models/src/lib.rs). A key in hexadecimal is the list of its bytes; a `BTreeSet` is a
-- list that holds no element twice, whose order is not used. The checks of the x25519-dalek and
-- ed25519-dalek crates on decoded keys are parameters.
pub mod Card
pub mod Keys
pub mod Continuity
use Prim.Native.String.{count}
use Prim.Native.Char.{code}
use safeory.Base.{
  ℕ, ◌+◌, ◌-◌, String, Bool, true, false, not, ◌&&◌, ◌||◌, Option, none, some, List, [], ◌∷◌, ◌++◌,
  map, Result, ok, err, ◌>>=◌, ◌>>◌, ensure, nat_eq, list_eq, ◌==◌, ltb, leb, length, any, all,
  contains, decode_pairs, if◌then◌else◌,
}
use safeory.Sync.Types.{Uuid}
use safeory.Sync.Checks.{is_nil}

abbrev pub Hex : Type 0
Hex = List ℕ

abbrev pub emergency_card_id : Uuid
emergency_card_id = 0x454D4743415244000000000000000001

abbrev pub max_item_title_chars : ℕ
max_item_title_chars = 256

abbrev pub max_item_notes_chars : ℕ
max_item_notes_chars = 100_000

abbrev pub max_card_items : ℕ
max_card_items = 128

abbrev pub max_card_contacts : ℕ
max_card_contacts = 32

abbrev pub max_trusted_principals : ℕ
max_trusted_principals = 32

abbrev pub max_trusted_devices_per_principal : ℕ
max_trusted_devices_per_principal = 8

abbrev pub max_retired_trusted_principals : ℕ
max_retired_trusted_principals = 288

abbrev pub max_retired_trusted_devices : ℕ
max_retired_trusted_devices = 1280

abbrev pub max_retired_trusted_signing_keys : ℕ
max_retired_trusted_signing_keys = 1280

pub data VaultItemValidationError : Type 0 where
  invalid_legacy_disposition invalid_account_closure_plan : VaultItemValidationError
  invalid_access_policy invalid_trusted_principal too_large : VaultItemValidationError

abbrev pub Verdict : Type 0
Verdict = Result VaultItemValidationError (Unit {0})

pub record EmergencyContact : Type 0 where
  pub name : String
  pub relation : String
  pub phone : String
  pub email : String
  pub notes : String

pub record TrustedDevice : Type 0 where
  pub id : Uuid
  pub label : String
  pub encryption_public_key_hex : Hex
  pub signing_public_key_hex : Option Hex

pub record TrustedPrincipal : Type 0 where
  pub id : Uuid
  pub name : String
  pub relation : String
  pub devices : List TrustedDevice

pub record EmergencyCard : Type 0 where
  pub selected_item_ids : List Uuid
  pub contacts : List EmergencyContact
  pub principals : List TrustedPrincipal
  pub retired_principal_ids : List Uuid
  pub retired_device_ids : List Uuid
  pub retired_signing_public_key_hexes : List Hex
  pub instructions : String

-- `to_ascii_lowercase`
unfoldable pub to_ascii_lowercase : Hex → Hex
to_ascii_lowercase key = map (λ c. if leb b'A' c && leb c b'Z' then c + 32 else c) key

-- `char::is_whitespace`
abbrev is_whitespace : ℕ → Bool
is_whitespace c =
    (leb 9 c && leb c 13)
    || (c == 0x20
        || (c == 0x85
            || (c == 0xa0
                || (c == 0x1680
                    || ((leb 0x2000 c && leb c 0x200a)
                        || (c == 0x2028
                            || (c == 0x2029 || (c == 0x202f || (c == 0x205f || c == 0x3000)))))))))

-- `trim().is_empty()`
unfoldable pub is_blank : String → Bool
is_blank String.[] = true
is_blank (String.◌∷◌ c text) = is_whitespace (code c) && is_blank text

unfoldable pub is_ascii_hexdigit : ℕ → Bool
is_ascii_hexdigit c =
    (leb b'0' c && leb c b'9') || ((leb b'a' c && leb c b'f') || (leb b'A' c && leb c b'F'))

unfoldable pub decode_public_key_hex : Hex → Option (List ℕ)
decode_public_key_hex value =
    if not (length value == 64) || not (all is_ascii_hexdigit value)
    then none
    else decode_pairs value

-- 2 ^ 255 - 19, the lowest byte first.
abbrev pub field_modulus : List ℕ
field_modulus =
    0xed ∷ 0xff ∷ 0xff ∷ 0xff ∷ 0xff ∷ 0xff ∷ 0xff ∷ 0xff ∷ 0xff ∷ 0xff ∷ 0xff ∷ 0xff ∷ 0xff ∷ 0xff
    ∷ 0xff ∷ 0xff ∷ 0xff ∷ 0xff ∷ 0xff ∷ 0xff ∷ 0xff ∷ 0xff ∷ 0xff ∷ 0xff ∷ 0xff ∷ 0xff ∷ 0xff
    ∷ 0xff ∷ 0xff ∷ 0xff ∷ 0xff ∷ 0x7f ∷ []

-- What the loop, which starts at the last byte, has returned before it comes to the bytes in front of
-- these; `none` is that it goes on.
unfoldable pub compare_down : List ℕ → List ℕ → Option Bool
compare_down (a ∷ key) (b ∷ modulus) = elim (compare_down key modulus) [
  | some answer ↦ some answer
  | none ↦ if ltb a b then some true else if ltb b a then some false else none
]
compare_down _ _ = none

unfoldable pub is_canonical_x25519_u_coordinate : List ℕ → Bool
is_canonical_x25519_u_coordinate public_key = elim (compare_down public_key field_modulus) [
  | none ↦ false
  | some answer ↦ answer
]

-- What the crates of the curves answer on 32 bytes: whether the product of the fixed scalar and the
-- point is not zero, and whether the key can be read and is not weak.
pub record Curves : Type 0 where
  pub contributes : List ℕ → Bool
  pub verifies : List ℕ → Bool
