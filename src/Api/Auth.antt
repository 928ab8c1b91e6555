-- ===== src/Api/Auth.antt =====
-- Bearer tokens, keys in hexadecimal and their comparison (apps/api/src/auth.rs). A text is the list
-- of its bytes. The hash function of the sha2 crate is a parameter.
pub mod Laws
use Prim.Native.Nat.{bit_and, bit_or, bit_xor}
use safeory.Base.{
  ℕ, zero, suc, ◌+◌, ◌-◌, ◌*◌, ◌/◌, ◌%◌, Bool, true, false, not, ◌&&◌, ◌||◌, Option, none, some,
  List, [], ◌∷◌, ◌++◌, nat_eq, ◌==◌, leb, length, is_empty, any, all, decode_pairs, if◌then◌else◌,
}

-- "sfo_dev_v1_"
abbrev pub device_token_prefix : List ℕ
device_token_prefix =
    b's' ∷ b'f' ∷ b'o' ∷ b'_' ∷ b'd' ∷ b'e' ∷ b'v' ∷ b'_' ∷ b'v' ∷ b'1' ∷ b'_' ∷ []

-- "Bearer "
abbrev pub bearer_prefix : List ℕ
bearer_prefix = b'B' ∷ b'e' ∷ b'a' ∷ b'r' ∷ b'e' ∷ b'r' ∷ b' ' ∷ []

unfoldable pub strip_prefix : List ℕ → List ℕ → Option (List ℕ)
strip_prefix [] text = some text
strip_prefix (p ∷ ps) [] = none
strip_prefix (p ∷ ps) (c ∷ cs) = if p == c then strip_prefix ps cs else none

-- `HEX`
abbrev hex_table : List ℕ
hex_table =
    b'0' ∷ b'1' ∷ b'2' ∷ b'3' ∷ b'4' ∷ b'5' ∷ b'6' ∷ b'7' ∷ b'8' ∷ b'9' ∷ b'a' ∷ b'b' ∷ b'c' ∷ b'd'
    ∷ b'e' ∷ b'f' ∷ []

-- An index; the code's are below 16, so it never panics.
unfoldable pub byte_at : List ℕ → ℕ → ℕ
byte_at [] i = 0
byte_at (c ∷ cs) zero = c
byte_at (c ∷ cs) (suc i) = byte_at cs i

unfoldable pub hex_digit : ℕ → ℕ
unfolding byte_at
hex_digit n = byte_at hex_table n

unfoldable pub hex_encode : List ℕ → List ℕ
unfolding hex_digit
hex_encode [] = []
hex_encode (byte ∷ bytes) = hex_digit (byte / 16) ∷ hex_digit (bit_and byte 15) ∷ hex_encode bytes

unfoldable pub parse_public_key_hex : List ℕ → Option (List ℕ)
parse_public_key_hex value = if not (length value == 64) then none else decode_pairs value

abbrev pub is_lower_hex : ℕ → Bool
is_lower_hex byte = (leb b'0' byte && leb byte b'9') || (leb b'a' byte && leb byte b'f')

unfoldable pub is_valid_device_token : List ℕ → Bool
is_valid_device_token token = elim (strip_prefix device_token_prefix token) [
  | none ↦ false
  | some material ↦ length material == 64 && all is_lower_hex material
]

-- Space, tab, line feed, form feed and carriage return.
abbrev pub is_ascii_whitespace : ℕ → Bool
is_ascii_whitespace byte = byte == 32 || (byte == 9 || (byte == 10 || (byte == 12 || byte == 13)))

-- The argument is the authorization header where it is present and visible ASCII.
unfoldable pub bearer_token : Option (List ℕ) → Option (List ℕ)
bearer_token none = none
bearer_token (some value) = elim (strip_prefix bearer_prefix value) [
  | none ↦ none
  | some token ↦ if is_empty token || any is_ascii_whitespace token then none else some token
]

-- The loop of `constant_time_eq`, `diff |= a ^ b`.
unfoldable pub collect_diff : ℕ → List ℕ → List ℕ → ℕ
collect_diff diff (a ∷ left) (b ∷ right) = collect_diff (bit_or diff (bit_xor a b)) left right
collect_diff diff _ _ = diff

unfoldable pub constant_time_eq : List ℕ → List ℕ → Bool
constant_time_eq left right = collect_diff 0 left right == 0

-- The two domains of the hashes, each with a zero byte at its end.
abbrev pub device_token_domain : List ℕ
device_token_domain =
    b's' ∷ b'a' ∷ b'f' ∷ b'e' ∷ b'o' ∷ b'r' ∷ b'y' ∷ b':' ∷ b'v' ∷ b'1' ∷ b':' ∷ b'd' ∷ b'e' ∷ b'v'
    ∷ b'i' ∷ b'c' ∷ b'e' ∷ b'-' ∷ b'b' ∷ b'e' ∷ b'a' ∷ b'r' ∷ b'e' ∷ b'r' ∷ 0 ∷ []

abbrev pub registration_token_domain : List ℕ
registration_token_domain =
    b's' ∷ b'a' ∷ b'f' ∷ b'e' ∷ b'o' ∷ b'r' ∷ b'y' ∷ b':' ∷ b'v' ∷ b'1' ∷ b':' ∷ b'd' ∷ b'e' ∷ b'p'
    ∷ b'l' ∷ b'o' ∷ b'y' ∷ b'm' ∷ b'e' ∷ b'n' ∷ b't' ∷ b'-' ∷ b'r' ∷ b'e' ∷ b'g' ∷ b'i' ∷ b's'
    ∷ b't' ∷ b'r' ∷ b'a' ∷ b't' ∷ b'i' ∷ b'o' ∷ b'n' ∷ 0 ∷ []

module _ (sha256 : List ℕ → List ℕ) where
  unfoldable pub hash_secret : List ℕ → List ℕ → List ℕ
  hash_secret domain secret = sha256 (domain ++ secret)

  unfoldable pub device_token_hash : List ℕ → List ℕ
  unfolding hash_secret
  device_token_hash token = hash_secret device_token_domain token

  unfoldable pub registration_token_hash : List ℕ → List ℕ
  unfolding hash_secret
  registration_token_hash token = hash_secret registration_token_domain token

  -- The argument is what the random source gives, if anything.
  unfoldable pub generate_device_token : Option (List ℕ) → Option (List ℕ × List ℕ)
  unfolding device_token_hash
  generate_device_token none = none
  generate_device_token (some bytes) =
      let token = device_token_prefix ++ hex_encode bytes in some (token, device_token_hash token)

  -- `authorize_registration` of apps/api/src/sync.rs: the deployment's secret, hashed at start-up.
  unfoldable pub authorize_registration : List ℕ → Option (List ℕ) → Bool
  unfolding registration_token_hash
  authorize_registration expected_hash header = elim (bearer_token header) [
    | none ↦ false
    | some token ↦ constant_time_eq expected_hash (registration_token_hash token)
  ]
