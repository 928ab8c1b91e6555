-- ===== src/Api/Auth/Laws.antt =====
-- Round trips of tokens and keys, and what the comparison decides (apps/api/src/auth.rs).
use Prim.Native.Nat.{bit_and, bit_or, bit_xor}
use safeory.Base.{
  ℕ, ◌*◌, ◌/◌, ◌<◌, ◌≡◌, ◌↔◌, refl, Bool, true, false, not, ◌&&◌, some, List, [], ◌∷◌, ◌++◌, nat_eq,
  option_eq, ◌==◌, ==_iff, length, any, all, arith, IsBytes, every, every_at, bit_or-nibbles,
  bit_and-nibble, bit_or_byte, bit_xor_byte, hex_nibble, decode_pairs,
}
use safeory.Api.Auth.{
  device_token_prefix, bearer_prefix, strip_prefix, hex_digit, hex_encode, parse_public_key_hex,
  is_lower_hex, is_valid_device_token, is_ascii_whitespace, bearer_token, collect_diff,
  constant_time_eq, generate_device_token, device_token_hash,
}

abbrev digit_test : ℕ → Bool
digit_test n =
    hex_nibble (hex_digit n) == some n
    && (is_lower_hex (hex_digit n) && not (is_ascii_whitespace (hex_digit n)))

digit_table : every 16 digit_test ≡ true
unfolding every hex_digit hex_nibble
digit_table = refl

-- A digit of a nibble reads back, and is a lower-case digit.
hex_digit_lem :
    (n : ℕ)
    → n < 16
    → (hex_nibble (hex_digit n) ≡ some n)
      × (is_lower_hex (hex_digit n) ≡ true)
      × (is_ascii_whitespace (hex_digit n) ≡ false)
hex_digit_lem n l =
    ground
      (arith, every_at 16 digit_test n digit_table l, ==_iff (hex_nibble (hex_digit n)) (some n))

length-hex_encode : (bytes : List ℕ) → length (hex_encode bytes) ≡ 2 * length bytes
unfolding hex_encode
length-hex_encode [] = refl
length-hex_encode (b ∷ bytes) = omega (arith, length-hex_encode bytes)

decode_pairs-hex_encode :
    (bytes : List ℕ) → IsBytes bytes → decode_pairs (hex_encode bytes) ≡ some bytes
unfolding hex_encode decode_pairs
decode_pairs-hex_encode [] h = refl
decode_pairs-hex_encode (b ∷ bytes) h = ground (
  arith,
  bit_and-nibble b h.0,
  hex_digit_lem (b / 16),
  hex_digit_lem (bit_and b 15),
  bit_or-nibbles (b / 16) (bit_and b 15),
  decode_pairs-hex_encode bytes h.1,
)

-- A key of 32 bytes is read back from its hexadecimal text.
pub parse_public_key_hex-hex_encode :
    (bytes : List ℕ)
    → IsBytes bytes
    → length bytes ≡ 32
    → parse_public_key_hex (hex_encode bytes) ≡ some bytes
unfolding parse_public_key_hex
parse_public_key_hex-hex_encode bytes h l =
    ground (arith, length-hex_encode bytes, decode_pairs-hex_encode bytes h)

hex_encode_digits :
    (bytes : List ℕ)
    → IsBytes bytes
    → (all is_lower_hex (hex_encode bytes) ≡ true)
      × (any is_ascii_whitespace (hex_encode bytes) ≡ false)
unfolding hex_encode all any
hex_encode_digits [] h = (refl, refl)
hex_encode_digits (b ∷ bytes) h =
    let m = bit_and-nibble b h.0 in
    let high = hex_digit_lem (b / 16) (omega arith) in
    let low = hex_digit_lem (bit_and b 15) (omega arith) in
    let (d, w) = hex_encode_digits bytes h.1 in ground arith

strip_prefix-append : (p text : List ℕ) → strip_prefix p (p ++ text) ≡ some text
unfolding strip_prefix
strip_prefix-append [] text = refl
strip_prefix-append (c ∷ p) text = ground (arith, (==_iff c c).1 refl, strip_prefix-append p text)

-- The loop is zero exactly when the bits that it started with are and the lists agree.
collect_diff-zero :
    (diff : ℕ) (left right : List ℕ)
    → diff < 256
    → IsBytes left
    → IsBytes right
    → length left ≡ length right
    → (collect_diff diff left right ≡ 0) ↔ ((diff ≡ 0) × (left ≡ right))
unfolding collect_diff
collect_diff-zero diff [] [] d h k l = (λ e. (e, refl), λ e. e.0)
collect_diff-zero diff [] (b ∷ right) d h k l = absurd (omega arith)
collect_diff-zero diff (a ∷ left) [] d h k l = absurd (omega arith)
collect_diff-zero diff (a ∷ left) (b ∷ right) d h k l =
    let x = bit_xor_byte a b h.0 k.0 in
    let o = bit_or_byte diff (bit_xor a b) d x.0 in
    let ih = collect_diff-zero (bit_or diff (bit_xor a b)) left right o.0 h.1 k.1 (omega arith) in
    ground arith

-- The comparison without early exit decides equality of byte strings of one length.
pub constant_time_eq_iff :
    (left right : List ℕ)
    → IsBytes left
    → IsBytes right
    → length left ≡ length right
    → (constant_time_eq left right ≡ true) ↔ (left ≡ right)
unfolding constant_time_eq
constant_time_eq_iff left right h k l =
    ground (arith, collect_diff-zero 0 left right (omega arith) h k l)

-- A device token made of 32 random bytes comes with its hash, is read back from its authorization
-- header, and is a valid token.
pub bearer_token-generate_device_token :
    (sha256 : List ℕ → List ℕ) (bytes : List ℕ)
    → IsBytes bytes
    → length bytes ≡ 32
    → (token : List ℕ) × (generate_device_token sha256 (some bytes)
        ≡ some (token, device_token_hash sha256 token))
      × (bearer_token (some (bearer_prefix ++ token)) ≡ some token)
      × (is_valid_device_token token ≡ true)
unfolding generate_device_token bearer_token is_valid_device_token any
bearer_token-generate_device_token sha256 bytes h l =
    let (d, w) = hex_encode_digits bytes h in
    let token = device_token_prefix ++ hex_encode bytes in
    (
      token,
      refl,
      ground (arith, w, strip_prefix-append bearer_prefix token),
      ground (
        arith,
        d,
        length-hex_encode bytes,
        strip_prefix-append device_token_prefix (hex_encode bytes),
      ),
    )
