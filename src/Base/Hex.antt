-- ===== src/Base/Hex.antt =====
-- The decoding of hexadecimal keys, which apps/api/src/auth.rs and crates/vault-models/src/lib.rs
-- write out alike.
use Prim.Native.Nat.{ℕ, ◌+◌, ◌-◌, ◌*◌, ◌%◌, bit_or}
use mathlib.Core.Bool.{◌&&◌}
use mathlib.Core.Option.{Option, none, some}
use mathlib.Core.List.{List, [], ◌∷◌}
use safeory.Base.Tests.{leb, if◌then◌else◌}

unfoldable pub hex_nibble : ℕ → Option ℕ
hex_nibble byte =
    if leb b'0' byte && leb byte b'9'
    then some (byte - b'0')
    else if leb b'a' byte && leb byte b'f'
    then some (byte - b'a' + 10)
    else if leb b'A' byte && leb byte b'F'
    then some (byte - b'A' + 10)
    else none

-- The loop over the pairs; `high << 4` keeps eight bits.
unfoldable pub decode_pairs : List ℕ → Option (List ℕ)
unfolding hex_nibble
decode_pairs (h ∷ l ∷ text) = elim (hex_nibble h) [
  | none ↦ none
  | some high ↦ elim (hex_nibble l) [
    | none ↦ none
    | some low ↦ elim (decode_pairs text) [
      | none ↦ none
      | some rest ↦ some (bit_or (high * 16 % 256) low ∷ rest)
    ]
  ]
]
decode_pairs _ = some []
