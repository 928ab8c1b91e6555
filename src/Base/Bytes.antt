-- ===== src/Base/Bytes.antt =====
-- Bytes as numbers below 256: laws that hold because they hold at every byte.
use Prim.Native.Nat.{ℕ, zero, suc, ◌+◌, ◌*◌, ◌%◌, ◌<◌, bit_and, bit_or, bit_xor}
use mathlib.Core.Path.{◌≡◌, refl}
use mathlib.Core.Bool.{Bool, true, ◌&&◌, ◌||◌, not}
use mathlib.Core.List.{List}
use native.Mathlib.Omega.{arith}
use safeory.Base.Tests.{ltb, eqb, eqb_iff}
use safeory.Base.Lists.{All}

abbrev pub IsBytes : List ℕ → Type 0
IsBytes bytes = All (λ b. b < 256) bytes

unfoldable pub every : ℕ → (ℕ → Bool) → Bool
every zero p = true
every (suc n) p = p n && every n p

-- A test that passes below a bound passes at each number below it.
pub every_at : (n : ℕ) (p : ℕ → Bool) (x : ℕ) → every n p ≡ true → x < n → p x ≡ true
unfolding every
every_at zero p x h l = absurd (omega arith)
every_at (suc n) p x h l = ground (arith, every_at n p x)

pub every_pair :
    (n m : ℕ) (p : ℕ → ℕ → Bool) (x y : ℕ)
    → every n (λ a. every m (p a)) ≡ true
    → x < n
    → y < m
    → p x y ≡ true
every_pair n m p x y h l k = every_at m (p x) y (every_at n (λ a. every m (p a)) x h l) k

nibble_table : every 16 (λ a. every 16 (λ b. eqb (bit_or (a * 16 % 256) b) (a * 16 + b))) ≡ true
unfolding every
nibble_table = refl

-- `(high << 4) | low` on two nibbles.
pub bit_or-nibbles : (a b : ℕ) → a < 16 → b < 16 → bit_or (a * 16 % 256) b ≡ a * 16 + b
bit_or-nibbles a b l k =
    (eqb_iff _ _).0
      (every_pair 16 16 (λ x y. eqb (bit_or (x * 16 % 256) y) (x * 16 + y)) a b nibble_table l k)

mask_table : every 256 (λ a. eqb (bit_and a 15) (a % 16)) ≡ true
unfolding every
mask_table = refl

pub bit_and-nibble : (a : ℕ) → a < 256 → bit_and a 15 ≡ a % 16
bit_and-nibble a l =
    (eqb_iff _ _).0 (every_at 256 (λ x. eqb (bit_and x 15) (x % 16)) a mask_table l)

-- A byte that collects bits: it stays a byte, and is zero only if all that it collects is.
abbrev or_test : ℕ → ℕ → Bool
or_test a b =
    ltb (bit_or a b) 256 && eqb (bit_or a 0) a && (not (eqb (bit_or a b) 0) || (eqb a 0 && eqb b 0))

or_table : every 256 (λ a. every 256 (or_test a)) ≡ true
unfolding every
or_table = refl

pub bit_or_byte :
    (a b : ℕ)
    → a < 256
    → b < 256
    → (bit_or a b < 256) × (bit_or a 0 ≡ a) × (bit_or a b ≡ 0 → (a ≡ 0) × (b ≡ 0))
bit_or_byte a b l k =
    let t = every_pair 256 256 or_test a b or_table l k in
    (ground arith, ground arith, λ h. ground arith)

abbrev xor_test : ℕ → ℕ → Bool
xor_test a b =
    ltb (bit_xor a b) 256 && eqb (bit_xor a a) 0 && (not (eqb (bit_xor a b) 0) || eqb a b)

xor_table : every 256 (λ a. every 256 (xor_test a)) ≡ true
unfolding every
xor_table = refl

pub bit_xor_byte :
    (a b : ℕ)
    → a < 256
    → b < 256
    → (bit_xor a b < 256) × (bit_xor a a ≡ 0) × (bit_xor a b ≡ 0 → a ≡ b)
bit_xor_byte a b l k =
    let t = every_pair 256 256 xor_test a b xor_table l k in
    (ground arith, ground arith, λ h. ground arith)
