-- ===== src/Models/Identity/Keys.antt =====
-- The test for canonical X25519 keys (crates/vault-models/src/lib.rs), and the numbers that keys spell.
use safeory.Base.{
  ℕ, ◌+◌, ◌-◌, ◌*◌, ◌^◌, ◌<◌, ◌≡◌, ◌↔◌, refl, Bool, true, false, Option, none, some, List, [], ◌∷◌,
  ltb, length, IsBytes, arith, if◌then◌else◌,
}
use safeory.Models.Identity.{field_modulus, compare_down, is_canonical_x25519_u_coordinate}

-- The number that bytes stand for, the lowest first.
unfoldable pub le_value : List ℕ → ℕ
le_value [] = 0
le_value (b ∷ bytes) = b + 256 * le_value bytes

-- The loop stops with the order of the numbers, and goes on while they are equal.
data Order (a b : ℕ) : Option Bool → Type 0 where
  below : a < b → Order a b (some true)
  above : b < a → Order a b (some false)
  same : a ≡ b → Order a b none

Order-by_bytes :
    (a b x y : ℕ) (o : Option Bool)
    → a < 256
    → b < 256
    → Order x y o
    → Order (a + 256 * x) (b + 256 * y) (elim o [
      | some answer ↦ some answer
      | none ↦ if ltb a b then some true else if ltb b a then some false else none
    ])
Order-by_bytes a b x y _ la lb (below l) = below (omega arith)
Order-by_bytes a b x y _ la lb (above l) = above (omega arith)
Order-by_bytes a b x y _ la lb (same e) = grind (arith, below, above, same)

compare_down-Order :
    (key modulus : List ℕ)
    → IsBytes key
    → IsBytes modulus
    → length key ≡ length modulus
    → Order (le_value key) (le_value modulus) (compare_down key modulus)
unfolding compare_down le_value
compare_down-Order [] [] h k l = same refl
compare_down-Order [] (b ∷ modulus) h k l = absurd (omega arith)
compare_down-Order (a ∷ key) [] h k l = absurd (omega arith)
compare_down-Order (a ∷ key) (b ∷ modulus) h k l =
    Order-by_bytes a b (le_value key) (le_value modulus) (compare_down key modulus) h.0 k.0
      (compare_down-Order key modulus h.1 k.1 (omega arith))

modulus_value : le_value field_modulus ≡ 2 ^ 255 - 19
unfolding le_value
modulus_value = refl

Order-answer :
    (a b : ℕ) (o : Option Bool)
    → Order a b o
    → (elim o as (λ _. Bool) [ none ↦ false | some answer ↦ answer ] ≡ true) ↔ (a < b)
Order-answer a b _ (below l) = (λ _. l, λ _. refl)
Order-answer a b _ (above l) = (λ e. cc, λ k. absurd (omega arith))
Order-answer a b _ (same e) = (λ q. cc, λ k. absurd (omega arith))

-- A public key of 32 bytes is canonical exactly when the number that its bytes spell, the lowest
-- first, is below 2^255 - 19.
pub is_canonical_iff :
    (public_key : List ℕ)
    → IsBytes public_key
    → length public_key ≡ 32
    → (is_canonical_x25519_u_coordinate public_key ≡ true) ↔ (le_value public_key < 2 ^ 255 - 19)
unfolding is_canonical_x25519_u_coordinate
is_canonical_iff public_key h l = rw (← modulus_value) (
    Order-answer (le_value public_key) (le_value field_modulus)
      (compare_down public_key field_modulus)
      (compare_down-Order public_key field_modulus h (omega arith) l))
