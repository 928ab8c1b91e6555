-- ===== src/Base/Words.antt =====
-- Machine integers: a value of `u64` is a number below 2^64, and `checked_add` is `none` past it.
use Prim.Native.Nat.{ℕ, ◌+◌, ◌≤◌, ◌<◌}
use mathlib.Core.Path.{◌≡◌}
use mathlib.Core.Option.{Option, some, none}
use mathlib.Core.Logic.{◌↔◌}
use native.Mathlib.Omega.{arith}
use safeory.Base.Tests.{leb, if◌then◌else◌}

abbrev pub u64_max : ℕ
u64_max = 18_446_744_073_709_551_615

abbrev pub i64_max : ℕ
i64_max = 9_223_372_036_854_775_807

unfoldable pub checked_add : ℕ → ℕ → Option ℕ
checked_add a b = if leb (a + b) u64_max then some (a + b) else none

pub checked_add-some : (a b n : ℕ) → (checked_add a b ≡ some n) ↔ ((n ≡ a + b) × (a + b ≤ u64_max))
unfolding checked_add
checked_add-some a b n = ground arith

pub checked_add-none : (a b : ℕ) → (checked_add a b ≡ none) ↔ (u64_max < a + b)
unfolding checked_add
checked_add-none a b = ground arith
