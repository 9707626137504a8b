-- ===== src/Prelude/Int.antt =====
-- Go's `int` before a guard has shown that it is not negative. `negsuc n` is -(n + 1).
use Prim.Native.Nat.{ℕ, ◌+◌, ◌-◌, ◌^◌, ◌%◌}
use kkode.Prelude.Tests.{ltb, if◌then◌else◌}
use mathlib.Core.Bool.{Bool, true, false}

pub data ℤ : Type 0 where
  pos : ℕ → ℤ
  negsuc : ℕ → ℤ

abbrev pub is_negative : ℤ → Bool
is_negative (pos n) = false
is_negative (negsuc n) = true

-- The value behind a guard that refuses negative numbers.
abbrev pub magnitude : ℤ → ℕ
magnitude (pos n) = n
magnitude (negsuc n) = 0

-- Sums from here on wrap to a negative `int`.
abbrev pub int_limit : ℕ
int_limit = 2 ^ 63

-- The sum of two `int`s that are not negative, in 64 bits.
unfoldable pub add_int : ℕ → ℕ → ℤ
add_int a b =
    let sum = (a + b) % 2 ^ 64 in if ltb sum int_limit then pos sum else negsuc (2 ^ 64 - 1 - sum)

unfoldable pub less_int : ℤ → ℕ → Bool
less_int (pos a) b = ltb a b
less_int (negsuc a) b = true
