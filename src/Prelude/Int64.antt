-- ===== src/Prelude/Int64.antt =====
-- Go's int64: an integer between -2^63 and 2^63 - 1, with wrap-around.
use Prim.Native.Nat.{ℕ, ◌-◌, ◌%◌, ◌≤◌, ◌<◌}
use mathlib.Core.Path.{◌≡◌}
use native.Mathlib.Omega.{arith}
use lino.Prelude.Tests.{ltb, if◌then◌else◌}
use lino.Prelude.Int.{ℤ, pos, negsuc, pos_part, neg_part, ◌+ℤ◌, ◌-ℤ◌, ◌*ℤ◌}

-- The 64-bit pattern of an integer.
abbrev pattern64 : ℤ → ℕ
pattern64 (pos n) = n % 18446744073709551616
pattern64 (negsuc n) = 18446744073709551615 - n % 18446744073709551616

-- The int64 that a 64-bit pattern stands for.
abbrev signed64 : ℕ → ℤ
signed64 p = if ltb p 9223372036854775808 then pos p else negsuc (18446744073709551615 - p)

unfoldable pub wrap64 : ℤ → ℤ
wrap64 z = signed64 (pattern64 z)

abbrev pub add64 : ℤ → ℤ → ℤ
add64 a b = wrap64 (a +ℤ b)

abbrev pub sub64 : ℤ → ℤ → ℤ
sub64 a b = wrap64 (a -ℤ b)

abbrev pub mul64 : ℤ → ℤ → ℤ
mul64 a b = wrap64 (a *ℤ b)

-- The range of int64.
abbrev pub InRange64 : ℤ → Type 0
InRange64 z = (pos_part z < 9223372036854775808) × (neg_part z ≤ 9223372036854775808)

pub wrap64-InRange64 : (z : ℤ) → InRange64 (wrap64 z)
unfolding wrap64
wrap64-InRange64 z = ground arith

-- In range nothing wraps.
pub wrap64_in_range : (z : ℤ) → InRange64 z → wrap64 z ≡ z
unfolding wrap64
wrap64_in_range (pos n) h = ground arith
wrap64_in_range (negsuc n) h = ground arith
