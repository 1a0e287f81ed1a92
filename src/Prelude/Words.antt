-- ===== src/Prelude/Words.antt =====
-- Machine integers as bit patterns: an `int64_t` or `uint64_t` is a number below 2 ^ 64, an
-- `int32_t` one below 2 ^ 32. Sums wrap around; an order of signed values compares the patterns
-- moved by half the range.
use Prim.Native.Nat.{ℕ, ◌+◌, ◌-◌, ◌^◌, ◌%◌}
use mathlib.Core.Bool.{Bool}
use openkit_native.Prelude.Tests.{ltb, if◌then◌else◌}

unfoldable pub add64 : ℕ → ℕ → ℕ
add64 a b = (a + b) % 2 ^ 64

unfoldable pub sub64 : ℕ → ℕ → ℕ
sub64 a b = (a + 2 ^ 64 - b) % 2 ^ 64

-- the place of a 64-bit pattern in the order of the signed values
unfoldable pub rank64 : ℕ → ℕ
rank64 a = (a + 2 ^ 63) % 2 ^ 64

unfoldable pub slt64 : ℕ → ℕ → Bool
unfolding rank64
slt64 a b = ltb (rank64 a) (rank64 b)

unfoldable pub rank32 : ℕ → ℕ
rank32 a = (a + 2 ^ 31) % 2 ^ 32

unfoldable pub slt32 : ℕ → ℕ → Bool
unfolding rank32
slt32 a b = ltb (rank32 a) (rank32 b)

-- an `int32_t` converted to `size_t` or `int64_t`
unfoldable pub sign_extend32 : ℕ → ℕ
sign_extend32 a = if ltb a (2 ^ 31) then a else a + (2 ^ 64 - 2 ^ 32)
