-- ===== src/Common/Int.antt =====
-- Signed integers over the native numbers, with the order that the range checks use.
use Prim.Native.Nat.{ℕ, suc, ◌+◌, ◌-◌, ◌%◌, ◌^◌, ◌≤◌}
use mathlib.Core.Bool.{Bool}
use runw.Common.Tests.{ltb, if◌then◌else◌}

-- `negsuc n` is -(n + 1).
pub data ℤ : Type 0 where
  pos : ℕ → ℤ
  negsuc : ℕ → ℤ

abbrev pub pos_part : ℤ → ℕ
pos_part (pos n) = n
pos_part (negsuc n) = 0

abbrev pub neg_part : ℤ → ℕ
neg_part (pos n) = 0
neg_part (negsuc n) = suc n

infix 50 ◌≤ℤ◌
abbrev pub ◌≤ℤ◌ : ℤ → ℤ → Type 0
a ≤ℤ b = pos_part a + neg_part b ≤ pos_part b + neg_part a

abbrev pub ltb_ℤ : ℤ → ℤ → Bool
ltb_ℤ a b = ltb (pos_part a + neg_part b) (pos_part b + neg_part a)

-- The least and greatest value of a two's complement type of w bits, and the greatest unsigned one.
abbrev pub int_min : ℕ → ℤ
int_min w = negsuc (2 ^ (w - 1) - 1)

abbrev pub int_max : ℕ → ℤ
int_max w = pos (2 ^ (w - 1) - 1)

abbrev pub uint_max : ℕ → ℤ
uint_max w = pos (2 ^ w - 1)

-- The bits of a value as `int32_t`.
abbrev from_bits32 : ℕ → ℤ
from_bits32 n = if ltb n (2 ^ 31) then pos n else negsuc (2 ^ 32 - 1 - n)

-- The conversion of an `int64_t` to an `int32_t`, which wraps.
abbrev pub to_int32 : ℤ → ℤ
to_int32 (pos n) = from_bits32 (n % 2 ^ 32)
to_int32 (negsuc n) = from_bits32 (2 ^ 32 - 1 - n % 2 ^ 32)
