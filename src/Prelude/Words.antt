-- ===== src/Prelude/Words.antt =====
-- Machine words as native numbers, and their bits. A flag is named by its position.
use Prim.Native.Nat.{ℕ, ◌+◌, ◌-◌, ◌/◌, ◌%◌, ◌^◌}
use mathlib.Core.Bool.{Bool}
use pinion.Prelude.Tests.{◌==◌, if◌then◌else◌}

-- `x & (1 << k)` as a condition.
abbrev pub test_bit : ℕ → ℕ → Bool
test_bit x k = x / 2 ^ k % 2 == 1

-- `x & ((1 << k) - 1)`
abbrev pub low_bits : ℕ → ℕ → ℕ
low_bits x k = x % 2 ^ k

-- `x | (1 << k)`
abbrev pub set_bit : ℕ → ℕ → ℕ
set_bit x k = if test_bit x k then x else x + 2 ^ k

-- `x &~ (1 << k)`
abbrev pub clear_bit : ℕ → ℕ → ℕ
clear_bit x k = if test_bit x k then x - 2 ^ k else x
