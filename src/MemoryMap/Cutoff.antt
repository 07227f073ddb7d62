-- ===== src/MemoryMap/Cutoff.antt =====
-- The bound between low and high memory.
use pinion.Prelude.{ℕ, ◌<◌, ◌^◌, ◌%◌, ◌≡◌, ◌/◌, ◌≤◌, ◌+◌, arith}
use pinion.MemoryMap.{cutoff}

-- The bound between low and high memory is the least multiple of 8 MiB that is not below a 256th
-- of the memory, for any amount of 64 bits.
pub cutoff_lem :
    (total : ℕ)
    → total < 2 ^ 64
    → (cutoff total % 2 ^ 23 ≡ 0)
      × (total / 256 ≤ cutoff total)
      × (cutoff total < total / 256 + 2 ^ 23)
unfolding cutoff
cutoff_lem total small = (omega arith, omega arith, omega arith)
