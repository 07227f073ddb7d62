-- ===== src/MemoryMap.antt =====
-- The physical memory map (pmm_init and pmm_get_high_memory_map of src/pinion64/pmm.c, and
-- src/pinion64/api/memory_map_read.c).
pub mod Cutoff
pub mod Init
use pinion.Prelude.{ℕ, Option, ◌^◌, if◌then◌else◌, ◌-◌, ltb, ◌/◌, none, ◌%◌, some, ◌*◌, ◌+◌}

-- `struct pmm_map_entry`
pub record Region : Type 0 where
  pub base : ℕ
  pub size : ℕ

-- `struct pmm_map`. Entries are kept by index; `count` of them are in use.
pub record Map : Type 0 where
  pub count : ℕ
  pub entry : ℕ → Region

-- The words of `pmm_map_high_space` that follow the count hold 8 entries, those of
-- `pmm_map_low_space` 3.
abbrev pub high_entries : ℕ
high_entries = 8

abbrev pub low_entries : ℕ
low_entries = 3

pub get_high : Map → ℕ → Option Region
get_high high index = if ltb high.count index then none else some (high.entry index)

-- `memory_map_read`: base and limit of a region, both 0 where there is none.
pub read : Map → ℕ → ℕ × ℕ
read high index = elim (get_high high index) [
  | none ↦ (0, 0)
  | some r ↦ (r.base, (r.size + r.base) % 2 ^ 64)
]

-- `-(-(total / 256) & (-1 << 23))`: a 256th of the memory, rounded up to 8 MiB.
pub cutoff : ℕ → ℕ
cutoff total = let x = (2 ^ 64 - total / 256) % 2 ^ 64 in (2 ^ 64 - x / 2 ^ 23 * 2 ^ 23) % 2 ^ 64
