-- ===== src/MemoryMap/Init.antt =====
-- `pmm_init` (src/pinion64/pmm.c).
pub mod Fits
use pinion.Options.{◌>>=◌}
use pinion.Prelude.{
  ℕ, Option, none, some, if◌then◌else◌, ◌+◌, ltb, suc, ◌^◌, update, leb, ◌&&◌, ◌-◌, not, ◌%◌, zero,
}
use pinion.MemoryMap.{Map, Region, cutoff, high_entries, low_entries}

-- `struct unfold_mmap`: the memory in all, and the regions that the boot loader found.
pub record Found : Type 0 where
  pub total : ℕ
  pub count : ℕ
  pub entry : ℕ → Region

-- The two maps and the indices of the loops.
pub record Fill : Type 0 where
  pub low : Map
  pub high : Map
  pub i : ℕ
  pub j : ℕ

-- A write of an entry into the array of a map, which has room for `room`; `none` outside.
pub with_entry : (room : ℕ) → Map → ℕ → Region → Option Map
with_entry room map i r =
    if ltb i room then some (record map { entry = update map.entry i r }) else none

-- The loop over low memory from region `i` on, in at most `n` rounds.
pub low_loop : ℕ → (limit : ℕ) → Found → (i : ℕ) → (low high : Map) → Option Fill
low_loop zero limit found i low high = none
low_loop (suc n) limit found i low high =
    if leb found.count i
    then some (record { low = low; high = high; i = i; j = 0 })
    else if leb 6 i
    then some (record { low = record low { count = i }; high = high; i = 0; j = i })
    else let r = found.entry i in
      if not (ltb r.base limit)
      then some (record { low = record low { count = i }; high = high; i = 0; j = i })
      else if leb ((r.base + r.size) % 2 ^ 64) limit
      then (do low ← with_entry low_entries low i r; low_loop n limit found (i + 1) low high)
      else do
        low ← with_entry low_entries low i (record { base = r.base; size = limit - r.base })
        high ←
            with_entry high_entries high 0
              (record { base = limit; size = (r.size + r.base) % 2 ^ 64 - limit })
        some (record { low = record low { count = i + 1 }; high = high; i = 1; j = i })

-- The loop over high memory: region `i + j` becomes entry `i`.
pub high_loop : ℕ → Found → (i j : ℕ) → Map → Option Map
high_loop zero found i j high = some (record high { count = i })
high_loop (suc n) found i j high =
    if ltb (i + j) found.count && ltb i 16
    then (do
      high ← with_entry high_entries high i (found.entry (i + j))
      high_loop n found (i + 1) j high)
    else some (record high { count = i })

-- The static variables that `pmm_init` sets.
pub record Pmm : Type 0 where
  pub base : ℕ
  pub alloc_base : ℕ
  pub alloc_limit : ℕ
  pub map_cutoff : ℕ
  pub low : Map
  pub high : Map

-- `base` and `limit` are the range that `get_pinion_range` gives. Both maps are zero before. The loops
-- take 7 and 17 rounds at most. `none` is a write outside one of the arrays.
pub init : (base limit : ℕ) → Found → Option Pmm
init base limit found = do
  let pmm_base = (base + 2 ^ 64 - 0x20_0000) % 2 ^ 64
  let bound = cutoff found.total
  let empty : Map = record { count = 0; entry = λ i. record { base = 0; size = 0 } }
  filled ← low_loop 7 bound found 0 empty empty
  high ← high_loop 17 found filled.i filled.j filled.high
  some (record {
    base = pmm_base;
    alloc_base = (limit + 2 ^ 64 - pmm_base) % 2 ^ 64;
    alloc_limit = bound;
    map_cutoff = bound;
    low = filled.low;
    high = high;
  })
