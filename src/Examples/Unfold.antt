-- ===== src/Examples/Unfold.antt =====
-- The loader and the tables of the firmware.
use pinion.Acpi.{init_acpi}
use pinion.Acpi.Scan.{Searched, init_acpi-Searched}
use pinion.Bytes.{Memory}
use pinion.MemoryMap.Init.{Found}
use pinion.MemoryMap.{Region}
use pinion.Unfold.Multiboot.Image.{Base, Matches, is_pinion-Matches}
use pinion.Prelude.{
  ◌↔◌, Bool, true, ℕ, [], ◌∷◌, some, ◌≡◌, inl, refl, arith, ◌%◌, if◌then◌else◌, ◌==◌,
}
use pinion.Unfold.Elf.{Program, load_segment}
use pinion.Unfold.Elf.Segment.{load_segment_lem}
use pinion.Unfold.Multiboot.{MmapEntry, mmap_loop, init_mmap, is_pinion, pinion64}
use pinion.Unfold.Multiboot.Regions.{listed, region, mmap_loop-usable}

abbrev memory : Memory
memory a = a % 256

-- two bytes of the file and two that are filled up
abbrev segment : Program
segment = record { type = 1; offset = 16; vaddr = 0; filesz = 2; memsz = 4 }

load_segment_lem_example : load_segment 0x1000 segment memory 0x20_0003 ≡ 0
load_segment_lem_example =
    load_segment_lem 0x1000 segment memory 0x20_0003 (omega arith) (omega arith) (inl (omega arith))

-- usable memory at address 24, and the device memory at every other
abbrev usable_entry : MmapEntry
usable_entry = record { size = 20; base_addr = 0; length = 0x1000; type = 1 }

abbrev other_entry : MmapEntry
other_entry = record { size = 20; base_addr = 0x1000; length = 0x1000; type = 2 }

abbrev memory_map : ℕ → MmapEntry
memory_map a = if a == 24 then usable_entry else other_entry

abbrev regions : ℕ → Region
regions a = record { base = 0; size = 0 }

mmap_loop-usable_example :
    (f : Found) × (mmap_loop 3 memory_map 48 0 0 0 0 regions ≡ some f)
    × (listed f.count f.entry 0 ≡ region usable_entry ∷ [])
    × (init_mmap f ≡ f)
mmap_loop-usable_example =
    mmap_loop-usable (other_entry ∷ usable_entry ∷ []) memory_map 48 0 regions (omega arith)
      (omega arith, refl, omega arith, (omega arith, refl, omega arith, omega arith))

init_acpi-Searched_example : Searched memory 0x10_0000 (init_acpi memory)
init_acpi-Searched_example = init_acpi-Searched memory

-- "b/pinion64"
abbrev path : ℕ → ℕ
path j =
    if j == 0
    then b'b'
    else if j == 1
    then b'/'
    else if j == 2
    then b'p'
    else if j == 3
    then b'i'
    else if j == 4
    then b'n'
    else if j == 5
    then b'i'
    else if j == 6
    then b'o'
    else if j == 7
    then b'n'
    else if j == 8
    then b'6'
    else if j == 9
    then b'4'
    else 0

is_pinion-Matches_example :
    (b : Bool) × (s : ℕ) × (is_pinion 64 path ≡ some b)
    × Base path 10 s
    × ((b ≡ true) ↔ Matches pinion64 path s)
is_pinion-Matches_example =
    is_pinion-Matches 64 10 path (record { ends = refl; within = λ j l. ground arith })
      (omega arith)
