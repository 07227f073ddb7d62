-- ===== src/Unfold/Elf/Segment.antt =====
-- What loading a segment leaves in memory.
use pinion.Prelude.{
  ℕ, if◌then◌else◌, ◌+◌, ltb, ◌≤◌, ◌^◌, ◌⊎◌, ◌≡◌, leb, ◌&&◌, ◌-◌, arith, suc, ◌%◌, update, zero,
  ◌==◌,
}
use pinion.Bytes.{Memory}
use pinion.Unfold.Elf.{copy_loop, load_segment, Program, pinion_phys}

-- The bytes of a segment after `j` have been written of them: those of the file, and 0 behind them.
abbrev pub filled : (m : Memory) (source filesz : ℕ) → ℕ → ℕ
filled m source filesz j = if ltb j filesz then m (source + j) else 0

copy_loop_lem :
    (n source target filesz j : ℕ) (m : Memory) (a : ℕ)
    → source + filesz ≤ 2 ^ 32
    → target + j + n ≤ 2 ^ 32
    → (source + filesz ≤ target) ⊎ (target + j + n ≤ source)
    → copy_loop n source target filesz j m a ≡ (
        if leb (target + j) a && ltb a (target + j + n)
        then filled m source filesz (a - target)
        else m a)
unfolding copy_loop
copy_loop_lem zero source target filesz j m a s t apart = ground arith
copy_loop_lem (suc n) source target filesz j m a s t apart =
    let byte = if ltb j filesz then m ((source + j) % 2 ^ 32) else 0 in
    ground (
      arith,
      copy_loop_lem n source target filesz (j + 1) (update m ((target + j) % 2 ^ 32) byte) a s,
    )

-- Loading a segment, with its part of the file and its target below 4 GiB and apart from each
-- other, gives each byte of memory: where the segment is of type 1, its target holds the bytes
-- of the file and 0 behind them; every other byte stays.
pub load_segment_lem :
    (binary : ℕ) (p : Program) (m : Memory) (a : ℕ)
    → let source = binary + p.offset in
      let target = (p.vaddr + pinion_phys) % 2 ^ 32 in
      source + p.filesz ≤ 2 ^ 32
      → target + p.memsz ≤ 2 ^ 32
      → (source + p.filesz ≤ target) ⊎ (target + p.memsz ≤ source)
      → load_segment binary p m a ≡ (
          if p.type == 1 && leb target a && ltb a (target + p.memsz)
          then filled m source p.filesz (a - target)
          else m a)
unfolding load_segment
load_segment_lem binary p m a s t apart =
    let target = (p.vaddr + pinion_phys) % 2 ^ 32 in
    ground (arith, copy_loop_lem p.memsz (binary + p.offset) target p.filesz 0 m a s)
