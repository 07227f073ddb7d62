-- ===== src/Load/Segment.antt =====
-- The segments of the kernel: the loop over the program headers in `load_kernel` of
-- src/pinion64/load.c. What a new frame holds is the parameter `left`.
pub mod Pages
pub mod Rounds
pub mod Loaded
pub mod Headers
pub mod All
use pinion.Prelude.{ℕ, if◌then◌else◌, suc, ltb, ◌/◌, ◌==◌, ◌+◌, ◌^◌, ◌%◌, ◌||◌, ◌*◌, ◌-◌, zero}
use pinion.Alloc.{pge_alloc}
use pinion.Bytes.{Memory}
use pinion.Load.Copy.{memcpy, memclr}
use pinion.Load.Elf.{Phdr, phdr, pt_load, pt_dynamic}
use pinion.Machine.{Ptr, Cmd, ◌>>=◌, ◌>>◌, get, halt, pure, out_of_fuel}
use pinion.Paging.{get_trans, set_frame}

-- `PF_PRES | PF_WRITE | PF_GLOBL`
abbrev pub kernel_flags : ℕ
kernel_flags = 0x103

module _ (left : Ptr → ℕ → ℕ) where
  -- The memory once a page shows a frame.
  abbrev pub shown : Ptr → (addr : ℕ) → Memory → Memory
  shown page addr m a = if a / 2 ^ 12 == addr / 2 ^ 12 then left page (a % 2 ^ 12) else m a

  -- A new frame for a page. An error of `pcx_set_frame` is not looked at.
  pub map_page : (addr : ℕ) → Memory → Cmd Memory
  map_page addr m = do
    page ← pge_alloc
    k ← get
    r ← set_frame addr 0x1000 (get_trans k page) kernel_flags
    pure (if r == 0 then shown page addr m else m)

  -- The loop over the pages from byte `offset` on, in fewer than `n` rounds.
  pub map_loop : ℕ → (at memsz offset : ℕ) → Memory → Cmd Memory
  map_loop zero at memsz offset m = halt out_of_fuel
  map_loop (suc n) at memsz offset m =
      if ltb offset memsz
      then (do
        m ← map_page ((at + offset) % 2 ^ 64) m
        map_loop n at memsz ((offset + 0x1000) % 2 ^ 64) m)
      else pure m

  -- The pages of a segment, the bytes of the file, and zeros.
  pub map_segment : (base kernel : ℕ) → Phdr → Memory → Cmd Memory
  map_segment base kernel p m =
      if p.type == pt_load || p.type == pt_dynamic
      then (do
        let at = (base + p.vaddr) % 2 ^ 64
        m ← map_loop (p.memsz / 0x1000 + 2) at p.memsz 0 m
        m ← memcpy p.filesz at ((kernel + p.offset) % 2 ^ 64) m
        memclr ((p.memsz + 2 ^ 64 - p.filesz) % 2 ^ 64) ((at + p.filesz) % 2 ^ 64) m)
      else pure m

  -- The loop over the headers from header `i` on, with `n` left: the dynamic section, and the memory. A
  -- header is read once, before its segment is written.
  pub header_loop : (n i phoff phentsize base kernel dynamic : ℕ) → Memory → Cmd (ℕ × Memory)
  header_loop zero i phoff phentsize base kernel dynamic m = pure (dynamic, m)
  header_loop (suc n) i phoff phentsize base kernel dynamic m = do
    let p = phdr m ((kernel + phoff + i * phentsize) % 2 ^ 64)
    m ← map_segment base kernel p m
    let dynamic = if p.type == pt_dynamic then (kernel + p.offset) % 2 ^ 64 else dynamic
    header_loop n (i + 1) phoff phentsize base kernel dynamic m
