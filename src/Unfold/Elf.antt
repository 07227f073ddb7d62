-- ===== src/Unfold/Elf.antt =====
-- The image of pinion, and how it is put into memory (src/unfold/elf.h, and load_pinion and
-- load_pinion64 of src/unfold/init.c). unfold has 32-bit addresses.
pub mod Segment
use pinion.Bytes.{Memory, little}
use pinion.Prelude.{ℕ, Bool, suc, ◌+◌, if◌then◌else◌, ◌^◌, ltb, ◌*◌, ◌==◌, ◌%◌, update, ◌&&◌, zero}

-- `struct elf64_ehdr`, as far as it is read
pub record Header : Type 0 where
  pub entry : ℕ
  pub phoff : ℕ
  pub phentsize : ℕ
  pub phnum : ℕ

pub header : Memory → ℕ → Header
header m a = record {
  entry = little m (a + 24) 8;
  phoff = little m (a + 32) 8;
  phentsize = little m (a + 54) 2;
  phnum = little m (a + 56) 2;
}

-- `struct elf64_phdr`, as far as it is read
pub record Program : Type 0 where
  pub type : ℕ
  pub offset : ℕ
  pub vaddr : ℕ
  pub filesz : ℕ
  pub memsz : ℕ

pub program : Memory → ℕ → Program
program m a = record {
  type = little m a 4;
  offset = little m (a + 8) 8;
  vaddr = little m (a + 16) 8;
  filesz = little m (a + 32) 8;
  memsz = little m (a + 40) 8;
}

abbrev pub pinion_phys : ℕ
pinion_phys = 0x0020_0000

abbrev pub pinion_base : ℕ
pinion_base = 0xFFFF_FFFF_C020_0000

-- The loop over the bytes of a segment, from byte `j` on, with `n` bytes left.
pub copy_loop : ℕ → (source target filesz j : ℕ) → Memory → Memory
copy_loop zero source target filesz j m = m
copy_loop (suc n) source target filesz j m =
    let byte = if ltb j filesz then m ((source + j) % 2 ^ 32) else 0 in
    copy_loop n source target filesz (j + 1) (update m ((target + j) % 2 ^ 32) byte)

-- One program header: a segment of type 1 is loaded.
pub load_segment : (binary : ℕ) → Program → Memory → Memory
load_segment binary p m =
    if p.type == 1
    then copy_loop p.memsz (binary + p.offset) ((p.vaddr + pinion_phys) % 2 ^ 32) p.filesz 0 m
    else m

-- The loop over the program headers, from number `i` on, with `n` rounds left. Both headers are read
-- as the loop comes to them.
pub load_loop : ℕ → (binary i : ℕ) → Memory → Memory
load_loop zero binary i m = m
load_loop (suc n) binary i m =
    let h = header m binary in
    let at = (binary + h.phoff + h.phentsize * i) % 2 ^ 32 in
    let rest = load_loop n binary (i + 1) (load_segment binary (program m at) m) in
    if ltb i h.phnum then rest else m

-- `load_pinion64`: the entry address, and memory. The number of program headers has 16 bits.
pub load_pinion64 : ℕ → Memory → ℕ × Memory
load_pinion64 binary m =
    let m' = load_loop (2 ^ 16) binary 0 m in
    (((header m' binary).entry + pinion_base) % 2 ^ 64, m')

-- A 64-bit ELF image for AMD64, with the lowest byte first.
pub is_valid : ℕ → Memory → Bool
is_valid elf m =
    m elf == 0x7F
    && m (elf + 1) == b'E'
    && m (elf + 2) == b'L'
    && m (elf + 3) == b'F'
    && m (elf + 4) == 2
    && m (elf + 5) == 1
    && little m (elf + 18) 2 == 62

-- `load_pinion`; the entry 0 stands for an error.
pub load_pinion : ℕ → Memory → ℕ × Memory
load_pinion elf m = if is_valid elf m then load_pinion64 elf m else (0, m)
