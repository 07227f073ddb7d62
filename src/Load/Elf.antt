-- ===== src/Load/Elf.antt =====
-- The headers that src/pinion64/load.c reads: of the ELF image, of its segments, and of the objects
-- that the boot loader has found (`struct unfold64_objl` of src/pinion64/internal.h).
use pinion.Prelude.{ℕ, Bool, List, ◌+◌, ◌==◌, ◌&&◌, ◌*◌, suc, if◌then◌else◌, zero}
use pinion.Bytes.{Memory, little, text}
use pinion.Config.{strcmp}

-- `struct elf64_ehdr`, less the fields that are not read
pub record Ehdr : Type 0 where
  pub ident : ℕ → ℕ
  pub entry : ℕ
  pub phoff : ℕ
  pub phentsize : ℕ
  pub phnum : ℕ

unfoldable pub ehdr : Memory → ℕ → Ehdr
ehdr m a = record {
  ident = λ i. m (a + i);
  entry = little m (a + 24) 8;
  phoff = little m (a + 32) 8;
  phentsize = little m (a + 54) 2;
  phnum = little m (a + 56) 2;
}

-- `struct elf64_phdr`
pub record Phdr : Type 0 where
  pub type : ℕ
  pub flags : ℕ
  pub offset : ℕ
  pub vaddr : ℕ
  pub paddr : ℕ
  pub filesz : ℕ
  pub memsz : ℕ
  pub align : ℕ

unfoldable pub phdr : Memory → ℕ → Phdr
phdr m a = record {
  type = little m a 4;
  flags = little m (a + 4) 4;
  offset = little m (a + 8) 8;
  vaddr = little m (a + 16) 8;
  paddr = little m (a + 24) 8;
  filesz = little m (a + 32) 8;
  memsz = little m (a + 40) 8;
  align = little m (a + 48) 8;
}

abbrev pub pt_load : ℕ
pt_load = 1

abbrev pub pt_dynamic : ℕ
pt_dynamic = 2

-- `ELFMAG0` to `ELFMAG3`
unfoldable pub is_elf : Ehdr → Bool
is_elf e = e.ident 0 == 0x7F && e.ident 1 == b'E' && e.ident 2 == b'L' && e.ident 3 == b'F'

-- `struct unfold64_obje`. Names are read up to 64 characters.
pub record Obje : Type 0 where
  pub base : ℕ
  pub size : ℕ
  pub type : ℕ
  pub name : List ℕ

-- Entry `i` of the list at `objl`.
unfoldable pub obje : Memory → (objl i : ℕ) → Obje
obje m objl i =
    let a = objl + 8 + 64 * i in
    record {
      base = little m a 8;
      size = little m (a + 8) 4;
      type = little m (a + 12) 4;
      name = text 64 m (a + 16);
    }

-- The search for the kernel from entry `i` on, with `n` left: the place behind the list if no name
-- matches.
unfoldable pub search_loop : (n : ℕ) → Memory → (objl : ℕ) → List ℕ → (i : ℕ) → ℕ
search_loop zero m objl name i = i
search_loop (suc n) m objl name i =
    let rest = search_loop n m objl name (i + 1) in
    if strcmp (obje m objl i).name name == 0 then i else rest
