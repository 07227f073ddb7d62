-- ===== src/Examples/Loading.antt =====
-- A kernel of one segment, behind the first page tables.
use pinion.Load.Image.Readable.{readable-mapped}
use pinion.Load.Segment.All.{Ended}
use pinion.Load.{with_tag, fixup_kernel}
use pinion.Bytes.Writes.{little-Agree}
use pinion.Prelude.{
  ℕ, arith, ◌+◌, if◌then◌else◌, ◌*◌, ◌≤◌, ◌%◌, refl, ◌==◌, ◌^◌, ◌&&◌, ◌<◌, leb, ◌≡◌, ltb, none, ◌-◌,
  true, List, ◌∷◌, ap, [], inr, ◌∙◌, some,
}
use pinion.Alloc.Bump.{Bump, frame}
use pinion.Bytes.{Memory, little}
use pinion.Examples.World.{world}
use pinion.Machine.{Kernel, Ptr, ok}
use pinion.Paging.{virtual_base, walk}
use pinion.Paging.Setup.{entry_of, window_entry}
use pinion.Paging.Setup.Tables.{Mapped}
use pinion.Paging.Setup.Levels.{first_level, Mapped-Tree}
use pinion.Paging.Setup.Window.{walk-below, window_base}
use pinion.Paging.Tree.{Tree}
use pinion.Paging.{set_frame}
use pinion.Paging.Tree.Added.{NewPage, set_frame-NewPage}
use pinion.Config.{ConfigItem, read}
use pinion.Load.Fixup.{fixup_kernel-unlinked, Tags, fixup_kernel-unlinked}
use pinion.Load.Copy.{mapped}
use pinion.Load.Elf.{Phdr}
use pinion.Load.Image.{loader_section, image_property, readable}
use pinion.Load.Image.Started.{Started}

-- The tables of pcx_init from the frame 0x10_0000 on.
abbrev root : Ptr
root = 0x10_0000 + virtual_base

abbrev first_tables : Ptr → ℕ → ℕ
first_tables p j =
    if p == root && leb 256 j && ltb j 512
    then entry_of (root + 0x1000 * (j - 255))
    else if p == root + 0x1000 * 256 && j == 511
    then entry_of (root + 0x1000 * 257)
    else if p == root + 0x1000 * 257 && ltb j 512
    then window_entry j
    else 0

abbrev loading : Kernel
loading = record world {
  pages = first_tables;
  pcx_root = root;
  pmm_base = virtual_base;
  alloc_base = 0x10_0000 + 0x1000 * 258;
  alloc_limit = 0x2000_0000;
  pge_list = 0;
  tcb_list = 0;
  ccb_list = 0;
}

first_tables-Mapped : Mapped root first_tables
first_tables-Mapped = record {
  lower = λ l small. ground arith;
  upper = λ j small.
      (let high : (leb 256 (256 + j) && ltb (256 + j) 512) ≡ true = ground arith in
        rw high (ap entry_of (omega arith)));
  empty = λ j l few small. ground arith;
  last = λ l small. ground arith;
  window = refl;
  entries = λ l small. ground arith;
}

loading-Tree : Tree (first_level root) (frame loading) root first_tables
loading-Tree = Mapped-Tree 0x10_0000 refl (omega arith) first_tables first_tables-Mapped

loading-Bump : (n : ℕ) → n ≤ 1000 → Bump n loading
loading-Bump n few = record {
  unlocked = (refl, refl, refl);
  ccb_unlocked = refl;
  no_page = refl;
  no_tcb = refl;
  no_ccb = refl;
  mapped = refl;
  aligned = refl;
  room = omega arith;
  low = omega arith;
}

loading-vacant : (a : ℕ) → a % 2 ^ 48 < window_base → walk first_tables 4 root a ≡ none
loading-vacant a low =
    walk-below 0x10_0000 refl (omega arith) first_tables first_tables-Mapped a low

-- The bytes that are not 0, by address.
abbrev pub bytes : List (ℕ × ℕ) → Memory
bytes [] a = 0
bytes ((b, v) ∷ bs) a = if a == b then v else bytes bs a

abbrev pub objects : ℕ
objects = 0xFFFF_FFFF_C070_0000

abbrev pub elf : ℕ
elf = 0xFFFF_FFFF_C080_0000

-- One object, "k": its segment is its dynamic section, with one entry, the place of the names. It has
-- 32 bytes in the file, and 33 in memory.
abbrev pub memory : Memory
memory = bytes (
    (objects, 1)
    ∷ (objects + 10, 0x80)
    ∷ (objects + 11, 0xC0)
    ∷ (objects + 12, 0xFF)
    ∷ (objects + 13, 0xFF)
    ∷ (objects + 14, 0xFF)
    ∷ (objects + 15, 0xFF)
    ∷ (objects + 24, b'k')
    ∷ (elf, 0x7F)
    ∷ (elf + 1, b'E')
    ∷ (elf + 2, b'L')
    ∷ (elf + 3, b'F')
    ∷ (elf + 24, 1)
    ∷ (elf + 32, 64)
    ∷ (elf + 54, 56)
    ∷ (elf + 56, 1)
    ∷ (elf + 64, 2)
    ∷ (elf + 73, 2)
    ∷ (elf + 96, 0x20)
    ∷ (elf + 104, 0x21)
    ∷ (elf + 0x200, 5)
    ∷ (elf + 0x208, 1)
    ∷ [])

abbrev pub segment : Phdr
segment = record {
  type = 2;
  flags = 0;
  offset = 0x200;
  vaddr = 0;
  paddr = 0;
  filesz = 0x20;
  memsz = 0x21;
  align = 0;
}

abbrev pub items : List ConfigItem
items = record { section = loader_section; property = image_property; value = b'k' ∷ [] } ∷ []

abbrev pub entry_code : ℕ → ℕ
entry_code i = 0x2000 + 16 * i

abbrev pub left : Ptr → ℕ → ℕ
left p j = 0xCC

-- The dynamic section in the file is not written.
pub section-laid :
    (m1 : Memory)
    → ((b : ℕ) → elf ≤ b → b < elf + 0x1000 → m1 b ≡ memory b)
    → Tags m1 (elf + 0x200) ((5, 1) ∷ [])
unfolding little
section-laid m1 kept =
    let read : (a : ℕ) → elf ≤ a → a + 8 ≤ elf + 0x1000 → little m1 a 8 ≡ little memory a 8 =
      λ a low high. little-Agree 8 a elf (elf + 0x1000) memory m1 (λ b l h. kept b l h) low high in
    (
      read (elf + 0x200) (omega arith) (omega arith) ∙ refl,
      omega arith,
      read (elf + 0x208) (omega arith) (omega arith) ∙ refl,
      read (elf + 0x210) (omega arith) (omega arith) ∙ refl,
    )

-- It is mapped, and so are the names in the segment.
segment-readable :
    (level1 level : Ptr → ℕ) (k h : Kernel) (m1 : Memory)
    → ((x : ℕ) → elf ≤ x → x < elf + 0x1000 → mapped k x ≡ true)
    → Ended 0xFFFF_FFFF_0000_0000 elf 4 (segment ∷ []) level level1 k h memory m1
    → Tags m1 (elf + 0x200) ((5, 1) ∷ [])
    → readable 0xFFFF_FFFF_0000_0000 2 h m1 (elf + 0x200) ≡ true
unfolding with_tag
segment-readable level1 level k h m1 there ended laid =
    let seen : (x : ℕ) → elf ≤ x → x < elf + 0x1000 → mapped h x ≡ true =
      λ x low high. ended.still x (there x low high) in
    let loaded : (i : ℕ) → i < 33 → mapped h (0xFFFF_FFFF_0000_0000 + i) ≡ true = ended.loaded.0 in
    readable-mapped 0xFFFF_FFFF_0000_0000 ((5, 1) ∷ []) h m1 (elf + 0x200) laid (omega arith)
      (omega arith)
      (
        seen (elf + 0x200) (omega arith) (omega arith),
        seen (elf + 0x20F) (omega arith) (omega arith),
        (
          seen (elf + 0x210) (omega arith) (omega arith),
          seen (elf + 0x21F) (omega arith) (omega arith),
        ),
      )
      (loaded 1 (omega arith)) (loaded 16 (omega arith))

pub segment-linked :
    (level1 level : Ptr → ℕ) (k h : Kernel) (m1 : Memory)
    → ((x : ℕ) → elf ≤ x → x < elf + 0x1000 → mapped k x ≡ true)
    → Ended 0xFFFF_FFFF_0000_0000 elf 4 (segment ∷ []) level level1 k h memory m1
    → (readable 0xFFFF_FFFF_0000_0000 2 h m1 (elf + 0x200) ≡ true)
      × (m2 : Memory) × (fixup_kernel entry_code 0x20_0000 0xFFFF_FFFF_0000_0000 2 (elf + 0x200) m1
          ≡ some m2)
unfolding with_tag
segment-linked level1 level k h m1 there ended =
    let laid = section-laid m1 (λ b low high. ended.bytes b (inr (omega arith), tt)) in
    (
      segment-readable level1 level k h m1 there ended laid,
      m1,
      fixup_kernel-unlinked entry_code 0x20_0000 0xFFFF_FFFF_0000_0000 (elf + 0x200) ((5, 1) ∷ [])
          m1 laid (omega arith) (omega arith) refl,
    )

set_frame-NewPage_example :
    (h : Kernel) × (level' : Ptr → ℕ) × (set_frame 0x40_0000 0x1000 0x7000 3 loading ≡ ok 0 h)
    × NewPage 0 0x40_0000 0x7003 (first_level root) level' loading h
set_frame-NewPage_example =
    set_frame-NewPage 0 0x40_0000 0x7000 3 (first_level root) loading loading-Tree
      (loading-Bump 3 (omega arith)) refl (loading-vacant 0x40_0000 (omega arith)) refl
