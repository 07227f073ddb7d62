-- ===== src/Load.antt =====
-- The links of the kernel to pinion (`fixup_kernel` and `relocate` of src/pinion64/load.c). Memory is
-- that of the virtual addresses, by bytes.
pub mod Links
pub mod Elf
pub mod Copy
pub mod Segment
pub mod Image
pub mod Fixup
use pinion.Bytes.{Memory, little, put, text}
use pinion.Options.{◌>>=◌}
use pinion.Prelude.{ℕ, Option, some, none, suc, zero, ◌+◌, ◌*◌, ◌^◌, ◌%◌, ◌==◌, if◌then◌else◌, ltb}
use pinion.Resolve.{resolve}

-- `struct elf64_rela`
pub record Rela : Type 0 where
  pub offset : ℕ
  pub type : ℕ
  pub sym : ℕ
  pub addend : ℕ

unfoldable pub rela : Memory → ℕ → Rela
rela m a = record {
  offset = little m a 8;
  type = little m (a + 8) 4;
  sym = little m (a + 12) 4;
  addend = little m (a + 16) 8;
}

abbrev pub jump_slot : ℕ
jump_slot = 7

abbrev pub relative : ℕ
relative = 8

-- `struct dynamic`, with the place of the name of the API
pub record Dynamic : Type 0 where
  pub str : ℕ
  pub sym : ℕ
  pub syment : ℕ
  pub apirev : ℕ
  pub rel : ℕ
  pub jmprel : ℕ
  pub relsz : ℕ
  pub jmprelsz : ℕ
  pub relent : ℕ
  pub pltgot : ℕ
  pub needed_off : ℕ

abbrev pub unknown : Dynamic
unknown = record {
  str = 0;
  sym = 0;
  syment = 0;
  apirev = 0;
  rel = 0;
  jmprel = 0;
  relsz = 0;
  jmprelsz = 0;
  relent = 24;
  pltgot = 0;
  needed_off = 0;
}

-- One entry of the dynamic section: its tag and its value.
unfoldable pub with_tag : (base tag val : ℕ) → Dynamic → Dynamic
with_tag base tag val d =
    let at = (base + val) % 2 ^ 64 in
    if tag == 5
    then record d { str = at }
    else if tag == 7
    then record d { rel = at }
    else if tag == 8
    then record d { relsz = val }
    else if tag == 9
    then record d { relent = val }
    else if tag == 2
    then record d { jmprelsz = val }
    else if tag == 23
    then record d { jmprel = at }
    else if tag == 1
    then record d { needed_off = val }
    else if tag == 6
    then record d { sym = at }
    else if tag == 11
    then record d { syment = val }
    else if tag == 3
    then record d { pltgot = at }
    else d

-- The loop over the dynamic section from address `a` on, in fewer than `n` rounds. The address is not
-- `NULL`: `fixup_kernel` stops before.
pub collect : ℕ → Memory → (base a : ℕ) → Dynamic → Option Dynamic
collect zero m base a d = none
collect (suc n) m base a d =
    let tag = little m a 8 in
    let rest =
      collect n m base ((a + 16) % 2 ^ 64) (with_tag base tag (little m ((a + 8) % 2 ^ 64) 8) d) in
    if tag == 0 then some d else rest

-- The API revision: the digits at the places 13 and 15 of "libpinion.so.X.Y".
unfoldable pub with_apirev : Memory → Dynamic → Dynamic
with_apirev m d =
    let needed = d.str + d.needed_off in
    record d { apirev = ((m (needed + 13) + 208) * 16 + m (needed + 15) + 208) % 2 ^ 8 }

-- The address of the symbol of a relocation.
unfoldable pub symbol_at : Dynamic → Rela → ℕ
symbol_at d r = (d.sym + d.syment * r.sym) % 2 ^ 64

-- The address of its name.
unfoldable pub name_at : Memory → Dynamic → Rela → ℕ
name_at m d r = (d.str + little m (symbol_at d r) 4) % 2 ^ 64

-- Where a relocation of a kernel at address `base` writes.
unfoldable pub place : (base : ℕ) → Rela → ℕ
place base r = (base + r.offset) % 2 ^ 64

write : ℕ → Option ℕ → Memory → Memory
write a none m = m
write a (some value) m = put 8 a value m

-- The entry code of the API, the address where pinion is loaded, and that of the kernel. No name of the
-- API has 64 characters.
module _ (entry : ℕ → ℕ) (load_addr base : ℕ) where
  -- What a relocation writes; `none` for an unknown type.
  pub linked : Memory → Dynamic → Rela → Option ℕ
  linked m d r =
      if r.type == jump_slot
      then some ((resolve entry load_addr (text 64 m (name_at m d r)) + r.addend) % 2 ^ 64)
      else if r.type == relative
      then some ((base + r.addend) % 2 ^ 64)
      else none

  pub relocate : Dynamic → Rela → Memory → Memory
  relocate d r m = write (place base r) (linked m d r) m

  -- The loop over the relocations from byte `i` on, in fewer than `n` rounds.
  pub relocate_loop : ℕ → Dynamic → ℕ → Memory → Option Memory
  relocate_loop zero d i m = none
  relocate_loop (suc n) d i m =
      let r = rela m ((d.jmprel + i) % 2 ^ 64) in
      let rest = relocate_loop n d ((i + d.relent) % 2 ^ 64) (relocate d r m) in
      if ltb i d.jmprelsz then rest else some m

  -- With a dynamic section of fewer than `n` entries; `none` also for a read through `NULL`, of the
  -- dynamic section or of the name of the API, which is read in any case.
  pub fixup_kernel : (n dynamic : ℕ) → Memory → Option Memory
  fixup_kernel n dynamic m = if dynamic == 0 then none else do
    d ← collect n m base dynamic unknown
    if d.str == 0
        then none
        else if d.jmprel == 0
        then some m
        else relocate_loop (d.jmprelsz + 1) (with_apirev m d) 0 m
