-- ===== src/Load/Image.antt =====
-- The kernel behind the initial thread: `load_kernel` of src/pinion64/load.c. The entry code of the API,
-- the address where pinion is loaded, what new frames hold, and the configuration are parameters;
-- so is a bound on the entries of the dynamic section. The objects and the headers are read as they
-- stand in memory.
pub mod Readable
pub mod Started
use pinion.Load.Copy.{mapped}
use pinion.Prelude.{
  List, ℕ, ◌∷◌, if◌then◌else◌, [], ◌+◌, ◌^◌, ◌-◌, ◌%◌, Bool, Option, true, not, ◌==◌, ◌&&◌, ◌||◌,
  zero,
}
use pinion.Bytes.{Memory, little}
use pinion.Prelude.{none, some}
use pinion.Config.{ConfigItem, read, read_as_ptr}
use pinion.Load.{fixup_kernel, Dynamic, suc, collect, unknown}
use pinion.Load.Elf.{ehdr, is_elf, obje, search_loop}
use pinion.Load.Segment.{header_loop, map_page}
use pinion.Machine.{
  Ptr, Cmd, ◌>>=◌, ◌>>◌, get, halt, modify, pure, out_of_fuel, panic, load, null_pointer, Kernel,
  page_fault,
}

abbrev pub loader_section : List ℕ
loader_section = b'l' ∷ b'o' ∷ b'a' ∷ b'd' ∷ b'e' ∷ b'r' ∷ []

abbrev pub image_property : List ℕ
image_property = b'i' ∷ b'm' ∷ b'a' ∷ b'g' ∷ b'e' ∷ []

abbrev pub base_property : List ℕ
base_property = b'b' ∷ b'a' ∷ b's' ∷ b'e' ∷ []

abbrev pub stack_property : List ℕ
stack_property = b's' ∷ b't' ∷ b'a' ∷ b'c' ∷ b'k' ∷ []

-- The entries of the dynamic section are mapped, up to its end. An entry has 16 bytes, so two pages at most.
section_mapped : ℕ → Kernel → Memory → ℕ → Bool
section_mapped zero k m a = true
section_mapped (suc n) k m a =
    let rest = section_mapped n k m ((a + 16) % 2 ^ 64) in
    mapped k a && mapped k ((a + 15) % 2 ^ 64) && (little m a 8 == 0 || rest)

-- The name of the API is mapped, as far as it is read: up to the place 15.
name_mapped : Kernel → Option Dynamic → Bool
name_mapped k none = true
name_mapped k (some d) =
    let needed = (d.str + d.needed_off) % 2 ^ 64 in
    not (d.str == 0) && mapped k needed && mapped k ((needed + 15) % 2 ^ 64)

-- `fixup_kernel` can read the dynamic section and the name of the API.
pub readable : (base rounds : ℕ) → Kernel → Memory → (dynamic : ℕ) → Bool
readable base rounds k m dynamic =
    not (dynamic == 0)
    && section_mapped rounds k m dynamic
    && name_mapped k (collect rounds m base dynamic unknown)

module _ (entry : ℕ → ℕ) (load_addr : ℕ) (left : Ptr → ℕ → ℕ) (items : List ConfigItem)
    (rounds : ℕ) where
  abbrev pub kernel_base : ℕ
  kernel_base = read_as_ptr items loader_section base_property 0xFFFF_FFFF_0000_0000

  abbrev pub kernel_stack : ℕ
  kernel_stack = read_as_ptr items loader_section stack_property 0xFFFF_FFFF_8000_0000

  -- The object with the name of the image.
  abbrev pub find : (objl : ℕ) → List ℕ → Memory → ℕ
  find objl name m = (obje m objl (search_loop (little m objl 4) m objl name 0)).base

  -- A page fault where the dynamic section or the name of the API is not mapped, as `NULL` is not; the
  -- tables, symbols, names and places of the relocations are taken to be mapped.
  linked_kernel : (dynamic : ℕ) → Memory → Cmd Memory
  linked_kernel dynamic m = do
    k ← get
    if readable kernel_base rounds k m dynamic
        then elim (fixup_kernel entry load_addr kernel_base rounds dynamic m) [
          | none ↦ halt out_of_fuel
          | some m ↦ pure m
        ]
        else halt page_fault

  -- From the check of the header on, for the image at `kernel`.
  pub load_image : (kernel : ℕ) → Memory → Cmd Memory
  load_image kernel m =
      let e = ehdr m kernel in
      if is_elf e
      then (do
        (dynamic, m) ← header_loop left e.phnum 0 e.phoff e.phentsize kernel_base kernel 0 m
        m ← linked_kernel dynamic m
        m ← map_page left ((kernel_stack + 2 ^ 64 - 0x1000) % 2 ^ 64) m
        k ← get
        modify k.active_tcb
            (λ t. record t { rip = (kernel_base + e.entry) % 2 ^ 64; rsp = kernel_stack })
        pure m)
      else halt panic

  pub load_kernel : (objl : ℕ) → Memory → Cmd Memory
  load_kernel objl m = elim (read items loader_section image_property) [
    | none ↦ halt panic
    | some name ↦ load_image (find objl name m) m
  ]
