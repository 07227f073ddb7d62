-- ===== src/Boot/Image.antt =====
-- The start with the kernel behind it: `init` of src/pinion64/init.c less what Boot leaves out.
use pinion.Machine.Returns
use pinion.Machine.Returns.{Returns}
use pinion.Scheduler.{Next}
use pinion.Prelude.{ℕ, List, ◌≡◌, ◌%◌, ◌∷◌, ◌⊎◌, ◌+◌, ◌^◌, ◌*◌, ◌-◌, ◌≤◌, [], ◌<◌, true}
use pinion.Boot.{boot}
use pinion.Boot.Start.{Booted}
use pinion.Bytes.{Memory}
use pinion.Config.{ConfigItem}
use pinion.Load.Elf.{Phdr, is_elf, ehdr}
use pinion.Load.Image.{load_kernel}
use pinion.Load.Segment.Headers.{target, Outside, headers, Headers, Off}
use pinion.Load.Segment.Loaded.{pages_of}
use pinion.Machine.{Kernel, Ptr, Cmd, ◌>>◌}
use pinion.MemoryMap.Init.{Found}
use pinion.Paging.{virtual_base}
use pinion.Paging.Setup.Window.{window_base}
use pinion.Paging.Tree.{Tree}
use pinion.Load.Image.Started.{Started, base, top}

-- For the list of objects at `objl`; the other parameters are those of `boot` and of `load_kernel`.
module _ (entry : ℕ → ℕ) (load_addr : ℕ) (left : Ptr → ℕ → ℕ) (items : List ConfigItem)
    (rounds : ℕ) where
  pub init : (start limit : ℕ) → Found → (objl : ℕ) → Memory → Cmd Memory
  init start limit found objl m = do
    boot start limit found
    load_kernel entry load_addr left items rounds objl m

-- A segment of whole pages in the upper half, below the window, and its bytes of the file in the window.
pub record Placed (origin kernel : ℕ) (p : Phdr) : Type 0 where
  pub loads : (p.type ≡ 1) ⊎ (p.type ≡ 2)
  pub aligned : target origin p % 2 ^ 12 ≡ 0
  pub upper : 2 ^ 64 - 2 ^ 48 ≤ target origin p
  pub below : target origin p + 0x1000 * pages_of p ≤ virtual_base
  pub window : virtual_base ≤ (kernel + p.offset) % 2 ^ 64
  pub image_fits : (kernel + p.offset) % 2 ^ 64 + p.filesz < 2 ^ 64
  pub sizes : p.filesz ≤ p.memsz

-- Such segments, the pages of each outside of those of the others.
abbrev pub AllPlaced : (origin kernel : ℕ) → List Phdr → Type 0
AllPlaced origin kernel [] = Unit {0}
AllPlaced origin kernel (p ∷ ps) =
    Placed origin kernel p
    × Outside origin (target origin p) (0x1000 * pages_of p) ps
    × AllPlaced origin kernel ps

module _ (entry : ℕ → ℕ) (load_addr : ℕ) (left : Ptr → ℕ → ℕ) (items : List ConfigItem)
    (rounds : ℕ) where
  abbrev kernel_at : ℕ
  kernel_at = base entry load_addr left items rounds

  abbrev stack_page : ℕ
  stack_page = top entry load_addr left items rounds

  -- An ELF image with such segments, apart from its headers and from the page of the stack.
  pub record Bootable (kernel : ℕ) (ps : List Phdr) (m : Memory) : Type 0 where
    pub elf : is_elf (ehdr m kernel) ≡ true
    pub count : (ehdr m kernel).phnum ≡ headers ps
    pub heads : Headers kernel_at kernel (ehdr m kernel).phoff (ehdr m kernel).phentsize m 0 ps ps
    pub placed : AllPlaced kernel_at kernel ps
    pub stack_aligned : stack_page % 2 ^ 12 ≡ 0
    pub stack_below : stack_page % 2 ^ 48 < window_base
    pub stack_off : Off kernel_at stack_page ps

  -- The initial thread `t` is at the entry of the kernel: after the start in `g`, the kernel has been loaded.
  pub record Begun (kernel : ℕ) (ps : List Phdr) (idle t : Ptr) (m m3 : Memory) (h : Kernel)
      : Type 0 where
    pub booted_at : Kernel
    pub next : Next
    pub level : Ptr → ℕ
    pub booted : Booted idle t next booted_at
    pub started : Started entry load_addr left items rounds kernel 0 ps level booted_at h m m3
    pub rip : (h.tcbs t).rip ≡ (kernel_at + (ehdr m kernel).entry) % 2 ^ 64
