-- ===== src/Load/Image/Started.antt =====
-- What `load_kernel` leaves.
use pinion.Alloc.Bump.{frame, Bump}
use pinion.Load.Copy.Filled.{AllMapped}
use pinion.Paging.{walk}
use pinion.Paging.Tree.{Tree}
use pinion.Load.Segment.Headers.{headers, dynamic_of, Headers, AllLoadable, all_pages, Off}
use pinion.Load.Segment.All.{Ended}
use pinion.Prelude.{ℕ, List, ◌≡◌, ◌+◌, none, true, ◌^◌, ◌%◌, some, ◌⊎◌, ◌-◌, ◌≢◌, ◌<◌, ◌≤◌, ◌*◌}
use pinion.Bytes.{Memory}
use pinion.Config.{ConfigItem}
use pinion.Load.{fixup_kernel}
use pinion.Load.Elf.{Ehdr, ehdr, is_elf, Phdr}
use pinion.Load.Image.{kernel_base, kernel_stack}
use pinion.Machine.{Kernel, Ptr, Tcb, null}
use pinion.Load.Copy.{mapped}

module _ (entry : ℕ → ℕ) (load_addr : ℕ) (left : Ptr → ℕ → ℕ) (items : List ConfigItem)
    (rounds : ℕ) where
  abbrev pub base : ℕ
  base = kernel_base entry load_addr left items rounds

  abbrev pub top : ℕ
  top = (kernel_stack entry load_addr left items rounds + 2 ^ 64 - 0x1000) % 2 ^ 64

  -- The thread at the entry of the kernel.
  abbrev at_entry : Ehdr → Tcb → Tcb
  at_entry e t = record t {
    rip = (base + e.entry) % 2 ^ 64;
    rsp = kernel_stack entry load_addr left items rounds;
  }

  -- The segments are loaded, their links are made, the stack page is mapped, and the active thread is at
  -- the entry of the kernel.
  pub record Started (kernel n : ℕ) (ps : List Phdr) (level : Ptr → ℕ) (k g : Kernel)
      (m m3 : Memory) : Type 0 where
    pub ended_at : Kernel
    pub level1 : Ptr → ℕ
    pub m1 : Memory
    pub m2 : Memory
    pub ended : Ended base kernel (4 + n) ps level level1 k ended_at m m1
    pub links : fixup_kernel entry load_addr base rounds (dynamic_of base kernel 0 ps) m1 ≡ some m2
    pub bytes : (b : ℕ) → (b < top) ⊎ (top + 0x1000 ≤ b) → m3 b ≡ m2 b
    pub stack : AllMapped g top 0x1000
    pub still : (a : ℕ) → mapped ended_at a ≡ true → mapped g a ≡ true
    pub rip : (g.tcbs k.active_tcb).rip ≡ (base + (ehdr m kernel).entry) % 2 ^ 64
    pub rsp : (g.tcbs k.active_tcb).rsp ≡ kernel_stack entry load_addr left items rounds
    pub others : (p : Ptr) → p ≢ k.active_tcb → g.tcbs p ≡ k.tcbs p

  -- An image that load_kernel can load: the headers of its segments, and a page for the stack.
  pub record Startable (kernel n : ℕ) (ps : List Phdr) (level : Ptr → ℕ) (k : Kernel) (m : Memory)
      : Type 0 where
    pub elf : is_elf (ehdr m kernel) ≡ true
    pub count : (ehdr m kernel).phnum ≡ headers ps
    pub heads : Headers base kernel (ehdr m kernel).phoff (ehdr m kernel).phentsize m 0 ps ps
    pub loadable : AllLoadable base kernel k ps
    pub tree : Tree level (frame k) k.pcx_root k.pages
    pub bump : Bump (4 * all_pages ps + (4 + n)) k
    pub top_aligned : top % 2 ^ 12 ≡ 0
    pub top_vacant : walk k.pages 4 k.pcx_root top ≡ none
    pub top_off : Off base top ps
    pub active : k.active_tcb ≢ null
