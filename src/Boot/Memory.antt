-- ===== src/Boot/Memory.antt =====
-- The whole start, from the memory that the boot loader found.
use pinion.Alloc.Bump.{Bump}
use pinion.Boot.{boot, init_memory, with_pmm}
use pinion.Boot.Start.{Booted, Zeroed, Ready, start-Ready}
use pinion.Machine.{Kernel, ok}
use pinion.Machine.Returns
use pinion.Machine.Returns.{Returns}
use pinion.MemoryMap.{cutoff}
use pinion.MemoryMap.Cutoff.{cutoff_lem}
use pinion.MemoryMap.Init.{Found, Pmm}
use pinion.MemoryMap.Init
use pinion.MemoryMap.Init.Fits.{init-range}
use pinion.Paging.{virtual_base}
use pinion.Prelude.{ℕ, ◌≡◌, ◌≤◌, ◌+◌, ◌*◌, ◌-◌, ◌%◌, ◌^◌, arith, refl, subst, some, ◌∷◌, []}
use pinion.System.Reach.{Reach, Possible, Reach-Returns}
use pinion.System.Traps.{Handled}
use pinion.System.{Event, exec}

-- Memory for pinion: its image ends at the address `top` of the window, at a page, and the start has
-- the frames that it takes. The window has 512 MiB of memory for it.
pub record Suited (top : ℕ) (found : Found) : Type 0 where
  pub regions : found.count ≤ 3
  pub aligned : top % 0x1000 ≡ 0
  pub inside : virtual_base ≤ top
  pub room : top - virtual_base + 0x1000 * 264 ≤ cutoff found.total
  pub window : found.total ≤ 2 ^ 37

with_pmm-Zeroed : (p : Pmm) (k : Kernel) → Zeroed k → Zeroed (with_pmm p k)
with_pmm-Zeroed p k z = record {
  allocators = z.allocators;
  ccb_unlocked = z.ccb_unlocked;
  no_page = z.no_page;
  no_tcb = z.no_tcb;
  no_ccb = z.no_ccb;
  no_ccb_table = z.no_ccb_table;
  ccb_table_unlocked = z.ccb_table_unlocked;
  table = z.table;
  unlocked = z.unlocked;
  no_head = z.no_head;
  no_tail = z.no_tail;
  free_state = z.free_state;
  idle = z.idle;
}

-- `pmm_init` gives the frames from the end of the image on.
with_pmm-Bump :
    (n top : ℕ) (found : Found) (p : Pmm) (k : Kernel)
    → Suited top found
    → top - virtual_base + 0x1000 * (264 + n) ≤ cutoff found.total
    → Zeroed k
    → p.base ≡ virtual_base
    → p.alloc_base ≡ top - virtual_base
    → p.alloc_limit ≡ cutoff found.total
    → Bump (264 + n) (with_pmm p k)
with_pmm-Bump n top found p k s more z base first limit =
    let (whole, above, below) = cutoff_lem found.total (ground (arith, s.window)) in
    record {
      unlocked = z.allocators;
      ccb_unlocked = z.ccb_unlocked;
      no_page = z.no_page;
      no_tcb = z.no_tcb;
      no_ccb = z.no_ccb;
      mapped = base;
      aligned = ground (arith, s.aligned, s.inside, first);
      room = ground (arith, more, first, limit);
      low = ground (arith, limit, whole, below, s.window);
    }

init_memory-ok :
    (base top : ℕ) (found : Found) (p : Pmm) (k : Kernel)
    → Init.init base top found ≡ some p
    → init_memory base top found k ≡ ok tt (with_pmm p k)
unfolding init_memory
init_memory-ok base top found p k e = rw (init_memory, e) refl

-- With `n` more frames the start leaves these.
pub boot-Ready :
    (n top : ℕ) (found : Found) (k : Kernel)
    → Suited top found
    → top - virtual_base + 0x1000 * (264 + n) ≤ cutoff found.total
    → Zeroed k
    → Returns
        (λ r g. Booted k.idle_tcb (top + 0x1000 * 262) r g × Ready n top g)
        (boot (virtual_base + 0x20_0000) top found k)
unfolding boot
boot-Ready n top found k s more z =
    let (p, e, base, first, limit, cut, low, high) =
      init-range found (virtual_base + 0x20_0000) top s.regions in
    let (whole, above, below) = cutoff_lem found.total (ground (arith, s.window)) in
    let at : p.base ≡ virtual_base = ground (arith, base) in
    let begin : p.alloc_base ≡ top - virtual_base =
      ground (arith, first, at, s.inside, s.room, s.window, below) in
    let bump = with_pmm-Bump n top found p k s more z at begin limit in
    let address : p.alloc_base + virtual_base ≡ top = ground (arith, begin, s.inside) in
    rw (init_memory-ok (virtual_base + 0x20_0000) top found p k e) (
      Returns.mono (start-Ready n (with_pmm p k) bump (with_pmm-Zeroed p k z))
        λ r g. subst (λ t. Booted k.idle_tcb (t + 0x1000 * 262) r g × Ready n t g) address)

-- For up to three regions, an image of pinion that ends at a page of its window, a memory of at
-- most 128 GiB whose share for pinion has the 264 frames behind the image that the start takes,
-- static variables that are zero, an idle TCB, and memory without threads: the start, from
-- pmm_init to the first scheduler_schedule, returns and lets a thread run. It has the ID 1 and
-- no other ID names a thread; its TCB is the 263rd of these frames. The state is one between two
-- traps with an empty scheduling queue, exactly the window of pinion is mapped, and both pages
-- of interrupt vectors are there, without a route.
pub boot-Booted :
    (top : ℕ) (found : Found) (k : Kernel)
    → Suited top found
    → Zeroed k
    → Returns (Booted k.idle_tcb (top + 0x1000 * 262)) (boot (virtual_base + 0x20_0000) top found k)
boot-Booted top found k s z =
    Returns.mono (boot-Ready 0 top found k s (let room = s.room in omega arith) z)
      λ r g both. both.0

-- For such a machine, the start returns in a state from which, after any run of possible events
-- of the initial thread, every possible event returns and hands over to the initial thread or to
-- idle in a state between two traps.
pub boot-Reach :
    (top : ℕ) (found : Found) (k : Kernel)
    → Suited top found
    → Zeroed k
    → Returns
        (λ _ g.
          (h : Kernel)
          → Reach g h
          → (e : Event) → Possible e h
          → Returns (Handled (k.idle_tcb ∷ (top + 0x1000 * 262) ∷ [])) (exec e h))
        (boot (virtual_base + 0x20_0000) top found k)
boot-Reach top found k s z =
    Returns.mono (boot-Booted top found k s z)
      λ _ g b h reach. (Reach-Returns (omega arith) b.between reach).1
