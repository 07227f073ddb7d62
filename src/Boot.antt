-- ===== src/Boot.antt =====
-- From the boot loader to the first thread: `init` of src/pinion64/init.c. The configuration is read
-- before, and the kernel image is loaded behind it (Boot.Image); the LAPIC, which has no part in the
-- memory, and the search for ACPI, which only logs, are left out.
pub mod Idt
pub mod Thread
pub mod Start
pub mod Memory
pub mod Image
use pinion.Alloc.{pge_alloc}
use pinion.Core.{ccb_new}
use pinion.Interrupts.{add_vector_page}
use pinion.MemoryMap.Init.{Found, Pmm}
use pinion.MemoryMap.Init
use pinion.Machine.{
  Kernel, Cmd, ◌>>=◌, ◌>>◌, change, halt, out_of_bounds, pinion_vtable, irq_vtable, null,
  null_pointer, pure,
}
use pinion.Paging.Setup
use pinion.Prelude.{ℕ, some, none, if◌then◌else◌, ◌==◌}
use pinion.Scheduler.{Next, add_tcb, schedule}
use pinion.Threads.{tcb_new}

-- The static variables of pmm.c, less the maps.
abbrev pub with_pmm : Pmm → Kernel → Kernel
with_pmm p k = record k {
  pmm_base = p.base;
  alloc_base = p.alloc_base;
  alloc_limit = p.alloc_limit;
}

pub init_memory : (base limit : ℕ) → Found → Cmd (Unit {0})
init_memory base limit found = elim (Init.init base limit found) [
  | none ↦ halt out_of_bounds
  | some p ↦ change (with_pmm p)
]

-- `idt_init` of src/pinion64/interrupt.s. The gates that it writes to the page are for the processor
-- alone, and are not kept; without a page their writes are through `NULL`.
pub idt_init : Cmd (Unit {0})
idt_init = do
  page ← pge_alloc
  change (λ k. record k { idt = page })
  if page == null then halt null_pointer else pure tt

-- The initial thread.
pub start_thread : Cmd Next
start_thread = do tcb ← tcb_new; add_tcb tcb; schedule

-- `base` and `limit` are the range that `get_pinion_range` gives.
pub boot : (base limit : ℕ) → Found → Cmd Next
boot base limit found = do
  init_memory base limit found
  Setup.init
  idt_init
  ccb_new
  add_vector_page 0x80 pinion_vtable
  add_vector_page 0x100 irq_vtable
  start_thread
