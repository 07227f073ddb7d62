-- ===== src/Machine.antt =====
-- The state of pinion64 on its one core, and commands over it (src/pinion64/internal.h).
--
-- A `struct tcb *` is an address. The TCBs stand in a store of their own, and so do the 4 KiB pages
-- that `pge_alloc` hands out, as 512 words each: both come from distinct frames. A static variable
-- of a source file is a field of `Kernel`.
pub mod Returns
pub mod Runs
use pinion.Prelude.{ℕ, ◌≡◌, Bool, true, false, ◌==◌, if◌then◌else◌, update}

abbrev pub Ptr : Type 0
Ptr = ℕ

abbrev pub null : Ptr
null = 0

-- `TCB_STATE_*`
abbrev pub free : ℕ
free = 0

abbrev pub suspended_waiting : ℕ
suspended_waiting = 1

abbrev pub suspended : ℕ
suspended = 2

abbrev pub waiting : ℕ
waiting = 3

abbrev pub queued : ℕ
queued = 4

abbrev pub running : ℕ
running = 5

-- `struct tcb`, less the fields that no code reads. `tap` has the indices below 4.
pub record Tcb : Type 0 where
  pub reserved0 : ℕ
  pub state : ℕ
  pub id : ℕ
  pub tap : ℕ → ℕ
  pub next : Ptr
  pub pcx_id : ℕ
  pub fault_addr : ℕ
  pub gs : ℕ
  pub rax : ℕ
  pub rcx : ℕ
  pub rbx : ℕ
  pub rdx : ℕ
  pub rdi : ℕ
  pub rsi : ℕ
  pub rbp : ℕ
  pub r8 : ℕ
  pub r9 : ℕ
  pub r10 : ℕ
  pub r11 : ℕ
  pub r12 : ℕ
  pub r13 : ℕ
  pub r14 : ℕ
  pub r15 : ℕ
  pub xstate : Ptr
  pub ivect : ℕ
  pub error : ℕ
  pub rip : ℕ
  pub cs : ℕ
  pub rflags : ℕ
  pub rsp : ℕ
  pub ss : ℕ

-- The two `struct interrupt_vector_page_vtable` of init.c.
pub data Vtable : Type 0 where
  no_vtable pinion_vtable irq_vtable : Vtable

-- `struct interrupt_vector_page`. `route[i].tap[j]` is word `4 * i + j` of the page `route`.
pub record VectorPage : Type 0 where
  pub route : Ptr
  pub vtable : Vtable

pub record Kernel : Type 0 where
  -- memory, and the mutexes
  pub tcbs : Ptr → Tcb
  pub pages : Ptr → ℕ → ℕ
  pub pmm_locked : Bool
  pub tcb_locked : Bool
  pub pge_locked : Bool
  pub table_locked : Bool
  pub ccb_locked : Bool
  pub ccb_table_locked : Bool
  -- pmm.c
  pub pmm_base : ℕ
  pub alloc_base : ℕ
  pub alloc_limit : ℕ
  -- alloc.s
  pub tcb_list : Ptr
  pub pge_list : Ptr
  pub ccb_list : Ptr
  -- tcb.c: `tcb_table[i]` is a page of 512 pointers, or null
  pub tcb_table : ℕ → Ptr
  -- scheduler.c
  pub schedule_head : Ptr
  pub schedule_tail : Ptr
  pub idle_tcb : Ptr
  -- queues.c
  pub pagefaults : Ptr
  pub miscfaults : Ptr
  pub zombies : Ptr
  -- page.c
  pub pcx_root : Ptr
  -- the CCB of the core (ccb.s), with the stack that an interrupt switches to
  pub active_tcb : Ptr
  pub active_pcx : ℕ
  pub active_pcx_id : ℕ
  pub interrupt_stack : ℕ
  pub acknowledged : ℕ
  -- the other fields of the CCB, the first word of each CCB, and the table of the one core
  pub cstack : ℕ
  pub istack : ℕ
  pub ccb_self : Ptr
  pub ccb_words : Ptr → ℕ
  pub ccb_table : Ptr
  -- interrupt.s
  pub idt : Ptr
  -- interrupt_vector.c
  pub vector_pages : ℕ → VectorPage

-- Why a command does not return.
pub data Stop : Type 0 where
  null_pointer : Stop  -- a read or a write through `NULL`
  out_of_bounds : Stop  -- an index outside a static array
  deadlock : Stop  -- `mutex_acquire` of a mutex that the core itself holds
  panic : Stop  -- `for(;;);`
  page_fault : Stop  -- a read or a write where no page is mapped
  out_of_fuel : Stop  -- a loop of the model had too few rounds

pub data Run (A : Type 0) : Type 0 where
  ok : A → Kernel → Run A
  stop : Stop → Run A

abbrev pub Cmd : Type 0 → Type 0
Cmd A = Kernel → Run A

abbrev pub pure : {A : Type 0} → A → Cmd A
pure = ok

abbrev pub halt : {A : Type 0} → Stop → Cmd A
halt s k = stop s

module _ {A B : Type 0} where
  abbrev pub and_then : Run A → (A → Cmd B) → Run B
  and_then (ok a k) f = f a k
  and_then (stop s) f = stop s

  infixl 5 ◌>>=◌ ◌>>◌
  abbrev pub ◌>>=◌ : Cmd A → (A → Cmd B) → Cmd B
  m >>= f = λ k. and_then (m k) f

  abbrev pub ◌>>◌ : Cmd A → Cmd B → Cmd B
  m >> n = m >>= λ _. n

abbrev pub get : Cmd Kernel
get k = ok k k

abbrev pub change : (Kernel → Kernel) → Cmd (Unit {0})
change f k = ok tt (f k)

abbrev pub with_tcb : Kernel → Ptr → Tcb → Kernel
with_tcb k p t = record k { tcbs = update k.tcbs p t }

-- `pmm_mutex`, the locks of alloc.s, `tcb_table_lock` and `ccb_table_lock`
pub data Mutex : Type 0 where
  pmm_mutex tcb_lock pge_lock ccb_lock table_lock ccb_table_lock : Mutex

abbrev pub is_locked : Mutex → Kernel → Bool
is_locked pmm_mutex k = k.pmm_locked
is_locked tcb_lock k = k.tcb_locked
is_locked pge_lock k = k.pge_locked
is_locked ccb_lock k = k.ccb_locked
is_locked table_lock k = k.table_locked
is_locked ccb_table_lock k = k.ccb_table_locked

abbrev pub set_locked : Mutex → Bool → Kernel → Kernel
set_locked pmm_mutex b k = record k { pmm_locked = b }
set_locked tcb_lock b k = record k { tcb_locked = b }
set_locked pge_lock b k = record k { pge_locked = b }
set_locked ccb_lock b k = record k { ccb_locked = b }
set_locked table_lock b k = record k { table_locked = b }
set_locked ccb_table_lock b k = record k { ccb_table_locked = b }

-- With one core and no interrupts, nobody would release a mutex that is held.
unfoldable pub acquire : Mutex → Cmd (Unit {0})
acquire m k = if is_locked m k then stop deadlock else ok tt (set_locked m true k)

unfoldable pub release : Mutex → Cmd (Unit {0})
release m = change (set_locked m false)

-- `*p`
unfoldable pub load : Ptr → Cmd Tcb
load p k = if p == null then stop null_pointer else ok (k.tcbs p) k

-- an assignment to fields of `*p`
unfoldable pub modify : Ptr → (Tcb → Tcb) → Cmd (Unit {0})
modify p f k = if p == null then stop null_pointer else ok tt (with_tcb k p (f (k.tcbs p)))
