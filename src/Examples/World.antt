-- ===== src/Examples/World.antt =====
-- A state with three threads: thread 1 runs, threads 2 and 3 are queued. Thread 4 waits.
use pinion.Threads.Lookup.{IsThread}
use pinion.Scheduler.Invariant.{Scheduled}
use pinion.Api.Thread.Calls.{Ready}
use pinion.Scheduler.Queue.{IsQueue}
use pinion.Machine.{Tcb, Ptr, Kernel, waiting, running, pinion_vtable, queued, no_vtable}
use pinion.Prelude.{ℕ, List, false, arith, if◌then◌else◌, ◌∷◌, [], ◌==◌, refl, leb, ◌*◌}

abbrev pub blank : Tcb
blank = record {
  reserved0 = 0;
  state = 0;
  id = 0;
  tap = λ i. 0;
  next = 0;
  pcx_id = 0;
  fault_addr = 0;
  gs = 0;
  rax = 0;
  rcx = 0;
  rbx = 0;
  rdx = 0;
  rdi = 0;
  rsi = 0;
  rbp = 0;
  r8 = 0;
  r9 = 0;
  r10 = 0;
  r11 = 0;
  r12 = 0;
  r13 = 0;
  r14 = 0;
  r15 = 0;
  xstate = 0;
  ivect = 0;
  error = 0;
  rip = 0;
  cs = 0;
  rflags = 0;
  rsp = 0;
  ss = 0;
}

abbrev pub thread : ℕ → ℕ → Ptr → Tcb
thread id state next = record blank { id = id; state = state; next = next }

-- tap 0 of thread 4 is on the vector of the zombies
abbrev pub waiter : Tcb
waiter = record (thread 4 waiting 0) { tap = λ i. if i == 0 then 0x82 else 0 }

abbrev pub tcbs : Ptr → Tcb
tcbs p =
    if p == 0x1000
    then thread 1 running 0
    else if p == 0x2000
    then thread 2 queued 0x3000
    else if p == 0x3000
    then thread 3 queued 0
    else if p == 0x4000
    then waiter
    else blank

-- page 0x9000 is the first subtable of the threads, page 0xa000 the routes of pinion's vectors
abbrev pub pages : Ptr → ℕ → ℕ
pages p j =
    if p == 0x9000
    then (if j == 0 then 0 else if leb j 4 then j * 0x1000 else 0)
    else if p == 0xa000
    then (if j == 8 then 0x4000 else 0)
    else 0

abbrev pub world : Kernel
world = record {
  tcbs = tcbs;
  pages = pages;
  pmm_locked = false;
  tcb_locked = false;
  pge_locked = false;
  table_locked = false;
  ccb_locked = false;
  ccb_table_locked = false;
  pmm_base = 0x10_0000;
  alloc_base = 0x1_0000;
  alloc_limit = 0x2_0000;
  tcb_list = 0;
  pge_list = 0;
  ccb_list = 0;
  tcb_table = λ i. if i == 0 then 0x9000 else 0;
  schedule_head = 0x2000;
  schedule_tail = 0x3000;
  idle_tcb = 0x8000;
  pagefaults = 0;
  miscfaults = 0;
  zombies = 0;
  pcx_root = 0xb000;
  active_tcb = 0x1000;
  active_pcx = 0;
  active_pcx_id = 0;
  interrupt_stack = 0x1100;
  acknowledged = 0;
  cstack = 0xc800;
  istack = 0xcc00;
  ccb_self = 0xc000;
  idt = 0;
  ccb_words = λ p. 0;
  ccb_table = 0xc000;
  vector_pages = λ i.
      if i == 1
      then record { route = 0xa000; vtable = pinion_vtable }
      else record { route = 0; vtable = no_vtable };
}

abbrev pub ready_queue : List Ptr
ready_queue = 0x2000 ∷ 0x3000 ∷ []

pub world-IsQueue : IsQueue world ready_queue
world-IsQueue = record { chain = ground arith; tail = refl; distinct = (refl, (refl, tt)) }

pub world-Scheduled : (Live : Ptr → Type 0) → Scheduled Live world ready_queue
world-Scheduled Live = record {
  queue = world-IsQueue;
  only = λ p i. ground arith;
  all = λ p l e. ground arith;
  inactive = refl;
}

pub world-Ready : Ready world ready_queue
world-Ready = record {
  unlocked = refl;
  busy = omega arith;
  runs = refl;
  fits = omega arith;
  scheduled = world-Scheduled (IsThread world);
}
