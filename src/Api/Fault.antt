-- ===== src/Api/Fault.antt =====
-- src/pinion64/api/fault_get_*.c, and `fault`, the handler of every trap, of src/pinion64/init.c.
use pinion.Paging.{get_trans, get_flags}
use pinion.Interrupts.{fire}
use pinion.Core.{unload_tcb}
use pinion.Scheduler.{Next, schedule}
use pinion.FaultQueues.{Queue, enqueue, pagefault, get_queued, miscfault, zombie}
use pinion.Machine.{Ptr, Cmd, Tcb, ◌>>=◌, ◌>>◌, change, load, null, pure, halt, running, panic, get}
use pinion.Prelude.{ℕ, Option, if◌then◌else◌, ◌==◌, ◌+◌, ◌&&◌, not, none, ltb, some}

-- `struct __PINION_pagefault_info`
pub record PagefaultInfo : Type 0 where
  pub thread : ℕ
  pub vaddr : ℕ
  pub paddr : ℕ
  pub flags : ℕ

-- `struct __PINION_miscfault_info`; `type` is the number of the exception
pub record MiscfaultInfo : Type 0 where
  pub thread : ℕ
  pub type : ℕ
  pub errcode : ℕ

-- The result is what the call stores in `*info`, or `none` where it returns false.
pub get_pagefault : (info : Ptr) → Cmd (Option PagefaultInfo)
get_pagefault info = if info == null then pure none else do
  tcb ← get_queued pagefault
  if tcb == null then pure none else do
    t ← load tcb
    k ← get
    pure (
        some (record {
          thread = t.id;
          vaddr = t.fault_addr;
          paddr = get_trans k t.fault_addr;
          flags = get_flags k t.fault_addr;
        }))

pub get_miscfault : (info : Ptr) → Cmd (Option MiscfaultInfo)
get_miscfault info = if info == null then pure none else do
  tcb ← get_queued miscfault
  if tcb == null then pure none else do
    t ← load tcb
    pure (some (record { thread = t.id; type = t.ivect; errcode = t.error }))

pub get_zombie : (info : Ptr) → Cmd (Option ℕ)
get_zombie info = if info == null then pure none else do
  tcb ← get_queued zombie
  if tcb == null then pure none else do t ← load tcb; pure (some t.id)

abbrev pub pagefault_vector : ℕ
pagefault_vector = 0x0080

abbrev pub miscfault_vector : ℕ
miscfault_vector = 0x0081

-- A thread that faults leaves the core for a queue, whose vector fires.
unfoldable pub park : Queue → ℕ → Cmd Next
park q vec = do tcb ← unload_tcb; enqueue q tcb; fire vec; schedule

unfoldable pub timer : Cmd Next
timer = do change (λ k. record k { acknowledged = k.acknowledged + 1 }); schedule

-- The software interrupt by which a stub yields. Its argument 0 lets a thread go that is no longer
-- running.
unfoldable pub yield : Tcb → Cmd Next
yield t = if t.rdi == 0 && not (t.state == running) then (do _ ← unload_tcb; schedule) else schedule

-- `tcb` holds the state of the interrupted thread.
unfoldable pub fault : Ptr → Cmd Next
fault tcb = do
  t ← load tcb
  if t.ivect == 32
      then timer
      else if t.ivect == 0x100
      then yield t
      else if t.ivect == 14
      then park pagefault pagefault_vector
      else if t.ivect == 8
      then halt panic
      else if ltb t.ivect 32
      then park miscfault miscfault_vector
      else pure Next.resume
