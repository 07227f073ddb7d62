-- ===== src/Scheduler.antt =====
-- The scheduling queue and the switch of threads (src/pinion64/scheduler.c, and ccb_load_tcb,
-- ccb_unload_tcb of src/pinion64/ccb.s).
pub mod Queue
pub mod Push
pub mod Remove
pub mod Invariant
pub mod Steps
pub mod Passed
pub mod Switched
pub mod Schedule
pub mod Place
use pinion.Core.{load_tcb, unload_tcb}
use pinion.Prelude.{ℕ, zero, suc, ◌+◌, ◌-◌, ◌%◌, ◌^◌, Bool, true, false, ◌==◌, if◌then◌else◌}
use pinion.Machine.{
  Ptr, null, Tcb, Kernel, queued, running, out_of_fuel, Cmd, pure, halt, ◌>>=◌, ◌>>◌, get, change,
  load, modify,
}

pub push_tcb : Ptr → Cmd (Unit {0})
push_tcb tcb = do
  modify tcb (λ t. record t { next = null })
  k ← get
  if k.schedule_tail == null
      then change (λ k. record k { schedule_head = tcb })
      else modify k.schedule_tail (λ t. record t { next = tcb })
  change (λ k. record k { schedule_tail = tcb })

-- The result is null if the queue is empty.
pub pull_tcb : Cmd Ptr
pull_tcb = do
  k ← get
  let tcb = k.schedule_head
  if tcb == null
      then pure tt
      else do t ← load tcb; change (λ k. record k { schedule_head = t.next })
  k ← get
  if k.schedule_tail == tcb then change (λ k. record k { schedule_tail = null }) else pure tt
  pure tcb

unfoldable pub add_tcb : Ptr → Cmd (Unit {0})
unfolding push_tcb
add_tcb tcb = push_tcb tcb

-- The body of the loop where `t->next == tcb`.
unlink : (tcb t : Ptr) → Cmd ℕ
unlink tcb t = do
  y ← load tcb
  modify t (λ x. record x { next = y.next })
  k ← get
  if k.schedule_tail == tcb then change (λ k. record k { schedule_tail = t }) else pure tt
  pure 0

rem_loop : ℕ → (tcb t : Ptr) → Cmd ℕ
rem_loop zero tcb t = halt out_of_fuel
rem_loop (suc n) tcb t =
    if t == null
    then pure 1
    else do x ← load t; if x.next == tcb then unlink tcb t else rem_loop n tcb x.next

-- The branch where the TCB is the head.
unlink_head : Ptr → Cmd ℕ
unlink_head tcb = do
  h ← load tcb
  change (λ k. record k { schedule_head = h.next })
  k ← get
  if k.schedule_tail == tcb then change (λ k. record k { schedule_tail = null }) else pure tt
  pure 0

-- One round for each thread that can exist (`TCB_LIMIT`, and the idle TCB), and one to spare.
abbrev pub rounds : ℕ
rounds = 65538

-- 0 if the TCB was in the queue, 1 if not.
pub rem_tcb : Ptr → Cmd ℕ
rem_tcb tcb = do
  k ← get
  if k.schedule_head == tcb then unlink_head tcb else rem_loop rounds tcb k.schedule_head

-- Why control does not return from `scheduler_schedule` to a thread: `idle` waits for interrupts.
pub data Next : Type 0 where
  resume idle : Next

requeue : Ptr → Cmd (Unit {0})
requeue old =
    if old == null then pure tt else do modify old (λ t. record t { state = queued }); push_tcb old

dispatch : Ptr → Cmd Next
dispatch new =
    if new == null
    then (do k ← get; _ ← load_tcb k.idle_tcb; pure idle)
    else (do modify new (λ t. record t { state = running }); _ ← load_tcb new; pure resume)

pub schedule : Cmd Next
schedule = do old ← unload_tcb; requeue old; new ← pull_tcb; dispatch new
