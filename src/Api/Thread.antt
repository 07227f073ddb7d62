-- ===== src/Api/Thread.antt =====
-- src/pinion64/api/thread*.c. A thread ID is 32 bits wide.
pub mod Lifecycle
pub mod Calls
pub mod Exit
use pinion.Interrupts.{fire}
use pinion.Scheduler.{add_tcb, rem_tcb}
use pinion.Threads.{tcb_new, tcb_get, tcb_del}
use pinion.FaultQueues.{Queue, get_queued, enqueue, zombie}
use pinion.Machine.{
  Cmd, Ptr, modify, ◌>>=◌, get, load, null, suspended, ◌>>◌, pure, suspended_waiting, queued,
  waiting, running,
}
use pinion.Prelude.{ℕ, ◌^◌, Bool, ◌-◌, if◌then◌else◌, ◌==◌, ◌||◌, false, true, not}

-- `__PINION_THREAD_ID_SELF`
abbrev pub self : ℕ
self = 2 ^ 32 - 1

-- The thread that an ID names, `self` included.
pub resolve : ℕ → Cmd Ptr
resolve thread =
    if thread == self then (do k ← get; t ← load k.active_tcb; tcb_get t.id) else tcb_get thread

set_state : Ptr → ℕ → Cmd (Unit {0})
set_state tcb s = modify tcb (λ t. record t { state = s })

pub create : Cmd ℕ
create = do
  tcb ← tcb_new
  if tcb == null then pure 0 else do set_state tcb suspended; t ← load tcb; pure t.id

-- The `switch` of `thread_pause`.
pub pause_tcb : Ptr → ℕ → Cmd Bool
pause_tcb tcb state =
    if state == suspended || state == suspended_waiting
    then pure true
    else if state == waiting
    then set_state tcb suspended_waiting >> pure true
    else if state == queued
    then (do _ ← rem_tcb tcb; set_state tcb suspended; pure true)
    else if state == running
    then set_state tcb suspended >> pure true
    else pure false

pub pause : ℕ → Cmd Bool
pause thread = do
  tcb ← resolve thread
  if tcb == null then pure false else do t ← load tcb; pause_tcb tcb t.state

-- The `switch` of `thread_resume`.
pub resume_tcb : Ptr → ℕ → Cmd Bool
resume_tcb tcb state =
    if state == suspended
    then (do add_tcb tcb; set_state tcb queued; pure true)
    else if state == suspended_waiting
    then set_state tcb waiting >> pure true
    else pure false

pub resume : ℕ → Cmd Bool
resume thread = do
  tcb ← resolve thread
  if tcb == null then pure false else do t ← load tcb; resume_tcb tcb t.state

pub reap : ℕ → Cmd Bool
reap thread = do
  tcb ← tcb_get thread
  if tcb == null then pure false else do
    t ← load tcb
    if not (t.state == suspended) then pure false else tcb_del tcb >> pure true

-- `__PINION_INTERRUPT_ZOMBIE`
abbrev pub zombie_vector : ℕ
zombie_vector = 0x0082

pub exit : Cmd (Unit {0})
exit = do k ← get; set_state k.active_tcb suspended; enqueue zombie k.active_tcb; fire zombie_vector

-- The deprecated `thread_get_pagefault`, `thread_get_miscfault` and `thread_get_zombie`.
pub get_thread : Queue → Cmd ℕ
get_thread q = do tcb ← get_queued q; if tcb == null then pure 0 else do t ← load tcb; pure t.id
