-- ===== src/System.antt =====
-- The core between two traps: the calls of the running thread (src/pinion64/api.s) and the traps
-- (src/pinion64/interrupt.s) as events.
pub mod Between
pub mod Keeps
pub mod Calls
pub mod Traps
pub mod Reach
pub mod Fair
use pinion.Prelude.{ℕ, Bool, if◌then◌else◌, Option}
use pinion.Machine.{Tcb, Cmd, ◌>>=◌, ◌>>◌, get, modify, pure}
use pinion.Scheduler.{Next}
use pinion.Api.State.{ThreadState, push, pull}
use pinion.Api.Thread.{pause, resume, exit}
use pinion.Api.Interrupt.{wait, get_tap}
use pinion.Api.Fault.{fault}

-- The calls that yield, less thread_create. The mode of a call is the register that its stub yields
-- with.
pub data Call : Type 0 where
  thread_yield thread_exit interrupt_wait : Call
  thread_pause thread_resume : ℕ → Call
  thread_push_state : ℕ → ℕ → Option ThreadState → Call

abbrev pub mode : Call → ℕ
mode thread_yield = 2
mode thread_exit = 0
mode interrupt_wait = 0
mode (thread_pause thread) = 0
mode (thread_resume thread) = 1
mode (thread_push_state thread class state) = 1

-- The logic of a call.
pub logic : Call → Cmd (Unit {0})
logic thread_yield = pure tt
logic thread_exit = exit
logic interrupt_wait = wait >> pure tt
logic (thread_pause thread) = pause thread >> pure tt
logic (thread_resume thread) = resume thread >> pure tt
logic (thread_push_state thread class state) = push thread class state >> pure tt

-- `save_state_full`: the registers of the interrupted thread go to its TCB, the other fields stay.
abbrev pub save : Tcb → Tcb → Tcb
save regs t = record regs {
  reserved0 = t.reserved0;
  state = t.state;
  id = t.id;
  tap = t.tap;
  next = t.next;
  pcx_id = t.pcx_id;
  fault_addr = t.fault_addr;
  gs = t.gs;
  xstate = t.xstate;
}

-- A trap with these registers.
pub trap : Tcb → Cmd Next
trap regs = do k ← get; modify k.active_tcb (save regs); fault k.active_tcb

-- A trap, or a call and the trap behind it: `int 0xFF`, or an interrupt of the timer that comes
-- between `sti` and `int 0xFF`.
pub data Event : Type 0 where
  interrupted : (regs : Tcb) → Event
  called : (c : Call) (preempted : Bool) (regs : Tcb) → Event

pub exec : Event → Cmd Next
exec (interrupted regs) = trap regs
exec (called c preempted regs) =
    logic c
    >> trap (
        if preempted
        then record regs { ivect = 32 }
        else record regs { ivect = 0x100; rdi = mode c })
