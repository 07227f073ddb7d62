-- ===== src/Api/State.antt =====
-- `thread_pull_state` and `thread_push_state` (src/pinion64/api/thread_pull_state.c,
-- thread_push_state.c).
pub mod Transfer
use pinion.Threads.{tcb_get}
use pinion.Machine.{Tcb, Cmd, suspended, pure, suspended_waiting, ◌>>=◌, null, load, modify, ◌>>◌}
use pinion.Prelude.{ℕ, Bool, Option, test_bit, if◌then◌else◌, ◌==◌, ◌||◌, false, some, none, true}

-- `struct __PINION_thread_state`
pub record ThreadState : Type 0 where
  pub rip : ℕ
  pub rsp : ℕ
  pub rbx : ℕ
  pub rbp : ℕ
  pub r12 : ℕ
  pub r13 : ℕ
  pub r14 : ℕ
  pub r15 : ℕ
  pub rax : ℕ
  pub rcx : ℕ
  pub rdx : ℕ
  pub rdi : ℕ
  pub rsi : ℕ
  pub r8 : ℕ
  pub r9 : ℕ
  pub r10 : ℕ
  pub r11 : ℕ
  pub fs : ℕ
  pub gs : ℕ
  pub cs : ℕ
  pub ss : ℕ
  pub ds : ℕ

-- `state_class & c` is not zero: `c` is one bit, but for the callee-saved class with three.
abbrev pub has_ip : ℕ → Bool
has_ip c = test_bit c 0

abbrev pub has_sp : ℕ → Bool
has_sp c = test_bit c 1

abbrev pub has_callee : ℕ → Bool
has_callee c = test_bit c 0 || test_bit c 1 || test_bit c 2

abbrev pub has_caller : ℕ → Bool
has_caller c = test_bit c 3

abbrev pub has_system : ℕ → Bool
has_system c = test_bit c 4

-- What `thread_pull_state` makes of `*state`.
pub pulled : ℕ → Tcb → ThreadState → ThreadState
pulled c t s0 =
    let s1 = if has_ip c then record s0 { rip = t.rip } else s0 in
    let s2 = if has_sp c then record s1 { rsp = t.rsp } else s1 in
    let s3 =
      if has_callee c
      then record s2 {
        rbx = t.rbx;
        rbp = t.rbp;
        r12 = t.r12;
        r13 = t.r13;
        r14 = t.r14;
        r15 = t.r15;
      }
      else s2 in
    let s4 =
      if has_caller c
      then record s3 {
        rax = t.rax;
        rcx = t.rcx;
        rdx = t.rdx;
        rdi = t.rdi;
        rsi = t.rsi;
        r8 = t.r8;
        r9 = t.r9;
        r10 = t.r10;
        r11 = t.r11;
      }
      else s3 in
    if has_system c then record s4 { gs = t.gs; fs = 0; cs = t.cs; ss = t.ss; ds = t.ss } else s4

-- What `thread_push_state` makes of the TCB.
pub pushed : ℕ → ThreadState → Tcb → Tcb
pushed c s t0 =
    let t1 = if has_ip c then record t0 { rip = s.rip } else t0 in
    let t2 = if has_sp c then record t1 { rsp = s.rsp } else t1 in
    let t3 =
      if has_callee c
      then record t2 {
        rbx = s.rbx;
        rbp = s.rbp;
        r12 = s.r12;
        r13 = s.r13;
        r14 = s.r14;
        r15 = s.r15;
      }
      else t2 in
    if has_caller c
    then record t3 {
      rax = s.rax;
      rcx = s.rcx;
      rdx = s.rdx;
      rdi = s.rdi;
      rsi = s.rsi;
      r8 = s.r8;
      r9 = s.r9;
      r10 = s.r10;
      r11 = s.r11;
    }
    else t3

-- The state can be read and written.
abbrev pub is_suspended : ℕ → Bool
is_suspended s = s == suspended || s == suspended_waiting

-- `state` is `none` where the pointer is null. The result is what the call leaves in `*state`, or
-- `none` where it returns false.
pub pull : ℕ → ℕ → Option ThreadState → Cmd (Option ThreadState)
pull thread c none = pure none
pull thread c (some s) = do
  tcb ← tcb_get thread
  if tcb == null
      then pure none
      else do t ← load tcb; pure (if is_suspended t.state then some (pulled c t s) else none)

pub push : ℕ → ℕ → Option ThreadState → Cmd Bool
push thread c none = pure false
push thread c (some s) = do
  tcb ← tcb_get thread
  if tcb == null then pure false else do
    t ← load tcb
    if is_suspended t.state then modify tcb (pushed c s) >> pure true else pure false
