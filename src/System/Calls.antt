-- ===== src/System/Calls.antt =====
-- Every call of the running thread returns and leaves a sound state.
use pinion.Interrupts.Fire.{Awake}
use pinion.FaultQueues.{zombie}
use pinion.Api.Thread.Exit.{exit-enqueue}
use pinion.Api.Interrupt.Wait.{wait-cases}
use native.Mathlib.Decide.{ℕ_discrete}
use pinion.Prelude.{
  List, length, ◌+◌, ◌<◌, ◌≡◌, arith, ℕ, refl, Bool, ◌≢◌, ◌∈◌, ap, Bool-cases, ◌==◌, inl, inr,
  Option, false, some, none, ◌∙◌,
}
use pinion.System.{
  Call, logic, thread_yield, thread_exit, interrupt_wait, thread_pause, thread_resume,
  thread_push_state,
}
use pinion.System.Between.{Between, Quiet-Moved, fits}
use pinion.System.Keeps.{Still, write-Quiet, unqueued, enqueue-Quiet, fire-Quiet}
use pinion.Scheduler.{rounds}
use pinion.Api.State.{ThreadState, push, is_suspended, pushed}
use pinion.Api.State.Transfer.{push-pushed, push_refused, pushed-state, push-none}
use pinion.Api.Thread.{pause, resume, exit, zombie_vector, self}
use pinion.Api.Thread.Calls.{Ready, named, unnamed_refused, pause-Transition, resume-Transition}
use pinion.Api.Thread.Lifecycle.{Transition}
use pinion.Api.Interrupt.{wait}
use pinion.Threads.Lookup.{lookup}
use pinion.Machine.{Kernel, Ptr, null, running, queued, suspended, waiting, with_tcb}
use pinion.Machine.Returns.{Returns, returns}
use pinion.Machine.Returns

module _ {us : List Ptr} {k : Kernel} {xs : List Ptr} (few : length us + 1 < rounds)
    (b : Between us k xs) (runs : (k.tcbs k.active_tcb).state ≡ running) where
  Between-Ready : Ready k xs
  Between-Ready = record {
    unlocked = b.quiet.unlocked;
    busy = b.busy;
    runs = runs;
    fits = fits b.quiet few;
    scheduled = record {
      queue = b.quiet.scheduled.queue;
      only = b.quiet.scheduled.only;
      all = λ p l e. b.quiet.scheduled.all p (ground (arith, b.quiet.outside p)) e;
      inactive = b.quiet.scheduled.inactive;
    };
  }

  -- A call that changes nothing.
  nothing : {A : Type 0} (a : A) → Still us k a k
  nothing a = (xs, b.quiet, refl)

  Transition-Still :
      {t : Ptr} {s : ℕ} {done : Bool} (r : Bool) (g : Kernel)
      → t ∈ us
      → Transition (λ p. p ∈ us) t k xs s done r g
      → Still us k r g
  Transition-Still r g i tr =
      (_, Quiet-Moved b.quiet i tr.moved tr.scheduled, ap (λ g. g.active_tcb) tr.moved.rest)

  named_known : (thread : ℕ) → named k thread ≢ null → named k thread ∈ us
  named_known thread ne = elim (Bool-cases (thread == self)) [
    | inl e ↦ rw e (b.quiet.named (k.tcbs k.active_tcb).id (λ z. ne (rw e z)))
    | inr e ↦ rw e (b.quiet.named thread (λ z. ne (rw e z)))
  ]

  pause-Still : (thread : ℕ) → Returns (Still us k) (pause thread k)
  pause-Still thread = elim (ℕ_discrete (named k thread) null) [
    | yes e ↦ rw ((unnamed_refused thread Between-Ready e).0) (returns (nothing false))
    | no ne ↦
        let i = named_known thread ne in
        Returns.mono (pause-Transition thread Between-Ready b.quiet.scheduled ne i)
          (λ r g tr. Transition-Still r g i tr)
  ]

  resume-Still : (thread : ℕ) → Returns (Still us k) (resume thread k)
  resume-Still thread = elim (ℕ_discrete (named k thread) null) [
    | yes e ↦ rw ((unnamed_refused thread Between-Ready e).1) (returns (nothing false))
    | no ne ↦
        let i = named_known thread ne in
        Returns.mono (resume-Transition thread Between-Ready b.quiet.scheduled ne i)
          (λ r g tr. Transition-Still r g i tr)
  ]

  wait-Still : Returns (Still us k) (wait k)
  wait-Still = elim (wait-cases k b.busy) [
    | inl e ↦ rw e (
        returns (
          xs,
          write-Quiet b.quiet k.active_tcb (record (k.tcbs k.active_tcb) { state = waiting })
              b.active_known b.quiet.scheduled.inactive (ground arith),
          refl,
        ))
    | inr (n, e) ↦ rw e (returns (nothing n))
  ]

  push-Still :
      (thread class : ℕ) (o : Option ThreadState) → Returns (Still us k) (push thread class o k)
  push-Still thread class none = rw (push-none thread class k) (returns (nothing false))
  push-Still thread class (some s) = elim (ℕ_discrete (lookup k thread) null) [
    | yes e ↦
        rw (push_refused thread class k b.quiet.unlocked (some s) (inl (ground arith)))
          (returns (nothing false))
    | no ne ↦ elim (Bool-cases (is_suspended (k.tcbs (lookup k thread)).state)) [
      | inr e ↦
          rw (push_refused thread class k b.quiet.unlocked (some s) (inr e))
            (returns (nothing false))
      | inl e ↦
          let t = lookup k thread in
          let nq : (k.tcbs t).state ≢ queued = ground arith in
          rw (push-pushed thread class k b.quiet.unlocked s ne e) (
            returns (
              xs,
              write-Quiet b.quiet t (pushed class s (k.tcbs t)) (b.quiet.named thread ne)
                  (unqueued b.quiet t nq) (ground (arith, pushed-state class s (k.tcbs t))),
              refl,
            ))
    ]
  ]

  exit-Still : Returns (Still us k) (exit k)
  exit-Still =
      let t = k.active_tcb in
      let x = record (k.tcbs t) { state = suspended } in
      let q = write-Quiet b.quiet t x b.active_known b.quiet.scheduled.inactive (ground arith) in
      rw (exit-enqueue k b.busy) (
        Returns.bind
          (enqueue-Quiet q zombie t b.busy b.active_known b.quiet.scheduled.inactive (ground arith))
          λ _ g (q', act, st).
            let awake : Awake g =
              λ ne w. ground (arith, st g.active_tcb, ap (λ p. (with_tcb k t x).tcbs p) act) in
            Returns.mono (fire-Quiet q' zombie_vector (omega arith) awake)
              λ _ h (ys, qh, a). (ys, qh, a ∙ act))

  -- The logic of every call.
  pub logic-Still : (c : Call) → Returns (Still us k) (logic c k)
  unfolding logic
  logic-Still thread_yield = returns (nothing tt)
  logic-Still thread_exit = exit-Still
  logic-Still interrupt_wait = Returns.bind wait-Still (λ r g s. returns s)
  logic-Still (thread_pause thread) = Returns.bind (pause-Still thread) (λ r g s. returns s)
  logic-Still (thread_resume thread) = Returns.bind (resume-Still thread) (λ r g s. returns s)
  logic-Still (thread_push_state thread class state) =
      Returns.bind (push-Still thread class state) (λ r g s. returns s)
