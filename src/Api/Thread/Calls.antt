-- ===== src/Api/Thread/Calls.antt =====
-- `thread_pause` and `thread_resume` by thread ID.
use pinion.Scheduler.Invariant.{Scheduled}
use pinion.Api.Thread.Lifecycle.{Transition, paused, pause_tcb-paused, resumed, resume_tcb-resumed}
use pinion.Machine.Runs.{load-ok}
use pinion.Machine.Returns.{Returns}
use pinion.Scheduler.{rounds}
use pinion.Threads.Lookup.{IsThread, lookup, tcb_get-lookup}
use pinion.Api.Thread.{resolve, pause, false, self, null, running}
use pinion.Machine.{Kernel, Ptr, ok, null, running}
use pinion.Api.Thread.{resume}
use pinion.Prelude.{
  ℕ, List, if◌then◌else◌, ◌≡◌, false, Bool-cases, ◌≢◌, ◌==◌, inl, length, inr, ◌+◌, ne→==, ◌<◌,
  eq→==,
}

-- The thread that an ID names: `self` names the one that runs.
abbrev pub named : Kernel → ℕ → Ptr
named k thread = if thread == self then lookup k (k.tcbs k.active_tcb).id else lookup k thread

-- Between two calls some thread runs, the table is not locked, and the queue holds the queued
-- threads of the table.
pub record Ready (k : Kernel) (xs : List Ptr) : Type 0 where
  pub unlocked : k.table_locked ≡ false
  pub busy : k.active_tcb ≢ null
  pub runs : (k.tcbs k.active_tcb).state ≡ running
  pub fits : length xs + 1 < rounds
  pub scheduled : Scheduled (IsThread k) k xs

module _ (thread : ℕ) {k : Kernel} {xs : List Ptr} (r : Ready k xs) where
  pub resolve-named : resolve thread k ≡ ok (named k thread) k
  unfolding resolve
  resolve-named = elim (Bool-cases (thread == self)) [
    | inl e ↦
        rw (e, load-ok k.active_tcb k r.busy) (tcb_get-lookup (k.tcbs k.active_tcb).id k r.unlocked)
    | inr e ↦ rw e (tcb_get-lookup thread k r.unlocked)
  ]

  named-IsThread : IsThread k (named k thread)
  named-IsThread = elim (Bool-cases (thread == self)) [
    | inl e ↦ ((k.tcbs k.active_tcb).id, rw e)
    | inr e ↦ (thread, rw e)
  ]

  -- The two calls, for any threads that the queue's invariant is about.
  module _ {Live : Ptr → Type 0} (s : Scheduled Live k xs) (ne : named k thread ≢ null)
      (live : Live (named k thread)) where
    pub pause-Transition :
        let t = named k thread in
        let st = (k.tcbs t).state in
        Returns (Transition Live t k xs (paused st).0 (paused st).1) (pause thread k)
    unfolding pause
    pause-Transition =
        let t = named k thread in
        rw (resolve-named, ne→== t null ne, load-ok t k ne)
          (pause_tcb-paused t k xs ne s live r.fits)

    pub resume-Transition :
        let t = named k thread in
        let st = (k.tcbs t).state in
        Returns (Transition Live t k xs (resumed st).0 (resumed st).1) (resume thread k)
    unfolding resume
    resume-Transition =
        let t = named k thread in
        rw (resolve-named, ne→== t null ne, load-ok t k ne)
          (resume_tcb-resumed t k xs ne s live r.runs)

  -- In a Ready state (a thread runs, the table is unlocked, the scheduling queue holds exactly
  -- the queued threads of the table, within the loop bound), thread_pause of an ID that names
  -- a thread returns, with the result and the new state that the transition function gives for
  -- the old state; the thread leaves the queue if it was queued; the queue invariant still
  -- holds; no other thread changes but for its link.
  pub pause-named :
      let t = named k thread in
      let s = (k.tcbs t).state in
      t ≢ null → Returns (Transition (IsThread k) t k xs (paused s).0 (paused s).1) (pause thread k)
  pause-named ne = pause-Transition r.scheduled ne named-IsThread

  -- In a Ready state, thread_resume of an ID that names a thread returns, with the result and
  -- the new state that the transition function gives for the old state; a suspended thread
  -- goes to the end of the scheduling queue; the queue invariant still holds; no other thread
  -- changes but for its link.
  pub resume-named :
      let t = named k thread in
      let s = (k.tcbs t).state in
      t ≢ null
      → Returns (Transition (IsThread k) t k xs (resumed s).0 (resumed s).1) (resume thread k)
  resume-named ne = resume-Transition r.scheduled ne named-IsThread

  -- In a Ready state, thread_pause and thread_resume of an ID that names no thread both return
  -- false and change nothing.
  pub unnamed_refused :
      named k thread ≡ null → (pause thread k ≡ ok false k) × (resume thread k ≡ ok false k)
  unfolding pause resume
  unnamed_refused e = (
    rw (resolve-named, eq→== (named k thread) null e),
    rw (resolve-named, eq→== (named k thread) null e),
  )
