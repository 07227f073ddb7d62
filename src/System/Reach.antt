-- ===== src/System/Reach.antt =====
-- Every run of events, from any sound state.
use pinion.Prelude.{
  inl, inr, List, ◌≢◌, ◌≡◌, length, ◌⊎◌, ◌+◌, ◌<◌, sym, ◌∙◌, arith, true, false, refl,
}
use pinion.System.{Event, exec, interrupted, called}
use pinion.System.Between.{Between}
use pinion.System.Calls.{logic-Still}
use pinion.System.Traps.{Handled, trap-Handled}
use pinion.Scheduler.{rounds, Next}
use pinion.Machine.{Kernel, Ptr, running, ok}
use pinion.Machine.Returns.{Returns}
use pinion.Machine.Returns

-- No double fault happens; a thread makes calls while it runs, and the idle TCB is only interrupted by
-- the timer.
abbrev pub Possible : Event → Kernel → Type 0
Possible (interrupted regs) k =
    (regs.ivect ≢ 8) × (((k.tcbs k.active_tcb).state ≡ running) ⊎ (regs.ivect ≡ 32))
Possible (called c preempted regs) k = (k.tcbs k.active_tcb).state ≡ running

module _ {us : List Ptr} (few : length us + 1 < rounds) where
  pub exec-Handled :
      (e : Event) {k : Kernel} {xs : List Ptr}
      → Between us k xs
      → Possible e k
      → Returns (Handled us) (exec e k)
  unfolding exec
  exec-Handled (interrupted regs) b (single, inl runs) =
      trap-Handled b.quiet b.busy b.active_known regs single (inr (inl runs))
  exec-Handled (interrupted regs) b (single, inr timer) =
      trap-Handled b.quiet b.busy b.active_known regs single (inl (inl timer))
  exec-Handled (called c true regs) b runs =
      Returns.bind (logic-Still few b runs c) λ _ g (ys, q, same).
        trap-Handled q (λ e. b.busy (sym same ∙ e)) (rw same b.active_known) _ (λ e. omega arith)
          (inl (inl refl))
  exec-Handled (called c false regs) b runs =
      Returns.bind (logic-Still few b runs c) λ _ g (ys, q, same).
        trap-Handled q (λ e. b.busy (sym same ∙ e)) (rw same b.active_known) _ (λ e. omega arith)
          (inl (inr refl))

-- The states that possible events lead to.
pub data Reach (k : Kernel) : Kernel → Type 0 where
  here : Reach k k
  next :
      {g h : Kernel}
      → Reach k g
      → (e : Event) (n : Next) → Possible e g
      → exec e g ≡ ok n h
      → Reach k h

module _ {us : List Ptr} (few : length us + 1 < rounds) {k : Kernel} {xs : List Ptr}
    (b : Between us k xs) where
  Reach-Between : {g : Kernel} → Reach k g → (ys : List Ptr) × Between us g ys
  Reach-Between here = (xs, b)
  Reach-Between (next r e n possible ran) =
      let (ys, b') = Reach-Between r in Returns.of_ok ran (exec-Handled few e b' possible)

  -- From a state between two traps where at most the 65535 threads and the idle TCB are known,
  -- any run of possible events (traps that are no double fault, and calls of the running
  -- thread, each with the trap behind it) leads to such a state: the scheduling queue holds
  -- exactly the queued threads, the mutex of the table is free, and the active TCB runs or is
  -- the idle one. There every possible event returns: it is never at a null pointer, a held
  -- mutex or an endless loop, and hands over to a thread or to idle in such a state.
  pub Reach-Returns :
      {g : Kernel}
      → Reach k g
      → ((ys : List Ptr) × Between us g ys)
        × ((e : Event) → Possible e g → Returns (Handled us) (exec e g))
  Reach-Returns r =
      let (ys, b') = Reach-Between r in ((ys, b'), λ e possible. exec-Handled few e b' possible)
