-- ===== src/System/Between.antt =====
-- What holds between two traps.
use pinion.Prelude.{
  List, length, ◌∈◌, ◌≢◌, ◌≡◌, arith, ap, ◌∉◌, ◌⊎◌, ◌+◌, false, has, ◌<◌, ◌∙◌, ℕ,
  length-Distinct_le,
}
use pinion.Scheduler.Invariant.{Scheduled, Moved}
use pinion.Scheduler.{rounds}
use pinion.Threads.Lookup.{lookup}
use pinion.Machine.{Kernel, Ptr, free, null, running}

-- The TCBs `us` are all there are: the queue invariant holds of them, the others are free; the idle
-- TCB and every thread of the table are among them; the mutex of the table is free.
pub record Quiet (us : List Ptr) (k : Kernel) (xs : List Ptr) : Type 0 where
  pub scheduled : Scheduled (λ p. p ∈ us) k xs
  pub outside : (p : Ptr) → p ∉ us → (k.tcbs p).state ≡ free
  pub idle : k.idle_tcb ≢ null
  pub idle_known : k.idle_tcb ∈ us
  pub unlocked : k.table_locked ≡ false
  pub named : (id : ℕ) → lookup k id ≢ null → lookup k id ∈ us

-- A thread runs, or the core idles.
abbrev pub Turn : Kernel → Type 0
Turn k = ((k.tcbs k.active_tcb).state ≡ running) ⊎ (k.active_tcb ≡ k.idle_tcb)

-- The core has a known TCB, whose turn it is.
pub record Between (us : List Ptr) (k : Kernel) (xs : List Ptr) : Type 0 where
  pub quiet : Quiet us k xs
  pub busy : k.active_tcb ≢ null
  pub active_known : k.active_tcb ∈ us
  pub turn : Turn k

module _ {us : List Ptr} {k : Kernel} {xs : List Ptr} (q : Quiet us k xs) where
  -- The queue holds known threads only.
  pub queued_known : (p : Ptr) → p ∈ xs → p ∈ us
  queued_known p i = ground (arith, q.scheduled.only p, q.outside p)

  -- So the walk over the queue has enough rounds.
  pub fits : length us + 1 < rounds → length xs + 1 < rounds
  fits few =
      let le = length-Distinct_le xs us q.scheduled.queue.distinct queued_known in omega arith

  -- A step that leaves the table and the idle TCB alone.
  pub Quiet-step :
      {g : Kernel} {ys : List Ptr}
      → g.idle_tcb ≡ k.idle_tcb
      → g.table_locked ≡ k.table_locked
      → g.tcb_table ≡ k.tcb_table
      → g.pages ≡ k.pages
      → ((p : Ptr) → p ∉ us → (g.tcbs p).state ≡ free)
      → Scheduled (λ p. p ∈ us) g ys
      → Quiet us g ys
  Quiet-step {g} idle lock table pages out s = record {
    scheduled = s;
    outside = out;
    idle = rw idle q.idle;
    idle_known = rw idle q.idle_known;
    unlocked = lock ∙ q.unlocked;
    named = λ id ne.
        let same : lookup g id ≡ lookup k id = cc (table, pages) in
        rw same (q.named id (λ e. ne (same ∙ e)));
  }

  -- A step that moves a known thread.
  pub Quiet-Moved :
      {t : Ptr} {g : Kernel} {ys : List Ptr}
      → t ∈ us
      → Moved t k g
      → Scheduled (λ p. p ∈ us) g ys
      → Quiet us g ys
  Quiet-Moved {t} i m s =
      Quiet-step (ap (λ g. g.idle_tcb) m.rest) (ap (λ g. g.table_locked) m.rest)
        (ap (λ g. g.tcb_table) m.rest) (ap (λ g. g.pages) m.rest)
        (λ p out.
          ap (λ x. x.state) (m.others p (λ e. ground (arith, ap (λ a. has a us) e)))
          ∙ q.outside p out)
        s
