-- ===== src/Scheduler/Passed.antt =====
-- What a round of the scheduler leaves alone.
use pinion.Scheduler.Invariant.{Moved}
use pinion.Scheduler.Queue.{links}
use pinion.Core.Switch.{loaded, unloaded}
use pinion.Machine.{Kernel, Ptr}
use pinion.Prelude.{List, ◌≡◌, ◌∉◌, ◌∈◌, arith, refl, ap, has}

-- The core and the queue pass among the threads `ps`: of the others only links change.
pub record Passed (ps : List Ptr) (k g : Kernel) : Type 0 where
  pub others : (p : Ptr) → p ∉ ps → g.tcbs p ≡ record (k.tcbs p) { next = links g p }
  pub rest : g ≡ record k {
    tcbs = g.tcbs;
    schedule_head = g.schedule_head;
    schedule_tail = g.schedule_tail;
    active_tcb = g.active_tcb;
    active_pcx = g.active_pcx;
    active_pcx_id = g.active_pcx_id;
    interrupt_stack = g.interrupt_stack;
  }

pub Passed-trans : {ps : List Ptr} {h k g : Kernel} → Passed ps h k → Passed ps k g → Passed ps h g
Passed-trans m n = record {
  others = λ p out. ground (arith, m.others p out, n.others p out);
  rest = cc (m.rest, n.rest);
}

pub Moved-Passed : {t : Ptr} (ps : List Ptr) {k g : Kernel} → t ∈ ps → Moved t k g → Passed ps k g
Moved-Passed {t} ps {k} {g} i m = record {
  others = λ p out. m.others p (λ e. ground (arith, ap (λ a. has a ps) e));
  rest = cc m.rest;
}

pub loaded-Passed : (ps : List Ptr) (t : Ptr) (k : Kernel) → Passed ps k (loaded t k)
loaded-Passed ps t k = record { others = λ p out. refl; rest = refl }

pub unloaded-Passed : (ps : List Ptr) (t : Ptr) (k : Kernel) → t ∈ ps → Passed ps k (unloaded t k)
unloaded-Passed ps t k i = record {
  others = λ p out. ground (arith, ap (λ a. has a ps));
  rest = refl;
}
