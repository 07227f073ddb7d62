-- ===== src/Scheduler/Switched.antt =====
-- What a round of the scheduler leaves of each TCB, and what the load of a thread sets.
use pinion.Core.{pcx_get}
use pinion.Core.Switch.{loaded, switches, unloaded}
use pinion.Machine.{Kernel, Ptr, Tcb, with_tcb}
use native.Mathlib.Decide.{ℕ_discrete}
use pinion.Scheduler.Invariant.{Moved}
use pinion.Scheduler.Queue.{OnlyLinks, links}
use pinion.Prelude.{◌≡◌, ◌+◌, ◌-◌, ◌%◌, ◌^◌, if◌then◌else◌, refl, sym, ap, ◌∙◌, arith, List, subst}

-- Only the link, the state and the lock of a TCB may differ.
abbrev pub SameThread : (x y : Tcb) → Type 0
SameThread x y = y ≡ record x { next = y.next; state = y.state; reserved0 = y.reserved0 }

SameThread-trans : (x y z : Tcb) → SameThread x y → SameThread y z → SameThread x z
SameThread-trans x y z a b = ground (arith, a, b)

-- The threads are the same, and so is the paging context that is loaded.
pub record Kept (k h : Kernel) : Type 0 where
  pub tcb : (p : Ptr) → SameThread (k.tcbs p) (h.tcbs p)
  pub pcx : h.active_pcx ≡ k.active_pcx
  pub pcx_id : h.active_pcx_id ≡ k.active_pcx_id
  pub root : h.pcx_root ≡ k.pcx_root
  pub base : h.pmm_base ≡ k.pmm_base

-- The thread `t` has been loaded since `k`: an interrupt switches to the stack of its TCB, and its
-- paging context is loaded, if it has one that was not.
pub record Switched (t : Ptr) (k g : Kernel) : Type 0 where
  pub tcb : (p : Ptr) → SameThread (k.tcbs p) (g.tcbs p)
  pub stack : g.interrupt_stack ≡ (t + 0x100) % 2 ^ 64
  pub pcx_id : g.active_pcx_id ≡ (if switches t k then (k.tcbs t).pcx_id else k.active_pcx_id)
  pub pcx : g.active_pcx ≡ (
      if switches t k
      then (pcx_get k (k.tcbs t).pcx_id + 2 ^ 64 - k.pmm_base) % 2 ^ 64
      else k.active_pcx)

pub Kept-trans : {k h g : Kernel} → Kept k h → Kept h g → Kept k g
Kept-trans {k} {h} {g} a b = record {
  tcb = λ p. SameThread-trans (k.tcbs p) (h.tcbs p) (g.tcbs p) (a.tcb p) (b.tcb p);
  pcx = b.pcx ∙ a.pcx;
  pcx_id = b.pcx_id ∙ a.pcx_id;
  root = b.root ∙ a.root;
  base = b.base ∙ a.base;
}

pub Kept-refl : (k : Kernel) → Kept k k
Kept-refl k = record { tcb = λ p. refl; pcx = refl; pcx_id = refl; root = refl; base = refl }

pub OnlyLinks-Kept : {ps : List Ptr} {k g : Kernel} → OnlyLinks ps k g → Kept k g
OnlyLinks-Kept o = record {
  tcb = λ p. ground (arith, o.tcb p);
  pcx = ap (λ g. g.active_pcx) o.rest;
  pcx_id = ap (λ g. g.active_pcx_id) o.rest;
  root = ap (λ g. g.pcx_root) o.rest;
  base = ap (λ g. g.pmm_base) o.rest;
}

pub with_tcb-Kept :
    (k : Kernel) (t : Ptr) (x : Tcb) → SameThread (k.tcbs t) x → Kept k (with_tcb k t x)
with_tcb-Kept k t x same = record {
  tcb = λ p. ground (arith, same);
  pcx = refl;
  pcx_id = refl;
  root = refl;
  base = refl;
}

pub unloaded-Kept : (k : Kernel) (t : Ptr) → Kept k (unloaded t k)
unloaded-Kept k t = record {
  tcb = λ p. ground arith;
  pcx = refl;
  pcx_id = refl;
  root = refl;
  base = refl;
}

pub loaded-Switched : (t : Ptr) (k : Kernel) → Switched t k (loaded t k)
loaded-Switched t k = record { tcb = λ p. refl; stack = refl; pcx_id = refl; pcx = refl }

pub Kept-Switched : {t : Ptr} {k h g : Kernel} → Kept k h → Switched t h g → Switched t k g
Kept-Switched {t} {k} {h} {g} a s =
    let id : (h.tcbs t).pcx_id ≡ (k.tcbs t).pcx_id = ap (λ x. x.pcx_id) (a.tcb t) in
    record {
      tcb = λ p. SameThread-trans (k.tcbs p) (h.tcbs p) (g.tcbs p) (a.tcb p) (s.tcb p);
      stack = s.stack;
      pcx_id = rw (sym id, sym a.pcx, sym a.pcx_id) s.pcx_id;
      pcx = rw (sym id, sym a.pcx, sym a.pcx_id, sym a.root, sym a.base) s.pcx;
    }

pub Moved-Kept :
    (t : Ptr) (k g : Kernel)
    → Moved t k g
    → g.tcbs t ≡ record (k.tcbs t) { next = links g t }
    → Kept k g
Moved-Kept t k g m e = record {
  tcb = λ p. elim (ℕ_discrete p t) [
    | yes same ↦ subst (λ q. SameThread (k.tcbs q) (g.tcbs q)) (sym same) (ground (arith, e))
    | no other ↦ ground (arith, m.others p other)
  ];
  pcx = ap (λ g. g.active_pcx) m.rest;
  pcx_id = ap (λ g. g.active_pcx_id) m.rest;
  root = ap (λ g. g.pcx_root) m.rest;
  base = ap (λ g. g.pmm_base) m.rest;
}
