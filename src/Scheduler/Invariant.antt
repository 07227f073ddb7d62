-- ===== src/Scheduler/Invariant.antt =====
-- What holds of the scheduling queue between two calls, and how the parts of a call keep it.
use native.Mathlib.Decide.{ℕ_discrete}
use pinion.Scheduler.Queue.{IsQueue, OnlyLinks, links, Chain-frame}
use pinion.Machine.{Ptr, Kernel, Tcb, with_tcb, queued}
use pinion.Prelude.{List, arith, ◌≡◌, ◌≢◌, ◌∈◌, has, refl, ◌∉◌, ◌⊎◌, ap}

-- The queue holds the threads of `Live` whose state is queued, each once, and none but such, and
-- not the one that runs.
pub record Scheduled (Live : Ptr → Type 0) (k : Kernel) (xs : List Ptr) : Type 0 where
  pub queue : IsQueue k xs
  pub only : (p : Ptr) → p ∈ xs → (k.tcbs p).state ≡ queued
  pub all : (p : Ptr) → Live p → (k.tcbs p).state ≡ queued → p ∈ xs
  pub inactive : k.active_tcb ∉ xs

-- The same within a call that is about to move the thread `t`.
pub record But (t : Ptr) (Live : Ptr → Type 0) (k : Kernel) (xs : List Ptr) : Type 0 where
  pub queue : IsQueue k xs
  pub only : (p : Ptr) → p ≢ t → p ∈ xs → (k.tcbs p).state ≡ queued
  pub all : (p : Ptr) → p ≢ t → Live p → (k.tcbs p).state ≡ queued → p ∈ xs
  pub inactive : k.active_tcb ∉ xs

-- A call that moves `t` changes it, links, and the ends of the queue.
pub record Moved (t : Ptr) (k g : Kernel) : Type 0 where
  pub rest :
      g
      ≡ record k { tcbs = g.tcbs; schedule_head = g.schedule_head; schedule_tail = g.schedule_tail }
  pub others : (p : Ptr) → p ≢ t → g.tcbs p ≡ record (k.tcbs p) { next = links g p }

module _ {t : Ptr} where
  pub Moved-refl : (k : Kernel) → Moved t k k
  Moved-refl k = record { rest = refl; others = λ p ne. refl }

  pub Moved-trans : {h k g : Kernel} → Moved t h k → Moved t k g → Moved t h g
  Moved-trans {h} {k} {g} m n = record {
    rest = cc (m.rest, n.rest);
    others = λ p ne. ground (arith, m.others p ne, n.others p ne);
  }

  pub OnlyLinks-Moved : {k g : Kernel} {ps : List Ptr} → OnlyLinks ps k g → Moved t k g
  OnlyLinks-Moved o = record { rest = o.rest; others = λ p ne. o.tcb p }

  pub with_tcb-Moved : (k : Kernel) (x : Tcb) → Moved t k (with_tcb k t x)
  with_tcb-Moved k x = record { rest = refl; others = λ p ne. ground arith }

module _ {Live : Ptr → Type 0} where
  pub Scheduled-But : (t : Ptr) {k : Kernel} {xs : List Ptr} → Scheduled Live k xs → But t Live k xs
  Scheduled-But t s = record {
    queue = s.queue;
    only = λ p ne i. s.only p i;
    all = λ p ne l q. s.all p l q;
    inactive = s.inactive;
  }

  -- The call may end where the state of `t` says whether it is in the queue.
  pub But-Scheduled :
      (t : Ptr) {k : Kernel} (xs : List Ptr)
      → ((t ∈ xs) × ((k.tcbs t).state ≡ queued)) ⊎ ((t ∉ xs) × ((k.tcbs t).state ≢ queued))
      → But t Live k xs
      → Scheduled Live k xs
  But-Scheduled t {k} xs agree b = record {
    queue = b.queue;
    only = λ p i. elim (ℕ_discrete p t) [
      | yes e ↦ ground (arith, ap (λ a. has a xs) e, ap (λ a. (k.tcbs a).state) e)
      | no ne ↦ b.only p ne i
    ];
    all = λ p l q. elim (ℕ_discrete p t) [
      | yes e ↦ ground (arith, ap (λ a. has a xs) e, ap (λ a. (k.tcbs a).state) e)
      | no ne ↦ b.all p ne l q
    ];
    inactive = b.inactive;
  }

  -- A write of `t` that keeps its link.
  pub But-with_tcb :
      (t : Ptr) (x : Tcb) {k : Kernel} (xs : List Ptr)
      → x.next ≡ links k t
      → But t Live k xs
      → But t Live (with_tcb k t x) xs
  But-with_tcb t x {k} xs same b = record {
    queue = record {
      chain = Chain-frame (links k) _ _ xs b.queue.chain (λ a i. ground arith);
      tail = b.queue.tail;
      distinct = b.queue.distinct;
    };
    only = λ p ne i. ground (arith, b.only p ne i);
    all = λ p ne l q. b.all p ne l (ground arith);
    inactive = b.inactive;
  }

  -- A change of links, with the queue that they make.
  pub But-OnlyLinks :
      (t : Ptr) {k g : Kernel} {ps : List Ptr} (xs ys : List Ptr)
      → OnlyLinks ps k g
      → IsQueue g ys
      → ((p : Ptr) → p ≢ t → has p ys ≡ has p xs)
      → k.active_tcb ∉ ys
      → But t Live k xs
      → But t Live g ys
  But-OnlyLinks t {k} {g} xs ys o q same out b = record {
    queue = q;
    only = λ p ne i. ground (arith, b.only p ne, same p ne, o.tcb p);
    all = λ p ne l e. ground (arith, b.all p ne l, same p ne, o.tcb p);
    inactive = ground (arith, o.rest);
  }
