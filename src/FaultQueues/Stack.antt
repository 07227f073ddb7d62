-- ===== src/FaultQueues/Stack.antt =====
-- Each of the queues is a stack: the thread that came last is the first to be taken.
use pinion.Machine.Returns.{Returns, returns}
use pinion.Scheduler.Queue.{Chain, links, Chain-frame}
use pinion.Machine.{Kernel, Ptr, modify, load, with_tcb, null, ok}
use pinion.FaultQueues.{
  Queue, enqueue, get_queued, Kernel, Ptr, modify, load, set_head, head, null, pagefault,
}
use pinion.Prelude.{List, [], ◌≢◌, ◌≡◌, ◌∷◌, arith, ◌∉◌, Distinct, subst, refl, sym, ap}

-- The queue holds these threads, the last that came first.
pub record IsStack (q : Queue) (k : Kernel) (xs : List Ptr) : Type 0 where
  pub chain : Chain (links k) (head q k) xs
  pub distinct : Distinct xs

-- the state after a thread is queued
abbrev pub queued_in : Queue → Ptr → Kernel → Kernel
queued_in q t k = set_head q t (with_tcb k t (record (k.tcbs t) { next = head q k }))

pub enqueue-queued_in :
    (q : Queue) (t : Ptr) (k : Kernel) → t ≢ null → enqueue q t k ≡ ok tt (queued_in q t k)
unfolding enqueue modify
enqueue-queued_in q t k ne = ground arith

head-set_head : (q : Queue) (p : Ptr) (k : Kernel) → head q (set_head q p k) ≡ p
head-set_head q p k = ground arith

tcbs-set_head : (q : Queue) (p : Ptr) (k : Kernel) → (set_head q p k).tcbs ≡ k.tcbs
tcbs-set_head q p k = ground arith

queued_in-tcbs :
    (q : Queue) (t : Ptr) (k : Kernel) (a : Ptr) → a ≢ t → (queued_in q t k).tcbs a ≡ k.tcbs a
queued_in-tcbs q t k a ne = ground arith

queued_in-tcb :
    (q : Queue) (t : Ptr) (k : Kernel)
    → (queued_in q t k).tcbs t ≡ record (k.tcbs t) { next = head q k }
queued_in-tcb q t k = ground arith

queued_in-head :
    (q : Queue) (t : Ptr) (k : Kernel) (p : Queue) → p ≢ q → head p (queued_in q t k) ≡ head p k
queued_in-head q t k p ne = ground arith

queued_in-IsStack :
    (q : Queue) (t : Ptr) {k : Kernel} (xs : List Ptr)
    → t ≢ null
    → t ∉ xs
    → IsStack q k xs
    → IsStack q (queued_in q t k) (t ∷ xs)
queued_in-IsStack q t {k} xs ne out s = record {
  chain = (
    head-set_head q t _,
    ne,
    subst (λ p. Chain (links (queued_in q t k)) p xs) (sym (ap (λ x. x.next) (queued_in-tcb q t k)))
        (Chain-frame (links k) _ (head q k) xs s.chain
          (λ a i. ap (λ x. x.next) (queued_in-tcbs q t k a (ground arith)))),
  );
  distinct = (out, s.distinct);
}

-- Queueing a non-null TCB that is not in a fault queue puts it on top of the stack that the
-- queue stands for; the other queues keep their heads, no other TCB is written, and of this one
-- only the link.
pub enqueue-cons :
    (q : Queue) (t : Ptr) {k : Kernel} (xs : List Ptr)
    → t ≢ null
    → t ∉ xs
    → IsStack q k xs
    → Returns
        (λ _ g.
          IsStack q g (t ∷ xs)
          × ((p : Queue) → p ≢ q → head p g ≡ head p k)
          × ((a : Ptr) → a ≢ t → g.tcbs a ≡ k.tcbs a)
          × (g.tcbs t ≡ record (k.tcbs t) { next = head q k }))
        (enqueue q t k)
enqueue-cons q t {k} xs ne out s = rw (enqueue-queued_in q t k ne) (
    returns (
      queued_in-IsStack q t xs ne out s,
      queued_in-head q t k,
      queued_in-tcbs q t k,
      queued_in-tcb q t k,
    ))

get_queued-popped :
    (q : Queue) (x : Ptr) (k : Kernel)
    → x ≢ null
    → head q k ≡ x
    → get_queued q k ≡ ok x (set_head q (links k x) k)
unfolding get_queued load
get_queued-popped q x k ne e = ground arith

set_head-IsStack :
    (q : Queue) (p : Ptr) (k : Kernel) (xs : List Ptr)
    → Chain (links k) p xs
    → Distinct xs
    → IsStack q (set_head q p k) xs
set_head-IsStack pagefault p k xs c d = record { chain = c; distinct = d }
set_head-IsStack _ p k xs c d = record { chain = c; distinct = d }

-- Taking a thread from a fault queue that stands for a non-empty stack returns the top; the
-- queue then stands for the rest, and no TCB is written.
pub get_queued-cons :
    (q : Queue) {k : Kernel} {x : Ptr} (xs : List Ptr)
    → IsStack q k (x ∷ xs)
    → Returns (λ t g. (t ≡ x) × IsStack q g xs × (g.tcbs ≡ k.tcbs)) (get_queued q k)
get_queued-cons q {k} {x} xs s = rw (get_queued-popped q x k s.chain.1 s.chain.0) (
    returns (
      refl,
      set_head-IsStack q (links k x) k xs s.chain.2 s.distinct.1,
      tcbs-set_head q (links k x) k,
    ))

-- On an empty queue it returns null and changes nothing.
pub get_queued-nil : (q : Queue) {k : Kernel} → IsStack q k [] → get_queued q k ≡ ok null k
unfolding get_queued load
get_queued-nil q {k} s = ground (arith, s.chain)
