-- ===== src/Scheduler/Push.antt =====
-- `scheduler_push_tcb` and `scheduler_pull_tcb` are the two ends of a queue.
use pinion.Machine.Returns.{Returns, returns}
use pinion.Scheduler.Queue.{IsQueue, OnlyLinks, last_or-mem, null-not_mem, links, Chain-append_one}
use pinion.Prelude.{
  ◌≡◌, ◌≢◌, arith, ◌==◌, if◌then◌else◌, List, ◌∉◌, ◌∷◌, ◌++◌, [], false, last_or_mem,
  last_or-append_one, Distinct-append_one, refl, last_or_ne,
}
use pinion.Machine.{Ptr, null, Kernel, ok, with_tcb, modify, load}
use pinion.Scheduler.{push_tcb, pull_tcb}

-- the state after a push
pushed : Ptr → Kernel → Kernel
pushed t k =
    let k' = with_tcb k t (record (k.tcbs t) { next = null }) in
    if k.schedule_tail == null
    then record k' { schedule_head = t; schedule_tail = t }
    else record (with_tcb k' k.schedule_tail (record (k'.tcbs k.schedule_tail) { next = t })) {
      schedule_tail = t;
    }

push_tcb-pushed : (t : Ptr) (k : Kernel) → t ≢ null → push_tcb t k ≡ ok tt (pushed t k)
unfolding push_tcb pushed modify
push_tcb-pushed t k ne = ground arith

pushed-IsQueue :
    (t : Ptr) (k : Kernel) (xs : List Ptr)
    → t ≢ null
    → t ∉ xs
    → IsQueue k xs
    → IsQueue (pushed t k) (xs ++ t ∷ [])
unfolding pushed
pushed-IsQueue t k [] ne out q = record {
  chain = ground (arith, q.chain, q.tail);
  tail = ground (arith, q.tail);
  distinct = (refl, tt);
}
pushed-IsQueue t k (x ∷ xs) ne out q =
    let last = last_or-mem x xs in
    let some_tail : (k.schedule_tail == null) ≡ false =
      ground (arith, q.tail, last, null-not_mem (links k) k.schedule_head (x ∷ xs) q.chain) in
    let go =
      Chain-append_one (links k) (links (pushed t k)) t x xs (refl, q.chain.1, q.chain.2) q.distinct
        ne (λ a i e. ground (arith, q.tail, some_tail)) (ground (arith, q.tail, some_tail))
        (ground (arith, q.tail, last, some_tail)) in
    record {
      chain = (ground (arith, some_tail, q.chain.0), go.1, go.2);
      tail = ground (arith, some_tail, last_or-append_one null t (x ∷ xs));
      distinct = Distinct-append_one t (x ∷ xs) q.distinct out;
    }

pushed-OnlyLinks :
    (t : Ptr) (k : Kernel) (xs : List Ptr) → IsQueue k xs → OnlyLinks (t ∷ xs) k (pushed t k)
unfolding pushed
pushed-OnlyLinks t k xs q = record {
  rest = ground arith;
  tcb = λ p. ground arith;
  link = λ p out. ground (arith, q.tail, last_or_mem null xs);
}

-- scheduler_push_tcb of a non-null TCB that is not in the queue appends it to the list that the
-- queue stands for, and writes only links of these TCBs and the ends of the queue.
pub push_tcb-append :
    (t : Ptr) {k : Kernel} {xs : List Ptr}
    → t ≢ null
    → t ∉ xs
    → IsQueue k xs
    → Returns (λ _ g. IsQueue g (xs ++ t ∷ []) × OnlyLinks (t ∷ xs) k g) (push_tcb t k)
push_tcb-append t {k} {xs} ne out q =
    rw (push_tcb-pushed t k ne)
      (returns (pushed-IsQueue t k xs ne out q, pushed-OnlyLinks t k xs q))

-- the state after a pull of `x`
pulled : Ptr → Kernel → Kernel
pulled x k = record k {
  schedule_head = links k x;
  schedule_tail = if k.schedule_tail == x then null else k.schedule_tail;
}

pull_tcb-pulled :
    (x : Ptr) (k : Kernel) → x ≢ null → k.schedule_head ≡ x → pull_tcb k ≡ ok x (pulled x k)
unfolding pull_tcb pulled load
pull_tcb-pulled x k ne e = ground arith

-- scheduler_pull_tcb on a queue that stands for a non-empty list returns the first TCB; the
-- queue then stands for the rest, and no TCB is written.
pub pull_tcb-cons :
    {k : Kernel} {x : Ptr} {xs : List Ptr}
    → IsQueue k (x ∷ xs)
    → Returns (λ t g. (t ≡ x) × IsQueue g xs × OnlyLinks [] k g) (pull_tcb k)
unfolding pulled
pull_tcb-cons {k} {x} {xs} q = rw (pull_tcb-pulled x k q.chain.1 q.chain.0) (
    returns (
      refl,
      record {
        chain = q.chain.2;
        tail = ground (arith, q.tail, last_or_ne null x xs q.distinct.0);
        distinct = q.distinct.1;
      },
      record { rest = refl; tcb = λ p. refl; link = λ p out. refl },
    ))

-- On an empty queue it returns null and changes nothing.
pub pull_tcb-nil : {k : Kernel} → IsQueue k [] → pull_tcb k ≡ ok null k
unfolding pull_tcb load
pull_tcb-nil {k} q = ground (arith, q.chain, q.tail)
