-- ===== src/Scheduler/Remove.antt =====
-- `scheduler_rem_tcb` takes a TCB out of the queue.
use pinion.Machine.Returns
use pinion.Prelude.{zero, suc, [], subst, has-erase, sym, Distinct-erase, eq→==}
use pinion.Machine.Runs.{load-ok}
use pinion.Machine.Returns.{Returns, returns}
use pinion.Scheduler.{unlink, rem_loop, unlink_head, rem_tcb, rounds}
use pinion.Scheduler.Queue.{Chain, links, OnlyLinks, Chain-frame, OnlyLinks-refl, IsQueue}
use pinion.Prelude.{
  List, ◌∷◌, if◌then◌else◌, erase, Distinct, ◌==◌, ◌≡◌, last_or, arith, refl, erase-cons_self,
  last_or_ne, ◌≢◌, ℕ, has, erase-cons_ne, length, ◌+◌, ◌<◌, suc, ne→==, Bool-cases, inl, inr,
}
use pinion.Machine.{Ptr, Kernel, with_tcb, load, modify, null, ok}

-- What the loop makes of the links behind `p`.
record Rest (tcb p : Ptr) (ys : List Ptr) (k g : Kernel) : Type 0 where
  chain : Chain (links g) p (p ∷ erase tcb ys)
  tail : g.schedule_tail ≡ last_or p (erase tcb ys)
  head : g.schedule_head ≡ k.schedule_head
  only : OnlyLinks (p ∷ ys) k g

unlinked : (tcb t : Ptr) → Kernel → Kernel
unlinked tcb t k = record (with_tcb k t (record (k.tcbs t) { next = links k tcb })) {
  schedule_tail = if k.schedule_tail == tcb then t else k.schedule_tail;
}

unlink-unlinked :
    (tcb t : Ptr) (k : Kernel) → tcb ≢ null → t ≢ null → unlink tcb t k ≡ ok 0 (unlinked tcb t k)
unfolding unlink unlinked load modify
unlink-unlinked tcb t k nc nt = ground arith

unlinked-Rest :
    (p y : Ptr) (zs : List Ptr) (k : Kernel)
    → Chain (links k) p (p ∷ y ∷ zs)
    → Distinct (p ∷ y ∷ zs)
    → k.schedule_tail ≡ last_or y zs
    → Rest y p (y ∷ zs) k (unlinked y p k)
unfolding unlinked
unlinked-Rest p y zs k c d e = record {
  chain =
      rw erase-cons_self
        (refl, c.1, Chain-frame (links k) _ _ zs (ground arith) (λ a i. ground arith));
  tail = ground (arith, erase-cons_self y zs, last_or_ne p y zs d.1.0);
  head = refl;
  only = record { rest = refl; tcb = λ a. ground arith; link = λ a out. ground arith };
}

abbrev Outcome : (tcb p : Ptr) → List Ptr → Kernel → ℕ → Kernel → Type 0
Outcome tcb p ys k r g = (r ≡ (if has tcb ys then 0 else 1)) × Rest tcb p ys k g

unlink-Outcome :
    (p y : Ptr) (zs : List Ptr) (k : Kernel)
    → Chain (links k) p (p ∷ y ∷ zs)
    → Distinct (p ∷ y ∷ zs)
    → k.schedule_tail ≡ last_or y zs
    → Returns (Outcome y p (y ∷ zs) k) (unlink y p k)
unlink-Outcome p y zs k c d e =
    rw (unlink-unlinked y p k c.2.1 c.1) (returns (ground arith, unlinked-Rest p y zs k c d e))

-- A step of the loop leaves the link that it walked over.
Rest-cons :
    (tcb p y : Ptr) (zs : List Ptr) (k : Kernel)
    → Chain (links k) p (p ∷ y ∷ zs)
    → Distinct (p ∷ y ∷ zs)
    → tcb ≢ y
    → (r : ℕ) (g : Kernel) → Outcome tcb y zs k r g
    → Outcome tcb p (y ∷ zs) k r g
Rest-cons tcb p y zs k c d ne r g (done, rest) = (
  ground arith,
  record {
    chain =
        rw erase-cons_ne
          (refl, c.1, (ground (arith, rest.only.link p), rest.chain.1, rest.chain.2));
    tail = rw erase-cons_ne rest.tail;
    head = rest.head;
    only = record {
      rest = rest.only.rest;
      tcb = rest.only.tcb;
      link = λ a out. rest.only.link a (ground arith);
    };
  },
)

rem_loop-Rest :
    (n : ℕ) (tcb p : Ptr) (ys : List Ptr) (k : Kernel)
    → Chain (links k) p (p ∷ ys)
    → Distinct (p ∷ ys)
    → k.schedule_tail ≡ last_or p ys
    → tcb ≢ null
    → tcb ≢ p
    → length ys + 1 < n
    → Returns (Outcome tcb p ys k) (rem_loop n tcb p k)
unfolding rem_loop
rem_loop-Rest zero tcb p ys k c d e nt np fuel = absurd (omega arith)
rem_loop-Rest (suc zero) tcb p ys k c d e nt np fuel = absurd (omega arith)
rem_loop-Rest (suc (suc n)) tcb p [] k c d e nt np fuel =
    rw (ne→== p null c.1, load-ok p k c.1, c.2, ne→== null tcb (ground arith))
      (returns (
        refl,
        record {
          chain = (refl, c.1, c.2);
          tail = e;
          head = refl;
          only = OnlyLinks-refl (p ∷ []) k;
        },
      ))
rem_loop-Rest (suc n) tcb p (y ∷ zs) k c d e nt np fuel =
    rw (ne→== p null c.1, load-ok p k c.1, c.2.0)
      (elim (Bool-cases (y == tcb)) [
        | inl hit ↦ rw hit (
            subst (λ t. Returns (Outcome t p (y ∷ zs) k) (unlink t p k)) (ground arith)
              (unlink-Outcome p y zs k c d e))
        | inr miss ↦ rw miss (
            Returns.mono
              (rem_loop-Rest n tcb y zs k (refl, c.2.1, c.2.2) d.1 e nt (ground arith)
                (omega arith))
              (Rest-cons tcb p y zs k c d (ground arith)))
      ])

-- the state after the head `x` is unlinked
headless : Ptr → Kernel → Kernel
headless x k = record k {
  schedule_head = links k x;
  schedule_tail = if k.schedule_tail == x then null else k.schedule_tail;
}

unlink_head-headless : (x : Ptr) (k : Kernel) → x ≢ null → unlink_head x k ≡ ok 0 (headless x k)
unfolding unlink_head headless load
unlink_head-headless x k ne = ground arith

rem_loop-null : (n : ℕ) (t p : Ptr) (k : Kernel) → p ≡ null → rem_loop (suc n) t p k ≡ ok 1 k
unfolding rem_loop
rem_loop-null n t p k e = rw (eq→== p null e)

abbrev pub Removed : Ptr → List Ptr → Kernel → ℕ → Kernel → Type 0
Removed t xs k r g = (r ≡ (if has t xs then 0 else 1)) × IsQueue g (erase t xs) × OnlyLinks xs k g

headless-Removed :
    (x : Ptr) (xs : List Ptr) (k : Kernel)
    → IsQueue k (x ∷ xs)
    → Removed x (x ∷ xs) k 0 (headless x k)
unfolding headless
headless-Removed x xs k q = (
  ground arith,
  rw erase-cons_self (record {
    chain = q.chain.2;
    tail = ground (arith, q.tail, last_or_ne null x xs q.distinct.0);
    distinct = q.distinct.1;
  }),
  record { rest = refl; tcb = λ p. refl; link = λ p out. refl },
)

Outcome-Removed :
    (t x : Ptr) (xs : List Ptr) (k : Kernel)
    → IsQueue k (x ∷ xs)
    → t ≢ x
    → (r : ℕ) (g : Kernel) → Outcome t x xs k r g
    → Removed t (x ∷ xs) k r g
Outcome-Removed t x xs k q ne r g (done, rest) = (
  ground arith,
  rw erase-cons_ne (record {
    chain = (ground (arith, rest.head, q.chain.0), rest.chain.1, rest.chain.2);
    tail = rest.tail;
    distinct = (has-erase x t xs q.distinct.0, Distinct-erase t xs q.distinct.1);
  }),
  rest.only,
)

-- The two branches, with the head of the queue written as the pointer to it.
rem_tcb_head :
    (t : Ptr) (xs : List Ptr) (k : Kernel)
    → t ≢ null
    → length xs + 2 < rounds
    → IsQueue k (k.schedule_head ∷ xs)
    → Returns (Removed t (k.schedule_head ∷ xs) k) (rem_tcb t k)
unfolding rem_tcb
rem_tcb_head t xs k nt fuel q = elim (Bool-cases (k.schedule_head == t)) [
  | inl hit ↦
      let e : k.schedule_head ≡ t = ground arith in
      rw hit (
        subst (λ t. Returns (Removed t (k.schedule_head ∷ xs) k) (unlink_head t k)) e
          (rw (unlink_head-headless k.schedule_head k q.chain.1)
            (returns (headless-Removed k.schedule_head xs k q))))
  | inr miss ↦ rw miss (
      Returns.mono
        (rem_loop-Rest rounds t k.schedule_head xs k (refl, q.chain.1, q.chain.2) q.distinct q.tail
          nt (ground arith) (omega arith))
        (Outcome-Removed t k.schedule_head xs k q (ground arith)))
]

-- For a queue that stands for a list shorter than the loop bound, scheduler_rem_tcb of a
-- non-null TCB returns 0 if the TCB is in the list and 1 if not; the queue then stands for the
-- list without it, head and tail included; only links of listed TCBs are written.
pub rem_tcb-erase :
    (t : Ptr) {k : Kernel} (xs : List Ptr)
    → t ≢ null
    → length xs + 1 < rounds
    → IsQueue k xs
    → Returns (Removed t xs k) (rem_tcb t k)
unfolding rem_tcb
rem_tcb-erase t {k} [] nt fuel q =
    rw
      (
        ne→== k.schedule_head t (ground (arith, q.chain)),
        rem_loop-null 65537 t k.schedule_head k q.chain,
      )
      (returns (refl, q, OnlyLinks-refl [] k))
rem_tcb-erase t {k} (x ∷ xs) nt fuel q =
    subst (λ x. Returns (Removed t (x ∷ xs) k) (rem_tcb t k)) q.chain.0
      (rem_tcb_head t xs k nt (omega arith) (subst (λ x. IsQueue k (x ∷ xs)) (sym q.chain.0) q))
