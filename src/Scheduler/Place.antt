-- ===== src/Scheduler/Place.antt =====
-- The queue as the state of a thread determines it.
use pinion.Machine.Runs.{modify-ok}
use pinion.Scheduler.Steps.{add_tcb-But, rem_tcb-But}
use pinion.Scheduler.{rounds, push_tcb, rem_tcb}
use pinion.Machine.Returns.{Returns, returns}
use pinion.Scheduler.Invariant.{
  Scheduled, But-Scheduled, But-with_tcb, Moved, Scheduled-But, Moved-trans, with_tcb-Moved,
}
use pinion.Scheduler.Queue.{links}
use pinion.Machine.{Ptr, Tcb, Kernel, queued, null, with_tcb, ◌>>◌, ◌>>=◌, modify}
use pinion.Machine.Returns
use pinion.Prelude.{
  ℕ, List, if◌then◌else◌, ◌∉◌, ◌≡◌, ◌≢◌, ◌==◌, has, arith, length, erase_out, ◌++◌, ◌+◌, ◌∷◌, ◌<◌,
  [], inr, erase, inl, has-erase_self, has-append, update_self, ◌∙◌, ap,
}

-- The queue after the state of `t` has become `s`: a thread that becomes queued goes to the end, one
-- that is no longer queued leaves.
abbrev pub place : Ptr → ℕ → List Ptr → List Ptr
place t s xs = if s == queued then (if has t xs then xs else xs ++ t ∷ []) else erase t xs

pub place_out : (t : Ptr) (s : ℕ) (xs : List Ptr) → t ∉ xs → s ≢ queued → place t s xs ≡ xs
place_out t s xs out ne = ground (arith, erase_out t xs)

module _ {Live : Ptr → Type 0} where
  -- A write of a thread that stands in no queue and is not queued then either.
  pub set_state-Scheduled :
      (t : Ptr) (x : Tcb) {k : Kernel} (xs : List Ptr)
      → x.next ≡ links k t
      → t ∉ xs
      → x.state ≢ queued
      → Scheduled Live k xs
      → Scheduled Live (with_tcb k t x) xs
  set_state-Scheduled t x {k} xs same out ne s =
      But-Scheduled t xs (inr (out, ground arith)) (But-with_tcb t x xs same (Scheduled-But t s))

  -- `scheduler_add_tcb`, and the write that makes the thread queued.
  pub enqueue_lem :
      (t : Ptr) (k : Kernel) (xs : List Ptr) (f : Tcb → Tcb)
      → t ≢ null
      → t ∉ xs
      → k.active_tcb ≢ t
      → ((x : Tcb) → (f x).next ≡ x.next)
      → ((x : Tcb) → (f x).state ≡ queued)
      → Scheduled Live k xs
      → Returns
          (λ _ g.
            Scheduled Live g (xs ++ t ∷ [])
            × Moved t k g
            × ((q : Ptr) × (g.tcbs t ≡ f (record (k.tcbs t) { next = q }))))
          ((push_tcb t >> modify t f) k)
  enqueue_lem t k xs f ne out other same becomes s =
      Returns.bind (add_tcb-But t k xs ne out other (Scheduled-But t s)) λ _ g (b, m, e).
        rw (modify-ok t g ne f) (
          returns (
            But-Scheduled t (xs ++ t ∷ [])
                (inl (ground (arith, has-append t xs (t ∷ [])), ground (arith, becomes (g.tcbs t))))
                (But-with_tcb t (f (g.tcbs t)) (xs ++ t ∷ []) (same (g.tcbs t)) b),
            Moved-trans m (with_tcb-Moved g (f (g.tcbs t))),
            (links g t, update_self g.tcbs t (f (g.tcbs t)) ∙ ap f e),
          ))

  -- `scheduler_rem_tcb`, and the write that makes the thread something else.
  pub dequeue_lem :
      (t : Ptr) (k : Kernel) (xs : List Ptr) (f : Tcb → Tcb) (s : ℕ)
      → t ≢ null
      → length xs + 1 < rounds
      → ((x : Tcb) → (f x).next ≡ x.next)
      → ((x : Tcb) → (f x).state ≡ s)
      → s ≢ queued
      → Scheduled Live k xs
      → Returns
          (λ _ g. Scheduled Live g (erase t xs) × Moved t k g × ((g.tcbs t).state ≡ s))
          ((rem_tcb t >>= λ _. modify t f) k)
  dequeue_lem t k xs f s ne fuel same becomes not_queued sched =
      Returns.bind (rem_tcb-But t k xs ne fuel (Scheduled-But t sched)) λ _ g (b, m).
        rw (modify-ok t g ne f) (
          returns (
            But-Scheduled t (erase t xs)
                (inr (has-erase_self t xs sched.queue.distinct, ground (arith, becomes (g.tcbs t))))
                (But-with_tcb t (f (g.tcbs t)) (erase t xs) (same (g.tcbs t)) b),
            Moved-trans m (with_tcb-Moved g (f (g.tcbs t))),
            ground (arith, becomes (g.tcbs t)),
          ))
