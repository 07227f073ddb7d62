-- ===== src/Scheduler/Schedule.antt =====
-- `scheduler_schedule` hands the core round.
use pinion.Scheduler.Passed.{Passed, Passed-trans, loaded-Passed, Moved-Passed, unloaded-Passed}
use pinion.Scheduler.Switched.{
  Switched, Kept, Kept-Switched, loaded-Switched, Kept-trans, with_tcb-Kept, OnlyLinks-Kept,
  unloaded-Kept, Moved-Kept,
}
use pinion.Scheduler.Steps.{add_tcb-But}
use pinion.Machine.Runs.{modify-ok}
use pinion.Scheduler.Push.{pull_tcb-nil, pull_tcb-cons}
use native.Mathlib.Decide.{ℕ_discrete}
use pinion.Machine.Returns.{Returns, returns}
use pinion.Scheduler.Queue.{Chain-frame, IsQueue, links, OnlyLinks, null-not_mem}
use pinion.Core.Switch.{loaded, unloaded, load_tcb-loaded, unload_tcb-null, unload_tcb-unloaded}
use pinion.Scheduler.Invariant.{
  Scheduled, Moved, But-OnlyLinks, Scheduled-But, But-Scheduled, But-with_tcb, Moved-trans,
  with_tcb-Moved, OnlyLinks-Moved, But,
}
use pinion.Scheduler.{schedule, requeue, dispatch, Next, pull_tcb}
use pinion.Machine.{Ptr, Kernel, null, running, ◌>>=◌, queued, with_tcb, ok}
use pinion.Machine.Returns
use pinion.Prelude.{
  List, ◌∉◌, ◌≢◌, ◌≡◌, if◌then◌else◌, ◌∷◌, ◌==◌, ◌++◌, [], arith, ne→==, inr, refl, sym, ◌∙◌, inl,
  has-append, eq→==, subst, ap, ◌∈◌,
}

-- What the scheduler leaves: the first of the candidates runs, or `idle` if there is none.
abbrev pub Chosen : (Ptr → Type 0) → Ptr → List Ptr → Next → Kernel → Type 0
Chosen Live i [] r g = (r ≡ Next.idle) × Scheduled Live g [] × (g.active_tcb ≡ i)
Chosen Live i (y ∷ ys) r g =
    (r ≡ Next.resume) × Scheduled Live g ys × (g.active_tcb ≡ y) × ((g.tcbs y).state ≡ running)

-- The first of the candidates, or the idle TCB.
abbrev pub chosen : Ptr → List Ptr → Ptr
chosen i [] = i
chosen i (y ∷ ys) = y

-- The same, what stays as it was, and what the load of the thread sets.
abbrev pub Rotated : (Ptr → Type 0) → List Ptr → Kernel → Next → Kernel → Type 0
Rotated Live ps k r g =
    Chosen Live k.idle_tcb ps r g × Passed ps k g × Switched (chosen k.idle_tcb ps) k g

module _ {Live : Ptr → Type 0} where
  loaded-Scheduled :
      (t : Ptr) {k : Kernel} (xs : List Ptr)
      → t ∉ xs
      → Scheduled Live k xs
      → Scheduled Live (loaded t k) xs
  loaded-Scheduled t xs out s = record {
    queue = record { chain = s.queue.chain; tail = s.queue.tail; distinct = s.queue.distinct };
    only = s.only;
    all = s.all;
    inactive = out;
  }

  pub unloaded-Scheduled :
      (t : Ptr) {k : Kernel} (xs : List Ptr)
      → Scheduled Live k xs
      → Scheduled Live (unloaded t k) xs
  unloaded-Scheduled t {k} xs s = record {
    queue = record {
      chain = Chain-frame (links k) _ _ xs s.queue.chain (λ a i. ground arith);
      tail = s.queue.tail;
      distinct = s.queue.distinct;
    };
    only = λ p i. ground (arith, s.only p i);
    all = λ p l q. s.all p l (ground arith);
    inactive = null-not_mem (links k) k.schedule_head xs s.queue.chain;
  }

  requeue_lem :
      (t : Ptr) (k : Kernel) (xs : List Ptr)
      → t ≢ null
      → t ∉ xs
      → k.active_tcb ≡ null
      → Scheduled Live k xs
      → Returns (λ _ g. Scheduled Live g (xs ++ t ∷ []) × Moved t k g × Kept k g) (requeue t k)
  unfolding requeue
  requeue_lem t k xs ne out idle s =
      let x = record (k.tcbs t) { state = queued } in
      rw (ne→== t null ne, modify-ok t k ne (λ x. record x { state = queued }))
        (Returns.mono
          (add_tcb-But t (with_tcb k t x) xs ne out (λ e. ne (sym e ∙ idle))
            (But-with_tcb t x xs refl (Scheduled-But t s)))
          λ _ g (b, m, e). (
            But-Scheduled t (xs ++ t ∷ [])
                (inl (ground (arith, has-append t xs (t ∷ [])), ground arith)) b,
            Moved-trans (with_tcb-Moved k x) m,
            Kept-trans (with_tcb-Kept k t x refl) (Moved-Kept t (with_tcb k t x) g m e),
          ))

  -- The thread at the head may be about to enter the queue.
  run_next :
      (x : Ptr) (k g : Kernel) (xs : List Ptr)
      → k.active_tcb ≡ null
      → But x Live k (x ∷ xs)
      → IsQueue g xs
      → OnlyLinks [] k g
      → Returns (Rotated Live (x ∷ xs) k) (dispatch x g)
  unfolding dispatch
  run_next x k g xs idle s q o =
      let ne = s.queue.chain.1 in
      let out = s.queue.distinct.0 in
      let y = record (g.tcbs x) { state = running } in
      let b =
        But-OnlyLinks x (x ∷ xs) xs o q (λ p np. ground arith) (ground (arith, s.inactive)) s in
      let c = But-Scheduled x xs (inr (out, ground arith)) (But-with_tcb x y xs refl b) in
      rw
        (
          ne→== x null ne,
          modify-ok x g ne (λ t. record t { state = running }),
          load_tcb-loaded x (with_tcb g x y) ne (ground (arith, o.rest)),
        )
        (returns (
          (refl, loaded-Scheduled x xs out c, refl, ground arith),
          Passed-trans
              (Moved-Passed (x ∷ xs) (ground arith)
                (Moved-trans (OnlyLinks-Moved {t = x} o) (with_tcb-Moved g y)))
              (loaded-Passed (x ∷ xs) x (with_tcb g x y)),
          Kept-Switched (Kept-trans (OnlyLinks-Kept o) (with_tcb-Kept g x y refl))
              (loaded-Switched x (with_tcb g x y)),
        ))

  pull_next :
      (k : Kernel) (x : Ptr) (xs : List Ptr)
      → k.active_tcb ≡ null
      → But x Live k (x ∷ xs)
      → Returns (Rotated Live (x ∷ xs) k) ((pull_tcb >>= dispatch) k)
  pull_next k x xs idle b =
      Returns.bind (pull_tcb-cons b.queue) λ t g (e, q, o). rw e (run_next x k g xs idle b q o)

  -- `scheduler_pull_tcb`, and the load of what it returns.
  dispatch_lem :
      (k : Kernel) (xs : List Ptr)
      → k.idle_tcb ≢ null
      → k.active_tcb ≡ null
      → Scheduled Live k xs
      → Returns (Rotated Live xs k) ((pull_tcb >>= dispatch) k)
  unfolding dispatch
  dispatch_lem k [] ni idle s =
      rw (pull_tcb-nil s.queue, load_tcb-loaded k.idle_tcb k ni idle)
        (returns (
          (refl, loaded-Scheduled k.idle_tcb [] refl s, refl),
          loaded-Passed [] k.idle_tcb k,
          loaded-Switched k.idle_tcb k,
        ))
  dispatch_lem k (x ∷ xs) ni idle s = pull_next k x xs idle (Scheduled-But x s)

requeue-null : (k : Kernel) → requeue null k ≡ ok tt k
unfolding requeue
requeue-null k = refl

-- On a core without a thread, the thread at the head runs, even one that was added while suspended.
pub schedule-first :
    {Live : Ptr → Type 0} (k : Kernel) (x : Ptr) (xs : List Ptr)
    → k.active_tcb ≡ null
    → But x Live k (x ∷ xs)
    → Returns (Rotated Live (x ∷ xs) k) (schedule k)
unfolding schedule
schedule-first k x xs idle b = rw (unload_tcb-null k idle, requeue-null k) (pull_next k x xs idle b)

-- The threads that the scheduler chooses from: those queued, and the one that ran, behind them.
abbrev pub candidates : Ptr → List Ptr → List Ptr
candidates t xs = if t == null then xs else xs ++ t ∷ []

-- Where the queue invariant holds and there is an idle TCB, scheduler_schedule returns; the
-- running thread, if there is one, goes behind the queued ones; the first of these is then
-- loaded, with state running, and the invariant holds of the rest; with no thread at all the
-- idle TCB is loaded. Interrupts then switch to the stack of the TCB that is loaded; its paging
-- context is loaded if none was, or if it has one of its own that is not the one that was, and
-- otherwise that one stays. Of the threads only links, states and locks change, and of a TCB
-- that is not among them only the link; the state outside the TCBs, the queue and the core's
-- record of the active thread, its paging context and its stack stays.
pub schedule_lem :
    {Live : Ptr → Type 0} (k : Kernel) (xs : List Ptr)
    → k.idle_tcb ≢ null
    → Scheduled Live k xs
    → Returns (Rotated Live (candidates k.active_tcb xs) k) (schedule k)
unfolding schedule
schedule_lem {Live} k xs ni s = elim (ℕ_discrete k.active_tcb null) [
  | yes e ↦
      rw (eq→== k.active_tcb null e, unload_tcb-null k e, requeue-null k) (dispatch_lem k xs ni e s)
  | no ne ↦
      let t = k.active_tcb in
      rw (ne→== t null ne, unload_tcb-unloaded k ne)
        (Returns.bind
          (requeue_lem t (unloaded t k) xs ne s.inactive refl (unloaded-Scheduled t xs s))
          λ _ g (sg, m, kept).
            let ps = xs ++ t ∷ [] in
            let last : t ∈ ps = ground (arith, has-append t xs (t ∷ [])) in
            Returns.mono
              (dispatch_lem g ps (ground (arith, m.rest)) (ap (λ g. g.active_tcb) m.rest) sg)
              λ r h (first, p, s). (
                subst (λ i. Chosen Live i ps r h) (ap (λ g. g.idle_tcb) m.rest) first,
                Passed-trans (unloaded-Passed ps t k last)
                    (Passed-trans (Moved-Passed ps last m) p),
                subst (λ i. Switched (chosen i ps) k h) (ap (λ g. g.idle_tcb) m.rest)
                    (Kept-Switched (Kept-trans (unloaded-Kept k t) kept) s),
              ))
]
