-- ===== src/System/Keeps.antt =====
-- What keeps the state between two traps sound: writes of TCBs, and moves between the queues.
use pinion.Scheduler.Schedule.{unloaded-Scheduled}
use pinion.Prelude.{
  List, ℕ, ◌∉◌, ◌≢◌, ◌∈◌, arith, ap, has, inl, ◌∙◌, refl, inr, ◌≡◌, ◌<◌, ◌^◌, ◌++◌,
}
use pinion.System.Between.{Quiet, Quiet-step}
use pinion.Scheduler.Invariant.{Scheduled}
use pinion.Scheduler.Queue.{links, Chain-frame}
use pinion.FaultQueues.{Queue, enqueue, set_head, pagefault, head, miscfault, zombie}
use pinion.FaultQueues.Stack.{queued_in, enqueue-queued_in}
use pinion.Interrupts.{fire}
use pinion.Interrupts.Wake.{Fired, fired}
use pinion.Interrupts.Fire.{Awake, fire_lem}
use pinion.Core.Switch.{unloaded}
use pinion.Machine.{Kernel, Ptr, Tcb, null, queued, with_tcb}
use pinion.Machine.Returns.{Returns, returns}
use pinion.Machine.Returns

-- A write of a thread that stands in no queue, its link included.
write-Scheduled :
    {Live : Ptr → Type 0} (t : Ptr) (x : Tcb) {k : Kernel} (xs : List Ptr)
    → t ∉ xs
    → x.state ≢ queued
    → Scheduled Live k xs
    → Scheduled Live (with_tcb k t x) xs
write-Scheduled t x {k} xs out nq s = record {
  queue = record {
    chain = Chain-frame (links k) _ _ xs s.queue.chain (λ a i. ground arith);
    tail = s.queue.tail;
    distinct = s.queue.distinct;
  };
  only = λ p i. ground (arith, s.only p i);
  all = λ p l e. ground (arith, s.all p l);
  inactive = s.inactive;
}

-- The queues of faults do not matter for the scheduling queue.
set_head-Scheduled :
    {Live : Ptr → Type 0} (f : Queue) (p : Ptr) (k : Kernel) (xs : List Ptr)
    → Scheduled Live k xs
    → Scheduled Live (set_head f p k) xs
set_head-Scheduled pagefault p k xs s = record {
  queue = record { chain = s.queue.chain; tail = s.queue.tail; distinct = s.queue.distinct };
  only = s.only;
  all = s.all;
  inactive = s.inactive;
}
set_head-Scheduled _ p k xs s = record {
  queue = record { chain = s.queue.chain; tail = s.queue.tail; distinct = s.queue.distinct };
  only = s.only;
  all = s.all;
  inactive = s.inactive;
}

module _ {us : List Ptr} {k : Kernel} {xs : List Ptr} (q : Quiet us k xs) where
  -- A known thread that is not queued stands in no queue.
  pub unqueued : (t : Ptr) → (k.tcbs t).state ≢ queued → t ∉ xs
  unqueued t nq = ground (arith, q.scheduled.only t)

  -- The running thread is not queued.
  pub active_unqueued : k.active_tcb ∈ us → (k.tcbs k.active_tcb).state ≢ queued
  active_unqueued i e = ground (arith, q.scheduled.inactive, q.scheduled.all k.active_tcb i e)

  pub write-Quiet :
      (t : Ptr) (x : Tcb) → t ∈ us → t ∉ xs → x.state ≢ queued → Quiet us (with_tcb k t x) xs
  write-Quiet t x i out nq =
      Quiet-step q refl refl refl refl (λ p o. ground (arith, q.outside p o, ap (λ a. has a us)))
        (write-Scheduled t x xs out nq q.scheduled)

  pub unloaded-Quiet : Quiet us (unloaded k.active_tcb k) xs
  unloaded-Quiet =
      Quiet-step q refl refl refl refl (λ p o. ground (arith, q.outside p o))
        (unloaded-Scheduled k.active_tcb xs q.scheduled)

  pub set_head-Quiet : (f : Queue) (p : Ptr) → Quiet us (set_head f p k) xs
  set_head-Quiet pagefault p =
      Quiet-step q refl refl refl refl q.outside (set_head-Scheduled pagefault p k xs q.scheduled)
  set_head-Quiet miscfault p =
      Quiet-step q refl refl refl refl q.outside (set_head-Scheduled miscfault p k xs q.scheduled)
  set_head-Quiet zombie p =
      Quiet-step q refl refl refl refl q.outside (set_head-Scheduled zombie p k xs q.scheduled)

  pub Fired-Quiet :
      {vec : ℕ} {rs ws : List Ptr} {g : Kernel} {ys : List Ptr}
      → Fired vec rs ws k g
      → Scheduled (λ p. p ∈ us) g ys
      → Quiet us g ys
  Fired-Quiet f s =
      Quiet-step q (ap (λ g. g.idle_tcb) f.rest) (ap (λ g. g.table_locked) f.rest)
        (ap (λ g. g.tcb_table) f.rest) (ap (λ g. g.pages) f.rest)
        (λ p out. elim (f.states p) [
          | inl e ↦ e ∙ q.outside p out
          | inr (taps, e) ↦ e ∙ ap fired (q.outside p out)
        ])
        s

queued_in-active : (f : Queue) (t : Ptr) (k : Kernel) → (queued_in f t k).active_tcb ≡ k.active_tcb
queued_in-active f t k = ground arith

queued_in-state :
    (f : Queue) (t : Ptr) (k : Kernel) (p : Ptr)
    → ((queued_in f t k).tcbs p).state ≡ (k.tcbs p).state
queued_in-state f t k p = ground arith

-- Between two traps, and within them.
abbrev pub Still : {A : Type 0} → List Ptr → Kernel → A → Kernel → Type 0
Still us k _ g = (ys : List Ptr) × Quiet us g ys × (g.active_tcb ≡ k.active_tcb)

module _ {us : List Ptr} {k : Kernel} {xs : List Ptr} (q : Quiet us k xs) where
  -- A vector fires.
  pub fire-Quiet : (vec : ℕ) → vec < 2 ^ 14 → Awake k → Returns (Still us k) (fire vec k)
  fire-Quiet vec small awake =
      Returns.mono (fire_lem vec k xs small q.scheduled awake)
        λ _ g (ws, s, f). (xs ++ ws, Fired-Quiet q f s, ap (λ g. g.active_tcb) f.rest)

  -- A known thread that is not queued goes to a queue of faults.
  pub enqueue-Quiet :
      (f : Queue) (t : Ptr)
      → t ≢ null
      → t ∈ us
      → t ∉ xs
      → (k.tcbs t).state ≢ queued
      → Returns
          (λ _ g.
            Quiet us g xs
            × (g.active_tcb ≡ k.active_tcb)
            × ((p : Ptr) → (g.tcbs p).state ≡ (k.tcbs p).state))
          (enqueue f t k)
  enqueue-Quiet f t ne i out nq = rw (enqueue-queued_in f t k ne) (
      returns (
        set_head-Quiet (write-Quiet q t (record (k.tcbs t) { next = head f k }) i out nq) f t,
        queued_in-active f t k,
        queued_in-state f t k,
      ))
