-- ===== src/System/Traps.antt =====
-- Every trap but a double fault returns, and some thread runs or the core idles.
use pinion.Scheduler.Queue.{null-not_mem, links}
use pinion.Scheduler.Invariant.{Scheduled}
use pinion.Prelude.{
  [], ◌∷◌, List, ◌≡◌, ◌⊎◌, ◌∈◌, Bool-cases, inr, ◌∷◌, ◌==◌, inl, arith, sym, has-append, ap, ◌∙◌,
  has, ◌∉◌, ◌≢◌, ℕ, false, ◌+◌, ◌&&◌, refl, not, update_self, ◌<◌, ◌^◌, ne→==, ltb, ◌++◌, subst,
  eq→==,
}
use pinion.System.{save, trap}
use pinion.System.Between.{Between, Quiet, Quiet-step, queued_known, Turn}
use pinion.System.Keeps.{write-Quiet, unloaded-Quiet, enqueue-Quiet, fire-Quiet, active_unqueued}
use pinion.Scheduler.{Next, schedule}
use pinion.Scheduler.Passed.{Passed}
use pinion.Scheduler.Schedule.{Rotated, candidates, schedule_lem}
use pinion.Core.Switch.{unload_tcb-unloaded}
use pinion.FaultQueues.{Queue, pagefault, miscfault}
use pinion.Api.Fault.{fault, park, timer, yield, pagefault_vector, miscfault_vector}
use pinion.Machine.{Kernel, Ptr, Tcb, null, running, queued, with_tcb}
use pinion.Machine.Runs.{load-ok, modify-ok}
use pinion.Machine.Returns.{Returns, returns}
use pinion.Machine.Returns

-- The timer, and the software interrupt by which a thread yields.
abbrev pub HandsOn : Tcb → Type 0
HandsOn regs = (regs.ivect ≡ 32) ⊎ (regs.ivect ≡ 0x100)

acknowledged-Scheduled :
    {Live : Ptr → Type 0} (k : Kernel) (xs : List Ptr)
    → Scheduled Live k xs
    → Scheduled Live (record k { acknowledged = k.acknowledged + 1 }) xs
acknowledged-Scheduled k xs s = record {
  queue = record { chain = s.queue.chain; tail = s.queue.tail; distinct = s.queue.distinct };
  only = s.only;
  all = s.all;
  inactive = s.inactive;
}

-- After a trap.
abbrev pub Handled : List Ptr → Next → Kernel → Type 0
Handled us _ g = (ys : List Ptr) × Between us g ys

module _ {us : List Ptr} {k : Kernel} {xs : List Ptr} (q : Quiet us k xs)
    (known : (k.active_tcb ≡ null) ⊎ (k.active_tcb ∈ us)) where
  candidates_known : (p : Ptr) → p ∈ candidates k.active_tcb xs → p ∈ us
  candidates_known p i = elim (Bool-cases (k.active_tcb == null)) [
    | inl e ↦ queued_known q p (rw e at i)
    | inr e ↦ ground (
      arith,
      rw e at i,
      has-append p xs (k.active_tcb ∷ []),
      queued_known q p,
      ap (λ a. has a us),
    )
  ]

  candidates_null : null ∉ candidates k.active_tcb xs
  candidates_null =
      let out = null-not_mem (links k) k.schedule_head xs q.scheduled.queue.chain in
      ground (arith, has-append null xs (k.active_tcb ∷ []))

  Passed-Quiet :
      (ps ys : List Ptr) (g : Kernel)
      → ((p : Ptr) → p ∈ ps → p ∈ us)
      → Passed ps k g
      → Scheduled (λ p. p ∈ us) g ys
      → Quiet us g ys
  Passed-Quiet ps ys g within p s =
      Quiet-step q (ap (λ g. g.idle_tcb) p.rest) (ap (λ g. g.table_locked) p.rest)
        (ap (λ g. g.tcb_table) p.rest) (ap (λ g. g.pages) p.rest)
        (λ a out. ap (λ x. x.state) (p.others a (ground (arith, within a))) ∙ q.outside a out) s

  -- The first of the candidates runs, and the others are queued.
  pub first-Between :
      (y : Ptr) (ys : List Ptr) (r : Next) (g : Kernel)
      → ((p : Ptr) → p ∈ y ∷ ys → p ∈ us)
      → null ∉ y ∷ ys
      → Rotated (λ p. p ∈ us) (y ∷ ys) k r g
      → Between us g ys × (g.active_tcb ≡ y)
  first-Between y ys r g within full (c, p, _) = (
    record {
      quiet = Passed-Quiet (y ∷ ys) ys g within p c.1;
      busy = λ e. ground (arith, sym c.2 ∙ e);
      active_known = rw c.2 (within y (ground arith));
      turn = inl (ap (λ a. (g.tcbs a).state) c.2 ∙ c.3);
    },
    c.2,
  )

  Rotated-Between :
      (ps : List Ptr) (r : Next) (g : Kernel)
      → ((p : Ptr) → p ∈ ps → p ∈ us)
      → null ∉ ps
      → Rotated (λ p. p ∈ us) ps k r g
      → Handled us r g
  Rotated-Between [] r g within full (c, p, _) = (
    [],
    record {
      quiet = Passed-Quiet [] [] g within p c.1;
      busy = λ e. q.idle (sym c.2 ∙ e);
      active_known = rw c.2 q.idle_known;
      turn = inr (c.2 ∙ sym (ap (λ g. g.idle_tcb) p.rest));
    },
  )
  Rotated-Between (y ∷ ys) r g within full rot = (ys, (first-Between y ys r g within full rot).0)

  -- `scheduler_schedule` hands the core to a thread or to the idle TCB.
  pub schedule-Handled : Returns (Handled us) (schedule k)
  schedule-Handled = Returns.mono (schedule_lem k xs q.idle q.scheduled) (λ r g rot.
      Rotated-Between (candidates k.active_tcb xs) r g candidates_known candidates_null rot)

module _ {us : List Ptr} {k : Kernel} {xs : List Ptr} (q : Quiet us k xs)
    (busy : k.active_tcb ≢ null) (known : k.active_tcb ∈ us) where
  -- The oldest queued thread is next, and the one that ran is the last.
  next-Between :
      (y : Ptr) (ys : List Ptr)
      → xs ≡ y ∷ ys
      → Returns (λ _ g. Between us g (ys ++ k.active_tcb ∷ []) × (g.active_tcb ≡ y)) (schedule k)
  next-Between y ys e =
      let to : candidates k.active_tcb xs ≡ y ∷ (ys ++ k.active_tcb ∷ []) =
        rw (ne→== k.active_tcb null busy) (ap (λ l. l ++ k.active_tcb ∷ []) e) in
      Returns.mono (schedule_lem k xs q.idle q.scheduled) λ r g rot.
        first-Between q (inr known) y (ys ++ k.active_tcb ∷ []) r g
          (subst (λ l. (p : Ptr) → p ∈ l → p ∈ us) to (candidates_known q (inr known)))
          (subst (λ l. null ∉ l) to (candidates_null q (inr known)))
          (subst (λ l. Rotated (λ p. p ∈ us) l k r g) to rot)

  acknowledged-Quiet : Quiet us (record k { acknowledged = k.acknowledged + 1 }) xs
  acknowledged-Quiet =
      Quiet-step q refl refl refl refl q.outside (acknowledged-Scheduled k xs q.scheduled)

  yield-Handled : (t : Tcb) → Returns (Handled us) (yield t k)
  unfolding yield
  yield-Handled t = elim (Bool-cases (t.rdi == 0 && not (t.state == running))) [
    | inl e ↦ rw (e, unload_tcb-unloaded k busy) (schedule-Handled (unloaded-Quiet q) (inl refl))
    | inr e ↦ rw e (schedule-Handled q (inr known))
  ]

  park-Handled : (f : Queue) (vec : ℕ) → vec < 2 ^ 14 → Returns (Handled us) (park f vec k)
  unfolding park
  park-Handled f vec small =
      let t = k.active_tcb in
      let nq : (k.tcbs t).state ≢ queued = active_unqueued q known in
      rw (unload_tcb-unloaded k busy) (
        Returns.bind
          (enqueue-Quiet (unloaded-Quiet q) f t busy known q.scheduled.inactive (ground arith))
          λ _ g (q', act, st).
            Returns.bind (fire-Quiet q' vec small (λ ne w. ne act))
              λ _ h (ys, qh, a). schedule-Handled qh (inl (a ∙ act)))

  timer-Handled : Returns (Handled us) (timer k)
  unfolding timer
  timer-Handled = schedule-Handled acknowledged-Quiet (inr known)

  runs_on : Turn k → Handled us Next.resume k
  runs_on turn = (xs, record { quiet = q; busy = busy; active_known = known; turn = turn })

  handed_over :
      (x : Tcb) → (x.ivect == 32) ≡ false → (x.ivect == 0x100) ≡ false → HandsOn x ⊎ Turn k → Turn k
  handed_over x e1 e2 (inl (inl e)) = absurd (ground arith)
  handed_over x e1 e2 (inl (inr e)) = absurd (ground arith)
  handed_over x e1 e2 (inr turn) = turn

  -- The traps that hand the core on, and those of a thread that runs on.
  fault-Handled :
      (k.tcbs k.active_tcb).ivect ≢ 8
      → HandsOn (k.tcbs k.active_tcb) ⊎ Turn k
      → Returns (Handled us) (fault k.active_tcb k)
  unfolding fault
  fault-Handled single turn =
      let x = k.tcbs k.active_tcb in
      rw (load-ok k.active_tcb k busy) (elim (Bool-cases (x.ivect == 32)) [
        | inl e ↦ rw e (timer-Handled)
        | inr e1 ↦ rw e1 (elim (Bool-cases (x.ivect == 0x100)) [
          | inl e ↦ rw e (yield-Handled x)
          | inr e2 ↦ rw e2 (elim (Bool-cases (x.ivect == 14)) [
            | inl e ↦ rw e (park-Handled pagefault pagefault_vector (omega arith))
            | inr e3 ↦
                rw (e3, ne→== x.ivect 8 single)
                  (elim (Bool-cases (ltb x.ivect 32)) [
                    | inl e ↦ rw e (park-Handled miscfault miscfault_vector (omega arith))
                    | inr e ↦ rw e (returns (runs_on (handed_over x e1 e2 turn)))
                  ])
          ])
        ])
      ])

-- A trap with any registers but those of a double fault.
pub trap-Handled :
    {us : List Ptr} {k : Kernel} {xs : List Ptr}
    → Quiet us k xs
    → k.active_tcb ≢ null
    → k.active_tcb ∈ us
    → (regs : Tcb) → regs.ivect ≢ 8
    → HandsOn regs ⊎ Turn k
    → Returns (Handled us) (trap regs k)
unfolding trap
trap-Handled {k = k} q busy known regs single turn =
    let t = k.active_tcb in
    let x = save regs (k.tcbs t) in
    let saved = update_self k.tcbs t x in
    let same = ap (λ y. y.ivect) saved in
    rw (modify-ok t k busy (save regs)) (
      fault-Handled (write-Quiet q t x known q.scheduled.inactive (active_unqueued q known)) busy
        known (λ e. single (sym same ∙ e))
        (elim turn [
          | inl (inl e) ↦ inl (inl (same ∙ e))
          | inl (inr e) ↦ inl (inr (same ∙ e))
          | inr (inl e) ↦ inr (inl (ap (λ y. y.state) saved ∙ e))
          | inr (inr e) ↦ inr (inr e)
        ]))

-- A trap of the timer.
abbrev pub tick : Tcb → Tcb
tick regs = record regs { ivect = 32 }

module _ {us : List Ptr} {k : Kernel} {xs : List Ptr} (q : Quiet us k xs)
    (busy : k.active_tcb ≢ null) (known : k.active_tcb ∈ us) where
  timer-next :
      (y : Ptr) (ys : List Ptr)
      → xs ≡ y ∷ ys
      → Returns (λ _ g. Between us g (ys ++ k.active_tcb ∷ []) × (g.active_tcb ≡ y)) (timer k)
  unfolding timer
  timer-next y ys e = next-Between (acknowledged-Quiet q busy known) busy known y ys e

fault-timer :
    (k : Kernel)
    → k.active_tcb ≢ null
    → (k.tcbs k.active_tcb).ivect ≡ 32
    → fault k.active_tcb k ≡ timer k
unfolding fault
fault-timer k busy e = rw (load-ok k.active_tcb k busy, eq→== (k.tcbs k.active_tcb).ivect 32 e) refl

-- The timer hands the core to the oldest queued thread, and queues the one that ran.
pub tick-next :
    {us : List Ptr} {k : Kernel} (y : Ptr) (ys : List Ptr) (regs : Tcb)
    → Between us k (y ∷ ys)
    → Returns
        (λ _ g. Between us g (ys ++ k.active_tcb ∷ []) × (g.active_tcb ≡ y))
        (trap (tick regs) k)
unfolding trap
tick-next {k = k} y ys regs b =
    let t = k.active_tcb in
    let x = save (tick regs) (k.tcbs t) in
    let q =
      write-Quiet b.quiet t x b.active_known b.quiet.scheduled.inactive
        (active_unqueued b.quiet b.active_known) in
    rw
      (
        modify-ok t k b.busy (save (tick regs)),
        fault-timer (with_tcb k t x) b.busy (ap (λ y. y.ivect) (update_self k.tcbs t x)),
      )
      (timer-next q b.busy b.active_known y ys refl)
