-- ===== src/Interrupts/Wake.antt =====
-- What a firing tap does to its thread.
use pinion.Machine.Runs.{modify-ok, with_tcb_twice}
use mathlib.Core.List.{append-nil}
use pinion.Scheduler.Place.{set_state-Scheduled, enqueue_lem}
use pinion.Scheduler.{add_tcb}
use pinion.Scheduler.Queue.{links}
use native.Mathlib.Decide.{ℕ_discrete}
use pinion.Machine.Returns.{Returns, returns}
use pinion.Scheduler.Invariant.{
  Scheduled, Moved, But-with_tcb, Scheduled-But, with_tcb-Moved, Moved-trans,
}
use pinion.Interrupts.{find_index, suc, wake, wake_state}
use pinion.Machine.{
  Tcb, Ptr, Kernel, waiting, null, queued, suspended_waiting, suspended, load, with_tcb, modify,
}
use pinion.Machine.Returns
use pinion.Prelude.{
  ℕ, low_bits, List, if◌then◌else◌, set_bit, update, ◌≢◌, ◌==◌, none, ◌≡◌, arith, ◌⊎◌, ◌∈◌, ◌+◌, ap,
  zero, ◌++◌, refl, subst, sym, inr, inl, [], Bool-cases, ◌∉◌, ◌∙◌, update_self, ◌∷◌,
}

-- One of the four taps is on the vector.
abbrev pub Taps : ℕ → Tcb → Type 0
Taps vec t = find_index t.tap 4 vec 0 ≢ none

-- The state that a thread has after its tap fires.
abbrev pub fired : ℕ → ℕ
fired s = if s == waiting then queued else if s == suspended_waiting then suspended else s

-- No thread waits after its tap fires.
pub fired-ne : (s : ℕ) → fired s ≢ waiting
fired-ne s = ground arith

low_bits-set_bit : (x : ℕ) → low_bits (set_bit x 15) 14 ≡ low_bits x 14
low_bits-set_bit x = ground arith

-- The flag in bit 15 does not count for the vector of a tap.
find_index-set_bit :
    (tap : ℕ → ℕ) (j n vec i : ℕ)
    → find_index (update tap j (set_bit (tap j) 15)) n vec i ≡ find_index tap n vec i
unfolding find_index
find_index-set_bit tap j zero vec i = refl
find_index-set_bit tap j (suc n) vec i =
    ground (arith, low_bits-set_bit (tap i), find_index-set_bit tap j n vec (i + 1))

-- What the notification of one route or of several changes: the routes lead
-- to the threads `rs`, and of these `ws` wake, in this order.
pub record Fired (vec : ℕ) (rs ws : List Ptr) (k g : Kernel) : Type 0 where
  pub rest :
      g
      ≡ record k { tcbs = g.tcbs; schedule_head = g.schedule_head; schedule_tail = g.schedule_tail }
  pub taps :
      (p : Ptr) (n i : ℕ) → find_index (g.tcbs p).tap n vec i ≡ find_index (k.tcbs p).tap n vec i
  pub states :
      (p : Ptr)
      → ((g.tcbs p).state ≡ (k.tcbs p).state)
        ⊎ (Taps vec (k.tcbs p) × ((g.tcbs p).state ≡ fired (k.tcbs p).state))
  pub woken : (p : Ptr) → p ∈ ws → (k.tcbs p).state ≡ waiting
  pub done : (p : Ptr) → p ∈ rs → p ≢ null → Taps vec (k.tcbs p) → (g.tcbs p).state ≢ waiting

-- What a notification leaves: more threads in the queue, and `Fired`.
abbrev pub Notified : (Ptr → Type 0) → ℕ → (rs xs : List Ptr) → Kernel → Unit {0} → Kernel → Type 0
Notified Live vec rs xs k _ g = (ws : List Ptr) × Scheduled Live g (xs ++ ws) × Fired vec rs ws k g

abbrev marked : Tcb → ℕ → Tcb
marked t j = record t { tap = update t.tap j (set_bit (t.tap j) 15) }

wake-wake_state :
    (vec : ℕ) (t : Ptr) (j : ℕ) (k : Kernel)
    → t ≢ null
    → wake vec t j k ≡ wake_state vec t (k.tcbs t).state (with_tcb k t (marked (k.tcbs t) j))
unfolding wake load modify
wake-wake_state vec t j k ne = ground arith

module _ {Live : Ptr → Type 0} (vec : ℕ) (t : Ptr) (j : ℕ) (k : Kernel) (xs : List Ptr)
    (ne : t ≢ null) (s : Scheduled Live k xs) where
  -- `Fired` from a command that moves `t` alone.
  Moved-Fired :
      {g : Kernel} (ws : List Ptr)
      → Moved t k g
      → Taps vec (k.tcbs t)
      → ((n i : ℕ) → find_index (g.tcbs t).tap n vec i ≡ find_index (k.tcbs t).tap n vec i)
      → (g.tcbs t).state ≡ fired (k.tcbs t).state
      → ((p : Ptr) → p ∈ ws → (k.tcbs p).state ≡ waiting)
      → Fired vec (t ∷ []) ws k g
  Moved-Fired {g} ws m taps same st woken = record {
    rest = m.rest;
    taps = λ p n i. elim (ℕ_discrete p t) [
      | yes e ↦
          subst (λ p. find_index (g.tcbs p).tap n vec i ≡ find_index (k.tcbs p).tap n vec i) (sym e)
            (same n i)
      | no np ↦ rw (m.others p np)
    ];
    states = λ p. elim (ℕ_discrete p t) [
      | yes e ↦ inr (
          subst (λ p. Taps vec (k.tcbs p) × ((g.tcbs p).state ≡ fired (k.tcbs p).state)) (sym e)
            (taps, st))
      | no np ↦ inl (ap (λ t. t.state) (m.others p np))
    ];
    woken = woken;
    done = λ p i np tp w.
        fired-ne (k.tcbs t).state (sym st ∙ ap (λ a. (g.tcbs a).state) (ground arith) ∙ w);
  }

  same_taps :
      (x : Tcb)
      → x.tap ≡ (marked (k.tcbs t) j).tap
      → (n i : ℕ) → find_index x.tap n vec i ≡ find_index (k.tcbs t).tap n vec i
  same_taps x e n i = rw e (find_index-set_bit (k.tcbs t).tap j n vec i)

  abbrev k' : Kernel
  k' = with_tcb k t (marked (k.tcbs t) j)

  wake_waiting :
      Taps vec (k.tcbs t)
      → (k.tcbs t).state ≡ waiting
      → k.active_tcb ≢ t
      → Returns (Notified Live vec (t ∷ []) xs k) (wake_state vec t waiting k')
  unfolding wake_state add_tcb
  wake_waiting taps e other =
      let x = marked (k.tcbs t) j in
      let out : t ∉ xs = ground (arith, s.only t) in
      let start = set_state-Scheduled t x xs refl out (ground arith) s in
      let f : Tcb → Tcb = λ t. record t { state = queued; rax = vec } in
      Returns.mono (enqueue_lem t k' xs f ne out other (λ x. refl) (λ x. refl) start)
        λ _ g (sched, m, (q, end)).
          let end' = end ∙ ap (λ y. f (record y { next = q })) (update_self k.tcbs t x) in
          (
            t ∷ [],
            sched,
            Moved-Fired (t ∷ []) (Moved-trans (with_tcb-Moved k x) m) taps
                (same_taps (g.tcbs t) (ap (λ y. y.tap) end'))
                (ap (λ y. y.state) end' ∙ ap fired (sym e)) (λ p i. ground arith),
          )

  wake_quiet :
      (x : Tcb)
      → Taps vec (k.tcbs t)
      → x.next ≡ links k t
      → x.tap ≡ (marked (k.tcbs t) j).tap
      → x.state ≡ fired (k.tcbs t).state
      → (k.tcbs t).state ≢ waiting
      → Notified Live vec (t ∷ []) xs k tt (with_tcb k t x)
  wake_quiet x taps link tap st nw = (
    [],
    rw append-nil (record {
      queue = (But-with_tcb t x xs link (Scheduled-But t s)).queue;
      only = λ p i. ground (arith, s.only p i);
      all = λ p l q. ground (arith, s.all p l);
      inactive = s.inactive;
    }),
    Moved-Fired [] (with_tcb-Moved k x) taps
        (same_taps (update k.tcbs t x t) (ap (λ y. y.tap) (update_self k.tcbs t x) ∙ tap))
        (ap (λ y. y.state) (update_self k.tcbs t x) ∙ st) (λ p i. cc),
  )

  wake_by :
      Taps vec (k.tcbs t)
      → ((k.tcbs t).state ≡ waiting → k.active_tcb ≢ t)
      → (st : ℕ) → (k.tcbs t).state ≡ st
      → Returns (Notified Live vec (t ∷ []) xs k) (wake_state vec t st k')
  unfolding wake_state
  wake_by taps other st e = elim (Bool-cases (st == waiting)) [
    | inl w ↦
        let is : st ≡ waiting = ground arith in
        subst (λ st. Returns (Notified Live vec (t ∷ []) xs k) (wake_state vec t st k')) (sym is)
          (wake_waiting taps (e ∙ is) (other (e ∙ is)))
    | inr w ↦ rw w (elim (Bool-cases (st == suspended_waiting)) [
      | inl v ↦
          let f : Tcb → Tcb = λ t. record t { state = suspended; rax = vec } in
          rw (v, modify-ok t k' ne f, with_tcb_twice k t (marked (k.tcbs t) j) f)
            (returns
              (wake_quiet (f (marked (k.tcbs t) j)) taps refl refl (ground arith) (ground arith)))
      | inr v ↦
          rw v (
            returns (wake_quiet (marked (k.tcbs t) j) taps refl refl (ground arith) (ground arith)))
    ])
  ]

  -- One tap fires: a waiting thread goes to the end of the queue.
  pub wake_lem :
      Taps vec (k.tcbs t)
      → ((k.tcbs t).state ≡ waiting → k.active_tcb ≢ t)
      → Returns (Notified Live vec (t ∷ []) xs k) (wake vec t j k)
  wake_lem taps other = rw (wake-wake_state vec t j k ne) (wake_by taps other (k.tcbs t).state refl)
