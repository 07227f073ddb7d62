-- ===== src/Interrupts/Fire.antt =====
-- What a firing vector does to the threads on its routes.
use pinion.Machine.Runs.{load-ok}
use mathlib.Core.List.{append-nil, append_assoc}
use pinion.Machine.Returns.{Returns, returns}
use pinion.Scheduler.Invariant.{Scheduled}
use pinion.Interrupts.{
  find_index, suc, tap_word, notify, wake_at, notify_loop, some, fire, vector_page,
}
use pinion.Machine.{Tcb, Ptr, Kernel, waiting, null}
use pinion.Machine.Returns
use pinion.Prelude.{
  ℕ, List, if◌then◌else◌, ◌≢◌, ◌==◌, none, ◌≡◌, arith, ◌⊎◌, ◌∈◌, ◌+◌, ap, zero, ◌++◌, refl, subst,
  sym, inr, inl, [], Bool-cases, ◌∙◌, ◌∷◌, Option, has, has-append, ◌<◌, ◌^◌, ltb, ◌/◌, true,
}
use pinion.Interrupts.Wake.{Taps, fired, fired-ne, Fired, Notified, wake_lem}

-- The `n` routes of a vector from the `i`-th on.
abbrev pub routes : (Ptr → ℕ → ℕ) → Ptr → (vec i n : ℕ) → List Ptr
routes pages page vec i zero = []
routes pages page vec i (suc n) = pages page (tap_word vec i) ∷ routes pages page vec (i + 1) n

-- The four routes of a vector, if its page exists.
abbrev pub targets : ℕ → Kernel → List Ptr
targets vec k =
    let page = (k.vector_pages (vec / 2 ^ 7)).route in
    if page == null then [] else routes k.pages page vec 0 4

-- The running thread does not wait.
abbrev pub Awake : Kernel → Type 0
Awake k = k.active_tcb ≢ null → (k.tcbs k.active_tcb).state ≢ waiting

-- Nothing changes if no route leads to a thread that taps the vector.
Fired-refl :
    (vec : ℕ) (rs : List Ptr) (k : Kernel)
    → ((p : Ptr) → p ∈ rs → p ≢ null → find_index (k.tcbs p).tap 4 vec 0 ≡ none)
    → Fired vec rs [] k k
Fired-refl vec rs k quiet = record {
  rest = refl;
  taps = λ p n i. refl;
  states = λ p. inl refl;
  woken = λ p i. cc;
  done = λ p i np taps w. taps (quiet p i np);
}

fired-fired : (s : ℕ) → fired (fired s) ≡ fired s
fired-fired s = ground arith

still_waits :
    {vec : ℕ} {rs ws : List Ptr} (k g : Kernel) (p : Ptr)
    → Fired vec rs ws k g
    → (g.tcbs p).state ≡ waiting
    → (k.tcbs p).state ≡ waiting
still_waits k g p f w = elim (f.states p) [
  | inl e ↦ sym e ∙ w
  | inr (taps, e) ↦ absurd (fired-ne (k.tcbs p).state (sym e ∙ w))
]

Fired-Awake : {vec : ℕ} {rs ws : List Ptr} (k g : Kernel) → Fired vec rs ws k g → Awake k → Awake g
Fired-Awake k g f awake busy w =
    awake (λ z. busy (ap (λ g. g.active_tcb) f.rest ∙ z))
      (still_waits k g k.active_tcb f
        (ap (λ a. (g.tcbs a).state) (sym (ap (λ g. g.active_tcb) f.rest)) ∙ w))

states_trans :
    (vec : ℕ) (x y z : Tcb)
    → ((y.state ≡ x.state) ⊎ (Taps vec x × (y.state ≡ fired x.state)))
    → ((z.state ≡ y.state) ⊎ (Taps vec y × (z.state ≡ fired y.state)))
    → find_index y.tap 4 vec 0 ≡ find_index x.tap 4 vec 0
    → (z.state ≡ x.state) ⊎ (Taps vec x × (z.state ≡ fired x.state))
states_trans vec x y z (inl e) (inl e') same = inl (e' ∙ e)
states_trans vec x y z (inl e) (inr (taps, e')) same = inr ((λ n. taps (same ∙ n)), e' ∙ ap fired e)
states_trans vec x y z (inr (taps, e)) (inl e') same = inr (taps, e' ∙ e)
states_trans vec x y z (inr (taps, e)) (inr (_, e')) same =
    inr (taps, e' ∙ ap fired e ∙ fired-fired x.state)

Fired-trans :
    (vec : ℕ) (qs rs vs ws : List Ptr) (h k g : Kernel)
    → Fired vec qs vs h k
    → Fired vec rs ws k g
    → Fired vec (qs ++ rs) (vs ++ ws) h g
Fired-trans vec qs rs vs ws h k g a b = record {
  rest = cc (a.rest, b.rest);
  taps = λ p n i. b.taps p n i ∙ a.taps p n i;
  states = λ p.
      states_trans vec (h.tcbs p) (k.tcbs p) (g.tcbs p) (a.states p) (b.states p) (a.taps p 4 0);
  woken = λ p i. elim (Bool-cases (has p vs)) [
    | inl v ↦ a.woken p v
    | inr n ↦ still_waits h k p a (b.woken p (ground (arith, has-append p vs ws)))
  ];
  done = λ p i np taps w. elim (Bool-cases (has p qs)) [
    | inl v ↦ a.done p v np taps (still_waits k g p b w)
    | inr n ↦
        b.done p (ground (arith, has-append p qs rs)) np (λ none. taps (sym (a.taps p 4 0) ∙ none))
          w
  ];
}

module _ {Live : Ptr → Type 0} (vec : ℕ) where
  unnotified :
      (rs : List Ptr) (k : Kernel) (xs : List Ptr)
      → ((p : Ptr) → p ∈ rs → p ≢ null → find_index (k.tcbs p).tap 4 vec 0 ≡ none)
      → Scheduled Live k xs
      → Notified Live vec rs xs k tt k
  unnotified rs k xs quiet s = ([], rw append-nil s, Fired-refl vec rs k quiet)

  wake_at_lem :
      (t : Ptr) (k : Kernel) (xs : List Ptr) (o : Option ℕ)
      → t ≢ null
      → find_index (k.tcbs t).tap 4 vec 0 ≡ o
      → Scheduled Live k xs
      → Awake k
      → Returns (Notified Live vec (t ∷ []) xs k) (wake_at vec t o k)
  unfolding wake_at
  wake_at_lem t k xs none ne e s awake = returns (
      unnotified (t ∷ []) k xs
        (λ p i np. ap (λ a. find_index (k.tcbs a).tap 4 vec 0) (ground arith) ∙ e) s)
  wake_at_lem t k xs (some j) ne e s awake =
      wake_lem vec t j k xs ne s (λ nothing. cc)
        (λ w same. awake (λ z. ne (sym same ∙ z)) (ap (λ a. (k.tcbs a).state) same ∙ w))

  notify_lem :
      (t : Ptr) (k : Kernel) (xs : List Ptr)
      → Scheduled Live k xs
      → Awake k
      → Returns (Notified Live vec (t ∷ []) xs k) (notify vec t k)
  unfolding notify
  notify_lem t k xs s awake = elim (Bool-cases (t == null)) [
    | inl e ↦ rw e (returns (unnotified (t ∷ []) k xs (λ p i np. absurd (np (ground arith))) s))
    | inr n ↦
        let ne : t ≢ null = ground arith in
        rw (n, load-ok t k ne)
          (wake_at_lem t k xs (find_index (k.tcbs t).tap 4 vec 0) ne refl s awake)
  ]

  -- The loop over the routes keeps the queue's invariant and wakes threads.
  notify_loop_lem :
      (n : ℕ) (page : Ptr) (i : ℕ) (k : Kernel) (xs : List Ptr)
      → Scheduled Live k xs
      → Awake k
      → Returns (Notified Live vec (routes k.pages page vec i n) xs k) (notify_loop n page vec i k)
  unfolding notify_loop
  notify_loop_lem zero page i k xs s awake = returns (unnotified [] k xs (λ p i. cc) s)
  notify_loop_lem (suc n) page i k xs s awake =
      let t = k.pages page (tap_word vec i) in
      Returns.bind (notify_lem t k xs s awake) λ _ g (vs, sg, f).
        Returns.mono (notify_loop_lem n page (i + 1) g (xs ++ vs) sg (Fired-Awake k g f awake))
          λ _ h (ws, sh, f').
            let same = ap (λ ps. routes ps page vec (i + 1) n) (ap (λ g. g.pages) f.rest) in
            (
              vs ++ ws,
              rw (← append_assoc) sh,
              Fired-trans vec (t ∷ []) (routes k.pages page vec (i + 1) n) vs ws k g h f
                  (subst (λ rs. Fired vec rs ws g h) same f'),
            )

-- Where the queue invariant holds, the running thread does not wait and the vector is below
-- 2^14, interrupt_vector_fire returns and keeps the queue invariant, with the threads that wake
-- appended; these were waiting; every thread's state is as before, or the thread taps the vector
-- and its state is what firing makes of it; no thread on a route of the vector that taps it
-- still waits.
pub fire_lem :
    {Live : Ptr → Type 0} (vec : ℕ) (k : Kernel) (xs : List Ptr)
    → vec < 2 ^ 14
    → Scheduled Live k xs
    → Awake k
    → Returns (Notified Live vec (targets vec k) xs k) (fire vec k)
unfolding fire vector_page
fire_lem vec k xs small s awake =
    let inside : ltb (vec / 2 ^ 7) 128 ≡ true = ground arith in
    let page = (k.vector_pages (vec / 2 ^ 7)).route in
    rw inside (elim (Bool-cases (page == null)) [
      | inl e ↦ rw e (returns (unnotified vec [] k xs (λ p i. cc) s))
      | inr n ↦ rw n (notify_loop_lem vec 4 page 0 k xs s awake)
    ])
