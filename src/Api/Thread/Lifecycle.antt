-- ===== src/Api/Thread/Lifecycle.antt =====
-- `thread_pause` and `thread_resume` on a thread: the transition of its state, and its place in the
-- scheduling queue.
use pinion.Scheduler.{rounds, rem_tcb, add_tcb, push_tcb}
use pinion.Machine.Runs.{modify-ok}
use pinion.Machine.Returns.{Returns, returns}
use pinion.Api.Thread.{set_state, pause_tcb, false, running, pure, resume_tcb, rem_tcb, add_tcb}
use pinion.Scheduler.Place.{place, place_out, set_state-Scheduled, dequeue_lem, enqueue_lem}
use pinion.Scheduler.Invariant.{Scheduled, Moved, Moved-refl, with_tcb-Moved}
use pinion.Machine.{
  Ptr, Kernel, waiting, suspended, suspended_waiting, queued, null, running, ◌>>◌, pure,
}
use pinion.Machine.Returns
use pinion.Prelude.{
  ℕ, Bool, if◌then◌else◌, List, ◌==◌, ◌≡◌, ◌≢◌, true, ◌∉◌, false, arith, length, ◌||◌, ◌+◌, refl,
  ◌<◌, suc, zero, ap,
}

-- The state that `thread_pause` gives a thread, and whether it succeeds.
abbrev pub paused : ℕ → ℕ × Bool
paused s =
    if s == waiting
    then (suspended_waiting, true)
    else if s == queued || s == running
    then (suspended, true)
    else (s, s == suspended || s == suspended_waiting)

-- The state that `thread_resume` gives a thread, and whether it succeeds.
abbrev pub resumed : ℕ → ℕ × Bool
resumed s =
    if s == suspended
    then (queued, true)
    else if s == suspended_waiting
    then (waiting, true)
    else (s, false)

-- A call that takes the thread `t` to the state `s'` keeps the queue's invariant, with `t` in its
-- place, and touches no other thread but for its link.
pub record Transition (Live : Ptr → Type 0) (t : Ptr) (k : Kernel) (xs : List Ptr) (s' : ℕ)
    (ok' : Bool) (r : Bool) (g : Kernel) : Type 0 where
  pub result : r ≡ ok'
  pub scheduled : Scheduled Live g (place t s' xs)
  pub moved : Moved t k g
  pub state : (g.tcbs t).state ≡ s'

paused_other : (st : ℕ) → 5 < st → paused st ≡ (st, false)
paused_other st h = ground arith

pause_tcb_other : (t : Ptr) (st : ℕ) → 5 < st → pause_tcb t st ≡ pure false
unfolding pause_tcb
pause_tcb_other t st h = ground arith

resumed_other : (st : ℕ) → 2 < st → resumed st ≡ (st, false)
resumed_other st h = ground arith

resume_tcb_other : (t : Ptr) (st : ℕ) → 2 < st → resume_tcb t st ≡ pure false
unfolding resume_tcb
resume_tcb_other t st h = ground arith

module _ {Live : Ptr → Type 0} (t : Ptr) (k : Kernel) (xs : List Ptr) (ne : t ≢ null)
    (s : Scheduled Live k xs) where
  -- The call writes the state alone.
  written :
      (s' : ℕ)
      → t ∉ xs
      → s' ≢ queued
      → Returns (Transition Live t k xs s' true) ((set_state t s' >> pure true) k)
  unfolding set_state
  written s' out nq =
      let x = record (k.tcbs t) { state = s' } in
      rw (modify-ok t k ne (λ x. record x { state = s' })) (
        returns (record {
          result = refl;
          scheduled = rw (place_out t s' xs out nq) (set_state-Scheduled t x xs refl out nq s);
          moved = with_tcb-Moved k x;
          state = ground arith;
        }))

  not_queued : (k.tcbs t).state ≢ queued → t ∉ xs
  not_queued nq = ground (arith, s.only t)

  -- The call does nothing.
  unchanged :
      (st : ℕ) (b : Bool) → (k.tcbs t).state ≡ st → st ≢ queued → Transition Live t k xs st b b k
  unchanged st b e nq =
      let out = not_queued (ground arith) in
      record {
        result = refl;
        scheduled = rw (place_out t st xs out nq) s;
        moved = Moved-refl k;
        state = e;
      }

  pause_queued :
      Live t
      → (k.tcbs t).state ≡ queued
      → length xs + 1 < rounds
      → Returns (Transition Live t k xs suspended true) (pause_tcb t queued k)
  unfolding pause_tcb set_state
  pause_queued live e fuel =
      Returns.bind_two (rem_tcb t k) _
        (dequeue_lem t k xs (λ x. record x { state = suspended }) suspended ne fuel (λ x. refl)
          (λ x. refl) (ground arith) s)
        λ _ g (sched, m, st).
          returns (record { result = refl; scheduled = sched; moved = m; state = st })

  pause_at :
      (st : ℕ)
      → (k.tcbs t).state ≡ st
      → Live t
      → length xs + 1 < rounds
      → Returns (Transition Live t k xs (paused st).0 (paused st).1) (pause_tcb t st k)
  unfolding pause_tcb
  pause_at zero e live fuel = returns (unchanged 0 false e (ground arith))
  pause_at (suc zero) e live fuel = returns (unchanged 1 true e (ground arith))
  pause_at (suc (suc zero)) e live fuel = returns (unchanged 2 true e (ground arith))
  pause_at (suc (suc (suc zero))) e live fuel = written 1 (not_queued (ground arith)) (ground arith)
  pause_at (suc (suc (suc (suc zero)))) e live fuel = pause_queued live e fuel
  pause_at (suc (suc (suc (suc (suc zero))))) e live fuel =
      written 2 (not_queued (ground arith)) (ground arith)
  pause_at (suc (suc (suc (suc (suc (suc n)))))) e live fuel =
      rw
        (
          paused_other (suc (suc (suc (suc (suc (suc n)))))) (omega arith),
          pause_tcb_other t (suc (suc (suc (suc (suc (suc n)))))) (omega arith),
        )
        (returns (unchanged _ false e (ground arith)))

  -- `thread_pause`: the thread leaves the queue if it is there, and its state follows `paused`.
  pub pause_tcb-paused :
      Live t
      → length xs + 1 < rounds
      → let st = (k.tcbs t).state in
        Returns (Transition Live t k xs (paused st).0 (paused st).1) (pause_tcb t st k)
  pause_tcb-paused live fuel = pause_at (k.tcbs t).state refl live fuel

  resume_suspended :
      (k.tcbs t).state ≡ suspended
      → k.active_tcb ≢ t
      → Returns (Transition Live t k xs queued true) (resume_tcb t suspended k)
  unfolding resume_tcb set_state add_tcb
  resume_suspended e other =
      let out = not_queued (ground arith) in
      Returns.bind_two (push_tcb t k) _
        (enqueue_lem t k xs (λ x. record x { state = queued }) ne out other (λ x. refl) (λ x. refl)
          s)
        λ _ g (sched, m, (q, st)). returns (record {
          result = refl;
          scheduled = rw out sched;
          moved = m;
          state = ap (λ x. x.state) st;
        })

  still_queued : Live t → (k.tcbs t).state ≡ queued → Transition Live t k xs queued false false k
  still_queued live e = record {
    result = refl;
    scheduled = rw (s.all t live e) s;
    moved = Moved-refl k;
    state = e;
  }

  resume_at :
      (st : ℕ)
      → (k.tcbs t).state ≡ st
      → Live t
      → (k.tcbs k.active_tcb).state ≡ running
      → Returns (Transition Live t k xs (resumed st).0 (resumed st).1) (resume_tcb t st k)
  unfolding resume_tcb
  resume_at zero e live run = returns (unchanged 0 false e (ground arith))
  resume_at (suc zero) e live run = written 3 (not_queued (ground arith)) (ground arith)
  resume_at (suc (suc zero)) e live run =
      resume_suspended e (λ same. ground (arith, ap (λ a. (k.tcbs a).state) same))
  resume_at (suc (suc (suc zero))) e live run = returns (unchanged 3 false e (ground arith))
  resume_at (suc (suc (suc (suc zero)))) e live run = returns (still_queued live e)
  resume_at (suc (suc (suc (suc (suc n))))) e live run =
      let st = suc (suc (suc (suc (suc n)))) in
      rw (resumed_other st (omega arith), resume_tcb_other t st (omega arith))
        (returns (unchanged st false e (ground arith)))

  -- `thread_resume`: a suspended thread goes to the end of the queue, and its state follows
  -- `resumed`.
  pub resume_tcb-resumed :
      Live t
      → (k.tcbs k.active_tcb).state ≡ running
      → let st = (k.tcbs t).state in
        Returns (Transition Live t k xs (resumed st).0 (resumed st).1) (resume_tcb t st k)
  resume_tcb-resumed live run = resume_at (k.tcbs t).state refl live run
