-- ===== src/Api/Thread/Exit.antt =====
-- `thread_exit`.
use pinion.Prelude.{◌≢◌, ◌≡◌, refl}
use pinion.Api.Thread.{exit, set_state, zombie_vector}
use pinion.FaultQueues.{enqueue, zombie}
use pinion.Interrupts.{fire}
use pinion.Machine.{Kernel, null, suspended, with_tcb, and_then}
use pinion.Machine.Runs.{modify-ok}

-- The running thread is suspended, joins the zombies, and their vector fires.
pub exit-enqueue :
    (k : Kernel)
    → k.active_tcb ≢ null
    → let t = k.active_tcb in
      exit k
      ≡ and_then
          (enqueue zombie t (with_tcb k t (record (k.tcbs t) { state = suspended })))
          (λ _. fire zombie_vector)
unfolding exit set_state
exit-enqueue k ne = rw (modify-ok k.active_tcb k ne (λ x. record x { state = suspended })) refl
