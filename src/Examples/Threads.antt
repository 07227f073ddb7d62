-- ===== src/Examples/Threads.antt =====
-- Scheduling, and the calls on threads.
use pinion.Api.Thread.Calls.{pause-named, resume-named, unnamed_refused}
use pinion.Scheduler.Push.{push_tcb-append}
use pinion.Scheduler.{rem_tcb, schedule, push_tcb}
use pinion.Threads.Lookup.{IsThread}
use pinion.FaultQueues.{zombie, Queue, get_queued, head, enqueue}
use pinion.Examples.World.{world, ready_queue, world-IsQueue, world-Scheduled, world-Ready}
use pinion.Api.Thread.Lifecycle.{Transition}
use pinion.Scheduler.Schedule.{Rotated, schedule_lem}
use pinion.Scheduler.Remove.{Removed, rem_tcb-erase}
use pinion.Scheduler.Queue.{IsQueue, OnlyLinks}
use pinion.Machine.{Kernel, ok, suspended, waiting, Ptr}
use pinion.FaultQueues.Stack.{IsStack, get_queued-cons, enqueue-cons}
use pinion.Api.Thread.{pause, resume}
use pinion.Machine.Returns.{Returns}
use pinion.Api.Thread.{resume}
use pinion.Prelude.{◌≡◌, [], ◌∷◌, false, refl, true, ◌≢◌, arith}

push_tcb-append_example :
    Returns
      (λ _ g. IsQueue g (0x2000 ∷ 0x3000 ∷ 0x4000 ∷ []) × OnlyLinks (0x4000 ∷ ready_queue) world g)
      (push_tcb 0x4000 world)
push_tcb-append_example = push_tcb-append 0x4000 (omega arith) refl world-IsQueue

rem_tcb-erase_example : Returns (Removed 0x3000 ready_queue world) (rem_tcb 0x3000 world)
rem_tcb-erase_example = rem_tcb-erase 0x3000 ready_queue (omega arith) (omega arith) world-IsQueue

schedule_lem_example :
    Returns (Rotated (IsThread world) (0x2000 ∷ 0x3000 ∷ 0x1000 ∷ []) world) (schedule world)
schedule_lem_example =
    schedule_lem world ready_queue (omega arith) (world-Scheduled (IsThread world))

pause-named_example :
    Returns (Transition (IsThread world) 0x3000 world ready_queue suspended true) (pause 3 world)
pause-named_example = pause-named 3 world-Ready (omega arith)

resume-named_example :
    Returns (Transition (IsThread world) 0x4000 world ready_queue waiting false) (resume 4 world)
resume-named_example = resume-named 4 world-Ready (omega arith)

unnamed_refused_example : (pause 9 world ≡ ok false world) × (resume 9 world ≡ ok false world)
unnamed_refused_example = unnamed_refused 9 world-Ready refl

no_zombies : IsStack zombie world []
no_zombies = record { chain = refl; distinct = tt }

enqueue-cons_example :
    Returns
      (λ _ g.
        IsStack zombie g (0x1000 ∷ [])
        × ((p : Queue) → p ≢ zombie → head p g ≡ head p world)
        × ((a : Ptr) → a ≢ 0x1000 → g.tcbs a ≡ world.tcbs a)
        × (g.tcbs 0x1000 ≡ record (world.tcbs 0x1000) { next = 0 }))
      (enqueue zombie 0x1000 world)
enqueue-cons_example = enqueue-cons zombie 0x1000 [] (omega arith) refl no_zombies

abbrev one_zombie : Kernel
one_zombie = record world { zombies = 0x4000 }

get_queued-cons_example :
    Returns
      (λ t g. (t ≡ 0x4000) × IsStack zombie g [] × (g.tcbs ≡ one_zombie.tcbs))
      (get_queued zombie one_zombie)
get_queued-cons_example =
    get_queued-cons zombie [] (record { chain = (refl, omega arith, refl); distinct = (refl, tt) })
