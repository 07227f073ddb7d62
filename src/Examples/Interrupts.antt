-- ===== src/Examples/Interrupts.antt =====
-- A firing vector.
use pinion.Interrupts.{fire}
use pinion.Prelude.{◌∷◌, [], arith}
use pinion.Examples.World.{world, ready_queue, world-Scheduled}
use pinion.Threads.Lookup.{IsThread}
use pinion.Interrupts.Wake.{Notified}
use pinion.Machine.Returns.{Returns}
use pinion.Interrupts.Fire.{fire_lem}

fire_lem_example :
    Returns
      (Notified (IsThread world) 0x82 (0x4000 ∷ 0 ∷ 0 ∷ 0 ∷ []) ready_queue world)
      (fire 0x82 world)
fire_lem_example =
    fire_lem 0x82 world ready_queue (omega arith) (world-Scheduled (IsThread world))
      (λ busy. omega arith)
