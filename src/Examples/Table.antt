-- ===== src/Examples/Table.antt =====
-- The table of threads.
use pinion.Threads.RoundTrip.{RoundTrip, tcb_new-RoundTrip}
use pinion.Examples.World.{world}
use pinion.Machine.{Ptr, null}
use pinion.Machine.Returns.{Returns}
use pinion.Prelude.{◌≡◌, ◌≢◌, ◌⊎◌, arith, refl}
use pinion.Threads.{tcb_new, tcb_del}
use pinion.Threads.Delete.{Names, tcb_del-Names, Sound}
use pinion.Threads.Install.{Created}
use pinion.Threads.New.{Refused, tcb_new-Created}

world-Sound : Sound world
world-Sound = record {
  distinct = λ a b e ne. ground arith;
  unlocked = (refl, refl, refl);
  table_unlocked = refl;
}

tcb_new-Created_example :
    Returns
      (λ r g.
        Sound g
        × ((p : Ptr) → p ≢ 0x11_0000 → g.tcbs p ≡ world.tcbs p)
        × (Refused world r g ⊎ ((r ≡ 0x11_0000) × Created world r g)))
      (tcb_new world)
tcb_new-Created_example = tcb_new-Created world world-Sound (λ a ne. (ground arith, ground arith))

tcb_del-Names_example :
    Returns
      (λ _ g. Sound g × Names world g 4 null × ((p : Ptr) → p ≢ 0x4000 → g.tcbs p ≡ world.tcbs p))
      (tcb_del 0x4000 world)
tcb_del-Names_example = tcb_del-Names 4 world world-Sound (omega arith) refl (omega arith)

tcb_new-RoundTrip_example : Returns (λ t g. t ≢ null → RoundTrip world t g) (tcb_new world)
tcb_new-RoundTrip_example =
    tcb_new-RoundTrip world world-Sound (λ a ne. (ground arith, ground arith))
