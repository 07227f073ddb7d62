-- ===== src/Examples/System.antt =====
-- Runs of events.
use pinion.Examples.World.{world, blank, ready_queue, world-Scheduled}
use pinion.System.{Event, exec}
use pinion.System.Between.{Between}
use pinion.System.Reach.{here, Possible, Reach-Returns}
use pinion.System.Traps.{Handled}
use pinion.System.Fair.{ticks, ticks_lem}
use pinion.Machine.Returns.{Returns}
use pinion.Machine.{Ptr}
use pinion.Prelude.{[], ◌∷◌, inl, List, ◌∈◌, ◌≡◌, arith, refl}

abbrev everyone : List Ptr
everyone = 0x1000 ∷ 0x2000 ∷ 0x3000 ∷ 0x4000 ∷ 0x8000 ∷ []

world-Between : Between everyone world ready_queue
world-Between = record {
  quiet = record {
    scheduled = world-Scheduled (λ p. p ∈ everyone);
    outside = λ p out. ground arith;
    idle = omega arith;
    idle_known = refl;
    unlocked = refl;
    named = λ id ne. ground arith;
  };
  busy = omega arith;
  active_known = refl;
  turn = inl refl;
}

Reach-Returns_example :
    ((ys : List Ptr) × Between everyone world ys)
    × ((e : Event) → Possible e world → Returns (Handled everyone) (exec e world))
Reach-Returns_example = Reach-Returns (omega arith) world-Between here

-- thread 3 is behind thread 2
ticks_lem_example :
    Returns
      (λ _ g. (g.active_tcb ≡ 0x3000) × ((ys : List Ptr) × Between everyone g ys))
      (ticks (blank ∷ blank ∷ []) world)
ticks_lem_example = ticks_lem (0x2000 ∷ []) [] 0x3000 (blank ∷ blank ∷ []) world world-Between refl
