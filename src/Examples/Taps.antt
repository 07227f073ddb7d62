-- ===== src/Examples/Taps.antt =====
-- Thread 1 changes its tap 0 from the interrupt 1 to the interrupt 2.
use pinion.Api.Interrupt.{set_tap}
use pinion.Api.Interrupt.Tapped.{Tappable, Tapped, set_tap-Tapped}
use pinion.Examples.World.{world, tcbs, thread}
use pinion.Machine.{Kernel, Tcb, irq_vtable, running, no_vtable}
use pinion.Machine.Returns.{Returns}
use pinion.Prelude.{◌==◌, if◌then◌else◌, refl, arith}

abbrev listener : Tcb
listener = record (thread 1 running 0) { tap = λ i. if i == 0 then 0x101 else 0 }

-- page 0xd000 has the routes of the IRQs
abbrev listening : Kernel
listening = record world {
  tcbs = λ p. if p == 0x1000 then listener else tcbs p;
  pages = λ p j. if p == 0xd000 then (if j == 4 then 0x1000 else 0) else 0;
  vector_pages = λ i.
      if i == 2
      then record { route = 0xd000; vtable = irq_vtable }
      else record { route = 0; vtable = no_vtable };
}

listening-Tappable : Tappable 0 0x102 0x101 listening
listening-Tappable = record {
  few = omega arith;
  small = omega arith;
  busy = omega arith;
  replaced = refl;
  plain = omega arith;
  present = omega arith;
  quiet = λ e. ground (arith, e);
  distinct = λ ne. absurd (ne refl);
  lone = λ i j a b e e'. ground (arith, e, e');
}

set_tap-Tapped_example : Returns (Tapped 0x1000 0 0x102 0x101 listening) (set_tap 0 0x102 listening)
set_tap-Tapped_example = set_tap-Tapped 0 0x102 0x101 listening listening-Tappable
