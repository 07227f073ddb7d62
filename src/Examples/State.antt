-- ===== src/Examples/State.antt =====
-- The registers of threads, and the flags of pages.
use pinion.Api.Page.Flags.{api_flags, cook-uncook}
use pinion.Api.Page.{cook, uncook}
use pinion.Prelude.{some, ◌≡◌, true, none, false, ◌≢◌, arith, inr, refl}
use pinion.Machine.Returns.{Returns}
use pinion.Machine.{Kernel, suspended, ok, Ptr}
use pinion.Api.State.Transfer.{pull-push, unsuspended_refused, Agree}
use pinion.Api.State.{pull, push, ThreadState}
use pinion.Examples.World.{world, blank}

abbrev registers : ThreadState
registers = record {
  rip = 0x20_0000;
  rsp = 0x7000;
  rbx = 1;
  rbp = 2;
  r12 = 3;
  r13 = 4;
  r14 = 5;
  r15 = 6;
  rax = 7;
  rcx = 8;
  rdx = 9;
  rdi = 10;
  rsi = 11;
  r8 = 12;
  r9 = 13;
  r10 = 14;
  r11 = 15;
  fs = 0;
  gs = 0;
  cs = 8;
  ss = 16;
  ds = 16;
}

-- Thread 1 is suspended.
abbrev stopped_world : Kernel
stopped_world = record world { tcbs = λ p. record blank { id = 1; state = suspended } }

pull-push_example :
    Returns
      (λ r g.
        (r ≡ true)
        × ((p : Ptr) → p ≢ 0x1000 → g.tcbs p ≡ stopped_world.tcbs p)
        × Returns
            (λ o h. (y : ThreadState) × (o ≡ some y) × (h ≡ g) × Agree 1 y registers)
            (pull 1 1 (some registers) g))
      (push 1 1 (some registers) stopped_world)
pull-push_example = pull-push 1 1 stopped_world registers registers refl (omega arith) refl

unsuspended_refused_example :
    (pull 2 1 (some registers) world ≡ ok none world) × (push 2 1 none world ≡ ok false world)
unsuspended_refused_example = unsuspended_refused 2 1 world refl none (some registers) (inr refl)

-- a page of code for a user
cook-uncook_example :
    cook (uncook (api_flags true false true true false false false false))
    ≡ api_flags true false true true false false false false
cook-uncook_example = cook-uncook true false true true false false false false refl
