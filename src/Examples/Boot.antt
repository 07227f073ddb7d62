-- ===== src/Examples/Boot.antt =====
-- The start of a machine with 4 GiB.
use pinion.Alloc.Bump.{Bump}
use pinion.Boot.{boot}
use pinion.Boot.Image.{init}
use pinion.Examples.Loading.{segment-linked}
use pinion.Examples.Loading.{segment-linked}
use pinion.Boot.Memory.{Suited, boot-Booted, boot-Reach}
use pinion.Boot.Start.{Booted, Zeroed}
use pinion.Examples.World.{world, blank}
use pinion.Machine.{Kernel, no_vtable}
use pinion.Machine.Returns.{Returns}
use pinion.MemoryMap.Cutoff.{cutoff_lem}
use pinion.MemoryMap.Init.{Found}
use pinion.Paging.{virtual_base, get_trans, vaddr}
use pinion.Paging.Setup
use pinion.Paging.Setup.Window.{init-get_trans, translated}
use pinion.Prelude.{ℕ, ◌≡◌, ◌≢◌, ◌+◌, ◌*◌, ◌∷◌, [], refl, arith, ◌^◌}
use pinion.System.Reach.{Reach, Possible}
use pinion.System.Traps.{Handled}
use pinion.System.{Event, exec}

-- the statics before `init`
abbrev cold : Kernel
cold = record world {
  tcbs = λ p. blank;
  pages = λ p j. 0;
  pmm_base = 0;
  alloc_base = 0;
  alloc_limit = 0;
  tcb_table = λ i. 0;
  schedule_head = 0;
  schedule_tail = 0;
  active_tcb = 0;
  pcx_root = 0;
  ccb_table = 0;
  ccb_self = 0;
  vector_pages = λ i. record { route = 0; vtable = no_vtable };
}

cold-Zeroed : Zeroed cold
cold-Zeroed = record {
  allocators = (refl, refl, refl);
  ccb_unlocked = refl;
  no_page = refl;
  no_tcb = refl;
  no_ccb = refl;
  no_ccb_table = refl;
  ccb_table_unlocked = refl;
  table = λ i. refl;
  unlocked = refl;
  no_head = refl;
  no_tail = refl;
  free_state = λ p. refl;
  idle = omega arith;
}

abbrev four_gigabytes : Found
four_gigabytes = record {
  total = 2 ^ 32;
  count = 1;
  entry = λ i. record { base = 0x10_0000; size = 2 ^ 32 };
}

abbrev image_end : ℕ
image_end = virtual_base + 0x30_0000

four_gigabytes-Suited : Suited image_end four_gigabytes
four_gigabytes-Suited = record {
  regions = omega arith;
  aligned = refl;
  inside = omega arith;
  room = (let (whole, above, below) = cutoff_lem (2 ^ 32) (omega arith) in omega arith);
  window = omega arith;
}

boot-Booted_example :
    Returns
      (Booted 0x8000 (image_end + 0x1000 * 262))
      (boot (virtual_base + 0x20_0000) image_end four_gigabytes cold)
boot-Booted_example = boot-Booted image_end four_gigabytes cold four_gigabytes-Suited cold-Zeroed

boot-Reach_example :
    Returns
      (λ _ g.
        (h : Kernel)
        → Reach g h
        → (e : Event) → Possible e h
        → Returns (Handled (0x8000 ∷ (image_end + 0x1000 * 262) ∷ [])) (exec e h))
      (boot (virtual_base + 0x20_0000) image_end four_gigabytes cold)
boot-Reach_example = boot-Reach image_end four_gigabytes cold four_gigabytes-Suited cold-Zeroed

-- the frames from 3 MiB to 16 MiB are free
abbrev cold_memory : Kernel
cold_memory = record cold {
  pmm_base = virtual_base;
  alloc_base = 0x30_0000;
  alloc_limit = 0x100_0000;
}

cold_memory-Bump : Bump 258 cold_memory
cold_memory-Bump = record {
  unlocked = (refl, refl, refl);
  ccb_unlocked = refl;
  no_page = refl;
  no_tcb = refl;
  no_ccb = refl;
  mapped = refl;
  aligned = refl;
  room = omega arith;
  low = omega arith;
}

init-get_trans_example :
    Returns
      (λ _ g.
        ((addr : ℕ) → get_trans g addr ≡ translated addr)
        × ((p : ℕ) → vaddr p ≢ 0 → get_trans g (vaddr p) ≡ p))
      (Setup.init cold_memory)
init-get_trans_example = init-get_trans cold_memory cold_memory-Bump
