-- ===== src/Examples/Paging.antt =====
-- Page tables for one page.
use pinion.Examples.World.{world}
use pinion.Machine.{Kernel, Ptr, ok}
use pinion.Paging.{virtual_base, set_frame, get_trans, get_flags}
use pinion.Paging.Mapping.{Present, set_frame-get_trans}
use pinion.Prelude.{ℕ, ◌+◌, ◌==◌, if◌then◌else◌, ◌≡◌, arith, refl}

-- The tables of level 4 to 1 are in the frames 0x1000 to 0x4000.
abbrev tables : Ptr → ℕ → ℕ
tables p j =
    if p == virtual_base + 0x1000
    then 0x2003
    else if p == virtual_base + 0x2000
    then 0x3003
    else if p == virtual_base + 0x3000
    then 0x4003
    else 0

abbrev paged : Kernel
paged = record world { pages = tables; pcx_root = virtual_base + 0x1000 }

paged-Present :
    Present paged 0x5000 (virtual_base + 0x2000) (virtual_base + 0x3000) (virtual_base + 0x4000)
paged-Present = record {
  pres4 = refl;
  small4 = refl;
  next4 = refl;
  pres3 = refl;
  small3 = refl;
  next3 = refl;
  pres2 = refl;
  small2 = refl;
  next2 = refl;
  apart = (omega arith, omega arith, omega arith);
}

set_frame-get_trans_example :
    (g : Kernel) × (set_frame 0x5000 0x1000 0x7000 3 paged ≡ ok 0 g)
    × (get_trans g 0x5000 ≡ 0x7000)
    × (get_flags g 0x5000 ≡ 3)
    × Present g 0x5000 (virtual_base + 0x2000) (virtual_base + 0x3000) (virtual_base + 0x4000)
set_frame-get_trans_example =
    set_frame-get_trans paged 0x5000 0x7000 3 (virtual_base + 0x2000) (virtual_base + 0x3000)
      (virtual_base + 0x4000) paged-Present refl refl
