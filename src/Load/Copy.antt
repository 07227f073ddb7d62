-- ===== src/Load/Copy.antt =====
-- The byte loops of src/pinion64/load.c, `memcpy` and `memclr`. A byte where nothing is mapped is a
-- page fault.
pub mod Filled
use pinion.Prelude.{ℕ, Bool, suc, if◌then◌else◌, ◌&&◌, ◌+◌, ◌%◌, ◌^◌, update, zero, false, true}
use pinion.Bytes.{Memory}
use pinion.Prelude.{none, some}
use pinion.Machine.{Kernel, Cmd, ◌>>=◌, ◌>>◌, get, halt, pure, page_fault}
use pinion.Paging.{walk}

unfoldable pub mapped : Kernel → ℕ → Bool
mapped k a = elim (walk k.pages 4 k.pcx_root a) [ none ↦ false | some r ↦ true ]

pub memcpy : (size d s : ℕ) → Memory → Cmd Memory
memcpy zero d s m = pure m
memcpy (suc size) d s m = do
  k ← get
  if mapped k s && mapped k d
      then memcpy size ((d + 1) % 2 ^ 64) ((s + 1) % 2 ^ 64) (update m d (m s))
      else halt page_fault

pub memclr : (size d : ℕ) → Memory → Cmd Memory
memclr zero d m = pure m
memclr (suc size) d m = do
  k ← get
  if mapped k d then memclr size ((d + 1) % 2 ^ 64) (update m d 0) else halt page_fault
