-- ===== src/Core/Switch.antt =====
-- What `ccb_unload_tcb` and `ccb_load_tcb` make of the state.
use pinion.Core.{unload_tcb, load_tcb, Kernel, modify, load, null, not, pcx_get}
use pinion.Machine.{Ptr, Kernel, modify, load, with_tcb, null, ok}
use pinion.Prelude.{
  Bool, ◌≢◌, ◌≡◌, ◌+◌, ◌/◌, ◌==◌, ◌%◌, ◌*◌, ◌||◌, ◌^◌, arith, not, Bool-cases, if◌then◌else◌, inl,
  ◌&&◌, inr, ◌-◌,
}

-- the state after the thread `t` is unloaded
abbrev pub unloaded : Ptr → Kernel → Kernel
unloaded t k =
    record (with_tcb k t (record (k.tcbs t) { reserved0 = (k.tcbs t).reserved0 / 256 * 256 })) {
      active_tcb = null;
    }

pub unload_tcb-unloaded :
    (k : Kernel) → k.active_tcb ≢ null → unload_tcb k ≡ ok k.active_tcb (unloaded k.active_tcb k)
unfolding unload_tcb modify
unload_tcb-unloaded k ne = ground arith

pub unload_tcb-null : (k : Kernel) → k.active_tcb ≡ null → unload_tcb k ≡ ok null k
unfolding unload_tcb
unload_tcb-null k e = ground arith

-- `cr3` has to change: none is set, or the thread wants another one than the root.
abbrev pub switches : Ptr → Kernel → Bool
switches t k =
    let id = (k.tcbs t).pcx_id in
    k.active_pcx == 0 || (not (id == 0) && not (id == k.active_pcx_id))

-- the state after `t` is loaded
abbrev pub loaded : Ptr → Kernel → Kernel
loaded t k = record k {
  active_tcb = t;
  interrupt_stack = (t + 0x100) % 2 ^ 64;
  active_pcx_id = if switches t k then (k.tcbs t).pcx_id else k.active_pcx_id;
  active_pcx =
      if switches t k
      then (pcx_get k (k.tcbs t).pcx_id + 2 ^ 64 - k.pmm_base) % 2 ^ 64
      else k.active_pcx;
}

pub load_tcb-loaded :
    (t : Ptr) (k : Kernel) → t ≢ null → k.active_tcb ≡ null → load_tcb t k ≡ ok 0 (loaded t k)
unfolding load_tcb load
load_tcb-loaded t k ne e = elim (Bool-cases (switches t k)) [
  | inl s ↦ ground arith
  | inr s ↦ ground arith
]

-- On a busy core `ccb_load_tcb` says so and changes nothing.
pub load_tcb_busy : (t : Ptr) (k : Kernel) → k.active_tcb ≢ null → load_tcb t k ≡ ok 1 k
unfolding load_tcb
load_tcb_busy t k ne = ground arith
