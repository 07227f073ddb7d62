-- ===== src/Core.antt =====
-- The core's control block: which thread runs on it (ccb_load_tcb and ccb_unload_tcb of
-- src/pinion64/ccb.s, pcx_get of src/pinion64/page.c).
pub mod Switch
pub mod New
use pinion.Alloc.{ccb_alloc}
use pinion.Machine.{
  Kernel, Cmd, Ptr, null, ◌>>=◌, get, pure, load, ◌>>◌, change, modify, acquire, ccb_table_lock,
  halt, panic, release, null_pointer,
}
use pinion.Prelude.{ℕ, if◌then◌else◌, ◌==◌, not, ◌+◌, ◌/◌, ◌%◌, ◌*◌, ◌^◌, ◌||◌, ◌&&◌, ◌-◌, update}

abbrev pub pcx_get : Kernel → ℕ → Ptr
pcx_get k id = if id == 0 then k.pcx_root else null

-- The lock byte of the TCB is the low byte of its first field.
pub unload_tcb : Cmd Ptr
unload_tcb = do
  k ← get
  let tcb = k.active_tcb
  if tcb == null then pure null else do
    change (λ k. record k { active_tcb = null })
    modify tcb (λ t. record t { reserved0 = t.reserved0 / 256 * 256 })
    pure tcb

-- 0, or 1 if the core is busy.
pub load_tcb : Ptr → Cmd ℕ
load_tcb tcb = do
  k ← get
  if not (k.active_tcb == null) then pure 1 else do
    t ← load tcb
    change (λ k. record k { active_tcb = tcb; interrupt_stack = (tcb + 0x100) % 2 ^ 64 })
    if k.active_pcx == 0 || (not (t.pcx_id == 0) && not (t.pcx_id == k.active_pcx_id))
        then change (λ k. record k {
          active_pcx_id = t.pcx_id;
          active_pcx = (pcx_get k t.pcx_id + 2 ^ 64 - k.pmm_base) % 2 ^ 64;
        })
        else pure tt
    pure 0

-- `ccb_new` for the one core; the task state segment and the registers of the core are left out. The
-- search for a free entry of the table does not move on from an entry that is taken.
pub ccb_new : Cmd (Unit {0})
ccb_new = do
  acquire ccb_table_lock
  k ← get
  if not (k.ccb_table == null) then halt panic else do
    ccb ← ccb_alloc
    change (λ k. record k { ccb_table = ccb })
    release ccb_table_lock
    if ccb == null
        then halt null_pointer
        else change λ k. record k {
          ccb_words = update k.ccb_words ccb (k.ccb_words ccb / 2 ^ 32 * 2 ^ 32);
          ccb_self = ccb;
          cstack = (ccb + 0x800) % 2 ^ 64;
          istack = (ccb + 0xC00) % 2 ^ 64;
          active_tcb = null;
          active_pcx = 0;
          active_pcx_id = 0;
        }
