-- ===== src/Threads.antt =====
-- The table of TCBs (src/pinion64/tcb.c).
pub mod Lookup
pub mod Delete
pub mod Subtables
pub mod Install
pub mod New
pub mod RoundTrip
pub mod First
use pinion.Alloc.{tcb_alloc, pge_alloc, with_word, tcb_free}
use pinion.Machine.{
  Kernel, Cmd, Ptr, null, pure, ◌>>=◌, ◌>>◌, get, change, release, load, acquire, table_lock, free,
  modify, suspended,
}
use pinion.Prelude.{
  ℕ, Bool, ◌/◌, suc, if◌then◌else◌, leb, ◌%◌, ◌==◌, ◌+◌, false, ◌||◌, zero, update, ltb, true,
}

abbrev pub tcb_limit : ℕ
tcb_limit = 65536

-- `tcb_table[i / 512][i % 512]`
abbrev pub slot : Kernel → ℕ → Ptr
slot k i = k.pages (k.tcb_table (i / 512)) (i % 512)

-- The subtable for index `i`, allocated and cleared if it is missing. The result is false if there
-- is no memory for it.
pub ensure_subtable : ℕ → Cmd Bool
ensure_subtable i = do
  k ← get
  if k.tcb_table (i / 512) == null
      then (do
        subtab ← pge_alloc
        if subtab == null then pure false else (do
          change λ k. record k {
            tcb_table = update k.tcb_table (i / 512) subtab;
            pages = update k.pages subtab (λ j. if ltb j 512 then null else k.pages subtab j);
          }
          pure true))
      else pure true

-- The TCB goes into the empty slot `i`.
pub install : ℕ → Ptr → Cmd Ptr
install i tcb = do
  change (λ k. with_word k (k.tcb_table (i / 512)) (i % 512) tcb)
  modify tcb λ t. record t {
    state = suspended;
    id = i;
    pcx_id = 0;
    xstate = null;
    cs = 0x08;
    ss = 0x10;
    rflags = 0x200200;
  }
  release table_lock
  pure tcb

give_up : Ptr → Cmd Ptr
give_up tcb = do release table_lock; tcb_free tcb; pure null

-- The search for an empty slot from index `i`, with `n` indices left.
new_loop : ℕ → ℕ → Ptr → Cmd Ptr
new_loop zero i tcb = give_up tcb
new_loop (suc n) i tcb = do
  ready ← ensure_subtable i
  if ready
      then (do k ← get; if slot k i == null then install i tcb else new_loop n (i + 1) tcb)
      else give_up tcb

pub tcb_new : Cmd Ptr
tcb_new = do
  tcb ← tcb_alloc
  if tcb == null then pure null else do acquire table_lock; new_loop 65535 1 tcb

-- The errors that the code only logs change nothing.
pub tcb_del : Ptr → Cmd (Unit {0})
tcb_del tcb = if tcb == null then pure tt else do
  t ← load tcb
  if t.state == free then pure tt else do
    acquire table_lock
    k ← get
    if leb tcb_limit t.id || k.tcb_table (t.id / 512) == null then release table_lock else (do
      change (λ k. with_word k (k.tcb_table (t.id / 512)) (t.id % 512) null)
      release table_lock
      tcb_free tcb)

-- The result is null if no thread has this id.
pub tcb_get : ℕ → Cmd Ptr
tcb_get id = if leb tcb_limit id then pure null else do
  acquire table_lock
  k ← get
  release table_lock
  pure (if k.tcb_table (id / 512) == null then null else slot k id)
