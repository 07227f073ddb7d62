-- ===== src/Alloc.antt =====
-- The physical memory allocator pmm_alloc of src/pinion64/pmm.c, and the free lists of
-- src/pinion64/alloc.s, `tcb_alloc` to `pge_free`. A free block's first word is the link of its
-- list; in a TCB that word is reserved0, state and id together.
pub mod Blocks
pub mod Bump
use pinion.Machine.{
  Cmd, Kernel, Ptr, Tcb, change, ◌>>◌, ◌>>=◌, acquire, get, pmm_mutex, release, pge_lock, modify,
  tcb_lock, ccb_lock, pure, null,
}
use pinion.Prelude.{ℕ, update, ◌+◌, ◌%◌, ◌*◌, ◌^◌, ◌/◌, ◌==◌, if◌then◌else◌}

pub pmm_alloc : Cmd Ptr
pmm_alloc = do
  acquire pmm_mutex
  k ← get
  let empty = k.alloc_base == k.alloc_limit
  let addr = if empty then 0 else (k.alloc_base + k.pmm_base) % 2 ^ 64
  if empty
      then pure tt
      else change (λ k. record k { alloc_base = (k.alloc_base + 0x1000) % 2 ^ 64 })
  release pmm_mutex
  pure addr

abbrev pub with_word : Kernel → Ptr → ℕ → ℕ → Kernel
with_word k p i v = record k { pages = update k.pages p (update (k.pages p) i v) }

-- The branch of `pge_alloc` where the list is not empty.
pge_pop : Cmd Ptr
pge_pop = do
  k ← get
  let page = k.pge_list
  change (λ k. record k { pge_list = k.pages page 0 })
  release pge_lock
  pure page

pge_push : Ptr → Cmd (Unit {0})
pge_push page = change (λ k. record (with_word k page 0 k.pge_list) { pge_list = page })

pub pge_alloc : Cmd Ptr
pge_alloc = do
  acquire pge_lock
  k ← get
  if k.pge_list == null
      then (do
        page ← pmm_alloc
        if page == null then release pge_lock >> pure null else pge_push page >> pge_pop)
      else pge_pop

pub pge_free : Ptr → Cmd (Unit {0})
pge_free page = do acquire pge_lock; pge_push page; release pge_lock

abbrev pub link_word : Tcb → ℕ
link_word t = t.reserved0 + t.state * 2 ^ 16 + t.id * 2 ^ 32

abbrev pub with_link : ℕ → Tcb → Tcb
with_link v t = record t { reserved0 = v % 2 ^ 16; state = v / 2 ^ 16 % 2 ^ 16; id = v / 2 ^ 32 }

tcb_pop : Cmd Ptr
tcb_pop = do
  k ← get
  let tcb = k.tcb_list
  change (λ k. record k { tcb_list = link_word (k.tcbs tcb) })
  release tcb_lock
  pure tcb

tcb_push : Ptr → Cmd (Unit {0})
tcb_push tcb = do
  k ← get
  modify tcb (with_link k.tcb_list)
  change (λ k. record k { tcb_list = tcb })

pub tcb_alloc : Cmd Ptr
tcb_alloc = do
  acquire tcb_lock
  k ← get
  if k.tcb_list == null
      then (do
        tcb ← pmm_alloc
        if tcb == null then release tcb_lock >> pure null else tcb_push tcb >> tcb_pop)
      else tcb_pop

pub tcb_free : Ptr → Cmd (Unit {0})
tcb_free tcb = do acquire tcb_lock; tcb_push tcb; release tcb_lock

ccb_pop : Cmd Ptr
ccb_pop = do
  k ← get
  let ccb = k.ccb_list
  change (λ k. record k { ccb_list = k.ccb_words ccb })
  release ccb_lock
  pure ccb

ccb_push : Ptr → Cmd (Unit {0})
ccb_push ccb =
    change (λ k. record k { ccb_words = update k.ccb_words ccb k.ccb_list; ccb_list = ccb })

pub ccb_alloc : Cmd Ptr
ccb_alloc = do
  acquire ccb_lock
  k ← get
  if k.ccb_list == null
      then (do
        ccb ← pmm_alloc
        if ccb == null then release ccb_lock >> pure null else ccb_push ccb >> ccb_pop)
      else ccb_pop
