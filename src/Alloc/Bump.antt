-- ===== src/Alloc/Bump.antt =====
-- While nothing has been freed, blocks are the frames one after the other.
use pinion.Alloc.Blocks.{Free, framed, next_frame, pge_alloc-frame, tcb_alloc-frame, pmm_alloc-ok}
use pinion.Alloc.{pge_alloc, with_word, tcb_alloc, ccb_alloc, with_link, ccb_push, ccb_pop}
use pinion.Machine.{Kernel, Ptr, null, ok, with_tcb, acquire, release}
use pinion.Prelude.{ℕ, ◌≡◌, ◌≤◌, ◌+◌, ◌*◌, ◌^◌, ◌%◌, suc, false, arith, update, ◌∙◌, true}

-- where pinion maps the physical memory
abbrev window : ℕ
window = 0xFFFF_FFFF_C000_0000

-- No list has a block, the mutexes are free, and there are `n` frames in the window.
pub record Bump (n : ℕ) (k : Kernel) : Type 0 where
  pub unlocked : Free k
  pub ccb_unlocked : k.ccb_locked ≡ false
  pub no_page : k.pge_list ≡ null
  pub no_tcb : k.tcb_list ≡ null
  pub no_ccb : k.ccb_list ≡ null
  pub mapped : k.pmm_base ≡ window
  pub aligned : k.alloc_base % 0x1000 ≡ 0
  pub room : k.alloc_base + 0x1000 * n ≤ k.alloc_limit
  pub low : k.alloc_limit ≤ 2 ^ 29

-- The next frame, as pinion sees it.
abbrev pub frame : Kernel → Ptr
frame k = k.alloc_base + window

-- After the frame has been taken.
abbrev pub advanced : Kernel → Kernel
advanced k = record k { pmm_locked = false; alloc_base = k.alloc_base + 0x1000 }

framed-advanced : (n : ℕ) (k : Kernel) → Bump (suc n) k → framed k ≡ advanced k
framed-advanced n k b = ground (arith, b.room, b.low)

frame-next : (n : ℕ) (k : Kernel) → Bump (suc n) k → next_frame k ≡ frame k
frame-next n k b = ground (arith, b.room, b.low, b.mapped)

-- After a frame has been taken for a page.
abbrev pub with_page : Kernel → Kernel
with_page k = record (with_word (advanced k) (frame k) 0 null) {
  pge_locked = false;
  pge_list = null;
}

pub pge_alloc-Bump :
    (n : ℕ) (k : Kernel) → Bump (suc n) k → pge_alloc k ≡ ok (frame k) (with_page k)
pge_alloc-Bump n k b =
    let (pmm, pge, tcb) = b.unlocked in
    ground (arith, pge_alloc-frame k pge pmm b.no_page, frame-next n k b, framed-advanced n k b)

-- After a frame has been taken for a TCB, and for a CCB.
abbrev pub with_new_tcb : Kernel → Kernel
with_new_tcb k = record (with_tcb (advanced k) (frame k) (with_link null (k.tcbs (frame k)))) {
  tcb_locked = false;
  tcb_list = null;
}

pub tcb_alloc-Bump :
    (n : ℕ) (k : Kernel) → Bump (suc n) k → tcb_alloc k ≡ ok (frame k) (with_new_tcb k)
tcb_alloc-Bump n k b =
    let (pmm, pge, tcb) = b.unlocked in
    ground (arith, tcb_alloc-frame k tcb pmm b.no_tcb, frame-next n k b, framed-advanced n k b)

abbrev pub with_ccb : Kernel → Kernel
with_ccb k = record (advanced k) {
  ccb_words = update k.ccb_words (frame k) null;
  ccb_locked = false;
  ccb_list = null;
}

pub ccb_alloc-Bump : (n : ℕ) (k : Kernel) → Bump (suc n) k → ccb_alloc k ≡ ok (frame k) (with_ccb k)
unfolding ccb_alloc ccb_push ccb_pop acquire release
ccb_alloc-Bump n k b =
    let (pmm, pge, tcb) = b.unlocked in
    let ran = pmm_alloc-ok (record k { ccb_locked = true }) pmm in
    ground (arith, ran, b.ccb_unlocked, b.no_ccb, frame-next n k b, framed-advanced n k b)

-- The frames that are left after `n` have been taken.
pub Bump-steps :
    (n m : ℕ) (k g : Kernel)
    → Bump (n + m) k
    → Free g
    → g.ccb_locked ≡ k.ccb_locked
    → (g.pge_list ≡ null) × (g.tcb_list ≡ null) × (g.ccb_list ≡ null)
    → (g.pmm_base ≡ k.pmm_base) × (g.alloc_limit ≡ k.alloc_limit)
    → g.alloc_base ≡ k.alloc_base + 0x1000 * n
    → Bump m g
Bump-steps n m k g b free lock (pge, tcb, ccb) (base, limit) next = record {
  unlocked = free;
  ccb_unlocked = lock ∙ b.ccb_unlocked;
  no_page = pge;
  no_tcb = tcb;
  no_ccb = ccb;
  mapped = base ∙ b.mapped;
  aligned = ground (arith, b.aligned);
  room = ground (arith, b.room);
  low = ground (arith, b.low);
}

pub Bump-le : (n m : ℕ) (k : Kernel) → n ≤ m → Bump m k → Bump n k
Bump-le n m k le b = record {
  unlocked = b.unlocked;
  ccb_unlocked = b.ccb_unlocked;
  no_page = b.no_page;
  no_tcb = b.no_tcb;
  no_ccb = b.no_ccb;
  mapped = b.mapped;
  aligned = b.aligned;
  room = ground (arith, b.room);
  low = b.low;
}
