-- ===== src/Core/New.antt =====
-- What `ccb_new` makes of the state, while nothing has been freed.
use pinion.Alloc.Bump.{Bump, Bump-steps, Bump-le, frame, with_ccb, ccb_alloc-Bump}
use pinion.Core.{ccb_new}
use pinion.Machine.{Kernel, null, ok, acquire, release}
use pinion.Prelude.{
  ℕ, suc, ◌≡◌, ◌+◌, ◌*◌, ◌/◌, ◌%◌, ◌^◌, ◌==◌, false, true, arith, update, refl, sym,
}

-- After `ccb_new`.
abbrev pub cored : Kernel → Kernel
cored k =
    let h = with_ccb (record k { ccb_table_locked = true }) in
    record h {
      ccb_table = frame k;
      ccb_table_locked = false;
      ccb_words = update h.ccb_words (frame k) (h.ccb_words (frame k) / 2 ^ 32 * 2 ^ 32);
      ccb_self = frame k;
      cstack = (frame k + 0x800) % 2 ^ 64;
      istack = (frame k + 0xC00) % 2 ^ 64;
      active_tcb = null;
      active_pcx = 0;
      active_pcx_id = 0;
    }

tabled_lock : (n : ℕ) (k : Kernel) → Bump n k → Bump n (record k { ccb_table_locked = true })
tabled_lock n k b = record {
  unlocked = b.unlocked;
  ccb_unlocked = b.ccb_unlocked;
  no_page = b.no_page;
  no_tcb = b.no_tcb;
  no_ccb = b.no_ccb;
  mapped = b.mapped;
  aligned = b.aligned;
  room = b.room;
  low = b.low;
}

pub ccb_new-cored :
    (n : ℕ) (k : Kernel)
    → Bump (suc n) k
    → k.ccb_table ≡ null
    → k.ccb_table_locked ≡ false
    → (ccb_new k ≡ ok tt (cored k)) × Bump n (cored k)
unfolding ccb_new acquire release
ccb_new-cored n k b none unlocked =
    let ran = ccb_alloc-Bump n (record k { ccb_table_locked = true }) (tabled_lock (suc n) k b) in
    let full : (frame k == null) ≡ false = ground arith in
    (
      ground (arith, none, unlocked, ran),
      Bump-steps 1 n k (cored k) (Bump-le (1 + n) (suc n) k (omega arith) b)
          (refl, b.unlocked.1, b.unlocked.2) (sym b.ccb_unlocked) (b.no_page, b.no_tcb, refl)
          (refl, refl) (omega arith),
    )
