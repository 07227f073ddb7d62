-- ===== src/Threads/First.antt =====
-- The first thread: `tcb_new` on an empty table, while nothing has been freed.
use pinion.Alloc.Bump.{
  Bump, Bump-steps, Bump-le, frame, with_page, pge_alloc-Bump, with_new_tcb, tcb_alloc-Bump,
}
use pinion.Machine.{Kernel, Ptr, null, ok, acquire}
use pinion.Prelude.{
  ℕ, suc, ◌≡◌, ◌+◌, ◌==◌, false, true, arith, update, if◌then◌else◌, ltb, refl, ◌≢◌,
}
use pinion.Threads.{tcb_new, new_loop, ensure_subtable, slot}
use pinion.Threads.Install.{installed, install-installed}

-- After the first subtable has been made.
abbrev tabled : Kernel → Kernel
tabled k =
    let h = with_page k in
    record h {
      tcb_table = update k.tcb_table 0 (frame k);
      pages = update h.pages (frame k) (λ j. if ltb j 512 then null else h.pages (frame k) j);
    }

ensure_subtable-tabled :
    (m : ℕ) (k : Kernel)
    → Bump (suc m) k
    → k.tcb_table 0 ≡ null
    → ensure_subtable 1 k ≡ ok true (tabled k)
unfolding ensure_subtable
ensure_subtable-tabled m k b none = ground (arith, none, pge_alloc-Bump m k b)

-- The search ends at the first index.
new_loop-first :
    (n m : ℕ) (t : Ptr) (k : Kernel)
    → t ≢ null
    → Bump (suc m) k
    → k.tcb_table 0 ≡ null
    → new_loop (suc n) 1 t k ≡ ok t (installed 1 t (tabled k))
unfolding new_loop
new_loop-first n m t k ne b none =
    let empty : (slot (tabled k) 1 == null) ≡ true = ground arith in
    rw (ensure_subtable-tabled m k b none, empty, install-installed 1 t (tabled k) ne) refl

abbrev allotted : Kernel → Kernel
allotted k = record (with_new_tcb k) { table_locked = true }

-- After `tcb_new`: the TCB is the next frame, and the subtable the one behind it.
abbrev pub first_made : Kernel → Kernel
first_made k = installed 1 (frame k) (tabled (allotted k))

pub tcb_new-first :
    (n : ℕ) (k : Kernel)
    → Bump (suc (suc n)) k
    → k.tcb_table 0 ≡ null
    → k.table_locked ≡ false
    → tcb_new k ≡ ok (frame k) (first_made k)
unfolding tcb_new acquire
tcb_new-first n k b none unlocked =
    let full : (frame k == null) ≡ false = ground arith in
    let b' : Bump (suc n) (allotted k) =
      Bump-steps 1 (suc n) k (allotted k) (Bump-le (1 + suc n) (suc (suc n)) k (omega arith) b)
        (refl, b.unlocked.1, refl) refl (b.no_page, refl, b.no_ccb) (refl, refl) (omega arith) in
    rw
      (
        tcb_alloc-Bump (suc n) k b,
        full,
        unlocked,
        new_loop-first 65534 n (frame k) (allotted k) (omega arith) b' none,
      )
      refl

-- Only the subtable is written.
pub first_made-pages :
    (k : Kernel) (q : Ptr) → q ≢ frame k + 0x1000 → (first_made k).pages q ≡ k.pages q
first_made-pages k q ne = ground arith
