-- ===== src/Threads/Lookup.antt =====
-- What the table of TCBs holds, and `tcb_get`.
use pinion.Threads.{tcb_get, tcb_limit, slot}
use pinion.Machine.{Kernel, Ptr, acquire, release, ok, null}
use pinion.Prelude.{ℕ, ◌≡◌, false, arith, if◌then◌else◌, leb, ◌/◌, ◌==◌}

-- The thread with an ID, or null.
abbrev pub lookup : Kernel → ℕ → Ptr
lookup k id =
    if leb tcb_limit id then null else if k.tcb_table (id / 512) == null then null else slot k id

-- The addresses of the threads in the table.
abbrev pub IsThread : Kernel → Ptr → Type 0
IsThread k p = (id : ℕ) × (lookup k id ≡ p)

-- `tcb_get` reads the table and leaves everything as it is, its mutex released.
pub tcb_get-lookup :
    (id : ℕ) (k : Kernel) → k.table_locked ≡ false → tcb_get id k ≡ ok (lookup k id) k
unfolding tcb_get acquire release
tcb_get-lookup id k unlocked = ground arith
