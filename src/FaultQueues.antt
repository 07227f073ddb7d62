-- ===== src/FaultQueues.antt =====
-- The queues of threads that faulted or exited (src/pinion64/queues.c). They link the TCBs by the
-- same field `next` as the scheduling queue.
pub mod Stack
use pinion.Machine.{Kernel, Ptr, Cmd, ◌>>=◌, get, pure, ◌>>◌, modify, change, null, load}
use pinion.Prelude.{Bool, not, if◌then◌else◌, ◌==◌}

-- `pagefault_queue`, `miscfault_queue`, `zombie_queue`
pub data Queue : Type 0 where
  pagefault miscfault zombie : Queue

abbrev pub head : Queue → Kernel → Ptr
head pagefault k = k.pagefaults
head miscfault k = k.miscfaults
head zombie k = k.zombies

abbrev pub set_head : Queue → Ptr → Kernel → Kernel
set_head pagefault p k = record k { pagefaults = p }
set_head miscfault p k = record k { miscfaults = p }
set_head zombie p k = record k { zombies = p }

pub has_queued : Queue → Cmd Bool
has_queued q = do k ← get; pure (not (head q k == null))

-- The result is null if the queue is empty.
pub get_queued : Queue → Cmd Ptr
get_queued q = do
  k ← get
  let tcb = head q k
  if tcb == null then pure tt else do t ← load tcb; change (set_head q t.next)
  pure tcb

pub enqueue : Queue → Ptr → Cmd (Unit {0})
enqueue q tcb = do k ← get; modify tcb (λ t. record t { next = head q k }); change (set_head q tcb)
