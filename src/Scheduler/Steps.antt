-- ===== src/Scheduler/Steps.antt =====
-- `scheduler_add_tcb` and `scheduler_rem_tcb` within a call that moves a thread.
use pinion.Scheduler.Queue.{links}
use pinion.Scheduler.Push.{push_tcb-append}
use pinion.Scheduler.Remove.{rem_tcb-erase}
use pinion.Scheduler.{rounds, rem_tcb, push_tcb}
use pinion.Machine.Returns.{Returns}
use pinion.Scheduler.Invariant.{But, Moved, But-OnlyLinks, OnlyLinks-Moved}
use pinion.Machine.{Ptr, Kernel, null}
use pinion.Machine.Returns
use pinion.Prelude.{
  List, ◌≢◌, length, ◌∉◌, ◌+◌, ◌<◌, ◌++◌, erase, ◌∷◌, [], ◌≡◌, arith, has-erase_ne, has-append,
  has-erase,
}

-- `scheduler_add_tcb` within a call that moves `t`.
pub add_tcb-But :
    {Live : Ptr → Type 0} (t : Ptr) (k : Kernel) (xs : List Ptr)
    → t ≢ null
    → t ∉ xs
    → k.active_tcb ≢ t
    → But t Live k xs
    → Returns
        (λ _ g.
          But t Live g (xs ++ t ∷ [])
          × Moved t k g
          × (g.tcbs t ≡ record (k.tcbs t) { next = links g t }))
        (push_tcb t k)
add_tcb-But t k xs ne out other b = Returns.mono (push_tcb-append t ne out b.queue) λ _ g (q, o). (
  But-OnlyLinks t xs (xs ++ t ∷ []) o q (λ p np. ground (arith, has-append p xs (t ∷ [])))
      (ground (arith, has-append k.active_tcb xs (t ∷ []), b.inactive)) b,
  OnlyLinks-Moved o,
  ground (arith, o.tcb t),
)

-- `scheduler_rem_tcb` within such a call.
pub rem_tcb-But :
    {Live : Ptr → Type 0} (t : Ptr) (k : Kernel) (xs : List Ptr)
    → t ≢ null
    → length xs + 1 < rounds
    → But t Live k xs
    → Returns (λ _ g. But t Live g (erase t xs) × Moved t k g) (rem_tcb t k)
rem_tcb-But t k xs ne fuel b = Returns.mono (rem_tcb-erase t xs ne fuel b.queue) λ _ g (_, q, o). (
  But-OnlyLinks t xs (erase t xs) o q (λ p np. has-erase_ne p t xs np)
      (has-erase k.active_tcb t xs b.inactive) b,
  OnlyLinks-Moved o,
)
