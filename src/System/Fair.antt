-- ===== src/System/Fair.antt =====
-- The timer lets every queued thread run.
use mathlib.Core.List.{append_assoc}
use pinion.Prelude.{List, ◌∷◌, ◌++◌, length, [], ◌≡◌, ◌+◌, arith, subst}
use pinion.System.{trap}
use pinion.System.Between.{Between}
use pinion.System.Traps.{tick, tick-next}
use pinion.Machine.{Kernel, Ptr, Tcb, Cmd, ◌>>◌, pure}
use pinion.Machine.Returns.{Returns, returns}
use pinion.Machine.Returns

-- Traps of the timer, one after the other.
pub ticks : List Tcb → Cmd (Unit {0})
ticks [] = pure tt
ticks (regs ∷ rest) = trap (tick regs) >> ticks rest

-- In a state between two traps with a thread t in the scheduling queue, after as many timer
-- traps as t has threads ahead of it and one more, t is the active TCB, in a state between two
-- traps.
pub ticks_lem :
    {us : List Ptr} (ahead behind : List Ptr) (t : Ptr) (regs : List Tcb) (k : Kernel)
    → Between us k (ahead ++ t ∷ behind)
    → length regs ≡ length ahead + 1
    → Returns (λ _ g. (g.active_tcb ≡ t) × ((ys : List Ptr) × Between us g ys)) (ticks regs k)
unfolding ticks
ticks_lem ahead behind t [] k b e = absurd (omega arith)
ticks_lem [] behind t (r ∷ []) k b e =
    Returns.bind (tick-next t behind r b) λ _ g (b', a). returns (a, (_, b'))
ticks_lem [] behind t (r ∷ r' ∷ rs) k b e = absurd (omega arith)
ticks_lem {us = us} (x ∷ ahead) behind t (r ∷ rs) k b e =
    Returns.bind (tick-next x (ahead ++ t ∷ behind) r b) λ _ g (b', a).
      ticks_lem ahead (behind ++ k.active_tcb ∷ []) t rs g
        (subst (λ l. Between us g l) (append_assoc ahead (t ∷ behind) (k.active_tcb ∷ [])) b')
        (omega arith)
