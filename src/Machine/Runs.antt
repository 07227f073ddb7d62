-- ===== src/Machine/Runs.antt =====
-- What a read and a write of a TCB do at an address that is not null.
use mathlib.Core.Path.{fun_ext}
use pinion.Prelude.{◌≡◌, ◌≢◌, arith, ap, update_self}
use pinion.Machine.{Ptr, null, Tcb, Kernel, ok, with_tcb, load, modify}

module _ (p : Ptr) (k : Kernel) (ne : p ≢ null) where
  pub load-ok : load p k ≡ ok (k.tcbs p) k
  unfolding load
  load-ok = ground arith

  pub modify-ok : (f : Tcb → Tcb) → modify p f k ≡ ok tt (with_tcb k p (f (k.tcbs p)))
  unfolding modify
  modify-ok f = ground arith

-- The later of two writes of a TCB counts, and reads what the earlier one left.
pub with_tcb_twice :
    (k : Kernel) (t : Ptr) (x : Tcb) (f : Tcb → Tcb)
    → with_tcb (with_tcb k t x) t (f ((with_tcb k t x).tcbs t)) ≡ with_tcb k t (f x)
with_tcb_twice k t x f =
    let at = ap f (update_self k.tcbs t x) in
    ap (λ h. record k { tcbs = h }) (fun_ext λ a. ground (arith, at))
