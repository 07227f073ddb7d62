-- ===== src/Api/Interrupt/Wait.antt =====
-- `interrupt_wait`.
use pinion.Prelude.{◌≢◌, ◌≡◌, ◌⊎◌, ℕ, Option-cases, inl, inr, refl, clear_bit}
use pinion.Api.Interrupt.{wait, find_fired, waited}
use pinion.Machine.{Kernel, null, waiting, ok, with_tcb}
use pinion.Machine.Runs.{load-ok, modify-ok}

-- The running thread has to wait, or a tap of it has fired and nothing changes.
pub wait-cases :
    (k : Kernel)
    → k.active_tcb ≢ null
    → let t = k.active_tcb in
      (wait k ≡ ok 0 (with_tcb k t (record (k.tcbs t) { state = waiting })))
      ⊎ ((n : ℕ) × (wait k ≡ ok n k))
unfolding wait waited
wait-cases k ne =
    let t = k.active_tcb in
    elim (Option-cases (find_fired (k.tcbs t).tap 4 0)) [
      | inl e ↦
          inl (rw (load-ok t k ne, e, modify-ok t k ne (λ x. record x { state = waiting })) refl)
      | inr (i, e) ↦ inr (clear_bit ((k.tcbs t).tap i) 15, rw (load-ok t k ne, e) refl)
    ]
