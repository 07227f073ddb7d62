-- ===== src/Boot/Idt.antt =====
-- What `idt_init` makes of the state, while nothing has been freed.
use pinion.Alloc.Bump.{Bump, Bump-steps, Bump-le, frame, with_page, pge_alloc-Bump}
use pinion.Boot.{idt_init}
use pinion.Machine.{Kernel, null, ok}
use pinion.Prelude.{ℕ, suc, ◌≡◌, ◌+◌, ◌==◌, false, arith, refl}

-- After `idt_init`.
abbrev pub gated : Kernel → Kernel
gated k = record (with_page k) { idt = frame k }

pub idt_init-gated :
    (n : ℕ) (k : Kernel) → Bump (suc n) k → (idt_init k ≡ ok tt (gated k)) × Bump n (gated k)
unfolding idt_init
idt_init-gated n k b =
    let full : (frame k == null) ≡ false = ground arith in
    (
      rw (pge_alloc-Bump n k b, full) refl,
      Bump-steps 1 n k (gated k) (Bump-le (1 + n) (suc n) k (omega arith) b)
          (refl, refl, b.unlocked.2) refl (refl, b.no_tcb, b.no_ccb) (refl, refl) (omega arith),
    )
