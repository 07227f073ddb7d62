-- ===== src/Interrupts/Added.antt =====
-- What `interrupt_add_vector_page` makes of the state, while nothing has been freed.
use pinion.Alloc.Bump.{Bump, Bump-steps, Bump-le, frame, with_page, pge_alloc-Bump}
use pinion.Interrupts.{add_vector_page, vector_page}
use pinion.Machine.{Kernel, Vtable, null, ok}
use pinion.Prelude.{
  ℕ, suc, ◌≡◌, ◌+◌, ◌/◌, ◌^◌, ◌==◌, false, true, arith, update, if◌then◌else◌, ltb, refl,
}

-- After `interrupt_add_vector_page`.
abbrev pub vectored : ℕ → Vtable → Kernel → Kernel
vectored base v k =
    let h = with_page k in
    record h {
      vector_pages = update k.vector_pages (base / 2 ^ 7) (record { route = frame k; vtable = v });
      pages = update h.pages (frame k) (λ j. if ltb j 512 then null else h.pages (frame k) j);
    }

pub add_vector_page-vectored :
    (n base : ℕ) (v : Vtable) (k : Kernel)
    → Bump (suc n) k
    → ltb (base / 2 ^ 7) 128 ≡ true
    → (add_vector_page base v k ≡ ok tt (vectored base v k)) × Bump n (vectored base v k)
unfolding add_vector_page vector_page
add_vector_page-vectored n base v k b inside =
    let full : (frame k == null) ≡ false = ground arith in
    (
      rw (inside, pge_alloc-Bump n k b, full) refl,
      Bump-steps 1 n k (vectored base v k) (Bump-le (1 + n) (suc n) k (omega arith) b)
          (refl, refl, b.unlocked.2) refl (refl, b.no_tcb, b.no_ccb) (refl, refl) (omega arith),
    )
