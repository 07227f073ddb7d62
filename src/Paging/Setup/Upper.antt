-- ===== src/Paging/Setup/Upper.antt =====
-- What the loop over the upper half of the root leaves.
use pinion.Alloc.{with_word}
use pinion.Alloc.Bump.{Bump, Bump-steps, frame, with_page, pge_alloc-Bump, Bump-le}
use pinion.Machine.{Kernel, Ptr, null}
use pinion.Machine.Returns.{Returns, returns}
use pinion.Machine.Returns
use pinion.Paging.Setup.{upper_loop, entry_of, clear_page}
use pinion.Prelude.{
  ℕ, zero, suc, ◌≡◌, ◌≢◌, ◌≤◌, ◌<◌, ◌⊎◌, ◌+◌, ◌*◌, ◌==◌, if◌then◌else◌, ltb, update, false, arith,
  refl, ap, ◌∙◌, sym, inl,
}

-- The `n` entries of the root from `i` on are tables, in the next `n` frames, and these are clear.
pub record Built (n i : ℕ) (k g : Kernel) : Type 0 where
  pub rest : g ≡ record k {
    pmm_locked = false;
    pge_locked = false;
    pge_list = null;
    alloc_base = k.alloc_base + 0x1000 * n;
    pages = g.pages;
  }
  pub entries : (j : ℕ) → j < n → g.pages k.pcx_root (i + j) ≡ entry_of (frame k + 0x1000 * j)
  pub kept : (l : ℕ) → (l < i) ⊎ (i + n ≤ l) → g.pages k.pcx_root l ≡ k.pages k.pcx_root l
  pub clear : (j l : ℕ) → j < n → l < 512 → g.pages (frame k + 0x1000 * j) l ≡ 0
  pub others :
      (q : Ptr)
      → q ≢ k.pcx_root
      → (q < frame k) ⊎ (frame k + 0x1000 * n ≤ q)
      → g.pages q ≡ k.pages q

-- After one round.
abbrev stepped : ℕ → Kernel → Kernel
stepped i k =
    let h = with_word (with_page k) k.pcx_root i (entry_of (frame k)) in
    record h {
      pages = update h.pages (frame k) (λ j. if ltb j 512 then 0 else h.pages (frame k) j);
    }

upper_step :
    (n i : ℕ) (k : Kernel)
    → Bump (suc n) k
    → upper_loop (suc n) i k ≡ upper_loop n (i + 1) (stepped i k)
unfolding upper_loop clear_page
upper_step n i k b =
    let full : (frame k == null) ≡ false = ground arith in rw (pge_alloc-Bump n k b, full) refl

stepped-Bump : (n i : ℕ) (k : Kernel) → Bump (suc n) k → Bump n (stepped i k)
stepped-Bump n i k b =
    Bump-steps 1 n k (stepped i k) (Bump-le (1 + n) (suc n) k (omega arith) b)
      (refl, refl, b.unlocked.2) refl (refl, b.no_tcb, b.no_ccb) (refl, refl) (omega arith)

Built-entries :
    (n i : ℕ) (k g : Kernel)
    → k.pcx_root < frame k
    → Built n (i + 1) (stepped i k) g
    → (j : ℕ) → j < suc n
    → g.pages k.pcx_root (i + j) ≡ entry_of (frame k + 0x1000 * j)
Built-entries n i k g root u zero l =
    let here : (i : ℕ) → g.pages k.pcx_root i ≡ g.pages k.pcx_root (i + 0) =
      λ i. ap (g.pages k.pcx_root) (omega arith) in
    let first : (stepped i k).pages k.pcx_root i ≡ entry_of (frame k) = ground arith in
    sym (here i) ∙ u.kept i (inl (omega arith)) ∙ first ∙ ap entry_of (omega arith)
Built-entries n i k g root u (suc j) l =
    ap (g.pages k.pcx_root) (omega arith) ∙ u.entries j (omega arith) ∙ ap entry_of (omega arith)

Built-clear :
    (n i : ℕ) (k g : Kernel)
    → k.pcx_root < frame k
    → Built n (i + 1) (stepped i k) g
    → (j l : ℕ) → j < suc n
    → l < 512
    → g.pages (frame k + 0x1000 * j) l ≡ 0
Built-clear n i k g root u zero l h small =
    let first : (stepped i k).pages (frame k) l ≡ 0 = ground arith in
    ap (λ p. g.pages p l) (omega arith)
    ∙ ap (λ f. f l) (u.others (frame k) (λ e. omega arith) (inl (omega arith)))
    ∙ first
Built-clear n i k g root u (suc j) l h small =
    ap (λ p. g.pages p l) (omega arith) ∙ u.clear j l (omega arith) small

Built-step :
    (n i : ℕ) (k g : Kernel)
    → k.pcx_root < frame k
    → Built n (i + 1) (stepped i k) g
    → Built (suc n) i k g
Built-step n i k g root u = record {
  rest =
      u.rest
      ∙ ap
          (λ a. record k {
            pmm_locked = false;
            pge_locked = false;
            pge_list = null;
            alloc_base = a;
            pages = g.pages;
          })
          (omega arith);
  entries = Built-entries n i k g root u;
  kept = λ l out. u.kept l (ground arith) ∙ ground arith;
  clear = Built-clear n i k g root u;
  others = λ q ne out.
      let same : (stepped i k).pages q ≡ k.pages q = ground arith in
      u.others q ne (ground arith) ∙ same;
}

pub upper_loop-Built :
    (n i : ℕ) (k : Kernel)
    → Bump n k
    → k.pcx_root < frame k
    → Returns (λ _ g. Built n i k g) (upper_loop n i k)
unfolding upper_loop
upper_loop-Built zero i k b root = returns (record {
  rest = (let (pmm, pge, tcb) = b.unlocked in ground (arith, b.no_page));
  entries = λ j l. absurd (omega arith);
  kept = λ l out. refl;
  clear = λ j l h. absurd (omega arith);
  others = λ q ne out. refl;
})
upper_loop-Built (suc n) i k b root = rw (upper_step n i k b) (
    Returns.mono (upper_loop-Built n (i + 1) (stepped i k) (stepped-Bump n i k b) (omega arith))
      λ _ g u. Built-step n i k g root u)
