-- ===== src/Paging/Setup/Tables.antt =====
-- What `pcx_init` builds, and what it maps.
use mathlib.Core.Path.{fun_ext}
use pinion.Alloc.{with_word}
use pinion.Alloc.Bump.{Bump, Bump-steps, Bump-le, frame, with_page, pge_alloc-Bump}
use pinion.Machine.{Kernel, Ptr, null, ok, ◌>>=◌}
use pinion.Machine.Returns.{Returns, returns}
use pinion.Machine.Returns
use pinion.Paging.{virtual_base}
use pinion.Paging.Setup.{
  init, add_window, clear_page, fill_window, upper_loop, entry_of, window_entry,
}
use pinion.Paging.Setup.Upper.{Built, upper_loop-Built}
use pinion.Paging.Setup.Entries.{entry_of-plain}
use pinion.Prelude.{
  ℕ, ◌≡◌, ◌≢◌, ◌<◌, ◌≤◌, ◌⊎◌, ◌+◌, ◌*◌, ◌/◌, ◌%◌, ◌^◌, ◌==◌, ◌∙◌, if◌then◌else◌, ltb, update, false,
  arith, refl, ap, inl, inr, suc, sym,
}

-- The first tables: the root at `root`, 256 tables of level 3 behind it, the last one with the table
-- of the window, which is the next page.
pub record Mapped (root : Ptr) (pages : Ptr → ℕ → ℕ) : Type 0 where
  pub lower : (l : ℕ) → l < 256 → pages root l ≡ 0
  pub upper : (j : ℕ) → j < 256 → pages root (256 + j) ≡ entry_of (root + 0x1000 * (j + 1))
  pub empty : (j l : ℕ) → j < 255 → l < 512 → pages (root + 0x1000 * (j + 1)) l ≡ 0
  pub last : (l : ℕ) → l < 511 → pages (root + 0x1000 * 256) l ≡ 0
  pub window : pages (root + 0x1000 * 256) 511 ≡ entry_of (root + 0x1000 * 257)
  pub entries : (l : ℕ) → l < 512 → pages (root + 0x1000 * 257) l ≡ window_entry l

-- Only these pages matter.
pub Mapped-frame :
    (root : Ptr) (old new : Ptr → ℕ → ℕ)
    → ((q : Ptr) → q < root + 0x1000 * 258 → new q ≡ old q)
    → Mapped root old
    → Mapped root new
Mapped-frame root old new same m = record {
  lower = λ l i. ap (λ f. f l) (same root (omega arith)) ∙ m.lower l i;
  upper = λ j i. ap (λ f. f (256 + j)) (same root (omega arith)) ∙ m.upper j i;
  empty =
      λ j l i i'. ap (λ f. f l) (same (root + 0x1000 * (j + 1)) (omega arith)) ∙ m.empty j l i i';
  last = λ l i. ap (λ f. f l) (same (root + 0x1000 * 256) (omega arith)) ∙ m.last l i;
  window = ap (λ f. f 511) (same (root + 0x1000 * 256) (omega arith)) ∙ m.window;
  entries = λ l i. ap (λ f. f l) (same (root + 0x1000 * 257) (omega arith)) ∙ m.entries l i;
}

-- Only the new pages are written.
pub record SetUp (k g : Kernel) : Type 0 where
  pub mapped : Mapped (frame k) g.pages
  pub rest : g ≡ record k {
    pmm_locked = false;
    pge_locked = false;
    pge_list = null;
    pcx_root = frame k;
    alloc_base = k.alloc_base + 0x1000 * 258;
    pages = g.pages;
  }
  pub others : (q : Ptr) → (q < frame k) ⊎ (frame k + 0x1000 * 258 ≤ q) → g.pages q ≡ k.pages q

-- With a clear root.
abbrev rooted : Kernel → Kernel
rooted k =
    let h = record (with_page k) { pcx_root = frame k } in
    record h {
      pages = update h.pages (frame k) (λ j. if ltb j 512 then 0 else h.pages (frame k) j);
    }

-- With the table of the window.
abbrev windowed : Kernel → Kernel
windowed g =
    let h = with_page g in
    record h {
      pages =
          update h.pages (frame g) (λ i. if ltb i 512 then window_entry i else h.pages (frame g) i);
    }

-- With its entry in this table.
abbrev entered : Kernel → Ptr → Kernel
entered g pt3 = with_word (windowed g) pt3 511 (entry_of (frame g))

abbrev completed : Kernel → Kernel
completed g =
    let h = windowed g in
    entered g ((h.pages h.pcx_root 511 + virtual_base) % 2 ^ 64 / 2 ^ 12 * 2 ^ 12)

-- With these pages, after one more frame.
abbrev with_pages : (Ptr → ℕ → ℕ) → Kernel → Kernel
with_pages pages h = record h {
  pmm_locked = false;
  pge_locked = false;
  pge_list = null;
  alloc_base = h.alloc_base + 0x1000;
  pages = pages;
}

-- The pages after the two writes.
module _ (g : Kernel) (pt3 : Ptr) (apart : pt3 ≢ frame g) where
  entered-window : (l : ℕ) → l < 512 → (entered g pt3).pages (frame g) l ≡ window_entry l
  entered-window l small = ground (arith, apart)

  entered-last : (entered g pt3).pages pt3 511 ≡ entry_of (frame g)
  entered-last = ground (arith, apart)

  entered-other :
      (q : Ptr) (l : ℕ)
      → q ≢ frame g
      → (q ≢ pt3) ⊎ (l ≢ 511)
      → (entered g pt3).pages q l ≡ g.pages q l
  entered-other q l ne out = ground (arith, apart, ne, out)

init-root :
    (n : ℕ) (k : Kernel)
    → Bump (suc n) k
    → init k ≡ (upper_loop 256 256 >>= λ _. add_window) (rooted k)
unfolding init clear_page
init-root n k b =
    let full : (frame k == null) ≡ false = ground arith in rw (pge_alloc-Bump n k b, full) refl

add_window-ok : (n : ℕ) (g : Kernel) → Bump (suc n) g → add_window g ≡ ok tt (completed g)
unfolding add_window fill_window
add_window-ok n g b =
    let full : (frame g == null) ≡ false = ground arith in rw (pge_alloc-Bump n g b, full) refl

rooted-Bump : (n : ℕ) (k : Kernel) → Bump (suc n) k → Bump n (rooted k)
rooted-Bump n k b =
    Bump-steps 1 n k (rooted k) (Bump-le (1 + n) (suc n) k (omega arith) b)
      (refl, refl, b.unlocked.2) refl (refl, b.no_tcb, b.no_ccb) (refl, refl) (omega arith)

-- The state after the loop.
module _ (k g : Kernel) (b : Bump 258 k) (u : Built 256 256 (rooted k) g) where
  root_of : g.pcx_root ≡ frame k
  root_of = ap (λ g. g.pcx_root) u.rest

  frame_after : frame g ≡ frame k + 0x1000 * 257
  frame_after = ap frame u.rest ∙ omega arith

  last_entry : g.pages (frame k) 511 ≡ k.alloc_base + 0x1000 * 256 + 3
  last_entry =
      u.entries 255 (omega arith)
      ∙ ap entry_of (omega arith)
      ∙ entry_of-plain (k.alloc_base + 0x1000 * 256) (ground (arith, b.aligned))
          (ground (arith, b.room, b.low))

  apart : (frame k == frame g) ≡ false
  apart = rw frame_after (ground arith)

  -- The table that gets the entry of the window is the last of level 3.
  last_table :
      ((windowed g).pages g.pcx_root 511 + virtual_base) % 2 ^ 64 / 2 ^ 12 * 2 ^ 12
      ≡ frame k + 0x1000 * 256
  last_table = rw (root_of, apart, last_entry) (ground (arith, b.aligned, b.room, b.low))

  after-Bump : Bump 1 g
  after-Bump =
      Bump-steps 257 1 k g b
        (
          ap (λ g. g.pmm_locked) u.rest,
          ap (λ g. g.pge_locked) u.rest,
          ap (λ g. g.tcb_locked) u.rest ∙ b.unlocked.2,
        )
        (ap (λ g. g.ccb_locked) u.rest)
        (
          ap (λ g. g.pge_list) u.rest,
          ap (λ g. g.tcb_list) u.rest ∙ b.no_tcb,
          ap (λ g. g.ccb_list) u.rest ∙ b.no_ccb,
        )
        (ap (λ g. g.pmm_base) u.rest, ap (λ g. g.alloc_limit) u.rest)
        (ap (λ g. g.alloc_base) u.rest ∙ omega arith)

  at_entered : completed g ≡ entered g (frame k + 0x1000 * 256)
  at_entered = ap (entered g) last_table

  -- A word that the two writes leave is the one after the loop.
  entered-kept :
      (q : Ptr) (l : ℕ)
      → q ≢ frame k + 0x1000 * 257
      → (q ≢ frame k + 0x1000 * 256) ⊎ (l ≢ 511)
      → (entered g (frame k + 0x1000 * 256)).pages q l ≡ g.pages q l
  entered-kept q l ne out =
      entered-other g (frame k + 0x1000 * 256) (rw frame_after (omega arith)) q l
        (rw frame_after ne) out

  completed-Mapped : Mapped (frame k) (entered g (frame k + 0x1000 * 256)).pages
  completed-Mapped = record {
    lower = λ l small.
        let clear : (rooted k).pages (frame k) l ≡ 0 = ground arith in
        entered-kept (frame k) l (omega arith) (inr (omega arith)) ∙ u.kept l (inl small) ∙ clear;
    upper = λ j small.
        entered-kept (frame k) (256 + j) (omega arith) (inl (omega arith))
        ∙ u.entries j small
        ∙ ap entry_of (omega arith);
    empty = λ j l few small.
        entered-kept (frame k + 0x1000 * (j + 1)) l (omega arith) (inl (omega arith))
        ∙ ap (λ p. g.pages p l) (omega arith)
        ∙ u.clear j l (omega arith) small;
    last = λ l small.
        entered-kept (frame k + 0x1000 * 256) l (omega arith) (inr (omega arith))
        ∙ ap (λ p. g.pages p l) (omega arith)
        ∙ u.clear 255 l (omega arith) (omega arith);
    window =
        entered-last g (frame k + 0x1000 * 256) (rw frame_after (omega arith))
        ∙ ap entry_of frame_after;
    entries = λ l small.
        ap (λ p. (entered g (frame k + 0x1000 * 256)).pages p l) (sym frame_after)
        ∙ entered-window g (frame k + 0x1000 * 256) (rw frame_after (omega arith)) l small;
  }

  completed-SetUp : SetUp k (completed g)
  completed-SetUp = rw at_entered (record {
    mapped = completed-Mapped;
    rest =
        ap (with_pages (entered g (frame k + 0x1000 * 256)).pages) u.rest
        ∙ ap
            (λ a. record k {
              pmm_locked = false;
              pge_locked = false;
              pge_list = null;
              pcx_root = frame k;
              alloc_base = a;
              pages = (entered g (frame k + 0x1000 * 256)).pages;
            })
            (omega arith);
    others = λ q out.
        let old : (rooted k).pages q ≡ k.pages q = ground arith in
        fun_ext (λ l. entered-kept q l (ground arith) (ground arith))
        ∙ u.others q (ground arith) (ground arith)
        ∙ old;
  })

pub init-SetUp : (k : Kernel) → Bump 258 k → Returns (λ _ g. SetUp k g) (init k)
init-SetUp k b = rw (init-root 257 k b) (
    Returns.bind
      (upper_loop-Built 256 256 (rooted k)
        (Bump-le 256 257 (rooted k) (omega arith) (rooted-Bump 257 k b)) (omega arith))
      λ _ g u. rw (add_window-ok 0 g (after-Bump k g b u)) (returns (completed-SetUp k g b u)))
