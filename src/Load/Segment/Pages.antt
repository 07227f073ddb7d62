-- ===== src/Load/Segment/Pages.antt =====
-- The pages of a segment.
use Prim.Native.Nat.{bit_or}
use pinion.Prelude.{
  ℕ, suc, ◌≤◌, ◌/◌, ◌+◌, arith, ◌<◌, ◌≢◌, ◌≡◌, ◌^◌, ◌%◌, true, ap, none, refl, ◌∙◌, some, ◌-◌,
  Bool-cases, ltb, inl, sym, inr,
}
use pinion.Alloc.Bump.{Bump, Bump-le, Bump-steps, frame, with_page, pge_alloc-Bump}
use pinion.Bytes.{Memory}
use pinion.Load.Copy.{mapped}
use pinion.Load.Segment.{map_page, shown, kernel_flags}
use pinion.Machine.{Kernel, Ptr, ok}
use pinion.Paging.{walk, get_trans}
use pinion.Paging.Tree.{Tree, Tree-upper, walk-tables}
use pinion.Paging.Tree.Added.{set_frame-NewPage, bit_or-present}

-- The bits of an address that the walk reads.
abbrev pub page_bits : ℕ → ℕ
page_bits a = a / 2 ^ 12 % 2 ^ 36

-- Nothing but pages of the range from `lo` to `hi` has been mapped, and these are; the tables make a
-- tree as before, and `n` frames are left.
pub record Extended (n lo hi : ℕ) (level level' : Ptr → ℕ) (k h : Kernel) : Type 0 where
  pub tree : Tree level' (frame h) h.pcx_root h.pages
  pub bump : Bump n h
  pub inside : (a : ℕ) → lo ≤ a → a < hi → mapped h a ≡ true
  pub elsewhere :
      (a : ℕ)
      → ((b : ℕ) → lo ≤ b → b < hi → page_bits a ≢ page_bits b)
      → walk h.pages 4 h.pcx_root a ≡ walk k.pages 4 k.pcx_root a
  pub rest : record h { alloc_base = k.alloc_base; pages = k.pages } ≡ k

-- After which the frames and the tables are those of `k` again.
abbrev pub reset : Kernel → Kernel → Kernel
reset k h = record h { alloc_base = k.alloc_base; pages = k.pages }

pub mapped-walked :
    (h : Kernel) (a : ℕ) (r : ℕ × ℕ) → walk h.pages 4 h.pcx_root a ≡ some r → mapped h a ≡ true
unfolding mapped
mapped-walked h a r e = rw (mapped, e) refl

pub same_page :
    (a addr : ℕ) → addr % 2 ^ 12 ≡ 0 → addr ≤ a → a < addr + 0x1000 → a / 2 ^ 12 ≡ addr / 2 ^ 12
same_page a addr aligned low high = omega arith

module _ (n : ℕ) (level : Ptr → ℕ) (k : Kernel) (tree : Tree level (frame k) k.pcx_root k.pages)
    (bump : Bump (suc n) k) where
  outside_tables : (q : Ptr) → level q ≢ 0 → (with_page k).pages q ≡ k.pages q
  outside_tables q z =
      let low = tree.below q z in
      let apart : q ≢ frame k = λ e. omega arith in ground (arith, apart)

  Tree-with_page : Tree level (frame (with_page k)) (with_page k).pcx_root (with_page k).pages
  Tree-with_page =
      Tree-upper level (frame k) (frame (with_page k)) k.pcx_root k.pages (with_page k).pages
        (omega arith) (λ q j i l. ap (λ p. p j) (outside_tables q (λ z. ground (arith, z, l)))) tree

  Bump-with_page : Bump n (with_page k)
  Bump-with_page =
      Bump-steps 1 n k (with_page k) (Bump-le (1 + n) (suc n) k (omega arith) bump)
        (refl, refl, bump.unlocked.2) refl (refl, bump.no_tcb, bump.no_ccb) (refl, refl)
        (omega arith)

  walk-with_page : (a : ℕ) → walk (with_page k).pages 4 k.pcx_root a ≡ walk k.pages 4 k.pcx_root a
  walk-with_page a =
      walk-tables level (frame k) k.pcx_root k.pages (with_page k).pages tree outside_tables 4
        k.pcx_root a tree.top

  rest-with_page : record (with_page k) { alloc_base = k.alloc_base; pages = k.pages } ≡ k
  rest-with_page = (let (pmm, pge, tcb) = bump.unlocked in ground (arith, bump.no_page))

module _ (left : Ptr → ℕ → ℕ) where
  pub map_page-Extended :
      (n addr : ℕ) (level : Ptr → ℕ) (k : Kernel) (m : Memory)
      → Tree level (frame k) k.pcx_root k.pages
      → Bump (4 + n) k
      → addr % 2 ^ 12 ≡ 0
      → walk k.pages 4 k.pcx_root addr ≡ none
      → (h : Kernel) × (level' : Ptr → ℕ) × (map_page left addr m k
          ≡ ok (shown left (frame k) addr m) h)
        × Extended n addr (addr + 0x1000) level level' k h
  unfolding map_page
  map_page-Extended n addr level k m tree bump aligned vacant =
      let g = with_page k in
      let bump4 = Bump-le (suc (3 + n)) (4 + n) k (omega arith) bump in
      let phys = get_trans g (frame k) in
      let (h, level', ran, done) =
        set_frame-NewPage n addr phys kernel_flags level g
          (Tree-with_page (3 + n) level k tree bump4) (Bump-with_page (3 + n) level k tree bump4)
          aligned (walk-with_page (3 + n) level k tree bump4 addr ∙ vacant)
          (bit_or-present phys kernel_flags refl) in
      (
        h,
        level',
        rw (pge_alloc-Bump (3 + n) k bump4, ran) refl,
        record {
          tree = done.tree;
          bump = done.bump;
          inside = λ a low high.
              mapped-walked h a (bit_or phys kernel_flags, 1)
                (done.walked a (ap (λ q. q % 2 ^ 36) (same_page a addr aligned low high)));
          elsewhere = λ a other.
              done.elsewhere a (other addr (omega arith) (omega arith))
              ∙ walk-with_page (3 + n) level k tree bump4 a;
          rest = ap (reset k) done.rest ∙ rest-with_page (3 + n) level k tree bump4;
        },
      )

-- Nothing more.
pub Extended-refl :
    (n lo hi : ℕ) (level : Ptr → ℕ) (k : Kernel)
    → Tree level (frame k) k.pcx_root k.pages
    → Bump n k
    → hi ≤ lo
    → Extended n lo hi level level k k
Extended-refl n lo hi level k tree bump empty = record {
  tree = tree;
  bump = bump;
  inside = λ a low high. absurd (omega arith);
  elsewhere = λ a other. refl;
  rest = refl;
}

-- Addresses in the upper half, in different pages.
pub apart_bits :
    (a b mid : ℕ)
    → 2 ^ 64 - 2 ^ 48 ≤ b
    → a < 2 ^ 64
    → mid % 2 ^ 12 ≡ 0
    → b < mid
    → mid ≤ a
    → page_bits a ≢ page_bits b
apart_bits a b mid upper top aligned below above e =
    let one : a / 2 ^ 12 % 2 ^ 36 ≡ a / 2 ^ 12 - (2 ^ 52 - 2 ^ 36) = omega arith in
    let two : b / 2 ^ 12 % 2 ^ 36 ≡ b / 2 ^ 12 - (2 ^ 52 - 2 ^ 36) = omega arith in omega arith

-- One range behind the other.
pub Extended-trans :
    (n1 n lo mid hi : ℕ) (level level' level'' : Ptr → ℕ) (k g h : Kernel)
    → 2 ^ 64 - 2 ^ 48 ≤ lo
    → hi < 2 ^ 64
    → mid % 2 ^ 12 ≡ 0
    → lo ≤ mid
    → mid ≤ hi
    → Extended n1 lo mid level level' k g
    → Extended n mid hi level' level'' g h
    → Extended n lo hi level level'' k h
unfolding mapped
Extended-trans n1 n lo mid hi level level' level'' k g h upper top aligned le le' one two = record {
  tree = two.tree;
  bump = two.bump;
  inside = λ a low high. elim (Bool-cases (ltb a mid)) [
    | inl below ↦
        let kept = two.elsewhere a (λ b from to e.
          apart_bits b a mid (omega arith) (omega arith) aligned (ground (arith, below)) from
            (sym e)) in
        rw (mapped, kept) (one.inside a low (ground (arith, below)))
    | inr above ↦ two.inside a (ground (arith, above)) high
  ];
  elsewhere = λ a other.
      two.elsewhere a (λ b from to. other b (omega arith) to)
      ∙ one.elsewhere a (λ b from to. other b from (omega arith));
  rest = ap (reset k) two.rest ∙ one.rest;
}
