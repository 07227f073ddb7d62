-- ===== src/Paging/Tree/Added.antt =====
-- What `pcx_set_frame` of a page that is not mapped leaves.
use pinion.Prelude.{
  ℕ, test_bit, ◌/◌, ◌^◌, ◌≡◌, true, ◌%◌, false, ap, Bool-cases, suc, ◌+◌, arith, ◌≢◌, ◌==◌, ◌&&◌,
  sym, ◌||◌, ◌∙◌, some, zero, refl, subst, low_bits, none, ◌<◌, ◌*◌,
}
use pinion.Alloc.{with_word}
use pinion.Alloc.Bump.{Bump, frame, Bump-steps, Bump-le}
use Prim.Native.Nat.{bit_or, bit_or-bitwise, digits, max}
use pinion.Machine.{Kernel, Ptr, ok}
use pinion.Paging.{
  index, frame_of, table_of, pf_pres, pf_large, walk, set_frame, get_trans, get_flags, flags_of,
}
use pinion.Paging.Tree.{
  Tree, Grown, Way, Way-walk, Way-single, walk-same, walk-page, walk-leaf, not_both, inr, inl,
  Tree-upper,
}
use pinion.Paging.Tree.Step.{Reached}
use pinion.Paging.Tree.Descend.{descend_lem}

-- After the entry `e` has been made the mapping of the page of an address, with tables on the way.
pub record NewPage (n addr e : ℕ) (level level' : Ptr → ℕ) (k h : Kernel) : Type 0 where
  pub tree : Tree level' (frame h) h.pcx_root h.pages
  pub bump : Bump n h
  pub here :
      (a : ℕ)
      → a / 2 ^ 12 % 2 ^ 36 ≡ addr / 2 ^ 12 % 2 ^ 36
      → get_trans h a ≡ (frame_of e + a % 2 ^ 12) % 2 ^ 64
  pub flags : (a : ℕ) → a / 2 ^ 12 % 2 ^ 36 ≡ addr / 2 ^ 12 % 2 ^ 36 → get_flags h a ≡ flags_of e
  pub walked :
      (a : ℕ)
      → a / 2 ^ 12 % 2 ^ 36 ≡ addr / 2 ^ 12 % 2 ^ 36
      → walk h.pages 4 h.pcx_root a ≡ some (e, 1)
  pub elsewhere :
      (a : ℕ)
      → a / 2 ^ 12 % 2 ^ 36 ≢ addr / 2 ^ 12 % 2 ^ 36
      → walk h.pages 4 h.pcx_root a ≡ walk k.pages 4 k.pcx_root a
  pub wider : (q : Ptr) → level q ≢ 0 → level' q ≡ level q
  pub others : (q : Ptr) → level' q ≡ 0 → h.pages q ≡ k.pages q
  pub rest : record h { alloc_base = k.alloc_base; pages = k.pages } ≡ k

-- The indices of an address are its bits 12 to 47.
same_bits :
    (a b : ℕ)
    → index a 1 ≡ index b 1
    → index a 2 ≡ index b 2
    → index a 3 ≡ index b 3
    → index a 4 ≡ index b 4
    → a / 2 ^ 12 % 2 ^ 36 ≡ b / 2 ^ 12 % 2 ^ 36
same_bits a b one two three four = omega arith

module _ (n addr e : ℕ) (level level' : Ptr → ℕ) (t1 : Ptr) (k g : Kernel)
    (present : test_bit e pf_pres ≡ true) (l : level k.pcx_root ≡ 4)
    (r : Reached n addr 4 k.pcx_root 1 t1 level level' k g) where
  abbrev written : Kernel
  written = with_word g t1 (index addr 1) e

  vacant_entry : test_bit (g.pages t1 (index addr 1)) pf_pres ≡ false
  vacant_entry = elim (Bool-cases (test_bit (g.pages t1 (index addr 1)) pf_pres)) [
    | inr gone ↦ gone
    | inl there ↦
        let last : (test_bit (g.pages t1 (index addr 1)) pf_large || 0 == 0) ≡ true =
          ground arith in
        absurd (not_both r.vacant (walk-leaf g.pages 0 t1 addr there last))
  ]

  same_root : g.pcx_root ≡ k.pcx_root
  same_root = ap (λ k. k.pcx_root) r.rest

  Grown-written : Grown level' g.pages written.pages
  Grown-written q j z there = elim (Bool-cases (q == t1 && j == index addr 1)) [
    | inl f ↦
        let first : q ≡ t1 = ground (arith, f) in
        let second : j ≡ index addr 1 = ground (arith, f) in
        absurd (
          ground (
            arith,
            sym (
                  ap (λ q. test_bit (g.pages q j) pf_pres) first
                  ∙ ap (λ j. test_bit (g.pages t1 j) pf_pres) second
                  ∙ vacant_entry)
                ∙ there,
          ))
    | inr f ↦ ground (arith, f)
  ]

  way : (pages : Ptr → ℕ → ℕ) → Grown level' g.pages pages → Way pages addr 4 k.pcx_root t1
  unfolding Way
  way pages grown = r.path pages t1 grown refl

  upper-written : (q : Ptr) (j i : ℕ) → level' q ≡ suc (suc i) → written.pages q j ≡ g.pages q j
  upper-written q j i m = ground (arith, m, r.at)

  Tree-written : Tree level' (frame written) written.pcx_root written.pages
  Tree-written =
      Tree-upper level' (frame g) (frame written) g.pcx_root g.pages written.pages (omega arith)
        upper-written r.tree

  -- The page of the address.
  walked-written :
      (a : ℕ)
      → a / 2 ^ 12 % 2 ^ 36 ≡ addr / 2 ^ 12 % 2 ^ 36
      → walk written.pages 4 written.pcx_root a ≡ some (e, 1)
  walked-written a same =
      let at : written.pages t1 (index addr 1) ≡ e = ground arith in
      let last : (test_bit e pf_large || 0 == 0) ≡ true = ground arith in
      walk-page written.pages written.pcx_root a addr same
      ∙ ap (λ q. walk written.pages 4 q addr) same_root
      ∙ Way-walk written.pages addr 4 k.pcx_root t1 (way written.pages Grown-written)
      ∙ walk-leaf written.pages 0 t1 addr (ap (λ w. test_bit w pf_pres) at ∙ present)
          (ap (λ w. test_bit w pf_large || 0 == 0) at ∙ last)
      ∙ ap (λ w. some (w, 1)) at

  here-written :
      (a : ℕ)
      → a / 2 ^ 12 % 2 ^ 36 ≡ addr / 2 ^ 12 % 2 ^ 36
      → get_trans written a ≡ (frame_of e + a % 2 ^ 12) % 2 ^ 64
  unfolding get_trans
  here-written a same = rw (get_trans, walked-written a same) refl

  flags-written :
      (a : ℕ) → a / 2 ^ 12 % 2 ^ 36 ≡ addr / 2 ^ 12 % 2 ^ 36 → get_flags written a ≡ flags_of e
  unfolding get_flags
  flags-written a same = rw (get_flags, walked-written a same) refl

  -- Any other walk either does not come to the table, or to another entry.
  away :
      (a i : ℕ) (q : Ptr)
      → level' q ≡ i
      → (Way g.pages a i q t1 → index a 1 ≢ index addr 1)
      → walk written.pages i q a ≡ walk g.pages i q a
  unfolding walk Way
  away a zero q m out = refl
  away a (suc zero) q m out =
      walk-same g.pages written.pages 0 q a
        (elim (Bool-cases (q == t1 && index a 1 == index addr 1)) [
          | inl f ↦
              (let first : q ≡ t1 = ground (arith, f) in absurd (out first (ground (arith, f))))
          | inr f ↦ ground (arith, f)
        ])
        (λ there more. refl)
  away a (suc (suc i)) q m out =
      walk-same g.pages written.pages (suc i) q a (upper-written q (index a (suc (suc i))) i m)
        λ there more.
          let small : test_bit (g.pages q (index a (suc (suc i)))) pf_large ≡ false =
            ground (arith, more) in
          away a (suc i) (table_of (g.pages q (index a (suc (suc i)))))
            (r.tree.closed q (index a (suc (suc i))) i m (ground arith) there small)
            (λ w. out (there, small, w))

  elsewhere-written :
      (a : ℕ)
      → a / 2 ^ 12 % 2 ^ 36 ≢ addr / 2 ^ 12 % 2 ^ 36
      → walk written.pages 4 written.pcx_root a ≡ walk k.pages 4 k.pcx_root a
  elsewhere-written a other =
      let top : level' k.pcx_root ≡ 4 = r.wider k.pcx_root (λ z. ground (arith, z, l)) ∙ l in
      let here = way g.pages (λ q j z there. refl) in
      let out : Way g.pages a 4 k.pcx_root t1 → index a 1 ≢ index addr 1 = λ w one.
        let (start, upper) =
          Way-single level' (frame g) g.pcx_root g.pages r.tree a addr 4 k.pcx_root k.pcx_root t1
            (top, top) w here in
        let two = upper 2 (omega arith) (omega arith) in
        let three = upper 3 (omega arith) (omega arith) in
        let four = upper 4 (omega arith) (omega arith) in
        other (same_bits a addr one two three four) in
      ap (λ q. walk written.pages 4 q a) same_root
      ∙ away a 4 k.pcx_root top out
      ∙ subst (λ i. walk g.pages i k.pcx_root a ≡ walk k.pages i k.pcx_root a) l
          (r.same k.pcx_root a (λ z. ground (arith, z, l)))

  NewPage-written : NewPage n addr e level level' k written
  NewPage-written = record {
    tree = Tree-written;
    bump =
        (let b = r.bump in
          Bump-steps 0 n g written (Bump-le (0 + n) n g (omega arith) b) b.unlocked refl
            (b.no_page, b.no_tcb, b.no_ccb) (refl, refl) (omega arith));
    here = here-written;
    flags = flags-written;
    walked = walked-written;
    elsewhere = elsewhere-written;
    wider = r.wider;
    others = λ q z.
        (let apart : q ≢ t1 = λ f. ground (arith, z, r.at, f) in
          let same : written.pages q ≡ g.pages q = ground (arith, apart) in same ∙ r.others q z);
    rest = r.rest;
  }

-- pcx_set_frame of a page that is not mapped, with a present entry, where the tables make a tree
-- (each table is reached by one entry of the next level up) and three frames are left for new
-- ones, returns 0. The tables make a tree again, which has those from before; the page has the
-- frame and the flags of the entry, every other address is translated as before, and nothing but
-- tables and the address of the next frame has been written.
pub set_frame-NewPage :
    (n addr phys flags : ℕ) (level : Ptr → ℕ) (k : Kernel)
    → Tree level (frame k) k.pcx_root k.pages
    → Bump (3 + n) k
    → low_bits addr 12 ≡ 0
    → walk k.pages 4 k.pcx_root addr ≡ none
    → test_bit (bit_or phys flags) pf_pres ≡ true
    → (h : Kernel) × (level' : Ptr → ℕ) × (set_frame addr 0x1000 phys flags k ≡ ok 0 h)
      × NewPage n addr (bit_or phys flags) level level' k h
unfolding set_frame
set_frame-NewPage n addr phys flags level k tree bump aligned vacant present =
    let (g, level', t1, ran, r) =
      descend_lem 3 n addr k.pcx_root level k tree bump tree.top vacant in
    (
      written n addr (bit_or phys flags) level level' t1 k g present tree.top r,
      level',
      rw (aligned, ran) refl,
      NewPage-written n addr (bit_or phys flags) level level' t1 k g present tree.top r,
    )

-- An odd entry is present, whatever frame it is put together with.
max_one : (a : ℕ) → a < 2 → max a 1 ≡ 1
max_one a h = omega arith

bit_or-odd : (a b : ℕ) → b % 2 ≡ 1 → bit_or a b % 2 ≡ 1
bit_or-odd zero b odd = ap (λ v. v % 2) (λ i. bit_or-bitwise 0 b i) ∙ odd
bit_or-odd (suc a) b odd =
    let one : max (suc a % 2) (b % 2) ≡ 1 =
      ap (max (suc a % 2)) odd ∙ max_one (suc a % 2) (omega arith) in
    ap (λ v. v % 2) (λ i. bit_or-bitwise (suc a) b i)
    ∙ ap (λ v. (digits (λ b. b) max a (suc a / 2) (b / 2) * 2 + v) % 2) one
    ∙ omega arith

pub bit_or-present : (a b : ℕ) → b % 2 ≡ 1 → test_bit (bit_or a b) pf_pres ≡ true
bit_or-present a b odd = (let is = bit_or-odd a b odd in ground (arith, is))
