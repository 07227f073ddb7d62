-- ===== src/Paging/Mapping.antt =====
-- A mapping that `pcx_set_frame` makes is the one that `pcx_get_trans` finds.
use pinion.Alloc.{with_word}
use pinion.Machine.{Kernel, Ptr, ok}
use pinion.Paging.{
  index, table_of, frame_of, pf_pres, pf_large, walk, get_trans, ensure_table, descend, set_frame,
  get_flags, flags_of,
}
use pinion.Prelude.{◌∙◌, subst, ap}
use Prim.Native.Nat.{bit_or}
use pinion.Prelude.{
  ℕ, ◌≡◌, ◌≢◌, ◌^◌, ◌%◌, ◌==◌, test_bit, low_bits, true, false, arith, refl, some, suc,
}

-- The way from the root to the table of level 1 is present, and its tables are distinct.
pub record Present (k : Kernel) (addr : ℕ) (t3 t2 t1 : Ptr) : Type 0 where
  pub pres4 : test_bit (k.pages k.pcx_root (index addr 4)) pf_pres ≡ true
  pub small4 : test_bit (k.pages k.pcx_root (index addr 4)) pf_large ≡ false
  pub next4 : table_of (k.pages k.pcx_root (index addr 4)) ≡ t3
  pub pres3 : test_bit (k.pages t3 (index addr 3)) pf_pres ≡ true
  pub small3 : test_bit (k.pages t3 (index addr 3)) pf_large ≡ false
  pub next3 : table_of (k.pages t3 (index addr 3)) ≡ t2
  pub pres2 : test_bit (k.pages t2 (index addr 2)) pf_pres ≡ true
  pub small2 : test_bit (k.pages t2 (index addr 2)) pf_large ≡ false
  pub next2 : table_of (k.pages t2 (index addr 2)) ≡ t1
  pub apart : (t1 ≢ k.pcx_root) × (t1 ≢ t3) × (t1 ≢ t2)

descend-step :
    (i : ℕ) (pt addr : ℕ) (t : Ptr) (k : Kernel)
    → test_bit (k.pages pt (index addr (suc (suc i)))) pf_pres ≡ true
    → test_bit (k.pages pt (index addr (suc (suc i)))) pf_large ≡ false
    → table_of (k.pages pt (index addr (suc (suc i)))) ≡ t
    → descend (suc i) pt addr k ≡ descend i t addr k
unfolding descend ensure_table
descend-step i pt addr t k pres small next = rw (pres, small, next) refl

pub walk-step :
    (i : ℕ) (pages : ℕ → ℕ → ℕ) (pt addr : ℕ) (t : Ptr)
    → test_bit (pages pt (index addr (suc (suc i)))) pf_pres ≡ true
    → test_bit (pages pt (index addr (suc (suc i)))) pf_large ≡ false
    → table_of (pages pt (index addr (suc (suc i)))) ≡ t
    → walk pages (suc (suc i)) pt addr ≡ walk pages (suc i) t addr
unfolding walk
walk-step i pages pt addr t pres small next =
    let more : (suc i == 0) ≡ false = ground arith in rw (pres, small, more, next) refl

module _ (k : Kernel) (addr : ℕ) (t3 t2 t1 : Ptr) (p : Present k addr t3 t2 t1) where
  descend-Present : descend 3 k.pcx_root addr k ≡ ok (some t1) k
  unfolding descend
  descend-Present =
      descend-step 2 k.pcx_root addr t3 k p.pres4 p.small4 p.next4
      ∙ descend-step 1 t3 addr t2 k p.pres3 p.small3 p.next3
      ∙ descend-step 0 t2 addr t1 k p.pres2 p.small2 p.next2

  set_frame-Present :
      (size frame flags : ℕ)
      → low_bits size 12 ≡ 0
      → low_bits addr 12 ≡ 0
      → set_frame addr size frame flags k
        ≡ ok 0 (with_word k t1 (index addr 1) (bit_or frame flags))
  unfolding set_frame
  set_frame-Present size frame flags s a = rw (s, a, descend-Present) refl

  -- The walk ends in the table of level 1.
  walk-Present :
      test_bit (k.pages t1 (index addr 1)) pf_pres ≡ true
      → walk k.pages 4 k.pcx_root addr ≡ some (k.pages t1 (index addr 1), 1)
  unfolding walk
  walk-Present pres =
      walk-step 2 k.pages k.pcx_root addr t3 p.pres4 p.small4 p.next4
      ∙ walk-step 1 k.pages t3 addr t2 p.pres3 p.small3 p.next3
      ∙ walk-step 0 k.pages t2 addr t1 p.pres2 p.small2 p.next2
      ∙ ground arith

  -- A word of the table of level 1 leaves the way there.
  Present-with_word : (j e : ℕ) → Present (with_word k t1 j e) addr t3 t2 t1
  Present-with_word j e =
      let g = with_word k t1 j e in
      let root : k.pages k.pcx_root ≡ g.pages k.pcx_root = ground (arith, p.apart) in
      let third : k.pages t3 ≡ g.pages t3 = ground (arith, p.apart) in
      let second : k.pages t2 ≡ g.pages t2 = ground (arith, p.apart) in
      record {
        pres4 = subst (λ f. test_bit (f (index addr 4)) pf_pres ≡ true) root p.pres4;
        small4 = subst (λ f. test_bit (f (index addr 4)) pf_large ≡ false) root p.small4;
        next4 = subst (λ f. table_of (f (index addr 4)) ≡ t3) root p.next4;
        pres3 = subst (λ f. test_bit (f (index addr 3)) pf_pres ≡ true) third p.pres3;
        small3 = subst (λ f. test_bit (f (index addr 3)) pf_large ≡ false) third p.small3;
        next3 = subst (λ f. table_of (f (index addr 3)) ≡ t2) third p.next3;
        pres2 = subst (λ f. test_bit (f (index addr 2)) pf_pres ≡ true) second p.pres2;
        small2 = subst (λ f. test_bit (f (index addr 2)) pf_large ≡ false) second p.small2;
        next2 = subst (λ f. table_of (f (index addr 2)) ≡ t1) second p.next2;
        apart = p.apart;
      }

-- Where the tables down to level 1 for a page are present and the last one is none of the
-- others, pcx_set_frame of this page with a present entry succeeds and keeps these tables;
-- pcx_get_trans of the page then gives the frame of the entry, and pcx_get_flags its flags.
pub set_frame-get_trans :
    (k : Kernel) (addr frame flags : ℕ) (t3 t2 t1 : Ptr)
    → Present k addr t3 t2 t1
    → low_bits addr 12 ≡ 0
    → test_bit (bit_or frame flags) pf_pres ≡ true
    → (g : Kernel) × (set_frame addr 0x1000 frame flags k ≡ ok 0 g)
      × (get_trans g addr ≡ frame_of (bit_or frame flags) % 2 ^ 64)
      × (get_flags g addr ≡ flags_of (bit_or frame flags))
      × Present g addr t3 t2 t1
unfolding get_trans get_flags
set_frame-get_trans k addr frame flags t3 t2 t1 p aligned pres =
    let e = bit_or frame flags in
    let g = with_word k t1 (index addr 1) e in
    let p' = Present-with_word k addr t3 t2 t1 p (index addr 1) e in
    let at : g.pages t1 (index addr 1) ≡ e = ground arith in
    let found : walk g.pages 4 g.pcx_root addr ≡ some (e, 1) =
      walk-Present g addr t3 t2 t1 p' (ap (λ w. test_bit w pf_pres) at ∙ pres)
      ∙ ap (λ w. some (w, 1)) at in
    (
      g,
      set_frame-Present k addr t3 t2 t1 p 0x1000 frame flags refl aligned,
      rw (get_trans, found) (ground arith),
      rw (get_flags, found) refl,
      p',
    )
