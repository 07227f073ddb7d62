-- ===== src/Paging/Tree/Step.antt =====
-- A table is there, or is added, at each level of the loop of `pcx_set_frame`.
use pinion.Alloc.Bump.{Bump, Bump-le, frame}
use pinion.Machine.{Kernel, Ptr}
use pinion.Paging.{index, table_of, pf_pres, pf_large, walk}
use pinion.Paging.Tree.{Tree, Grown, Grown-trans, walk-leaf, walk-down, not_both, Way}
use pinion.Prelude.{
  ℕ, suc, ◌≡◌, ◌≢◌, ◌==◌, ◌∙◌, ◌||◌, none, true, false, test_bit, arith, refl, ap, sym, inl, inr,
  Bool-cases, subst,
}

-- From the table `t` of level `i` in `k`, the walk to an address has been taken to the table `t'` of
-- level `i'` in `g`, where nothing is mapped, and tables have been added on the way.
pub record Reached (n addr i : ℕ) (t : Ptr) (i' : ℕ) (t' : Ptr) (level level' : Ptr → ℕ)
    (k g : Kernel) : Type 0 where
  pub tree : Tree level' (frame g) g.pcx_root g.pages
  pub bump : Bump n g
  pub grown : Grown level k.pages g.pages
  pub wider : (q : Ptr) → level q ≢ 0 → level' q ≡ level q
  pub others : (q : Ptr) → level' q ≡ 0 → g.pages q ≡ k.pages q
  pub at : level' t' ≡ i'
  pub path :
      (pages : Ptr → ℕ → ℕ) (end : Ptr)
      → Grown level' g.pages pages
      → Way pages addr i' t' end
      → Way pages addr i t end
  pub same :
      (q : Ptr) (a : ℕ) → level q ≢ 0 → walk g.pages (level q) q a ≡ walk k.pages (level q) q a
  pub vacant : walk g.pages i' t' addr ≡ none
  pub rest : record g { alloc_base = k.alloc_base; pages = k.pages } ≡ k

pub Reached-refl :
    (n addr i : ℕ) (t : Ptr) (level : Ptr → ℕ) (k : Kernel)
    → Tree level (frame k) k.pcx_root k.pages
    → Bump n k
    → level t ≡ i
    → walk k.pages i t addr ≡ none
    → Reached n addr i t i t level level k k
Reached-refl n addr i t level k tree bump at vacant = record {
  tree = tree;
  bump = bump;
  grown = λ q j l p. refl;
  wider = λ q l. refl;
  others = λ q l. refl;
  at = at;
  path = λ pages end grown p. p;
  same = λ q a l. refl;
  vacant = vacant;
  rest = refl;
}

-- After which the frames and the tables are those of `k` again.
abbrev reset : Kernel → Kernel → Kernel
reset k h = record h { alloc_base = k.alloc_base; pages = k.pages }

pub Reached-trans :
    {n m addr i : ℕ} {t : Ptr} {i' : ℕ} {t' : Ptr} {i'' : ℕ} {t'' : Ptr}
    {level level' level'' : Ptr → ℕ} {k g h : Kernel}
    → Reached n addr i t i' t' level level' k g
    → Reached m addr i' t' i'' t'' level' level'' g h
    → Reached m addr i t i'' t'' level level'' k h
Reached-trans {level} {level'} {level''} {k} {g} {h} one two = record {
  tree = two.tree;
  bump = two.bump;
  grown = Grown-trans one.wider one.grown two.grown;
  wider = λ q l. two.wider q (λ e. l (sym (one.wider q l) ∙ e)) ∙ one.wider q l;
  others = λ q l.
      two.others q l
      ∙ one.others q (elim (Bool-cases (level' q == 0)) [
        | inl e ↦ ground (arith, e)
        | inr e ↦ absurd (ground (arith, two.wider q, e, l))
      ]);
  at = two.at;
  path = λ pages end grown p.
      one.path pages end (Grown-trans two.wider two.grown grown) (two.path pages end grown p);
  same = λ q a l.
      subst (λ i. walk h.pages i q a ≡ walk g.pages i q a) (one.wider q l)
        (two.same q a (λ e. l (sym (one.wider q l) ∙ e)))
      ∙ one.same q a l;
  vacant = two.vacant;
  rest = ap (reset k) two.rest ∙ one.rest;
}

-- A table that is there.
pub there_step :
    (n addr i : ℕ) (t : Ptr) (level : Ptr → ℕ) (k : Kernel)
    → Tree level (frame k) k.pcx_root k.pages
    → Bump (suc n) k
    → level t ≡ suc (suc i)
    → walk k.pages (suc (suc i)) t addr ≡ none
    → test_bit (k.pages t (index addr (suc (suc i)))) pf_pres ≡ true
    → (test_bit (k.pages t (index addr (suc (suc i)))) pf_large ≡ false)
      × Reached n addr
          (suc (suc i))
          t
          (suc i)
          (table_of (k.pages t (index addr (suc (suc i)))))
          level
          level
          k
          k
unfolding Way
there_step n addr i t level k tree bump l vacant there =
    let j = index addr (suc (suc i)) in
    elim (Bool-cases (test_bit (k.pages t j) pf_large || suc i == 0)) [
      | inl leaf ↦ absurd (not_both vacant (walk-leaf k.pages (suc i) t addr there leaf))
      | inr more ↦
          let small : test_bit (k.pages t j) pf_large ≡ false = ground (arith, more) in
          let one =
            Reached-refl n addr (suc i) (table_of (k.pages t j)) level k tree
              (Bump-le n (suc n) k (omega arith) bump)
              (tree.closed t j i l (ground arith) there small)
              (sym (walk-down k.pages (suc i) t addr there more) ∙ vacant) in
          (
            small,
            record {
              tree = tree;
              bump = one.bump;
              grown = one.grown;
              wider = one.wider;
              others = one.others;
              at = one.at;
              path = λ pages end grown p.
                  let same : pages t j ≡ k.pages t j =
                    grown t j (λ z. ground (arith, z, l)) there in
                  (
                    ap (λ w. test_bit w pf_pres) same ∙ there,
                    ap (λ w. test_bit w pf_large) same ∙ small,
                    subst (λ w. Way pages addr (suc i) (table_of w) end) (sym same) p,
                  );
              same = one.same;
              vacant = one.vacant;
              rest = refl;
            },
          )
    ]
