-- ===== src/Paging/Tree/Missing.antt =====
-- A table that the loop of `pcx_set_frame` adds.
use pinion.Paging.Tree.Step.{Reached}
use pinion.Paging.{index, pf_pres, walk, pf_large, table_of}
use pinion.Alloc.Bump.{frame, Bump}
use pinion.Paging.Tree.{Tree, Grown, Way, walk-down, walk-missing, walk-same, Tree-down}
use pinion.Machine.{Ptr, Kernel}
use pinion.Prelude.{
  ℕ, zero, suc, inl, inr, ◌≡◌, test_bit, false, update, arith, ◌≢◌, ◌<◌, true, none, ◌⊎◌, ◌∙◌,
  Bool-cases, ap, ◌==◌, sym, subst, ◌&&◌, ◌||◌, refl,
}
use pinion.Paging.Tree.Entry.{entry, added, entry-table, entry-present, entry-small, added-Bump}

-- A table that is missing.
module _ (n addr i : ℕ) (t : Ptr) (level : Ptr → ℕ) (k : Kernel)
    (tree : Tree level (frame k) k.pcx_root k.pages) (bump : Bump (suc n) k)
    (l : level t ≡ suc (suc i))
    (missing : test_bit (k.pages t (index addr (suc (suc i)))) pf_pres ≡ false) where
  abbrev wider_level : Ptr → ℕ
  wider_level = update level (frame k) (suc i)

  abbrev grown_kernel : Kernel
  grown_kernel = added t (index addr (suc (suc i))) k

  below_frame : (q : Ptr) → level q ≢ 0 → q ≢ frame k
  below_frame q z e = let small = tree.below q z in omega arith

  wider-missing : (q : Ptr) → level q ≢ 0 → wider_level q ≡ level q
  wider-missing q z = ground (arith, below_frame q z)

  pub at_entry : grown_kernel.pages t (index addr (suc (suc i))) ≡ entry k
  at_entry = ground (arith, below_frame t (λ z. ground (arith, z, l)))

  Grown-missing : Grown level k.pages grown_kernel.pages
  Grown-missing q j z there = ground (arith, below_frame q z, missing, there)

  others-missing : (q : Ptr) → wider_level q ≡ 0 → grown_kernel.pages q ≡ k.pages q
  others-missing q z = ground (arith, z, l)

  -- The words of the tables.
  word_cases :
      (q : Ptr) (j : ℕ)
      → j < 512
      → ((q ≡ frame k) × (grown_kernel.pages q j ≡ 0))
        ⊎ ((q ≡ t) × (j ≡ index addr (suc (suc i))) × (grown_kernel.pages q j ≡ entry k))
        ⊎ ((q ≢ frame k) × (grown_kernel.pages q j ≡ k.pages q j))
  word_cases q j small = elim (Bool-cases (q == frame k)) [
    | inl e ↦ inl (ground (arith, e), ground (arith, e, small))
    | inr e ↦ elim (Bool-cases (q == t && j == index addr (suc (suc i)))) [
      | inl f ↦ inr (inl (ground (arith, f), ground (arith, f), ground (arith, e, f)))
      | inr f ↦ inr (inr ((λ g. ground (arith, e, g)), ground (arith, e, f)))
    ]
  ]

  -- The new table has no entry, and the tables that were there keep theirs.
  closed-missing :
      (q : Ptr) (j i' : ℕ)
      → wider_level q ≡ suc (suc i')
      → j < 512
      → test_bit (grown_kernel.pages q j) pf_pres ≡ true
      → test_bit (grown_kernel.pages q j) pf_large ≡ false
      → wider_level (table_of (grown_kernel.pages q j)) ≡ suc i'
  closed-missing q j i' m small there plain = elim (word_cases q j small) [
    | inl (here, zeros) ↦ absurd (ground (arith, sym (ap (λ w. test_bit w pf_pres) zeros) ∙ there))
    | inr (inl (same, at_j, new)) ↦
        let to : table_of (grown_kernel.pages q j) ≡ frame k =
          ap table_of new ∙ entry-table n k bump in
        let l' : level q ≡ suc (suc i) = ap level same ∙ l in
        let apart = below_frame q (λ z. ground (arith, z, l')) in
        let old : level q ≡ suc (suc i') = ground (arith, m, apart) in
        ap wider_level to ∙ ground (arith, l', old)
    | inr (inr (apart, old)) ↦
        let was : level q ≡ suc (suc i') = ground (arith, m, apart) in
        let next : level (table_of (k.pages q j)) ≡ suc i' =
          tree.closed q j i' was small (ap (λ w. test_bit w pf_pres) (sym old) ∙ there)
            (ap (λ w. test_bit w pf_large) (sym old) ∙ plain) in
        ap (λ w. wider_level (table_of w)) old
        ∙ wider-missing (table_of (k.pages q j)) (λ z. ground (arith, z, next))
        ∙ next
  ]

  -- The tables that were there do not lead to the new one.
  below_table :
      (q : Ptr) (j i' : ℕ)
      → q ≢ frame k
      → wider_level q ≡ suc (suc i')
      → j < 512
      → grown_kernel.pages q j ≡ k.pages q j
      → test_bit (grown_kernel.pages q j) pf_pres ≡ true
      → test_bit (grown_kernel.pages q j) pf_large ≡ false
      → table_of (grown_kernel.pages q j) ≢ frame k
  below_table q j i' apart m small old there plain to =
      let was : level q ≡ suc (suc i') = ground (arith, m, apart) in
      let next : level (table_of (k.pages q j)) ≡ suc i' =
        tree.closed q j i' was small (ap (λ w. test_bit w pf_pres) (sym old) ∙ there)
          (ap (λ w. test_bit w pf_large) (sym old) ∙ plain) in
      below_frame (table_of (k.pages q j)) (λ z. ground (arith, z, next))
        (sym (ap table_of old) ∙ to)

  single-missing :
      (q q' : Ptr) (j j' i' : ℕ)
      → wider_level q ≡ suc (suc i')
      → wider_level q' ≡ suc (suc i')
      → (j < 512) × (j' < 512)
      → (test_bit (grown_kernel.pages q j) pf_pres ≡ true)
        × (test_bit (grown_kernel.pages q j) pf_large ≡ false)
      → (test_bit (grown_kernel.pages q' j') pf_pres ≡ true)
        × (test_bit (grown_kernel.pages q' j') pf_large ≡ false)
      → table_of (grown_kernel.pages q j) ≡ table_of (grown_kernel.pages q' j')
      → (q ≡ q') × (j ≡ j')
  single-missing q q' j j' i' m m' (small, small') (there, plain) (there', plain') eq =
      elim (word_cases q j small) [
        | inl (here, zeros) ↦
            absurd (ground (arith, sym (ap (λ w. test_bit w pf_pres) zeros) ∙ there))
        | inr (inl (at, at_j, new)) ↦ elim (word_cases q' j' small') [
          | inl (here, zeros) ↦
              absurd (ground (arith, sym (ap (λ w. test_bit w pf_pres) zeros) ∙ there'))
          | inr (inl (at', at_j', new')) ↦ (at ∙ sym at', at_j ∙ sym at_j')
          | inr (inr (apart', old')) ↦ absurd (
              below_table q' j' i' apart' m' small' old' there' plain'
                (sym eq ∙ ap table_of new ∙ entry-table n k bump))
        ]
        | inr (inr (apart, old)) ↦ elim (word_cases q' j' small') [
          | inl (here, zeros) ↦
              absurd (ground (arith, sym (ap (λ w. test_bit w pf_pres) zeros) ∙ there'))
          | inr (inl (at', at_j', new')) ↦ absurd (
              below_table q j i' apart m small old there plain
                (eq ∙ ap table_of new' ∙ entry-table n k bump))
          | inr (inr (apart', old')) ↦
              tree.single q q' j j' i' (ground (arith, m, apart)) (ground (arith, m', apart'))
                (small, small')
                (
                  ap (λ w. test_bit w pf_pres) (sym old) ∙ there,
                  ap (λ w. test_bit w pf_large) (sym old) ∙ plain,
                )
                (
                  ap (λ w. test_bit w pf_pres) (sym old') ∙ there',
                  ap (λ w. test_bit w pf_large) (sym old') ∙ plain',
                )
                (ap table_of (sym old) ∙ eq ∙ ap table_of old')
        ]
      ]

  Tree-missing : Tree wider_level (frame grown_kernel) grown_kernel.pcx_root grown_kernel.pages
  Tree-missing = record {
    top = wider-missing k.pcx_root (λ z. ground (arith, tree.top, z)) ∙ tree.top;
    below = λ q z. elim (Bool-cases (q == frame k)) [
      | inl e ↦ ground (arith, e)
      | inr e ↦ let small = tree.below q (λ y. z (ground (arith, e, y))) in omega arith
    ];
    closed = closed-missing;
    single = single-missing;
  }

  -- Every walk ends as it did.
  same_walk :
      (a i' : ℕ) (q : Ptr) → level q ≡ i' → walk grown_kernel.pages i' q a ≡ walk k.pages i' q a
  unfolding walk
  same_walk a zero q m = refl
  same_walk a (suc i') q m =
      let j = index a (suc i') in
      elim (word_cases q j (ground arith)) [
        | inl (here, zeros) ↦ absurd (below_frame q (λ z. ground (arith, z, m)) here)
        | inr (inl (at, at_j, new)) ↦
            let i'_is : i' ≡ suc i = (let same = ap level at in ground (arith, m, l, same)) in
            let before =
              ap (λ q. test_bit (k.pages q j) pf_pres) at
              ∙ ap (λ j. test_bit (k.pages t j) pf_pres) at_j
              ∙ missing in
            let not_last : (i' == 0) ≡ false = ground (arith, i'_is) in
            let zeros : grown_kernel.pages (frame k) (index a (suc i)) ≡ 0 = ground arith in
            walk-down grown_kernel.pages i' q a
              (ap (λ w. test_bit w pf_pres) new ∙ entry-present n k bump)
              (ap (λ w. test_bit w pf_large || i' == 0) new
                ∙ ap (λ b. b || i' == 0) (entry-small n k bump)
                ∙ not_last)
            ∙ ap (λ p. walk grown_kernel.pages i' p a) (ap table_of new ∙ entry-table n k bump)
            ∙ ap (λ i'. walk grown_kernel.pages i' (frame k) a) i'_is
            ∙ walk-missing grown_kernel.pages i (frame k) a (ap (λ w. test_bit w pf_pres) zeros)
            ∙ sym (walk-missing k.pages i' q a before)
        | inr (inr (apart, old)) ↦ walk-same k.pages grown_kernel.pages i' q a old λ there more.
            same_walk a i' (table_of (k.pages q j))
              (Tree-down level (frame k) k.pcx_root k.pages tree i' q j m (ground arith) there more)
      ]

  pub missing_step :
      walk k.pages (suc (suc i)) t addr ≡ none
      → Reached n addr (suc (suc i)) t (suc i) (frame k) level wider_level k grown_kernel
  unfolding Way
  missing_step vacant = record {
    tree = Tree-missing;
    bump = added-Bump n k bump t (index addr (suc (suc i)));
    grown = Grown-missing;
    wider = wider-missing;
    others = others-missing;
    at = ground arith;
    path = λ pages end grown p.
        let j = index addr (suc (suc i)) in
        let there = entry-present n k bump in
        let nonzero : wider_level t ≢ 0 =
          λ z. ground (arith, wider-missing t (λ y. ground (arith, y, l)), z, l) in
        let kept = grown t j nonzero (ap (λ w. test_bit w pf_pres) at_entry ∙ there) in
        let same : pages t j ≡ entry k = kept ∙ at_entry in
        (
          ap (λ w. test_bit w pf_pres) same ∙ there,
          ap (λ w. test_bit w pf_large) same ∙ entry-small n k bump,
          subst (λ q. Way pages addr (suc i) q end) (sym (ap table_of same ∙ entry-table n k bump))
              p,
        );
    same = λ q a z. same_walk a (level q) q refl;
    vacant =
        let zeros : grown_kernel.pages (frame k) (index addr (suc i)) ≡ 0 = ground arith in
        walk-missing grown_kernel.pages i (frame k) addr (ap (λ w. test_bit w pf_pres) zeros);
    rest = (let (pmm, pge, tcb) = bump.unlocked in ground (arith, bump.no_page));
  }
