-- ===== src/Paging/Tree.antt =====
-- Page tables by levels, and what may be added to them: the loop of `pcx_set_frame` only writes
-- entries that were not present.
pub mod Step
pub mod Entry
pub mod Missing
pub mod Descend
pub mod Added
use pinion.Machine.{Ptr}
use pinion.Paging.{index, table_of, pf_pres, pf_large, walk}
use pinion.Prelude.{
  ℕ, Option, none, some, zero, suc, ◌≡◌, ◌≢◌, ◌<◌, ◌+◌, ◌/◌, ◌^◌, ◌==◌, ◌∙◌, ◌||◌, true, false,
  test_bit, arith, refl, ap, sym, inl, inr, Bool-cases, if◌then◌else◌, not, ◌≤◌, ◌%◌,
}

-- A table has a level, any other page has level 0; from the root, of level 4, an entry that is present
-- and no large page leads one level down, to a table of its own; the tables are below `f`.
pub record Tree (level : Ptr → ℕ) (f root : Ptr) (pages : Ptr → ℕ → ℕ) : Type 0 where
  pub top : level root ≡ 4
  pub below : (t : Ptr) → level t ≢ 0 → t < f
  pub closed :
      (t : Ptr) (j i : ℕ)
      → level t ≡ suc (suc i)
      → j < 512
      → test_bit (pages t j) pf_pres ≡ true
      → test_bit (pages t j) pf_large ≡ false
      → level (table_of (pages t j)) ≡ suc i
  pub single :
      (t t' : Ptr) (j j' i : ℕ)
      → level t ≡ suc (suc i)
      → level t' ≡ suc (suc i)
      → (j < 512) × (j' < 512)
      → (test_bit (pages t j) pf_pres ≡ true) × (test_bit (pages t j) pf_large ≡ false)
      → (test_bit (pages t' j') pf_pres ≡ true) × (test_bit (pages t' j') pf_large ≡ false)
      → table_of (pages t j) ≡ table_of (pages t' j')
      → (t ≡ t') × (j ≡ j')

-- No present entry of a table has changed.
abbrev pub Grown : (Ptr → ℕ) → (old new : Ptr → ℕ → ℕ) → Type 0
Grown level old new =
    (t : Ptr) (j : ℕ) → level t ≢ 0 → test_bit (old t j) pf_pres ≡ true → new t j ≡ old t j

pub Grown-trans :
    {level level' : Ptr → ℕ} {a b c : Ptr → ℕ → ℕ}
    → ((t : Ptr) → level t ≢ 0 → level' t ≡ level t)
    → Grown level a b
    → Grown level' b c
    → Grown level a c
Grown-trans wider one two t j l p =
    let same = one t j l p in
    two t j (λ e. l (sym (wider t l) ∙ e)) (ap (λ w. test_bit w pf_pres) same ∙ p) ∙ same

-- One step of the walk, by the kinds of entries.
module _ (pages : Ptr → ℕ → ℕ) (i : ℕ) (t : Ptr) (addr : ℕ) where
  pub walk-missing :
      test_bit (pages t (index addr (suc i))) pf_pres ≡ false → walk pages (suc i) t addr ≡ none
  unfolding walk
  walk-missing e = rw e refl

  pub walk-leaf :
      test_bit (pages t (index addr (suc i))) pf_pres ≡ true
      → (test_bit (pages t (index addr (suc i))) pf_large || i == 0) ≡ true
      → walk pages (suc i) t addr ≡ some (pages t (index addr (suc i)), suc i)
  unfolding walk
  walk-leaf e l = rw (e, l) refl

  pub walk-down :
      test_bit (pages t (index addr (suc i))) pf_pres ≡ true
      → (test_bit (pages t (index addr (suc i))) pf_large || i == 0) ≡ false
      → walk pages (suc i) t addr ≡ walk pages i (table_of (pages t (index addr (suc i)))) addr
  unfolding walk
  walk-down e l = rw (e, l) refl

-- One level down.
pub Tree-down :
    (level : Ptr → ℕ) (f root : Ptr) (pages : Ptr → ℕ → ℕ)
    → Tree level f root pages
    → (i : ℕ) (t : Ptr) (j : ℕ) → level t ≡ suc i
    → j < 512
    → test_bit (pages t j) pf_pres ≡ true
    → (test_bit (pages t j) pf_large || i == 0) ≡ false
    → level (table_of (pages t j)) ≡ i
Tree-down level f root pages tree zero t j l b there more = ground (arith, more)
Tree-down level f root pages tree (suc i) t j l b there more =
    tree.closed t j i l b there (ground (arith, more))

pub not_both : {A : Type 0} {a : A} {o : Option A} → o ≡ none → o ≡ some a → ⊥
not_both e f = ground (arith, sym e ∙ f)

-- Walks are the same if they meet the same entry, and then the same rest.
pub walk-same :
    (old new : Ptr → ℕ → ℕ) (i : ℕ) (t : Ptr) (addr : ℕ)
    → new t (index addr (suc i)) ≡ old t (index addr (suc i))
    → (test_bit (old t (index addr (suc i))) pf_pres ≡ true
        → (test_bit (old t (index addr (suc i))) pf_large || i == 0) ≡ false
        → walk new i (table_of (old t (index addr (suc i)))) addr
          ≡ walk old i (table_of (old t (index addr (suc i)))) addr)
    → walk new (suc i) t addr ≡ walk old (suc i) t addr
walk-same old new i t addr same rest =
    let j = index addr (suc i) in
    elim (Bool-cases (test_bit (old t j) pf_pres)) [
      | inr gone ↦
          walk-missing new i t addr (ap (λ w. test_bit w pf_pres) same ∙ gone)
          ∙ sym (walk-missing old i t addr gone)
      | inl there ↦
          let there' = ap (λ w. test_bit w pf_pres) same ∙ there in
          elim (Bool-cases (test_bit (old t j) pf_large || i == 0)) [
            | inl leaf ↦
                walk-leaf new i t addr there' (ap (λ w. test_bit w pf_large || i == 0) same ∙ leaf)
                ∙ ap (λ w. some (w, suc i)) same
                ∙ sym (walk-leaf old i t addr there leaf)
            | inr more ↦
                walk-down new i t addr there' (ap (λ w. test_bit w pf_large || i == 0) same ∙ more)
                ∙ ap (λ w. walk new i (table_of w) addr) same
                ∙ rest there more
                ∙ sym (walk-down old i t addr there more)
          ]
    ]

-- Walks read the tables only.
pub walk-tables :
    (level : Ptr → ℕ) (f root : Ptr) (old new : Ptr → ℕ → ℕ)
    → Tree level f root old
    → ((q : Ptr) → level q ≢ 0 → new q ≡ old q)
    → (i : ℕ) (t : Ptr) (a : ℕ) → level t ≡ i
    → walk new i t a ≡ walk old i t a
unfolding walk
walk-tables level f root old new tree same zero t a l = refl
walk-tables level f root old new tree same (suc i) t a l =
    walk-same old new i t a (ap (λ p. p (index a (suc i))) (same t (λ z. ground (arith, z, l))))
      λ there more.
        walk-tables level f root old new tree same i (table_of (old t (index a (suc i)))) a
          (Tree-down level f root old tree i t (index a (suc i)) l (ground arith) there more)

-- The tables above level 1 make the tree.
pub Tree-upper :
    (level : Ptr → ℕ) (f f' root : Ptr) (old new : Ptr → ℕ → ℕ)
    → f ≤ f'
    → ((q : Ptr) (j i : ℕ) → level q ≡ suc (suc i) → new q j ≡ old q j)
    → Tree level f root old
    → Tree level f' root new
Tree-upper level f f' root old new le same tree = record {
  top = tree.top;
  below = λ q z. (let low = tree.below q z in omega arith);
  closed = λ q j i l small there plain.
      ap (λ w. level (table_of w)) (same q j i l)
      ∙ tree.closed q j i l small (ap (λ w. test_bit w pf_pres) (sym (same q j i l)) ∙ there)
          (ap (λ w. test_bit w pf_large) (sym (same q j i l)) ∙ plain);
  single = λ q q' j j' i l l' small (there, plain) (there', plain') eq.
      tree.single q q' j j' i l l' small
        (
          ap (λ w. test_bit w pf_pres) (sym (same q j i l)) ∙ there,
          ap (λ w. test_bit w pf_large) (sym (same q j i l)) ∙ plain,
        )
        (
          ap (λ w. test_bit w pf_pres) (sym (same q' j' i l')) ∙ there',
          ap (λ w. test_bit w pf_large) (sym (same q' j' i l')) ∙ plain',
        )
        (ap table_of (sym (same q j i l)) ∙ eq ∙ ap table_of (same q' j' i l'));
}

-- The addresses of a page have one walk.
pub walk-page :
    (pages : Ptr → ℕ → ℕ) (t : Ptr) (a b : ℕ)
    → a / 2 ^ 12 % 2 ^ 36 ≡ b / 2 ^ 12 % 2 ^ 36
    → walk pages 4 t a ≡ walk pages 4 t b
unfolding walk
walk-page pages t a b same =
    let one : index a 1 ≡ index b 1 = ground (arith, same) in
    let two : index a 2 ≡ index b 2 = ground (arith, same) in
    let three : index a 3 ≡ index b 3 = ground (arith, same) in
    let four : index a 4 ≡ index b 4 = ground (arith, same) in rw (one, two, three, four) refl

-- The walk to an address, from a table `t` of level `i`, comes to the table `t'` of level 1.
pub Way : (pages : Ptr → ℕ → ℕ) (addr : ℕ) → ℕ → (t t' : Ptr) → Type 0
Way pages addr zero t t' = ⊥
Way pages addr (suc zero) t t' = t ≡ t'
Way pages addr (suc (suc i)) t t' =
    let e = pages t (index addr (suc (suc i))) in
    (test_bit e pf_pres ≡ true)
    × (test_bit e pf_large ≡ false)
    × Way pages addr (suc i) (table_of e) t'

pub Way-walk :
    (pages : Ptr → ℕ → ℕ) (addr i : ℕ) (t t' : Ptr)
    → Way pages addr i t t'
    → walk pages i t addr ≡ walk pages 1 t' addr
unfolding Way
Way-walk pages addr zero t t' p = absurd p
Way-walk pages addr (suc zero) t t' p = ap (λ q. walk pages 1 q addr) p
Way-walk pages addr (suc (suc i)) t t' (there, small, p) =
    let more : (suc i == 0) ≡ false = ground arith in
    walk-down pages (suc i) t addr there (ground (arith, small, more))
    ∙ Way-walk pages addr (suc i) (table_of (pages t (index addr (suc (suc i))))) t' p

-- Two ways to one table are one way.
pub Way-single :
    (level : Ptr → ℕ) (f root : Ptr) (pages : Ptr → ℕ → ℕ)
    → Tree level f root pages
    → (a b i : ℕ) (t u t' : Ptr) → (level t ≡ i) × (level u ≡ i)
    → Way pages a i t t'
    → Way pages b i u t'
    → (t ≡ u) × ((l : ℕ) → 2 ≤ l → l ≤ i → index a l ≡ index b l)
unfolding Way
Way-single level f root pages tree a b zero t u t' l p q = absurd p
Way-single level f root pages tree a b (suc zero) t u t' l p q =
    (p ∙ sym q, λ l two one. absurd (omega arith))
Way-single level f root pages tree a b (suc (suc i)) t u t' (l, l') (there, small, p)
      (there', small', q) =
    let j = index a (suc (suc i)) in
    let j' = index b (suc (suc i)) in
    let next = tree.closed t j i l (ground arith) there small in
    let next' = tree.closed u j' i l' (ground arith) there' small' in
    let (same, lower) =
      Way-single level f root pages tree a b (suc i) (table_of (pages t j)) (table_of (pages u j'))
        t' (next, next') p q in
    let (start, here) =
      tree.single t u j j' i l l' (ground arith, ground arith) (there, small) (there', small')
        same in
    (
      start,
      λ l two le. elim (Bool-cases (l == suc (suc i))) [
        | inl e ↦
            let same : l ≡ suc (suc i) = ground (arith, e) in
            ap (index a) same ∙ here ∙ ap (index b) (sym same)
        | inr e ↦ lower l two (ground (arith, e, le))
      ],
    )
