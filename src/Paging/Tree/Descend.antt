-- ===== src/Paging/Tree/Descend.antt =====
-- The loop of `pcx_set_frame` down to the table of level 1.
use pinion.Paging.Tree.Missing.{missing_step, at_entry}
use pinion.Paging.Tree.Entry.{entry, added, entry-table, entry-small, new_table-added}
use pinion.Paging.Tree.Step.{Reached, there_step, Reached-refl, Reached-trans}
use pinion.Prelude.{
  ℕ, suc, ◌+◌, ◌≡◌, test_bit, none, false, Bool-cases, some, zero, refl, ap, ◌∙◌, update, subst,
  sym, arith,
}
use pinion.Alloc.Bump.{Bump, frame, Bump-le}
use pinion.Machine.{Kernel, Ptr, ok}
use pinion.Paging.{index, table_of, pf_pres, pf_large, walk, ensure_table, descend}
use pinion.Paging.Tree.{Tree}
use pinion.Prelude.{inl, inr}

-- The table that an entry leads to, after it has been made if it was missing.
abbrev Ensured : (n addr i : ℕ) (t : Ptr) (level : Ptr → ℕ) (k : Kernel) → Type 0
Ensured n addr i t level k =
    let j = index addr (suc (suc i)) in
    (g : Kernel) × (level' : Ptr → ℕ) × (ensure_table t j k ≡ ok tt g)
    × (test_bit (g.pages t j) pf_large ≡ false)
    × Reached n addr (suc (suc i)) t (suc i) (table_of (g.pages t j)) level level' k g

ensure_step :
    (n addr i : ℕ) (t : Ptr) (level : Ptr → ℕ) (k : Kernel)
    → Tree level (frame k) k.pcx_root k.pages
    → Bump (suc n) k
    → level t ≡ suc (suc i)
    → walk k.pages (suc (suc i)) t addr ≡ none
    → Ensured n addr i t level k
unfolding ensure_table
ensure_step n addr i t level k tree bump l vacant =
    let j = index addr (suc (suc i)) in
    elim (Bool-cases (test_bit (k.pages t j) pf_pres)) [
      | inl there ↦
          let (small, reached) = there_step n addr i t level k tree bump l vacant there in
          (k, level, rw there refl, small, reached)
      | inr missing ↦
          let reached = missing_step n addr i t level k tree bump l missing vacant in
          let g = added t j k in
          let at : g.pages t j ≡ entry k = at_entry n addr i t level k tree bump l missing in
          let to : table_of (g.pages t j) ≡ frame k = ap table_of at ∙ entry-table n k bump in
          (
            g,
            update level (frame k) (suc i),
            rw missing (new_table-added n k bump t j),
            ap (λ w. test_bit w pf_large) at ∙ entry-small n k bump,
            subst
                (λ q.
                  Reached n addr (suc (suc i)) t (suc i) q level (update level (frame k) (suc i)) k
                    g)
                (sym to) reached,
          )
    ]

pub descend_lem :
    (i n addr : ℕ) (t : Ptr) (level : Ptr → ℕ) (k : Kernel)
    → Tree level (frame k) k.pcx_root k.pages
    → Bump (i + n) k
    → level t ≡ suc i
    → walk k.pages (suc i) t addr ≡ none
    → (g : Kernel) × (level' : Ptr → ℕ) × (t1 : Ptr) × (descend i t addr k ≡ ok (some t1) g)
      × Reached n addr (suc i) t 1 t1 level level' k g
unfolding descend
descend_lem zero n addr t level k tree bump l vacant = (
  k,
  level,
  t,
  refl,
  Reached-refl n addr 1 t level k tree (Bump-le n (0 + n) k (omega arith) bump) l vacant,
)
descend_lem (suc i) n addr t level k tree bump l vacant =
    let (g, level', ran, small, one) =
      ensure_step (i + n) addr i t level k tree
        (Bump-le (suc (i + n)) (suc i + n) k (omega arith) bump) l vacant in
    let j = index addr (suc (suc i)) in
    let (h, level'', t1, rest, two) =
      descend_lem i n addr (table_of (g.pages t j)) level' g one.tree one.bump one.at one.vacant in
    (h, level'', t1, rw (ran, small) rest, Reached-trans one two)
