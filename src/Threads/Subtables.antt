-- ===== src/Threads/Subtables.antt =====
-- `tcb_new` makes the subtable for an index if it is missing.
use native.Mathlib.Decide.{ℕ_discrete}
use pinion.Alloc.Blocks.{Free, next_page, PageTaken, pge_alloc-PageTaken}
use pinion.Threads.{ensure_subtable, slot}
use pinion.Threads.Delete.{Distinct-table, Distinct}
use pinion.Threads.Lookup.{lookup}
use pinion.Machine.{Kernel, Ptr, null}
use pinion.Machine.Returns.{Returns, returns}
use pinion.Machine.Returns
use pinion.Prelude.{
  ℕ, Bool, Bool-cases, ◌≡◌, ◌≢◌, ◌⊎◌, ◌/◌, ◌%◌, ◌==◌, ◌∙◌, false, true, arith, if◌then◌else◌, ap,
  refl, sym, inl, inr, ltb, update,
}

-- The next page is none of the subtables.
abbrev pub Fresh : Ptr → Kernel → Type 0
Fresh page k = (a : ℕ) → k.tcb_table a ≢ null → page ≢ k.tcb_table a

-- What holds after the search for a subtable. Where one had to be allocated, the slot is empty.
pub record Ensured (i : ℕ) (k : Kernel) (ready : Bool) (g : Kernel) : Type 0 where
  pub tcbs : g.tcbs ≡ k.tcbs
  pub lock : g.table_locked ≡ k.table_locked
  pub unlocked : Free g
  pub names : (j : ℕ) → lookup g j ≡ lookup k j
  pub distinct : Distinct g
  pub there : ready ≡ true → g.tcb_table (i / 512) ≢ null
  pub again : ready ≡ true → (g ≡ k) ⊎ (slot g i ≡ null)
  pub missing : ready ≡ false → next_page k ≡ null

-- After a new subtable.
abbrev with_subtable : ℕ → Ptr → Kernel → Kernel
with_subtable a page k = record k {
  tcb_table = update k.tcb_table a page;
  pages = update k.pages page (λ j. if ltb j 512 then null else k.pages page j);
}

PageTaken-names :
    (k g : Kernel) (page : Ptr)
    → PageTaken k page g
    → Fresh (next_page k) k
    → (j : ℕ) → lookup g j ≡ lookup k j
PageTaken-names k g page t fresh j =
    let other : k.tcb_table (j / 512) ≢ null
        → g.pages (k.tcb_table (j / 512)) ≡ k.pages (k.tcb_table (j / 512)) =
      λ ne. t.others (k.tcb_table (j / 512)) (λ e. fresh (j / 512) ne (sym e)) in
    let at : k.tcb_table (j / 512) ≢ null → slot g j ≡ slot k j = λ ne.
      ap (λ table. g.pages (table (j / 512)) (j % 512)) t.table
      ∙ ap (λ f. f (j % 512)) (other ne) in
    let tables : g.tcb_table (j / 512) ≡ k.tcb_table (j / 512) = ap (λ f. f (j / 512)) t.table in
    ground (arith, at, tables)

pub Fresh-table :
    (k g : Kernel) {p q : Ptr} → g.tcb_table ≡ k.tcb_table → q ≡ p → Fresh p k → Fresh q g
Fresh-table k g e page fresh a ne is =
    let at_a : g.tcb_table a ≡ k.tcb_table a = ap (λ f. f a) e in
    fresh a (λ n. ne (at_a ∙ n)) (sym page ∙ is ∙ at_a)

with_subtable-names :
    (i : ℕ) (page : Ptr) (g : Kernel)
    → g.tcb_table (i / 512) ≡ null
    → page ≢ null
    → Fresh page g
    → (j : ℕ) → lookup (with_subtable (i / 512) page g) j ≡ lookup g j
with_subtable-names i page g missing ne fresh j =
    let new = fresh (j / 512) in
    let small : ltb (j % 512) 512 ≡ true = ground arith in
    elim (ℕ_discrete (j / 512) (i / 512)) [
      | yes e ↦ ground (arith, small, ap g.tcb_table e ∙ missing)
      | no other ↦ ground (arith, new)
    ]

with_subtable-Distinct :
    (a : ℕ) (page : Ptr) (g : Kernel)
    → Distinct g
    → Fresh page g
    → Distinct (with_subtable a page g)
with_subtable-Distinct a page g distinct fresh b c e ne =
    let old = distinct b c in let fb = fresh b in let fc = fresh c in ground (arith, old, fb, fc)

pub ensure_subtable-Ensured :
    (i : ℕ) (k : Kernel)
    → Free k
    → Distinct k
    → Fresh (next_page k) k
    → Returns (Ensured i k) (ensure_subtable i k)
unfolding ensure_subtable
ensure_subtable-Ensured i k free distinct fresh =
    elim (Bool-cases (k.tcb_table (i / 512) == null)) [
      | inr there ↦ rw there (
          returns (record {
            tcbs = refl;
            lock = refl;
            unlocked = free;
            names = λ j. refl;
            distinct = distinct;
            there = λ e. ground arith;
            again = λ e. inl refl;
            missing = λ e. ground arith;
          }))
      | inl missing ↦ rw missing (
          Returns.bind (pge_alloc-PageTaken k free) λ page g t. elim (Bool-cases (page == null)) [
            | inl out ↦ rw out (
                returns (record {
                  tcbs = t.tcbs;
                  lock = t.lock;
                  unlocked = t.unlocked;
                  names = PageTaken-names k g page t fresh;
                  distinct = Distinct-table k g t.table distinct;
                  there = λ e. ground arith;
                  again = λ e. ground arith;
                  missing = λ e. ground (arith, t.is);
                }))
            | inr new ↦ rw new (
                returns {k = with_subtable (i / 512) page g} (record {
                  tcbs = t.tcbs;
                  lock = t.lock;
                  unlocked = t.unlocked;
                  names = λ j.
                      with_subtable-names i page g (ap (λ f. f (i / 512)) t.table ∙ ground arith)
                        (ground arith) (Fresh-table k g t.table t.is fresh) j
                      ∙ PageTaken-names k g page t fresh j;
                  distinct =
                      with_subtable-Distinct (i / 512) page g (Distinct-table k g t.table distinct)
                        (Fresh-table k g t.table t.is fresh);
                  there = λ e. ground arith;
                  again = λ e. inr (ground arith);
                  missing = λ e. ground arith;
                }))
          ])
    ]
