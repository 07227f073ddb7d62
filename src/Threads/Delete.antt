-- ===== src/Threads/Delete.antt =====
-- `tcb_del` takes a thread out of the table.
use pinion.Alloc.{with_word, tcb_free}
use pinion.Alloc.Blocks.{Free, tcb_free-Returns}
use pinion.Threads.{tcb_del, tcb_limit}
use pinion.Threads.Lookup.{lookup}
use pinion.Machine.{Kernel, Ptr, acquire, release, load, null, free}
use pinion.Machine.Returns
use pinion.Machine.Returns.{Returns, returns}
use pinion.Prelude.{ℕ, ◌≡◌, ◌≢◌, ◌<◌, ◌/◌, false, arith, if◌then◌else◌, ◌==◌, ap, ◌%◌, ◌∙◌, sym}

-- No two entries of the table share a subtable.
abbrev pub Distinct : Kernel → Type 0
Distinct k = (a b : ℕ) → k.tcb_table a ≡ k.tcb_table b → k.tcb_table a ≢ null → a ≡ b

pub Distinct-table : (k g : Kernel) → g.tcb_table ≡ k.tcb_table → Distinct k → Distinct g
Distinct-table k g e distinct a b =
    let at_a : g.tcb_table a ≡ k.tcb_table a = ap (λ f. f a) e in
    let at_b : g.tcb_table b ≡ k.tcb_table b = ap (λ f. f b) e in
    let old = distinct a b in λ same ne. old (sym at_a ∙ same ∙ at_b) (λ n. ne (at_a ∙ n))

-- The table as every operation leaves it, with the mutexes free.
pub record Sound (k : Kernel) : Type 0 where
  pub distinct : Distinct k
  pub unlocked : Free k
  pub table_unlocked : k.table_locked ≡ false

-- The table names what it named, and `t` under `id`.
abbrev pub Names : (k g : Kernel) (id : ℕ) (t : Ptr) → Type 0
Names k g id t = (j : ℕ) → lookup g j ≡ (if j == id then t else lookup k j)

pub lookup-same :
    (j : ℕ) (k g : Kernel) → g.pages ≡ k.pages → g.tcb_table ≡ k.tcb_table → lookup g j ≡ lookup k j
lookup-same j k g pages tables = cc (pages, tables)

-- The table without the thread `id`.
abbrev removed : ℕ → Kernel → Kernel
removed id k = record (with_word k (k.tcb_table (id / 512)) (id % 512) null) {
  table_locked = false;
}

tcb_del_found :
    (t id : ℕ) (k : Kernel)
    → k.table_locked ≡ false
    → t ≢ null
    → (k.tcbs t).id ≡ id
    → (k.tcbs t).state ≢ free
    → id < tcb_limit
    → k.tcb_table (id / 512) ≢ null
    → tcb_del t k ≡ tcb_free t (removed id k)
unfolding tcb_del load acquire release
tcb_del_found t id k table ne is used small there =
    ground (arith, ap (λ a. a / 512) is, ap (λ a. a % 512) is)

lookup-removed : (id : ℕ) (k : Kernel) → Distinct k → Names k (removed id k) id null
lookup-removed id k distinct j = let same = distinct (j / 512) (id / 512) in ground (arith, same)

-- In a sound state, tcb_del of the thread with an ID, a TCB that has this ID and is not free,
-- returns in a sound state; the ID then names no thread, every other ID keeps its thread, and no
-- other TCB is written.
pub tcb_del-Names :
    (id : ℕ) (k : Kernel)
    → Sound k
    → lookup k id ≢ null
    → (k.tcbs (lookup k id)).id ≡ id
    → (k.tcbs (lookup k id)).state ≢ free
    → Returns
        (λ _ g. Sound g × Names k g id null × ((p : Ptr) → p ≢ lookup k id → g.tcbs p ≡ k.tcbs p))
        (tcb_del (lookup k id) k)
tcb_del-Names id k s named is used =
    let t = lookup k id in
    rw (tcb_del_found t id k s.table_unlocked named is used (ground arith) (ground arith)) (
      Returns.mono (tcb_free-Returns t (removed id k) named s.unlocked)
        λ _ g (pages, tables, (unlocked, lock), others). (
          record {
            distinct = Distinct-table (removed id k) g tables s.distinct;
            unlocked = unlocked;
            table_unlocked = lock;
          },
          (λ j. lookup-same j (removed id k) g pages tables ∙ lookup-removed id k s.distinct j),
          others,
        ))
