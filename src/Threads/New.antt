-- ===== src/Threads/New.antt =====
-- `tcb_new` gives a thread the first ID that is not in use.
use native.Mathlib.Decide.{ℕ_discrete}
use pinion.Alloc.Blocks.{
  Free, framed, next_page, next_tcb, TcbTaken, tcb_alloc-TcbTaken, tcb_free-Returns,
}
use pinion.Threads.{tcb_new, new_loop, give_up, tcb_limit, slot}
use pinion.Threads.Delete.{Distinct-table, Distinct, lookup-same, Sound}
use pinion.Threads.Lookup.{lookup}
use pinion.Machine.{Kernel, Ptr, acquire, release, null}
use pinion.Machine.Returns.{Returns, returns}
use pinion.Machine.Returns
use pinion.Prelude.{
  ℕ, Bool-cases, ◌≡◌, ◌≢◌, ◌<◌, ◌⊎◌, ◌+◌, ◌/◌, ◌==◌, ◌∙◌, suc, zero, false, true, arith, ne→==, ap,
  refl, sym, inl, inr, eq→==, subst,
}
use pinion.Threads.Subtables.{Fresh, Fresh-table, ensure_subtable-Ensured}
use pinion.Threads.Install.{
  Created, Used, installed, install-installed, install-Created, Created-names,
}

-- The search for a slot with the TCB `t`: no memory for a subtable, no ID, or a new thread.
abbrev Found : Ptr → Kernel → Ptr → Kernel → Type 0
Found t k r g =
    Sound g
    × ((p : Ptr) → p ≢ t → g.tcbs p ≡ k.tcbs p)
    × (((r ≡ null)
          × ((j : ℕ) → lookup g j ≡ lookup k j)
          × ((next_page k ≡ null) ⊎ Used tcb_limit k))
        ⊎ ((r ≡ t) × Created k t g))

give_up-Returns :
    (t : Ptr) (k : Kernel)
    → t ≢ null
    → Free k
    → Distinct k
    → Returns
        (λ r g.
          Sound g
          × (r ≡ null)
          × ((j : ℕ) → lookup g j ≡ lookup k j)
          × ((p : Ptr) → p ≢ t → g.tcbs p ≡ k.tcbs p))
        (give_up t k)
unfolding give_up release
give_up-Returns t k ne unlocked distinct =
    Returns.bind (tcb_free-Returns t (record k { table_locked = false }) ne unlocked)
      λ _ g (pages, tables, (free, lock), others). returns (
        record {
          distinct = Distinct-table k g tables distinct;
          unlocked = free;
          table_unlocked = lock;
        },
        refl,
        (λ j. lookup-same j k g pages tables),
        others,
      )

Used-next : (i : ℕ) (k : Kernel) → Used i k → lookup k i ≢ null → Used (i + 1) k
Used-next i k used here j pos l = elim (ℕ_discrete j i) [
  | yes e ↦ λ n. here (ap (lookup k) (sym e) ∙ n)
  | no ne ↦ used j pos (omega arith)
]

slot-null :
    (i : ℕ) (k g : Kernel)
    → i < tcb_limit
    → g.tcb_table (i / 512) ≢ null
    → g ≡ k
    → lookup k i ≡ null
    → slot g i ≡ null
slot-null i k g small there same e =
    let f : lookup g i ≡ null = ap (λ h. lookup h i) same ∙ e in ground arith

new_loop-Found :
    (n i : ℕ) (t : Ptr) (k : Kernel)
    → n + i ≡ tcb_limit
    → 0 < i
    → t ≢ null
    → Free k
    → Distinct k
    → Fresh (next_page k) k
    → Used i k
    → Returns (Found t k) (new_loop n i t k)
unfolding new_loop
new_loop-Found zero i t k e pos ne free distinct fresh used =
    Returns.mono (give_up-Returns t k ne free distinct) λ r g (sound, is, names, others).
      (sound, others, inl (is, names, inr (λ j p l. used j p (omega arith))))
new_loop-Found (suc n) i t k e pos ne free distinct fresh used =
    Returns.bind (ensure_subtable-Ensured i k free distinct fresh) λ ready g s.
      elim (Bool-cases ready) [
        | inr out ↦ rw out (
            Returns.mono (give_up-Returns t g ne s.unlocked s.distinct)
              λ r h (sound, is, names, others). (
                sound,
                λ p np. others p np ∙ ap (λ f. f p) s.tcbs,
                inl (is, (λ j. names j ∙ s.names j), inl (s.missing out)),
              ))
        | inl ready_now ↦ rw ready_now (elim (ℕ_discrete (slot g i) null) [
          | yes empty ↦
              rw (eq→== (slot g i) null empty, install-installed i t g ne)
                (returns {k = installed i t g} (
                  record { distinct = s.distinct; unlocked = s.unlocked; table_unlocked = refl },
                  (λ p np. ground (arith, ap (λ f. f p) s.tcbs)),
                  inr (
                    refl,
                    install-Created i t k g pos (omega arith) used s (s.there ready_now) empty,
                  ),
                ))
          | no taken ↦ rw (ne→== (slot g i) null taken) (elim (s.again ready_now) [
            | inr empty ↦ absurd (taken empty)
            | inl same ↦
                subst (λ h. Returns (Found t k) (new_loop n (i + 1) t h)) (sym same)
                  (new_loop-Found n (i + 1) t k (omega arith) (omega arith) ne free distinct fresh (
                    Used-next i k used (λ gone.
                      taken (slot-null i k g (omega arith) (s.there ready_now) same gone))))
          ])
        ])
      ]

-- No new thread: there is no memory for a TCB or a subtable, or no ID.
abbrev pub Refused : Kernel → Ptr → Kernel → Type 0
Refused k r g =
    (r ≡ null)
    × ((j : ℕ) → lookup g j ≡ lookup k j)
    × ((next_tcb k ≡ null)
        ⊎ (next_page k ≡ null)
        ⊎ (next_page (framed k) ≡ null)
        ⊎ Used tcb_limit k)

-- The page that the allocator gives next, and the one after a frame for a TCB, are none of the
-- subtables.
abbrev pub FreshPages : Kernel → Type 0
FreshPages k =
    (a : ℕ)
    → k.tcb_table a ≢ null
    → (next_page k ≢ k.tcb_table a) × (next_page (framed k) ≢ k.tcb_table a)

FreshPages-Fresh :
    (k : Kernel) (t : Ptr) (g : Kernel) → FreshPages k → TcbTaken k t g → Fresh (next_page g) g
FreshPages-Fresh k t g fresh took = elim took.next [
  | inl e ↦ Fresh-table k g took.table e (λ a ne. (fresh a ne).0)
  | inr e ↦ Fresh-table k g took.table e (λ a ne. (fresh a ne).1)
]

-- In the search, the mutex of the table is held.
abbrev locked : Kernel → Kernel
locked g = record g { table_locked = true }

TcbTaken-Created :
    (k : Kernel) (t : Ptr) (g : Kernel) (r : Ptr) (h : Kernel)
    → TcbTaken k t g
    → ((r ≡ null)
        × ((j : ℕ) → lookup h j ≡ lookup (locked g) j)
        × ((next_page g ≡ null) ⊎ Used tcb_limit (locked g)))
      ⊎ ((r ≡ t) × Created (locked g) t h)
    → Refused k r h ⊎ ((r ≡ next_tcb k) × Created k r h)
TcbTaken-Created k t g r h took found =
    let same : (j : ℕ) → lookup g j ≡ lookup k j = λ j. lookup-same j k g took.pages took.table in
    elim found [
      | inr (is, c) ↦ inr (
        is ∙ took.is,
        Created-names k (locked g) h r same (subst (λ p. Created (locked g) p h) (sym is) c),
      )
      | inl (is, names, why) ↦ inl (
        is,
        (λ j. names j ∙ same j),
        elim why [
          | inr used ↦ inr (inr (inr (λ j p l e. used j p l (same j ∙ e))))
          | inl none_left ↦ elim took.next [
            | inl e ↦ inr (inl (sym e ∙ none_left))
            | inr e ↦ inr (inr (inl (sym e ∙ none_left)))
          ]
        ],
      )
    ]

-- In a sound state (the mutexes are free, and no two entries of the table share a subtable)
-- where the pages that the allocator gives next are no subtables, tcb_new returns in a sound
-- state. Either it gives the next free TCB: this is suspended and has the least positive ID that
-- was not in use, under which the table then holds it, while every other ID keeps its thread. Or
-- it gives NULL, and every ID keeps its thread; then there is no TCB or page to allocate, or all
-- 65535 IDs are in use. No other TCB is written.
pub tcb_new-Created :
    (k : Kernel)
    → Sound k
    → FreshPages k
    → Returns
        (λ r g.
          Sound g
          × ((p : Ptr) → p ≢ next_tcb k → g.tcbs p ≡ k.tcbs p)
          × (Refused k r g ⊎ ((r ≡ next_tcb k) × Created k r g)))
        (tcb_new k)
unfolding tcb_new acquire
tcb_new-Created k s fresh = Returns.bind (tcb_alloc-TcbTaken k s.unlocked) λ t g took.
    elim (Bool-cases (t == null)) [
      | inl out ↦ rw out (
          returns (
            record {
              distinct = Distinct-table k g took.table s.distinct;
              unlocked = took.unlocked;
              table_unlocked = took.lock ∙ s.table_unlocked;
            },
            took.others,
            inl (
              refl,
              (λ j. lookup-same j k g took.pages took.table),
              inl (ground (arith, took.is)),
            ),
          ))
      | inr new ↦
          rw (new, took.lock ∙ s.table_unlocked)
            (Returns.mono
              (new_loop-Found 65535 1 t (locked g) refl (omega arith) (ground arith) took.unlocked
                (Distinct-table k g took.table s.distinct) (FreshPages-Fresh k t g fresh took)
                (λ j p l. absurd (omega arith)))
              λ r h (sound, others, found). (
                sound,
                λ p np. others p (λ e. np (e ∙ took.is)) ∙ took.others p np,
                TcbTaken-Created k t g r h took found,
              ))
    ]
