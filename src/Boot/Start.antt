-- ===== src/Boot/Start.antt =====
-- The steps of the start before the initial thread.
use pinion.Boot.Idt.{gated, idt_init-gated}
use pinion.Machine.Returns
use pinion.Machine.Returns.{Returns}
use pinion.Alloc.Blocks.{Free}
use pinion.Paging.Setup.Window.{Mapped-translated, translated}
use pinion.Paging.{get_trans}
use pinion.Threads.Lookup.{lookup}
use pinion.System.Between.{Between}
use pinion.Scheduler.{Next}
use pinion.Boot.{start_thread, idt_init}
use pinion.Interrupts.{add_vector_page}
use pinion.Core.{ccb_new}
use pinion.Alloc.Bump.{Bump, Bump-steps, frame, Bump-le}
use pinion.Boot.Thread.{NoThreads, Started, start_thread-Started}
use pinion.Core.New.{cored, ccb_new-cored}
use pinion.Interrupts.Added.{vectored, add_vector_page-vectored}
use pinion.Machine.{
  Kernel, Ptr, null, free, pinion_vtable, irq_vtable, ◌>>=◌, Vtable, VectorPage, Run,
}
use pinion.Paging.Setup
use pinion.Paging.Setup.Tables.{SetUp, Mapped-frame, init-SetUp, Mapped}
use pinion.Prelude.{
  ℕ, ◌≡◌, ◌≢◌, ◌<◌, ◌+◌, ◌*◌, false, arith, refl, ap, ◌∙◌, ◌∷◌, ◌≤◌, [], ◌^◌, if◌then◌else◌, ◌==◌,
  subst, sym,
}
use pinion.Threads.First.{first_made, first_made-pages}

-- The static variables that begin as zero, and memory without threads.
pub record Zeroed (k : Kernel) : Type 0 where
  pub allocators : Free k
  pub ccb_unlocked : k.ccb_locked ≡ false
  pub no_page : k.pge_list ≡ null
  pub no_tcb : k.tcb_list ≡ null
  pub no_ccb : k.ccb_list ≡ null
  pub no_ccb_table : k.ccb_table ≡ null
  pub ccb_table_unlocked : k.ccb_table_locked ≡ false
  pub table : (i : ℕ) → k.tcb_table i ≡ null
  pub unlocked : k.table_locked ≡ false
  pub no_head : k.schedule_head ≡ null
  pub no_tail : k.schedule_tail ≡ null
  pub free_state : (p : Ptr) → (k.tcbs p).state ≡ free
  pub idle : k.idle_tcb ≢ null

-- A page of vectors with this table of functions, and no routes.
pub record Unrouted (v : Vtable) (page : VectorPage) (g : Kernel) : Type 0 where
  pub vtable : page.vtable ≡ v
  pub present : page.route ≢ null
  pub unrouted : (j : ℕ) → j < 512 → g.pages page.route j ≡ null

-- What the start makes: the initial TCB `t`, which runs, the idle one, the tables of `pcx_init`, and
-- the two pages of vectors.
pub record Booted (idle t : Ptr) (r : Next) (g : Kernel) : Type 0 where
  pub resumed : r ≡ Next.resume
  pub between : Between (idle ∷ t ∷ []) g []
  pub active : g.active_tcb ≡ t
  pub names : (id : ℕ) → lookup g id ≡ (if id == 1 then t else null)
  pub mapped : (addr : ℕ) → get_trans g addr ≡ translated addr
  pub pinion_vectors : Unrouted pinion_vtable (g.vector_pages 1) g
  pub irq_vectors : Unrouted irq_vtable (g.vector_pages 2) g

-- What the start leaves for others to use: the tables of `pcx_init`, with the root at `root`, and `n`
-- frames behind its own.
pub record Ready (n : ℕ) (root : Ptr) (g : Kernel) : Type 0 where
  pub at_root : g.pcx_root ≡ root
  pub tables : Mapped root g.pages
  pub next : frame g ≡ root + 0x1000 * 264
  pub bump : Bump n g

-- The address of the initial TCB: the tables have taken 258 frames, the gates and the control block one
-- each, and the vectors two.
abbrev pub first_thread : Kernel → Ptr
first_thread k = frame k + 0x1000 * 262

-- With the gates, the control block and the two pages of vectors.
abbrev prepared : Kernel → Kernel
prepared g = vectored 0x100 irq_vtable (vectored 0x80 pinion_vtable (cored (gated g)))

module _ (k : Kernel) (b : Bump 264 k) (z : Zeroed k) (g : Kernel) (s : SetUp k g) where
  after-Bump : Bump 6 g
  after-Bump =
      Bump-steps 258 6 k g b
        (
          ap (λ g. g.pmm_locked) s.rest,
          ap (λ g. g.pge_locked) s.rest,
          ap (λ g. g.tcb_locked) s.rest ∙ b.unlocked.2,
        )
        (ap (λ g. g.ccb_locked) s.rest)
        (
          ap (λ g. g.pge_list) s.rest,
          ap (λ g. g.tcb_list) s.rest ∙ b.no_tcb,
          ap (λ g. g.ccb_list) s.rest ∙ b.no_ccb,
        )
        (ap (λ g. g.pmm_base) s.rest, ap (λ g. g.alloc_limit) s.rest)
        (ap (λ g. g.alloc_base) s.rest)

  prepared-NoThreads : NoThreads (prepared g)
  prepared-NoThreads = record {
    table = λ i. ap (λ g. g.tcb_table i) s.rest ∙ z.table i;
    unlocked = ap (λ g. g.table_locked) s.rest ∙ z.unlocked;
    no_head = ap (λ g. g.schedule_head) s.rest ∙ z.no_head;
    no_tail = ap (λ g. g.schedule_tail) s.rest ∙ z.no_tail;
    inactive = refl;
    free_state = λ p. ap (λ g. (g.tcbs p).state) s.rest ∙ z.free_state p;
    idle = rw (ap (λ g. g.idle_tcb) s.rest) z.idle;
  }

  kept : (q : Ptr) → q < frame k + 0x1000 * 258 → (first_made (prepared g)).pages q ≡ g.pages q
  kept q l =
      let at : g.alloc_base ≡ k.alloc_base + 0x1000 * 258 = ap (λ g. g.alloc_base) s.rest in
      let two : (prepared g).pages q ≡ g.pages q = ground (arith, at) in
      first_made-pages (prepared g) q (ground (arith, at)) ∙ two

  prepared-ran :
      ((idt_init >>= λ _. ccb_new >>= λ _. add_vector_page 0x80 pinion_vtable >>= λ _.
      add_vector_page 0x100 irq_vtable >>= λ _. start_thread)
          g
        ≡ start_thread (prepared g))
      × Bump 2 (prepared g)
  prepared-ran =
      let (gates, b5) = idt_init-gated 5 g after-Bump in
      let (ran, b4) =
        ccb_new-cored 4 (gated g) b5 (ap (λ g. g.ccb_table) s.rest ∙ z.no_ccb_table)
          (ap (λ g. g.ccb_table_locked) s.rest ∙ z.ccb_table_unlocked) in
      let h = vectored 0x80 pinion_vtable (cored (gated g)) in
      let (ran', b3) = add_vector_page-vectored 3 0x80 pinion_vtable (cored (gated g)) b4 refl in
      let (ran'', b2) = add_vector_page-vectored 2 0x100 irq_vtable h b3 refl in
      (rw (gates, ran, ran', ran'') refl, b2)

  -- The pages of vectors in the end.
  module _ (h : Kernel) (pages : h.pages ≡ (first_made (prepared g)).pages)
      (vectors : h.vector_pages ≡ (first_made (prepared g)).vector_pages) where
    page_of :
        (q : Ptr) (j : ℕ) → q ≢ frame (prepared g) + 0x1000 → h.pages q j ≡ (prepared g).pages q j
    page_of q j ne = ap (λ f. f q j) pages ∙ ap (λ f. f j) (first_made-pages (prepared g) q ne)

    pinion_page : Unrouted pinion_vtable (h.vector_pages 1) h
    pinion_page = rw (ap (λ f. f 1) vectors) (record {
      vtable = refl;
      present = omega arith;
      unrouted = λ j l. page_of (frame (cored (gated g))) j (omega arith) ∙ ground arith;
    })

    irq_page : Unrouted irq_vtable (h.vector_pages 2) h
    irq_page = rw (ap (λ f. f 2) vectors) (record {
      vtable = refl;
      present = omega arith;
      unrouted = λ j l.
          page_of (frame (vectored 0x80 pinion_vtable (cored (gated g)))) j (omega arith)
          ∙ ground arith;
    })

  Started-Booted :
      (r : Next) (h : Kernel)
      → Started (frame (prepared g)) (first_made (prepared g)) r h
      → Booted k.idle_tcb (first_thread k) r h
  Started-Booted r h t =
      let at : frame (prepared g) ≡ first_thread k =
        (let a : g.alloc_base ≡ k.alloc_base + 0x1000 * 258 = ap (λ g. g.alloc_base) s.rest in
          omega arith) in
      let idle : g.idle_tcb ≡ k.idle_tcb = ap (λ g. g.idle_tcb) s.rest in
      let low : k.alloc_base + 0x1000 * 258 ≤ 2 ^ 29 = ground (arith, b.room, b.low) in
      record {
        resumed = t.resumed;
        between =
            subst (λ i. Between (i ∷ first_thread k ∷ []) h []) idle
              (subst (λ p. Between (g.idle_tcb ∷ p ∷ []) h []) at t.between);
        active = t.active ∙ at;
        names = λ id. t.names id ∙ ap (λ p. if id == 1 then p else null) at;
        mapped =
            Mapped-translated k.alloc_base h b.aligned low (t.root ∙ ap (λ g. g.pcx_root) s.rest) (
              Mapped-frame (frame k) g.pages h.pages (λ q l. ap (λ f. f q) t.pages ∙ kept q l)
                s.mapped);
        pinion_vectors = pinion_page h t.pages t.vectors;
        irq_vectors = irq_page h t.pages t.vectors;
      }

  Started-Ready :
      (n : ℕ) (r : Next) (h : Kernel)
      → Bump (264 + n) k
      → Started (frame (prepared g)) (first_made (prepared g)) r h
      → Ready n (frame k) h
  Started-Ready n r h bn t =
      let at : g.alloc_base ≡ k.alloc_base + 0x1000 * 258 = ap (λ g. g.alloc_base) s.rest in
      record {
        at_root = t.root ∙ ap (λ g. g.pcx_root) s.rest;
        tables =
            Mapped-frame (frame k) g.pages h.pages (λ q l. ap (λ f. f q) t.pages ∙ kept q l)
              s.mapped;
        next = ap frame t.rest ∙ omega arith;
        bump =
            Bump-steps 264 n k h bn
              (
                ap (λ g. g.pmm_locked) t.rest,
                ap (λ g. g.pge_locked) t.rest,
                ap (λ g. g.tcb_locked) t.rest,
              )
              (ap (λ g. g.ccb_locked) t.rest ∙ sym z.ccb_unlocked)
              (
                ap (λ g. g.pge_list) t.rest,
                ap (λ g. g.tcb_list) t.rest,
                ap (λ g. g.ccb_list) t.rest,
              )
              (
                ap (λ g. g.pmm_base) t.rest ∙ ap (λ g. g.pmm_base) s.rest,
                ap (λ g. g.alloc_limit) t.rest ∙ ap (λ g. g.alloc_limit) s.rest,
              )
              (ap (λ g. g.alloc_base) t.rest ∙ omega arith);
      }

-- The steps of the start behind `pmm_init`.
abbrev pub steps : Kernel → Run Next
steps k =
    (Setup.init >>= λ _. idt_init >>= λ _. ccb_new >>= λ _.
    add_vector_page 0x80 pinion_vtable >>= λ _.
    add_vector_page 0x100 irq_vtable >>= λ _. start_thread)
      k

pub start-Ready :
    (n : ℕ) (k : Kernel)
    → Bump (264 + n) k
    → Zeroed k
    → Returns (λ r h. Booted k.idle_tcb (first_thread k) r h × Ready n (frame k) h) (steps k)
start-Ready n k bn z =
    let b = Bump-le 264 (264 + n) k (omega arith) bn in
    Returns.bind (init-SetUp k (Bump-le 258 (264 + n) k (omega arith) bn)) λ _ g s.
      let (ran, b') = prepared-ran k b z g s in
      rw ran (
        Returns.mono (start_thread-Started 0 (prepared g) b' (prepared-NoThreads k b z g s))
          (λ r h t. (Started-Booted k b z g s r h t, Started-Ready k b z g s n r h bn t)))
