-- ===== src/Boot/Thread.antt =====
-- The initial thread is the first that runs.
use pinion.Scheduler.Steps.{add_tcb-But}
use pinion.Machine.Returns
use pinion.Machine.Returns.{Returns}
use pinion.Scheduler.Passed.{Passed}
use pinion.Scheduler.Schedule.{Rotated, schedule-first}
use pinion.Boot.{start_thread}
use pinion.Alloc.Bump.{Bump, frame}
use pinion.Machine.{Kernel, Ptr, null, free}
use pinion.Prelude.{
  ℕ, List, [], ◌∷◌, ◌∈◌, suc, ◌≡◌, ◌≢◌, ◌/◌, ◌==◌, false, arith, if◌then◌else◌, refl, ap, ◌∉◌, ◌∙◌,
  inl,
}
use pinion.Scheduler.{Next, add_tcb}
use pinion.Scheduler.Invariant.{But, Moved}
use pinion.System.Between.{Between}
use pinion.Threads.First.{first_made, tcb_new-first}
use pinion.Threads.Lookup.{lookup}

-- No thread exists, and the core has none.
pub record NoThreads (k : Kernel) : Type 0 where
  pub table : (i : ℕ) → k.tcb_table i ≡ null
  pub unlocked : k.table_locked ≡ false
  pub no_head : k.schedule_head ≡ null
  pub no_tail : k.schedule_tail ≡ null
  pub inactive : k.active_tcb ≡ null
  pub free_state : (p : Ptr) → (k.tcbs p).state ≡ free
  pub idle : k.idle_tcb ≢ null

-- The idle TCB, and the initial one.
abbrev pub everyone : Kernel → List Ptr
everyone k = k.idle_tcb ∷ frame k ∷ []

-- The thread `t` runs, and is the only one, with ID 1; of the rest, this is as in `h`.
pub record Started (t : Ptr) (h : Kernel) (r : Next) (g : Kernel) : Type 0 where
  pub resumed : r ≡ Next.resume
  pub between : Between (h.idle_tcb ∷ t ∷ []) g []
  pub active : g.active_tcb ≡ t
  pub names : (id : ℕ) → lookup g id ≡ (if id == 1 then t else null)
  pub pages : g.pages ≡ h.pages
  pub root : g.pcx_root ≡ h.pcx_root
  pub vectors : g.vector_pages ≡ h.vector_pages
  pub rest : g ≡ record h {
    tcbs = g.tcbs;
    schedule_head = g.schedule_head;
    schedule_tail = g.schedule_tail;
    active_tcb = g.active_tcb;
    active_pcx = g.active_pcx;
    active_pcx_id = g.active_pcx_id;
    interrupt_stack = g.interrupt_stack;
  }

module _ (n : ℕ) (k : Kernel) (b : Bump (suc (suc n)) k) (none : NoThreads k) where
  made_names : (id : ℕ) → lookup (first_made k) id ≡ (if id == 1 then frame k else null)
  made_names id = ground (arith, none.table (id / 512))

  made-But : But (frame k) (λ p. p ∈ everyone k) (first_made k) []
  made-But = record {
    queue = record { chain = none.no_head; tail = none.no_tail; distinct = tt };
    only = λ p ne i. absurd (ground (arith, i));
    all = λ p ne l q. absurd (ground (arith, q, ne, none.free_state p));
    inactive = refl;
  }

  -- What adding the thread to the queue and the first round of the scheduler leave alone.
  rest_kept :
      (h g : Kernel)
      → Moved (frame k) (first_made k) h
      → Passed (frame k ∷ []) h g
      → g ≡ record (first_made k) {
        tcbs = g.tcbs;
        schedule_head = g.schedule_head;
        schedule_tail = g.schedule_tail;
        active_tcb = g.active_tcb;
        active_pcx = g.active_pcx;
        active_pcx_id = g.active_pcx_id;
        interrupt_stack = g.interrupt_stack;
      }
  rest_kept h g m p = cc (m.rest, p.rest)

  outside_free :
      (h g : Kernel)
      → Moved (frame k) (first_made k) h
      → Passed (frame k ∷ []) h g
      → (q : Ptr) → q ∉ everyone k
      → (g.tcbs q).state ≡ free
  outside_free h g m p q out =
      ap (λ x. x.state) (p.others q (ground arith))
      ∙ ap (λ x. x.state) (m.others q (ground arith))
      ∙ ground (arith, none.free_state q)

  started :
      (h g : Kernel) (r : Next)
      → Moved (frame k) (first_made k) h
      → Rotated (λ p. p ∈ everyone k) (frame k ∷ []) h r g
      → Started (frame k) (first_made k) r g
  started h g r m ((resumed, s, active, runs), p, _) =
      let e = rest_kept h g m p in
      let same : (id : ℕ) → lookup g id ≡ (if id == 1 then frame k else null) =
        λ id. ap (λ h. lookup h id) e ∙ made_names id in
      let idle : g.idle_tcb ≡ k.idle_tcb = ap (λ h. h.idle_tcb) e in
      record {
        resumed = resumed;
        between = record {
          quiet = record {
            scheduled = s;
            outside = outside_free h g m p;
            idle = rw idle none.idle;
            idle_known = rw idle (ground arith);
            unlocked = ap (λ h. h.table_locked) e;
            named = λ id ne. ground (arith, same id);
          };
          busy = rw active (omega arith);
          active_known = rw active (ground arith);
          turn = inl (rw active runs);
        };
        active = active;
        names = same;
        pages = ap (λ h. h.pages) e;
        root = ap (λ h. h.pcx_root) e;
        vectors = ap (λ h. h.vector_pages) e;
        rest = e;
      }

  pub start_thread-Started : Returns (Started (frame k) (first_made k)) (start_thread k)
  unfolding start_thread add_tcb
  start_thread-Started = rw (tcb_new-first n k b (none.table 0) none.unlocked) (
      Returns.bind
        (add_tcb-But (frame k) (first_made k) [] (omega arith) refl (λ e. omega arith) made-But)
        λ _ h (b', m, e).
          Returns.mono
            (schedule-first h (frame k) [] (ap (λ h. h.active_tcb) m.rest ∙ none.inactive) b')
            (λ r g rot. started h g r m rot))
