-- ===== src/Threads/RoundTrip.antt =====
-- A thread is made, found, and deleted again.
use native.Mathlib.Decide.{ℕ_discrete}
use pinion.Threads.{tcb_new, tcb_get, tcb_del}
use pinion.Threads.Delete.{Sound, tcb_del-Names}
use pinion.Threads.Install.{Created}
use pinion.Threads.New.{FreshPages, tcb_new-Created}
use pinion.Threads.Lookup.{lookup, tcb_get-lookup}
use pinion.Machine.{ok, Kernel, Ptr, null}
use pinion.Machine.Returns.{Returns}
use pinion.Machine.Returns
use pinion.Prelude.{
  ℕ, ◌≡◌, ◌≢◌, ◌==◌, ◌∙◌, if◌then◌else◌, arith, ap, sym, subst, inl, inr, eq→==, ne→==, refl,
}

-- The thread is found under its ID, and its deletion leaves the names that there were before.
abbrev pub RoundTrip : Kernel → Ptr → Kernel → Type 0
RoundTrip k t g =
    (tcb_get (g.tcbs t).id g ≡ ok t g)
    × Returns (λ _ h. Sound h × ((j : ℕ) → lookup h j ≡ lookup k j)) (tcb_del t g)

restored :
    (k : Kernel) (t : Ptr) (g : Kernel) (c : Created k t g) (j : ℕ)
    → (if j == c.id then null else lookup g j) ≡ lookup k j
restored k t g c j = elim (ℕ_discrete j c.id) [
  | yes e ↦ rw (eq→== j c.id e) (sym c.unused ∙ ap (lookup k) (sym e))
  | no ne ↦ rw (ne→== j c.id ne) (c.names j ∙ rw (ne→== j c.id ne) refl)
]

Created-RoundTrip :
    (k : Kernel) (t : Ptr) (g : Kernel) → t ≢ null → Sound g → Created k t g → RoundTrip k t g
Created-RoundTrip k t g ne s c =
    let at : lookup g c.id ≡ t = c.names c.id ∙ ground arith in
    let own = c.own_id in
    let del =
      tcb_del-Names c.id g s (λ e. ne (sym at ∙ e)) (ap (λ p. (g.tcbs p).id) at ∙ own)
        (λ e. ground (arith, sym (ap (λ p. (g.tcbs p).state) at) ∙ e, c.suspended_state)) in
    (
      ap (λ i. tcb_get i g) own ∙ tcb_get-lookup c.id g s.table_unlocked ∙ ap (λ p. ok p g) at,
      subst (λ p. Returns (λ _ h. Sound h × ((j : ℕ) → lookup h j ≡ lookup k j)) (tcb_del p g)) at
          (Returns.mono del
            λ _ h (sound, names, others). (sound, λ j. names j ∙ restored k t g c j)),
    )

-- In a sound state where the pages that the allocator gives next are no subtables, tcb_new
-- returns; if it gives a TCB, tcb_get of its ID finds this TCB and changes nothing, and tcb_del
-- of it returns in a sound state where every ID names the thread that it named before tcb_new.
pub tcb_new-RoundTrip :
    (k : Kernel) → Sound k → FreshPages k → Returns (λ t g. t ≢ null → RoundTrip k t g) (tcb_new k)
tcb_new-RoundTrip k s fresh =
    Returns.mono (tcb_new-Created k s fresh) λ t g (sound, others, outcome) ne. elim outcome [
      | inl (is, names, why) ↦ absurd (ne is)
      | inr (is, c) ↦ Created-RoundTrip k t g ne sound c
    ]
