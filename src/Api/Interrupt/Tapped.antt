-- ===== src/Api/Interrupt/Tapped.antt =====
-- interrupt_set_tap keeps the taps of a thread and the routes of the vectors together.
use pinion.Machine.Returns.{Returns, returns}
use pinion.Api.Interrupt.{set_tap}
use pinion.Interrupts.{tap_word, remove_route, add_route, reset}
use pinion.Interrupts.Words.{Routed, Full, words_other, filled, forgotten}
use pinion.Interrupts.Routes.{
  route_of, written, FirstTap, remove_route-written, add_route-written, reset_quiet,
}
use pinion.Machine.{◌>>=◌, Kernel, Ptr, null, with_tcb, pinion_vtable, load, modify, pure, ok}
use pinion.Prelude.{
  ℕ, Bool, ◌≡◌, ◌≢◌, ◌<◌, ◌⊎◌, true, update, ◌^◌, Option, ◌/◌, if◌then◌else◌, not, low_bits, ◌==◌,
  leb, Bool-cases, false, arith, inl, none, test_bit, ne→==, inr, refl, ◌∙◌,
}

-- The thread has the tap `index` on `vec` in place of `old`: it is routed from the vector, if there is
-- room, and no longer from the old one.
pub record Tapped (t : Ptr) (index vec old : ℕ) (k : Kernel) (done : Bool) (g : Kernel)
    : Type 0 where
  pub is_done : done ≡ true
  pub rest : g ≡ record k { tcbs = g.tcbs; pages = g.pages }
  pub tcb : g.tcbs ≡ update k.tcbs t (record (k.tcbs t) { tap = update (k.tcbs t).tap index vec })
  pub routed : Routed g vec t ⊎ Full g vec
  pub unrouted : (old ≡ 0) ⊎ ((route_of k old ≡ null) ⊎ ((old ≡ vec) ⊎ (¬ (Routed g old t))))
  pub words :
      (q : Ptr) (j : ℕ) → q ≢ route_of k vec → q ≢ route_of k old → g.pages q j ≡ k.pages q j

-- The old tap of the thread is gone from its vector.
module _ (t : Ptr) (old : ℕ) (k : Kernel) (small : old < 2 ^ 14) where
  remove_old :
      (o : Option ℕ) × ((if not (low_bits old 14 == 0) then remove_route t old else pure tt) k
        ≡ ok tt (written (route_of k old) o null k))
      × ((old ≡ 0) ⊎ ((route_of k old ≡ null) ⊎ FirstTap (k.pages (route_of k old)) old t o))
  remove_old = elim (Bool-cases (old == 0)) [
    | inl e ↦
        let zero_bits : (low_bits old 14 == 0) ≡ true = ground (arith, e) in
        (none, rw zero_bits refl, inl (ground (arith, e)))
    | inr ne ↦
        let bits : (low_bits old 14 == 0) ≡ false = ground (arith, ne) in
        let (o, ran, first) = remove_route-written t old k small in (o, rw bits ran, inr first)
  ]

-- With the tap.
abbrev tapped : Ptr → ℕ → ℕ → Kernel → Kernel
tapped t index vec k = with_tcb k t (record (k.tcbs t) { tap = update (k.tcbs t).tap index vec })

-- The part of the call behind that.
module _ (t : Ptr) (index vec : ℕ) (h : Kernel) (small : vec < 2 ^ 14) (ne : t ≢ null)
    (there : route_of h vec ≢ null)
    (quiet : (h.vector_pages (vec / 2 ^ 7)).vtable ≢ pinion_vtable) where
  insert :
      (o : Option ℕ) × ((modify t (λ x. record x { tap = update x.tap index (low_bits vec 16) })
            >>= λ _. load t >>= λ x. add_route t (x.tap index) >>= λ _.
                load t >>= λ x. reset (x.tap index) >>= λ _. pure true)
          h
        ≡ ok true (written (route_of h vec) o t (tapped t index vec h)))
      × FirstTap (h.pages (route_of h vec)) vec null o
  unfolding load modify
  insert =
      let (o, added, first) = add_route-written t vec (tapped t index vec h) small there in
      let low : low_bits vec 16 ≡ vec = omega arith in
      let same : (t == t) ≡ true = ground arith in
      let at : (index == index) ≡ true = ground arith in
      let done =
        reset_quiet vec (written (route_of h vec) o t (tapped t index vec h)) small quiet in
      (
        o,
        let full = ne→== t null ne in
            rw (full, low, full, same, at, added, full, same, at, done) refl,
        first,
      )

-- The running thread may set this tap on this vector: the vector has a page of routes and is none of
-- pinion's own; vectors on two pages have two pages of routes; the old tap has no flag, and its
-- vector holds the thread at most once.
pub record Tappable (index vec old : ℕ) (k : Kernel) : Type 0 where
  pub few : index < 4
  pub small : vec < 2 ^ 14
  pub busy : k.active_tcb ≢ null
  pub replaced : (k.tcbs k.active_tcb).tap index ≡ old
  pub plain : old < 2 ^ 14
  pub present : route_of k vec ≢ null
  pub quiet : (k.vector_pages (vec / 2 ^ 7)).vtable ≢ pinion_vtable
  pub distinct : vec / 2 ^ 7 ≢ old / 2 ^ 7 → route_of k vec ≢ route_of k old
  pub lone :
      (i j : ℕ)
      → i < 4
      → j < 4
      → k.pages (route_of k old) (tap_word old i) ≡ k.active_tcb
      → k.pages (route_of k old) (tap_word old j) ≡ k.active_tcb
      → i ≡ j

-- For a running thread, an index below 4, and a vector with a page of routes that is none of
-- pinion's own vectors, where the old tap has no flag, its vector holds the thread at most once,
-- and vectors on two pages have two pages of routes: interrupt_set_tap returns true and sets
-- this tap of the thread. The thread is then among the routes of the vector, or these have no
-- free place; unless the old tap is 0, is the same vector or has no page, the old vector no
-- longer holds the thread. Other pages, and the rest of the state, stay.
pub set_tap-Tapped :
    (index vec old : ℕ) (k : Kernel)
    → Tappable index vec old k
    → Returns (Tapped k.active_tcb index vec old k) (set_tap index vec k)
unfolding set_tap load
set_tap-Tapped index vec old k u =
    let t = k.active_tcb in
    let (o, removed, gone) = remove_old t old k u.plain in
    let h = written (route_of k old) o null k in
    let (o', inserted, first) = insert t index vec h u.small u.busy u.present u.quiet in
    let g = written (route_of h vec) o' t (tapped t index vec h) in
    let few = u.few in
    let small = u.small in
    let big : leb 4 index ≡ false = ground arith in
    let bit14 : test_bit vec 14 ≡ false = ground arith in
    let bit15 : test_bit vec 15 ≡ false = ground arith in
    rw (big, bit14, bit15, ne→== t null u.busy, u.replaced, removed, inserted)
      (returns (record {
        is_done = refl;
        rest = refl;
        tcb = refl;
        routed = filled g vec t (route_of h vec) o' h.pages first refl refl;
        unrouted =
            forgotten vec old t (route_of k vec) (route_of k old) o o' g k.pages u.busy refl
              u.distinct u.lone gone first refl;
        words = λ q j a b.
            words_other (route_of k vec) o' t h.pages q j (inl a)
            ∙ words_other (route_of k old) o null k.pages q j (inl b);
      }))
