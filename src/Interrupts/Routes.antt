-- ===== src/Interrupts/Routes.antt =====
-- What adding a route and removing it do to the words of the pages of routes.
use native.Mathlib.Decide.{ℕ_discrete}
use pinion.Interrupts.{
  add_route, remove_route, find_tap, write_tap, tap_word, vector_page, reset, on_reset,
}
use pinion.Machine.{Kernel, Ptr, null, ok, pinion_vtable, Vtable, no_vtable, irq_vtable}
use pinion.Prelude.{
  ℕ, zero, suc, Option, some, none, ◌≡◌, ◌≢◌, ◌<◌, ◌⊎◌, ◌+◌, ◌/◌, ◌^◌, ◌==◌, inl, inr, true, arith,
  refl, ltb, ne→==, Bool-cases, ap, update,
}

-- The page of routes of a vector.
abbrev pub route_of : Kernel → ℕ → Ptr
route_of k vec = (k.vector_pages (vec / 2 ^ 7)).route

-- The first of the taps of a vector that holds `p`, if there is one.
abbrev pub FirstTap : (ℕ → Ptr) → ℕ → Ptr → Option ℕ → Type 0
FirstTap route vec p none = (i : ℕ) → i < 4 → route (tap_word vec i) ≢ p
FirstTap route vec p (some j) = (i : ℕ) × (i < 4) × (j ≡ tap_word vec i) × (route j ≡ p)

find_tap-From :
    (route : ℕ → Ptr) (n vec i : ℕ) (p : Ptr)
    → n + i ≡ 4
    → ((j : ℕ) → j < i → route (tap_word vec j) ≢ p)
    → FirstTap route vec p (find_tap route n vec i p)
unfolding find_tap
find_tap-From route zero vec i p e before = λ j l. before j (omega arith)
find_tap-From route (suc n) vec i p e before = elim (Bool-cases (route (tap_word vec i) == p)) [
  | inl here ↦ rw here (i, omega arith, refl, ground (arith, here))
  | inr other ↦ rw other (
      find_tap-From route n vec (i + 1) p (omega arith) (λ j l. elim (ℕ_discrete j i) [
        | yes e ↦ λ q. ground (arith, other, ap (λ j. route (tap_word vec j)) e)
        | no ne ↦ before j (omega arith)
      ]))
]

-- A write of the word, if there is one.
abbrev pub words : Ptr → Option ℕ → Ptr → (Ptr → ℕ → ℕ) → Ptr → ℕ → ℕ
words q none p pages = pages
words q (some j) p pages = update pages q (update (pages q) j p)

abbrev pub written : Ptr → Option ℕ → Ptr → Kernel → Kernel
written q o p k = record k { pages = words q o p k.pages }

write_tap-written :
    (q : Ptr) (o : Option ℕ) (p : Ptr) (k : Kernel) → write_tap q o p k ≡ ok tt (written q o p k)
unfolding write_tap
write_tap-written q none p k = refl
write_tap-written q (some j) p k = refl

module _ (t : Ptr) (vec : ℕ) (k : Kernel) (small : vec < 2 ^ 14) where
  inside : ltb (vec / 2 ^ 7) 128 ≡ true
  inside = ground arith

  -- The thread goes to the first free tap of the vector.
  pub add_route-written :
      route_of k vec ≢ null
      → (o : Option ℕ) × (add_route t vec k ≡ ok tt (written (route_of k vec) o t k))
        × FirstTap (k.pages (route_of k vec)) vec null o
  unfolding add_route vector_page
  add_route-written there =
      let q = route_of k vec in
      let o = find_tap (k.pages q) 4 vec 0 null in
      (
        o,
        rw (inside, ne→== q null there, write_tap-written q o t k) refl,
        find_tap-From (k.pages q) 4 vec 0 null refl (λ j l. absurd (omega arith)),
      )

  pub remove_route-written :
      (o : Option ℕ) × (remove_route t vec k ≡ ok tt (written (route_of k vec) o null k))
      × ((route_of k vec ≡ null) ⊎ FirstTap (k.pages (route_of k vec)) vec t o)
  unfolding remove_route vector_page
  remove_route-written = elim (Bool-cases (route_of k vec == null)) [
    | inl none_there ↦ (none, rw (inside, none_there) refl, inl (ground (arith, none_there)))
    | inr there ↦
        let q = route_of k vec in
        let o = find_tap (k.pages q) 4 vec 0 t in
        (
          o,
          rw (inside, there, write_tap-written q o null k) refl,
          inr (find_tap-From (k.pages q) 4 vec 0 t refl (λ j l. absurd (omega arith))),
        )
  ]

-- Only pinion's own vectors may fire again.
on_reset_quiet :
    (v : Vtable) (vec : ℕ) (k : Kernel) → v ≢ pinion_vtable → on_reset v vec k ≡ ok tt k
unfolding on_reset
on_reset_quiet no_vtable vec k ne = refl
on_reset_quiet pinion_vtable vec k ne = absurd (ne refl)
on_reset_quiet irq_vtable vec k ne = refl

pub reset_quiet :
    (vec : ℕ) (k : Kernel)
    → vec < 2 ^ 14
    → (k.vector_pages (vec / 2 ^ 7)).vtable ≢ pinion_vtable
    → reset vec k ≡ ok tt k
unfolding reset vector_page
reset_quiet vec k small other =
    let l : ltb (vec / 2 ^ 7) 128 ≡ true = ground arith in
    elim (Bool-cases ((k.vector_pages (vec / 2 ^ 7)).route == null)) [
      | inl gone ↦ rw (l, gone) refl
      | inr there ↦ rw (l, there) (on_reset_quiet (k.vector_pages (vec / 2 ^ 7)).vtable vec k other)
    ]
