-- ===== src/Interrupts/Words.antt =====
-- What the two writes of interrupt_set_tap leave of the routes of the vectors.
use native.Mathlib.Decide.{ℕ_discrete}
use pinion.Interrupts.{tap_word}
use pinion.Interrupts.Routes.{route_of, FirstTap, words}
use pinion.Machine.{Kernel, Ptr, null}
use pinion.Prelude.{
  ℕ, some, ◌≡◌, ◌≢◌, ◌<◌, ◌⊎◌, ◌^◌, Option, ◌/◌, arith, inl, none, inr, refl, sym, ap, ◌∙◌,
}

-- Some tap of the vector holds the thread.
abbrev pub Routed : Kernel → ℕ → Ptr → Type 0
Routed k vec t = (i : ℕ) × (i < 4) × (k.pages (route_of k vec) (tap_word vec i) ≡ t)

-- The vector has no free tap.
abbrev pub Full : Kernel → ℕ → Type 0
Full k vec = (i : ℕ) → i < 4 → k.pages (route_of k vec) (tap_word vec i) ≢ null

-- A thread that is once among the taps of a vector is not among them once its first is cleared.
cleared :
    (old : ℕ) (t q : Ptr) (o : Option ℕ) (pages : Ptr → ℕ → ℕ)
    → t ≢ null
    → ((i j : ℕ)
        → i < 4
        → j < 4
        → pages q (tap_word old i) ≡ t
        → pages q (tap_word old j) ≡ t
        → i ≡ j)
    → FirstTap (pages q) old t o
    → (i : ℕ) → i < 4
    → words q o null pages q (tap_word old i) ≢ t
cleared old t q none pages ne lone first i l e = first i l e
cleared old t q (some j) pages ne lone (i', l', at, is) i l e = elim (ℕ_discrete i i') [
  | yes same ↦
      let w : tap_word old i ≡ j = omega arith in
      let z : words q (some j) null pages q (tap_word old i) ≡ null = ground (arith, w) in
      ne (sym e ∙ z)
  | no other ↦
      let w : tap_word old i ≢ j = λ z. other (omega arith) in
      let z : words q (some j) null pages q (tap_word old i) ≡ pages q (tap_word old i) =
        ground (arith, w) in
      other (lone i i' l l' (sym z ∙ e) (ap (pages q) (sym at) ∙ is))
]

-- Another word than the one that is written.
abbrev Elsewhere : Option ℕ → ℕ → Type 0
Elsewhere none w = Unit
Elsewhere (some j) w = w ≢ j

pub words_other :
    (q : Ptr) (o : Option ℕ) (p : Ptr) (pages : Ptr → ℕ → ℕ) (r : Ptr) (w : ℕ)
    → (r ≢ q) ⊎ Elsewhere o w
    → words q o p pages r w ≡ pages r w
words_other q none p pages r w out = refl
words_other q (some j) p pages r w (inl ne) = ground (arith, ne)
words_other q (some j) p pages r w (inr ne) = ground (arith, ne)

-- The routes after a write to the first free tap.
pub filled :
    (g : Kernel) (vec : ℕ) (t q : Ptr) (o : Option ℕ) (pages : Ptr → ℕ → ℕ)
    → FirstTap (pages q) vec null o
    → g.pages ≡ words q o t pages
    → route_of g vec ≡ q
    → Routed g vec t ⊎ Full g vec
filled g vec t q none pages first e at = inr λ i l z.
    first i l
      (sym (ap (λ f. f q (tap_word vec i)) e) ∙ ap (λ r. g.pages r (tap_word vec i)) (sym at) ∙ z)
filled g vec t q (some j) pages (i, l, is, free) e at =
    let w : words q (some j) t pages q (tap_word vec i) ≡ t = ground (arith, is) in
    inl (i, l, ap (λ r. g.pages r (tap_word vec i)) at ∙ ap (λ f. f q (tap_word vec i)) e ∙ w)

-- A tap of another vector is another word.
apart :
    (vec old : ℕ) (r s : Ptr) (o : Option ℕ) (route : ℕ → Ptr) (i : ℕ)
    → vec ≢ old
    → (vec / 2 ^ 7 ≢ old / 2 ^ 7 → r ≢ s)
    → FirstTap route vec null o
    → i < 4
    → (s ≢ r) ⊎ Elsewhere o (tap_word old i)
apart vec old r s none route i ne pages first l = inr tt
apart vec old r s (some j) route i ne pages (i', l', is, free) l =
    elim (ℕ_discrete (vec / 2 ^ 7) (old / 2 ^ 7)) [
      | yes same ↦ inr (λ e. omega arith)
      | no other ↦ inl (λ e. pages other (sym e))
    ]

-- The old tap, if there was one, on a page that is there, is gone.
pub forgotten :
    (vec old : ℕ) (t r s : Ptr) (o o' : Option ℕ) (k : Kernel) (pages : Ptr → ℕ → ℕ)
    → t ≢ null
    → route_of k old ≡ s
    → (vec / 2 ^ 7 ≢ old / 2 ^ 7 → r ≢ s)
    → ((i j : ℕ)
        → i < 4
        → j < 4
        → pages s (tap_word old i) ≡ t
        → pages s (tap_word old j) ≡ t
        → i ≡ j)
    → (old ≡ 0) ⊎ ((s ≡ null) ⊎ FirstTap (pages s) old t o)
    → FirstTap (words s o null pages r) vec null o'
    → k.pages ≡ words r o' t (words s o null pages)
    → (old ≡ 0) ⊎ ((s ≡ null) ⊎ ((old ≡ vec) ⊎ (¬ (Routed k old t))))
forgotten vec old t r s o o' k pages ne at distinct lone (inl z) first e = inl z
forgotten vec old t r s o o' k pages ne at distinct lone (inr (inl z)) first e = inr (inl z)
forgotten vec old t r s o o' k pages ne at distinct lone (inr (inr f)) first e =
    elim (ℕ_discrete old vec) [
      | yes same ↦ inr (inr (inl same))
      | no other ↦ inr (
          inr (
            inr λ (i, l, z).
              let out =
                apart vec old r s o' (words s o null pages r) i (λ q. other (sym q)) distinct first
                  l in
              let kept = words_other r o' t (words s o null pages) s (tap_word old i) out in
              cleared old t s o pages ne lone f i l (
                sym kept
                ∙ sym (ap (λ f. f s (tap_word old i)) e)
                ∙ ap (λ q. k.pages q (tap_word old i)) (sym at)
                ∙ z)))
    ]
