-- ===== src/MemoryMap/Init/Fits.antt =====
-- The maps of up to three regions.
use native.Mathlib.Decide.{ℕ_discrete}
use pinion.Prelude.{
  ℕ, Option, ◌<◌, ◌≡◌, ◌+◌, some, ◌%◌, update, ◌^◌, arith, ◌≤◌, subst, sym, Bool-cases, leb, inl,
  inr, zero, refl, false, ltb, ◌-◌, ◌&&◌, ◌⊎◌,
}
use pinion.MemoryMap.{Map, Region, cutoff, high_entries, low_entries}
use pinion.MemoryMap.Init.{Found, Fill, Pmm, with_entry, low_loop, high_loop, init, suc}

-- A region begins where one that was found begins, below a bound. It does not reach beyond the bound,
-- unless it is the whole of a region that was found with its end at 2^64 or above.
abbrev pub Within : ℕ → (found r : Region) → Type 0
Within limit found r =
    (r.base ≡ found.base)
    × (r.base < limit)
    × ((r.base + r.size ≤ limit) ⊎ ((r.size ≡ found.size) × (2 ^ 64 ≤ found.base + found.size)))

-- The first `n` regions of a map are the regions that were found, within a bound.
abbrev pub Below : ℕ → Found → ℕ → Map → Type 0
Below limit found n map = (a : ℕ) → a < n → Within limit (found.entry a) (map.entry a)

-- The test of the code for a region that is not cut, which wraps.
whole-Within :
    (limit : ℕ) (r : Region)
    → r.base < limit
    → (r.base + r.size) % 2 ^ 64 ≤ limit
    → Within limit r r
whole-Within limit r begins ends = elim (Bool-cases (ltb (r.base + r.size) (2 ^ 64))) [
  | inl small ↦ (refl, begins, inl (ground arith))
  | inr large ↦ (refl, begins, inr (refl, ground arith))
]

Below-update :
    (limit i : ℕ) (found : Found) (map : Map) (r : Region)
    → Below limit found i map
    → Within limit (found.entry i) r
    → Below limit found (i + 1) (record map { entry = update map.entry i r })
Below-update limit i found map r below w a l = elim (ℕ_discrete a i) [
  | yes same ↦
      subst (Within limit (found.entry a)) (sym (ground arith))
        (subst (λ b. Within limit (found.entry b) r) (sym same) w)
  | no other ↦ subst (Within limit (found.entry a)) (sym (ground arith)) (below a (omega arith))
]

-- The loop over low memory returns; the regions of its low map are below the bound.
abbrev Filled : (limit : ℕ) → Found → Option Fill → Type 0
Filled limit found o =
    (f : Fill) × (o ≡ some f) × Below limit found f.low.count f.low × (f.i + f.j ≤ found.count)

with_entry-some :
    (room i : ℕ) (map : Map) (r : Region)
    → i < room
    → with_entry room map i r ≡ some (record map { entry = update map.entry i r })
unfolding with_entry
with_entry-some room i map r l = ground arith

leb_small : (i : ℕ) → i < 3 → leb 6 i ≡ false
leb_small i l = ground arith

module _ (limit : ℕ) (found : Found) (few : found.count ≤ 3) where
  low_loop-Filled :
      (n i : ℕ) (low high : Map)
      → i ≤ found.count
      → found.count < i + n
      → low.count ≡ 0
      → Below limit found i low
      → Filled limit found (low_loop n limit found i low high)
  unfolding low_loop
  low_loop-Filled zero i low high inside enough z below = absurd (omega arith)
  low_loop-Filled (suc n) i low high inside enough z below = elim (Bool-cases (leb found.count i)) [
    | inl over ↦ rw over (_, refl, (λ a l. absurd (omega arith)), omega arith)
    | inr more ↦
        rw (low_loop, more, leb_small i (ground arith))
          (let r = found.entry i in
            elim (Bool-cases (ltb r.base limit)) [
              | inr above ↦ rw (low_loop, above) (_, refl, below, ground arith)
              | inl begins ↦
                  rw (low_loop, begins)
                    (elim (Bool-cases (leb ((r.base + r.size) % 2 ^ 64) limit)) [
                      | inl whole ↦
                          rw (whole, with_entry-some low_entries i low r (ground arith))
                            (low_loop-Filled n (i + 1) (record low { entry = update low.entry i r })
                              high (ground arith) (omega arith) z
                              (Below-update limit i found low r below
                                (whole-Within limit r (ground arith) (ground arith))))
                      | inr cut ↦
                          let half : Region = record { base = r.base; size = limit - r.base } in
                          rw
                            (
                              cut,
                              with_entry-some low_entries i low half (ground arith),
                              with_entry-some high_entries 0 high _ (omega arith),
                            )
                            (
                              _,
                              refl,
                              Below-update limit i found low half below
                                  (refl, ground arith, inl (ground arith)),
                              ground arith,
                            )
                    ])
            ])
  ]

  -- The loop over high memory returns, and takes no more regions than there are.
  high_loop-returns :
      (n i j : ℕ) (high : Map)
      → i + j ≤ found.count
      → (map : Map) × (high_loop n found i j high ≡ some map) × (map.count ≤ found.count)
  unfolding high_loop
  high_loop-returns zero i j high inside = (_, refl, omega arith)
  high_loop-returns (suc n) i j high inside =
      elim (Bool-cases (ltb (i + j) found.count && ltb i 16)) [
        | inl more ↦
            rw (more, with_entry-some high_entries i high (found.entry (i + j)) (ground arith))
              (high_loop-returns n (i + 1) j _ (ground arith))
        | inr over ↦ rw over (_, refl, omega arith)
      ]

-- What `pmm_init` sets.
pub init-range :
    (found : Found) (base top : ℕ)
    → found.count ≤ 3
    → (p : Pmm) × (init base top found ≡ some p)
      × (p.base ≡ (base + 2 ^ 64 - 0x20_0000) % 2 ^ 64)
      × (p.alloc_base ≡ (top + 2 ^ 64 - p.base) % 2 ^ 64)
      × (p.alloc_limit ≡ cutoff found.total)
      × (p.map_cutoff ≡ cutoff found.total)
      × Below p.map_cutoff found p.low.count p.low
      × (p.high.count ≤ found.count)
unfolding init
init-range found base top few =
    let bound = cutoff found.total in
    let empty : Map = record { count = 0; entry = λ i. record { base = 0; size = 0 } } in
    let (f, e, below, inside) =
      low_loop-Filled bound found few 7 0 empty empty (omega arith) (omega arith) refl
        (λ a l. absurd (omega arith)) in
    let (high, e', fits) = high_loop-returns bound found few 17 f.i f.j f.high inside in
    rw (e, e') (_, refl, refl, refl, refl, refl, below, fits)

-- pmm_init of up to three regions writes inside its arrays; the cutoff is that of the memory in
-- all, each region of the low map begins where the region found at its place begins, below the
-- cutoff, and does not reach beyond the cutoff unless it is the whole of a region whose end is
-- at 2^64 or above, which the code's test takes modulo 2^64; and the high map has no more
-- regions than were found.
pub init-Below :
    (found : Found) (base top : ℕ)
    → found.count ≤ 3
    → (p : Pmm) × (init base top found ≡ some p)
      × (p.map_cutoff ≡ cutoff found.total)
      × Below p.map_cutoff found p.low.count p.low
      × (p.high.count ≤ found.count)
init-Below found base top few =
    let (p, e, base, first, limit, cut, below, fits) = init-range found base top few in
    (p, e, cut, below, fits)
