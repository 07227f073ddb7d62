-- ===== src/Unfold/Multiboot/Regions.antt =====
-- The regions that unfold finds in the memory map of multiboot.
use mathlib.Core.List.{append_assoc, append-nil}
use pinion.Prelude.{
  ℕ, List, [], ◌∷◌, ◌≤◌, ◌+◌, suc, update, ◌<◌, if◌then◌else◌, ◌≡◌, zero, ◌==◌, ◌++◌, ◌^◌, ◌%◌,
  arith, Option, some, ◌∙◌, ap, leb, refl, true, false, Bool-cases, inr, inl, ltb,
}
use pinion.Unfold.Multiboot.{MmapEntry, mmap_loop, mmap_room, total_loop, init_mmap}
use pinion.MemoryMap.{Region}
use pinion.MemoryMap.Init.{Found}

-- The memory map at an address, from byte `i` on, has these entries.
abbrev pub Laid : (at : ℕ → MmapEntry) (bytes addr i : ℕ) → List MmapEntry → Type 0
Laid at bytes addr i [] = bytes ≤ i
Laid at bytes addr i (e ∷ es) =
    (i < bytes)
    × (at addr ≡ e)
    × (i + e.size + 4 < 2 ^ 32)
    × Laid at bytes ((addr + e.size + 4) % 2 ^ 32) (i + e.size + 4) es

abbrev pub region : MmapEntry → Region
region e = record { base = e.base_addr; size = e.length }

-- The regions of usable memory.
abbrev pub usable : List MmapEntry → List Region
usable [] = []
usable (e ∷ es) = if e.type == 1 then region e ∷ usable es else usable es

abbrev pub how_many : List Region → ℕ
how_many [] = 0
how_many (r ∷ rs) = suc (how_many rs)

abbrev pub entries : List MmapEntry → ℕ
entries [] = 0
entries (e ∷ es) = suc (entries es)

-- The `n` regions from number `i` on.
abbrev pub listed : ℕ → (ℕ → Region) → ℕ → List Region
listed zero entry i = []
listed (suc n) entry i = entry i ∷ listed n entry (i + 1)

listed-update :
    (n : ℕ) (entry : ℕ → Region) (i m : ℕ) (r : Region)
    → m ≡ i + n
    → listed (suc n) (update entry m r) i ≡ listed n entry i ++ r ∷ []
listed-update zero entry i m r e = ground arith
listed-update (suc n) entry i m r e = ground (arith, listed-update n entry (i + 1) m r)

total_loop-update :
    (n : ℕ) (entry : ℕ → Region) (i m total : ℕ) (r : Region)
    → m ≡ i + n
    → total_loop (suc n) (update entry m r) i total ≡ (total_loop n entry i total + r.size) % 2 ^ 64
unfolding total_loop
total_loop-update zero entry i m total r e = ground arith
total_loop-update (suc n) entry i m total r e =
    ground (arith, total_loop-update n entry (i + 1) m ((total + (entry i).size) % 2 ^ 64) r)

-- The regions found so far, with their total.
pub record Collected (rs : List Region) (total count : ℕ) (entry : ℕ → Region) : Type 0 where
  pub regions : listed count entry 0 ≡ rs
  pub sum : total_loop count entry 0 0 ≡ total

Collected-add :
    {rs : List Region} {total count : ℕ} {entry : ℕ → Region} (r : Region)
    → Collected rs total count entry
    → Collected (rs ++ r ∷ []) ((total + r.size) % 2 ^ 64) (suc count) (update entry count r)
Collected-add {count = count} {entry = entry} r c = record {
  regions = listed-update count entry 0 count r (omega arith) ∙ ap (λ l. l ++ r ∷ []) c.regions;
  sum =
      total_loop-update count entry 0 count 0 r (omega arith)
      ∙ ap (λ t. (t + r.size) % 2 ^ 64) c.sum;
}

abbrev Collects : List Region → Option Found → Type 0
Collects rs o = (f : Found) × (o ≡ some f) × Collected rs f.total f.count f.entry

append_assoc_one :
    (rs : List Region) (r : Region) (more : List Region) → (rs ++ r ∷ []) ++ more ≡ rs ++ r ∷ more
append_assoc_one rs r more = append_assoc rs (r ∷ []) more

nothing : (entry : ℕ → Region) → total_loop 0 entry 0 0 ≡ 0
unfolding total_loop
nothing entry = refl

mmap_loop-Collects :
    (es : List MmapEntry) (n : ℕ) (at : ℕ → MmapEntry) (bytes addr i total count : ℕ)
    (entry : ℕ → Region) (rs : List Region)
    → how_many (usable es) + count ≤ mmap_room
    → entries es < n
    → Laid at bytes addr i es
    → Collected rs total count entry
    → Collects (rs ++ usable es) (mmap_loop n at bytes addr i total count entry)
unfolding mmap_loop
mmap_loop-Collects es zero at bytes addr i total count entry rs fits rounds laid c =
    absurd (omega arith)
mmap_loop-Collects [] (suc n) at bytes addr i total count entry rs fits rounds laid c =
    let over : leb bytes i ≡ true = ground arith in rw (over, append-nil) (_, refl, c)
mmap_loop-Collects (e ∷ es) (suc n) at bytes addr i total count entry rs fits rounds
      (more, is, small, laid) c =
    let go : leb bytes i ≡ false = ground arith in
    let step : (i + e.size + 4) % 2 ^ 32 ≡ i + e.size + 4 = omega arith in
    rw (go, is, step)
      (elim (Bool-cases (e.type == 1)) [
        | inr unusable ↦ rw unusable (
            mmap_loop-Collects es n at bytes ((addr + e.size + 4) % 2 ^ 32) (i + e.size + 4) total
              count entry rs (ground arith) (omega arith) laid c)
        | inl good ↦
            let room : ltb count mmap_room ≡ true = ground arith in
            let one : count + 1 ≡ suc count = omega arith in
            rw (good, room, one, ← append_assoc_one rs (region e) (usable es))
              (mmap_loop-Collects es n at bytes ((addr + e.size + 4) % 2 ^ 32) (i + e.size + 4)
                ((total + e.length) % 2 ^ 64) (suc count) (update entry count (region e))
                (rs ++ region e ∷ []) (ground arith) (omega arith) laid
                (Collected-add (region e) c))
      ])

-- For a memory map of multiboot with at most 15 regions of usable memory, laid out below 4 GiB,
-- the loop of init_multiboot ends after one round for each entry and one more, with exactly the
-- usable regions in their order; the total that it counts is the one that init_mmap computes.
pub mmap_loop-usable :
    (es : List MmapEntry) (at : ℕ → MmapEntry) (bytes addr : ℕ) (entry : ℕ → Region)
    → how_many (usable es) ≤ mmap_room
    → Laid at bytes addr 0 es
    → (f : Found) × (mmap_loop (suc (entries es)) at bytes addr 0 0 0 entry ≡ some f)
      × (listed f.count f.entry 0 ≡ usable es)
      × (init_mmap f ≡ f)
unfolding init_mmap
mmap_loop-usable es at bytes addr entry fits laid =
    let (f, ran, c) =
      mmap_loop-Collects es (suc (entries es)) at bytes addr 0 0 0 entry [] (omega arith)
        (omega arith) laid (record { regions = refl; sum = nothing entry }) in
    (f, ran, c.regions, ap (λ t. record f { total = t }) c.sum)
