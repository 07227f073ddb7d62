-- ===== src/Load/Links.antt =====
-- What the links of the kernel are.
use pinion.Resolve.{resolve}
use pinion.Bytes.{Memory, little, text}
use pinion.Bytes.Writes.{Agree, little-Agree, text-Agree, put_apart, little-put}
use pinion.Load.{
  Rela, rela, Dynamic, symbol_at, name_at, linked, place, relocate, relocate_loop, write,
}
use pinion.Prelude.{
  ℕ, List, [], ◌∷◌, Option, some, none, suc, zero, ◌+◌, ◌^◌, ◌%◌, ◌≡◌, ◌≤◌, ◌<◌, ◌⊎◌, ◌∙◌, ltb,
  arith, refl, ap, true, false, ◌-◌,
}

abbrev pub how_many : List Rela → ℕ
how_many [] = 0
how_many (r ∷ rs) = suc (how_many rs)

-- The part of memory from `lo` to `hi` is read, and not written.
module _ (entry : ℕ → ℕ) (load_addr base : ℕ) (d : Dynamic) (lo hi : ℕ) where
  -- A relocation in the table at byte `i`.
  pub record Entry (m : Memory) (i : ℕ) (r : Rela) : Type 0 where
    pub within : i < d.jmprelsz
    pub is : rela m ((d.jmprel + i) % 2 ^ 64) ≡ r
    pub from : lo ≤ (d.jmprel + i) % 2 ^ 64
    pub upto : (d.jmprel + i) % 2 ^ 64 + 24 ≤ hi
    pub next : i + d.relent < 2 ^ 64
    pub symbol : (lo ≤ symbol_at d r) × (symbol_at d r + 4 ≤ hi)
    pub name : (lo ≤ name_at m d r) × (name_at m d r + 64 ≤ hi)
    pub outside : (place base r + 8 ≤ lo) ⊎ (hi ≤ place base r)

  -- The table from byte `i` on.
  abbrev pub Table : Memory → ℕ → List Rela → Type 0
  Table m i [] = d.jmprelsz ≤ i
  Table m i (r ∷ rs) = Entry m i r × Table m (i + d.relent) rs

  -- The place is apart from a range of `n` bytes at `b`, for all relocations.
  abbrev pub Clear : (b n : ℕ) → List Rela → Type 0
  Clear b n [] = Unit {0}
  Clear b n (r ∷ rs) = ((b + n ≤ place base r) ⊎ (place base r + 8 ≤ b)) × Clear b n rs

  abbrev pub Apart : List Rela → Type 0
  Apart [] = Unit {0}
  Apart (r ∷ rs) = Clear (place base r) 8 rs × Apart rs

  -- Every place holds what the relocation writes.
  abbrev Written : (m m' : Memory) → List Rela → Type 0
  Written m m' [] = Unit {0}
  Written m m' (r ∷ rs) =
      ((v : ℕ) → linked entry load_addr base m d r ≡ some v → little m' (place base r) 8 ≡ v)
      × Written m m' rs

  -- Every place holds its value: the address of the call that the symbol names, or the moved address.
  abbrev pub Linked : (m m' : Memory) → List Rela → Type 0
  Linked m m' [] = Unit {0}
  Linked m m' (r ∷ rs) =
      (r.type ≡ 7
        → little m' (place base r) 8
          ≡ (resolve entry load_addr (text 64 m (name_at m d r)) + r.addend) % 2 ^ 64)
      × (r.type ≡ 8 → little m' (place base r) 8 ≡ (base + r.addend) % 2 ^ 64)
      × Linked m m' rs

  abbrev Loaded : (m k : Memory) → List Rela → Option Memory → Type 0
  Loaded m k rs o =
      (m' : Memory) × (o ≡ some m') × Written m m' rs × ((b : ℕ) → Clear b 1 rs → m' b ≡ k b)

  rela-Agree : (a : ℕ) (m k : Memory) → Agree lo hi m k → lo ≤ a → a + 24 ≤ hi → rela k a ≡ rela m a
  unfolding rela
  rela-Agree a m k same l h =
      rw
        (
          little-Agree 8 a lo hi m k same l (omega arith),
          little-Agree 4 (a + 8) lo hi m k same (omega arith) (omega arith),
          little-Agree 4 (a + 12) lo hi m k same (omega arith) (omega arith),
          little-Agree 8 (a + 16) lo hi m k same (omega arith) (omega arith),
        )
        refl

  linked-Agree :
      (i : ℕ) (r : Rela) (m k : Memory)
      → Agree lo hi m k
      → Entry m i r
      → linked entry load_addr base k d r ≡ linked entry load_addr base m d r
  unfolding linked name_at
  linked-Agree i r m k same e =
      let name = little-Agree 4 (symbol_at d r) lo hi m k same e.symbol.0 e.symbol.1 in
      let chars = text-Agree 64 (name_at m d r) lo hi m k same e.name.0 e.name.1 in
      rw (name, chars) refl

  linked-small :
      (r : Rela) (m : Memory) (v : ℕ) → linked entry load_addr base m d r ≡ some v → v < 256 ^ 8
  unfolding linked
  linked-small r m v e = ground arith

  -- A relocation writes its place only.
  write_apart :
      (a b : ℕ) (o : Option ℕ) (m : Memory) → (b + 1 ≤ a) ⊎ (a + 8 ≤ b) → write a o m b ≡ m b
  unfolding write
  write_apart a b none m apart = refl
  write_apart a b (some v) m apart = put_apart 8 a v b m (ground arith)

  -- A relocation writes its place only.
  relocate_apart :
      (r : Rela) (m : Memory) (b : ℕ)
      → (b + 1 ≤ place base r) ⊎ (place base r + 8 ≤ b)
      → relocate entry load_addr base d r m b ≡ m b
  unfolding relocate
  relocate_apart r m b apart =
      write_apart (place base r) b (linked entry load_addr base m d r) m apart

  relocate-linked :
      (r : Rela) (m : Memory) (v : ℕ)
      → linked entry load_addr base m d r ≡ some v
      → little (relocate entry load_addr base d r m) (place base r) 8 ≡ v
  unfolding relocate write
  relocate-linked r m v e =
      ap (λ o. little (write (place base r) o m) (place base r) 8) e
      ∙ little-put 8 (place base r) v m (linked-small r m v e)

  -- A place that is clear of other places keeps its value.
  Clear-byte : (b n c : ℕ) (rs : List Rela) → b ≤ c → c < b + n → Clear b n rs → Clear c 1 rs
  Clear-byte b n c [] l h clear = tt
  Clear-byte b n c (r ∷ rs) l h (here, clear) = (ground arith, Clear-byte b n c rs l h clear)

  -- A relocation keeps the part that is read.
  relocate-Agree :
      (i : ℕ) (r : Rela) (m k : Memory)
      → Agree lo hi m k
      → Entry m i r
      → Agree lo hi m (relocate entry load_addr base d r k)
  relocate-Agree i r m k same e a l h =
      let out = e.outside in relocate_apart r k a (ground arith) ∙ same a l h

  relocate_loop-Loaded :
      (rs : List Rela) (n i : ℕ) (m k : Memory)
      → how_many rs < n
      → Agree lo hi m k
      → Table m i rs
      → Apart rs
      → Loaded m k rs (relocate_loop entry load_addr base n d i k)
  unfolding relocate_loop
  relocate_loop-Loaded rs zero i m k rounds same table apart = absurd (omega arith)
  relocate_loop-Loaded [] (suc n) i m k rounds same table apart =
      let over : ltb i d.jmprelsz ≡ false = ground arith in rw over (k, refl, tt, λ b clear. refl)
  relocate_loop-Loaded (r ∷ rs) (suc n) i m k rounds same (e, table) (clear, apart) =
      let more : ltb i d.jmprelsz ≡ true = ground (arith, e.within) in
      let read = rela-Agree ((d.jmprel + i) % 2 ^ 64) m k same e.from e.upto ∙ e.is in
      let step : (i + d.relent) % 2 ^ 64 ≡ i + d.relent = ground (arith, e.next) in
      let k' = relocate entry load_addr base d r k in
      let (m', ran, all, others) =
        relocate_loop-Loaded rs n (i + d.relent) m k' (omega arith) (relocate-Agree i r m k same e)
          table apart in
      let kept : Agree (place base r) (place base r + 8) k' m' =
        λ a l h. others a (Clear-byte (place base r) 8 a rs l h clear) in
      rw (more, read, step)
        (
          m',
          ran,
          (
            λ v is.
                little-Agree 8 (place base r) (place base r) (place base r + 8) k' m' kept
                  (omega arith) (omega arith)
                ∙ relocate-linked r k v (linked-Agree i r m k same e ∙ is),
            all,
          ),
          λ b (here, clear). others b clear ∙ relocate_apart r k b here,
        )

  -- The table has no more entries than bytes.
  Table-how_many :
      (rs : List Rela) (m : Memory) (i : ℕ)
      → 0 < d.relent
      → Table m i rs
      → how_many rs ≤ d.jmprelsz - i
  Table-how_many [] m i big table = omega arith
  Table-how_many (r ∷ rs) m i big (e, table) =
      let in_table = e.within in
      let le = Table-how_many rs m (i + d.relent) big table in omega arith

  linked_jump :
      (r : Rela) (m : Memory)
      → r.type ≡ 7
      → linked entry load_addr base m d r
        ≡ some ((resolve entry load_addr (text 64 m (name_at m d r)) + r.addend) % 2 ^ 64)
  unfolding linked
  linked_jump r m e = ground arith

  linked_relative :
      (r : Rela) (m : Memory)
      → r.type ≡ 8
      → linked entry load_addr base m d r ≡ some ((base + r.addend) % 2 ^ 64)
  unfolding linked
  linked_relative r m e = ground arith

  Written-Linked : (rs : List Rela) (m m' : Memory) → Written m m' rs → Linked m m' rs
  Written-Linked [] m m' w = tt
  Written-Linked (r ∷ rs) m m' (here, w) = (
    λ e. here _ (linked_jump r m e),
    λ e. here _ (linked_relative r m e),
    Written-Linked rs m m' w,
  )

  pub relocate_loop-Linked :
      (rs : List Rela) (m : Memory)
      → 0 < d.relent
      → Table m 0 rs
      → Apart rs
      → (m' : Memory) × (relocate_loop entry load_addr base (d.jmprelsz + 1) d 0 m ≡ some m')
        × Linked m m' rs
        × ((b : ℕ) → Clear b 1 rs → m' b ≡ m b)
  relocate_loop-Linked rs m big table apart =
      let le = Table-how_many rs m 0 big table in
      let (m', ran, all, others) =
        relocate_loop-Loaded rs (d.jmprelsz + 1) 0 m m (omega arith) (λ a l h. refl) table apart in
      (m', ran, Written-Linked rs m m' all, others)
