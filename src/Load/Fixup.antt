-- ===== src/Load/Fixup.antt =====
-- What the links of the kernel are, from its dynamic section on.
use pinion.Bytes.{Memory, little}
use pinion.Load.{Rela, Dynamic, unknown, with_tag, with_apirev, collect, fixup_kernel}
use pinion.Load.Links.{Table, Apart, Linked, Clear, relocate_loop-Linked}
use pinion.Prelude.{
  ℕ, List, [], ◌∷◌, some, suc, zero, ◌+◌, ◌^◌, ◌%◌, ◌≡◌, ◌≢◌, ◌<◌, arith, refl, ne→==,
}

-- An entry of the dynamic section: tag and value.
abbrev pub Tag : Type 0
Tag = ℕ × ℕ

-- The dynamic section at an address has these entries, and ends.
abbrev pub Tags : Memory → ℕ → List Tag → Type 0
Tags m a [] = little m a 8 ≡ 0
Tags m a ((tag, val) ∷ es) =
    (little m a 8 ≡ tag)
    × (tag ≢ 0)
    × (little m ((a + 8) % 2 ^ 64) 8 ≡ val)
    × Tags m ((a + 16) % 2 ^ 64) es

-- What the entries say, the last one of a tag first.
abbrev pub described : (base : ℕ) → List Tag → Dynamic → Dynamic
described base [] d = d
described base ((tag, val) ∷ es) d = described base es (with_tag base tag val d)

abbrev pub tags : List Tag → ℕ
tags [] = 0
tags (e ∷ es) = suc (tags es)

pub collect-described :
    (es : List Tag) (n : ℕ) (m : Memory) (base a : ℕ) (d : Dynamic)
    → tags es < n
    → Tags m a es
    → collect n m base a d ≡ some (described base es d)
unfolding collect
collect-described es zero m base a d rounds laid = absurd (omega arith)
collect-described [] (suc n) m base a d rounds laid = rw laid refl
collect-described ((tag, val) ∷ es) (suc n) m base a d rounds (is, ne, holds, laid) =
    rw (is, holds, ne→== tag 0 ne)
      (collect-described es n m base ((a + 16) % 2 ^ 64) (with_tag base tag val d) (omega arith)
        laid)

-- Without a table of relocations nothing is linked.
pub fixup_kernel-unlinked :
    (entry : ℕ → ℕ) (load_addr base dynamic : ℕ) (es : List Tag) (m : Memory)
    → Tags m dynamic es
    → dynamic ≢ 0
    → (described base es unknown).str ≢ 0
    → (described base es unknown).jmprel ≡ 0
    → fixup_kernel entry load_addr base (suc (tags es)) dynamic m ≡ some m
unfolding fixup_kernel
fixup_kernel-unlinked entry load_addr base dynamic es m laid there named no_table =
    rw
      (
        ne→== dynamic 0 there,
        collect-described es (suc (tags es)) m base dynamic unknown (omega arith) laid,
        ne→== (described base es unknown).str 0 named,
        no_table,
      )
      refl

-- For a dynamic section that is not at NULL and ends, with a table of names, with a table of
-- relocations and entries of a size that is not 0, where the tables, symbols and names lie in
-- one part of memory, the places that are written outside of it, and the places apart,
-- fixup_kernel ends after as many rounds as there are dynamic entries and bytes of the table.
-- Each place then holds its value: the address of the API call that the symbol names, or the
-- moved address, plus the addend. No byte outside the places changes.
pub fixup_kernel-Linked :
    (entry : ℕ → ℕ) (load_addr base lo hi dynamic : ℕ) (es : List Tag) (rs : List Rela) (m : Memory)
    → let d = with_apirev m (described base es unknown) in
      Tags m dynamic es
      → dynamic ≢ 0
      → d.str ≢ 0
      → d.jmprel ≢ 0
      → 0 < d.relent
      → Table entry load_addr base d lo hi m 0 rs
      → Apart entry load_addr base d lo hi rs
      → (m' : Memory) × (fixup_kernel entry load_addr base (suc (tags es)) dynamic m ≡ some m')
        × Linked entry load_addr base d lo hi m m' rs
        × ((b : ℕ) → Clear entry load_addr base d lo hi b 1 rs → m' b ≡ m b)
unfolding fixup_kernel with_apirev
fixup_kernel-Linked entry load_addr base lo hi dynamic es rs m laid there named ne big table apart =
    let d = with_apirev m (described base es unknown) in
    let (m', ran, all, others) =
      relocate_loop-Linked entry load_addr base d lo hi rs m big table apart in
    (
      m',
      rw
          (
            ne→== dynamic 0 there,
            collect-described es (suc (tags es)) m base dynamic unknown (omega arith) laid,
            ne→== d.str 0 named,
            ne→== d.jmprel 0 ne,
          )
          ran,
      all,
      others,
    )
