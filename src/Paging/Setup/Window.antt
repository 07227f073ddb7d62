-- ===== src/Paging/Setup/Window.antt =====
-- The mapping that the first tables make.
use pinion.Alloc.Bump.{Bump}
use pinion.Machine.{Kernel, Ptr, null}
use pinion.Machine.Returns.{Returns}
use pinion.Machine.Returns
use pinion.Paging.{
  virtual_base, index, table_of, frame_of, pf_pres, pf_large, walk, get_trans, vaddr,
}
use pinion.Paging.Mapping.{walk-step}
use pinion.Paging.Setup.{init, entry_of, window_entry}
use pinion.Paging.Setup.Entries.{
  entry_of-table, entry_of-present, entry_of-small, window_entry-frame, window_entry-large,
  window_entry-present, physical,
}
use pinion.Paging.Setup.Tables.{Mapped, init-SetUp}
use pinion.Prelude.{
  ℕ, ◌≡◌, ◌<◌, ◌≤◌, ◌+◌, ◌*◌, ◌/◌, ◌%◌, ◌^◌, ◌==◌, ◌∙◌, if◌then◌else◌, ltb, arith, refl, ap, inl,
  inr, suc, some, none, test_bit, true, Bool-cases, ◌-◌, ◌≢◌, ◌&&◌,
}

-- The part of the window's address that the walk reads.
abbrev pub window_base : ℕ
window_base = 0xFFFF_C000_0000

walk-none :
    (i : ℕ) (pages : ℕ → ℕ → ℕ) (pt addr : ℕ)
    → pages pt (index addr (suc i)) ≡ 0
    → walk pages (suc i) pt addr ≡ none
unfolding walk
walk-none i pages pt addr zero = rw zero (ground arith)

walk-large :
    (i : ℕ) (pages : ℕ → ℕ → ℕ) (pt addr : ℕ)
    → test_bit (pages pt (index addr (suc i))) pf_pres ≡ true
    → test_bit (pages pt (index addr (suc i))) pf_large ≡ true
    → walk pages (suc i) pt addr ≡ some (pages pt (index addr (suc i)), suc i)
unfolding walk
walk-large i pages pt addr pres large = rw (pres, large) refl

-- An entry of a table leads to the table.
walk-entry :
    (i : ℕ) (pages : ℕ → ℕ → ℕ) (pt addr a : ℕ)
    → a % 0x1000 ≡ 0
    → a < 2 ^ 30
    → pages pt (index addr (suc (suc i))) ≡ entry_of (a + virtual_base)
    → walk pages (suc (suc i)) pt addr ≡ walk pages (suc i) (a + virtual_base) addr
walk-entry i pages pt addr a aligned low e =
    walk-step i pages pt addr (a + virtual_base)
      (ap (λ w. test_bit w pf_pres) e ∙ entry_of-present a aligned low)
      (ap (λ w. test_bit w pf_large) e ∙ entry_of-small a aligned low)
      (ap table_of e ∙ entry_of-table a aligned low)

module _ (a : ℕ) (aligned : a % 0x1000 ≡ 0) (low : a + 0x1000 * 258 ≤ 2 ^ 29) (pages : Ptr → ℕ → ℕ)
    (m : Mapped (a + virtual_base) pages) (addr : ℕ) where
  -- Below the upper half nothing is mapped.
  walk-lower : index addr 4 < 256 → walk pages 4 (a + virtual_base) addr ≡ none
  walk-lower l = walk-none 3 pages (a + virtual_base) addr (m.lower (index addr 4) l)

  -- The tables of level 3.
  walk-upper :
      (j : ℕ)
      → j < 256
      → index addr 4 ≡ 256 + j
      → walk pages 4 (a + virtual_base) addr
        ≡ walk pages 3 (a + 0x1000 * (j + 1) + virtual_base) addr
  walk-upper j l e =
      walk-entry 2 pages (a + virtual_base) addr (a + 0x1000 * (j + 1)) (omega arith) (omega arith)
        (ap (pages (a + virtual_base)) e ∙ m.upper j l ∙ ap entry_of (omega arith))

  walk-empty :
      (j : ℕ) → j < 255 → index addr 4 ≡ 256 + j → walk pages 4 (a + virtual_base) addr ≡ none
  walk-empty j l e =
      walk-upper j (omega arith) e
      ∙ walk-none 2 pages (a + 0x1000 * (j + 1) + virtual_base) addr (
          ap (λ p. pages p (index addr 3)) (omega arith) ∙ m.empty j (index addr 3) l (omega arith))

  walk-last : index addr 4 ≡ 511 → index addr 3 < 511 → walk pages 4 (a + virtual_base) addr ≡ none
  walk-last e l =
      walk-upper 255 (omega arith) e
      ∙ walk-none 2 pages (a + 0x1000 * 256 + virtual_base) addr
          (ap (λ p. pages p (index addr 3)) (omega arith) ∙ m.last (index addr 3) l)

  -- The window is the last gigabyte.
  pub walk-below : addr % 2 ^ 48 < window_base → walk pages 4 (a + virtual_base) addr ≡ none
  walk-below l = elim (Bool-cases (ltb (index addr 4) 256)) [
    | inl lower ↦ walk-lower (ground (arith, lower))
    | inr upper ↦ elim (Bool-cases (index addr 4 == 511)) [
      | inl last ↦ walk-last (ground (arith, last)) (ground (arith, last, l))
      | inr before ↦
          walk-empty (index addr 4 - 256) (ground (arith, before, upper)) (ground (arith, upper))
    ]
  ]

  pub walk-window :
      window_base ≤ addr % 2 ^ 48
      → walk pages 4 (a + virtual_base) addr ≡ some (window_entry (addr / 2 ^ 21 % 512), 2)
  walk-window l =
      let at : pages (a + 0x1000 * 257 + virtual_base) (index addr 2)
          ≡ window_entry (addr / 2 ^ 21 % 512) =
        ap (λ p. pages p (index addr 2)) (omega arith) ∙ m.entries (index addr 2) (omega arith) in
      let third : pages (a + 0x1000 * 256 + virtual_base) (index addr 3)
          ≡ entry_of (a + 0x1000 * 257 + virtual_base) =
        ap (pages (a + 0x1000 * 256 + virtual_base)) (omega arith)
        ∙ ap (λ p. pages p 511) (omega arith)
        ∙ m.window
        ∙ ap entry_of (omega arith) in
      walk-upper 255 (omega arith) (omega arith)
      ∙ walk-entry 1 pages (a + 0x1000 * 256 + virtual_base) addr (a + 0x1000 * 257) (omega arith)
          (omega arith) third
      ∙ walk-large 1 pages (a + 0x1000 * 257 + virtual_base) addr
          (ap (λ w. test_bit w pf_pres) at ∙ window_entry-present (addr / 2 ^ 21 % 512))
          (ap (λ w. test_bit w pf_large) at ∙ window_entry-large (addr / 2 ^ 21 % 512))
      ∙ ap (λ w. some (w, 2)) at

-- The translation of an address.
abbrev pub translated : ℕ → ℕ
translated addr =
    if ltb (addr % 2 ^ 48) window_base
    then 2 ^ 64 - 1
    else physical (addr / 2 ^ 21 % 512) + addr % 2 ^ 21

get_trans-none :
    (g : Kernel) (addr : ℕ) → walk g.pages 4 g.pcx_root addr ≡ none → get_trans g addr ≡ 2 ^ 64 - 1
unfolding get_trans
get_trans-none g addr found = rw (get_trans, found) refl

get_trans-large :
    (g : Kernel) (addr e : ℕ)
    → walk g.pages 4 g.pcx_root addr ≡ some (e, 2)
    → get_trans g addr ≡ (frame_of e + addr % 2 ^ 21) % 2 ^ 64
unfolding get_trans
get_trans-large g addr e found = rw (get_trans, found) refl

-- The translation where the first tables are the root's.
pub Mapped-translated :
    (a : ℕ) (g : Kernel)
    → a % 0x1000 ≡ 0
    → a + 0x1000 * 258 ≤ 2 ^ 29
    → g.pcx_root ≡ a + virtual_base
    → Mapped (a + virtual_base) g.pages
    → (addr : ℕ) → get_trans g addr ≡ translated addr
Mapped-translated a g aligned low at m addr =
    let root : walk g.pages 4 g.pcx_root addr ≡ walk g.pages 4 (a + virtual_base) addr =
      ap (λ r. walk g.pages 4 r addr) at in
    let i = addr / 2 ^ 21 % 512 in
    elim (Bool-cases (ltb (addr % 2 ^ 48) window_base)) [
      | inl below ↦
          get_trans-none g addr
            (root ∙ walk-below a aligned low g.pages m addr (ground (arith, below)))
          ∙ rw below refl
      | inr above ↦
          get_trans-large g addr (window_entry i)
            (root ∙ walk-window a aligned low g.pages m addr (ground (arith, above)))
          ∙ ap (λ f. (f + addr % 2 ^ 21) % 2 ^ 64) (window_entry-frame i (omega arith))
          ∙ rw above (ground arith)
    ]

translated-low : (p : ℕ) → p < 0x2000_0000 → translated ((p + virtual_base) % 2 ^ 64) ≡ p
translated-low p l = ground arith

translated-device :
    (p : ℕ)
    → 0xE000_0000 < p
    → p < 0x1_0000_0000
    → translated ((p - 0xE000_0000 + virtual_base + 0x2000_0000) % 2 ^ 64) ≡ p
translated-device p l h = ground arith

pub translated-vaddr : (p : ℕ) → vaddr p ≢ null → translated (vaddr p) ≡ p
unfolding vaddr
translated-vaddr p named = elim (Bool-cases (ltb p 0x2000_0000)) [
  | inl low ↦ rw low (translated-low p (ground (arith, low)))
  | inr high ↦ elim (Bool-cases (ltb 0xE000_0000 p && ltb p 0x1_0000_0000)) [
    | inl device ↦
        rw (high, device) (translated-device p (ground (arith, device)) (ground (arith, device)))
    | inr out ↦ absurd (named (rw (high, out) refl))
  ]
]

-- With the mutexes of the allocators free, their lists empty, and 258 frames at page boundaries
-- below 512 MiB left, pcx_init returns; pcx_get_trans then translates each address whose low 48
-- bits are in the last GiB to its place in the first 512 MiB or in the 512 MiB from 0xE0000000
-- on, and gives -1 for every other address. So where pmm_vaddr gives an address at all,
-- pcx_get_trans of it gives the physical address back.
pub init-get_trans :
    (k : Kernel)
    → Bump 258 k
    → Returns
        (λ _ g.
          ((addr : ℕ) → get_trans g addr ≡ translated addr)
          × ((p : ℕ) → vaddr p ≢ null → get_trans g (vaddr p) ≡ p))
        (init k)
init-get_trans k b = Returns.mono (init-SetUp k b) λ _ g s.
    let low : k.alloc_base + 0x1000 * 258 ≤ 2 ^ 29 = ground (arith, b.room, b.low) in
    let at =
      Mapped-translated k.alloc_base g b.aligned low (ap (λ g. g.pcx_root) s.rest) s.mapped in
    (at, λ p named. at (vaddr p) ∙ translated-vaddr p named)
