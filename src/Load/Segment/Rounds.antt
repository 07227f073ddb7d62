-- ===== src/Load/Segment/Rounds.antt =====
-- The loop over the pages of a segment.
use pinion.Prelude.{
  ℕ, ◌%◌, ◌^◌, ◌≡◌, ◌-◌, ◌≤◌, ◌<◌, ◌+◌, ◌*◌, suc, none, ◌⊎◌, ltb, arith, ◌/◌, true, subst, false,
  ◌∙◌, ◌==◌, zero, refl,
}
use pinion.Alloc.Bump.{Bump, Bump-le, frame}
use pinion.Bytes.{Memory}
use pinion.Load.Segment.{map_page, map_loop, shown}
use pinion.Load.Segment.Pages.{
  Extended, Extended-refl, Extended-trans, apart_bits, map_page-Extended,
}
use pinion.Machine.{Kernel, Ptr, ok}
use pinion.Paging.{walk}
use pinion.Paging.Tree.{Tree}

pub shown-outside :
    (left : Ptr → ℕ → ℕ) (page : Ptr) (addr : ℕ) (m : Memory) (b : ℕ)
    → addr % 2 ^ 12 ≡ 0
    → (b < addr) ⊎ (addr + 0x1000 ≤ b)
    → shown left page addr m b ≡ m b
shown-outside left page addr m b whole out =
    let other : (b / 2 ^ 12 == addr / 2 ^ 12) ≡ false = ground (arith, out) in rw other refl

-- The loop over `p` pages from byte `offset` on maps these, and shows them.
module _ (left : Ptr → ℕ → ℕ) (n at memsz : ℕ) (aligned : at % 2 ^ 12 ≡ 0)
    (upper : 2 ^ 64 - 2 ^ 48 ≤ at) where
  abbrev pub Laid : (p fuel offset : ℕ) (level : Ptr → ℕ) (k : Kernel) (m : Memory) → Type 0
  Laid p fuel offset level k m =
      (m' : Memory) × (h : Kernel) × (level' : Ptr → ℕ) × (map_loop left fuel at memsz offset m k
        ≡ ok m' h)
      × Extended n (at + offset) (at + offset + 0x1000 * p) level level' k h
      × ((b : ℕ) → (b < at + offset) ⊎ (at + offset + 0x1000 * p ≤ b) → m' b ≡ m b)

  map_round :
      (fuel offset : ℕ) (k g : Kernel) (m m1 : Memory)
      → offset < memsz
      → at + offset + 0x1000 < 2 ^ 64
      → map_page left (at + offset) m k ≡ ok m1 g
      → map_loop left (suc fuel) at memsz offset m k
        ≡ map_loop left fuel at memsz (offset + 0x1000) m1 g
  unfolding map_loop
  map_round fuel offset k g m m1 more top ran =
      let test : ltb offset memsz ≡ true = ground arith in
      let here : (at + offset) % 2 ^ 64 ≡ at + offset = omega arith in
      let next : (offset + 0x1000) % 2 ^ 64 ≡ offset + 0x1000 = omega arith in
      rw (test, here, ran, next) refl

  Laid-suc :
      (p fuel offset : ℕ) (level level' : Ptr → ℕ) (k g : Kernel) (m m1 : Memory)
      → offset % 2 ^ 12 ≡ 0
      → offset < memsz
      → at + offset + 0x1000 * suc p < 2 ^ 64
      → map_page left (at + offset) m k ≡ ok m1 g
      → ((b : ℕ) → (b < at + offset) ⊎ (at + offset + 0x1000 ≤ b) → m1 b ≡ m b)
      → Extended (4 * p + n) (at + offset) (at + offset + 0x1000) level level' k g
      → Laid p fuel (offset + 0x1000) level' g m1
      → Laid (suc p) (suc fuel) offset level k m
  Laid-suc p fuel offset level level' k g m m1 whole more top ran kept one
        (m', h, level'', ran', two, bytes) =
      let mid : at + (offset + 0x1000) ≡ at + offset + 0x1000 = omega arith in
      let end : at + (offset + 0x1000) + 0x1000 * p ≡ at + offset + 0x1000 * suc p = omega arith in
      let two' =
        subst (λ hi. Extended n (at + offset + 0x1000) hi level' level'' g h) end
          (subst (λ lo. Extended n lo (at + (offset + 0x1000) + 0x1000 * p) level' level'' g h) mid
            two) in
      (
        m',
        h,
        level'',
        map_round fuel offset k g m m1 more (omega arith) ran ∙ ran',
        Extended-trans (4 * p + n) n (at + offset) (at + offset + 0x1000)
            (at + offset + 0x1000 * suc p) level level' level'' k g h (omega arith) (omega arith)
            (omega arith) (omega arith) (omega arith) one two',
        λ b out. bytes b (ground (arith, out)) ∙ kept b (ground (arith, out)),
      )

  -- What the rest of the range is after its first page.
  rest_vacant :
      (p offset : ℕ) (level level' : Ptr → ℕ) (k g : Kernel)
      → offset % 2 ^ 12 ≡ 0
      → at + offset + 0x1000 * suc p < 2 ^ 64
      → Extended (4 * p + n) (at + offset) (at + offset + 0x1000) level level' k g
      → ((a : ℕ)
          → at + offset ≤ a
          → a < at + offset + 0x1000 * suc p
          → walk k.pages 4 k.pcx_root a ≡ none)
      → (a : ℕ) → at + (offset + 0x1000) ≤ a
      → a < at + (offset + 0x1000) + 0x1000 * p
      → walk g.pages 4 g.pcx_root a ≡ none
  rest_vacant p offset level level' k g whole top one vacant a low high =
      one.elsewhere a (λ b from to.
        apart_bits a b (at + offset + 0x1000) (omega arith) (omega arith) (omega arith) to
          (omega arith))
      ∙ vacant a (omega arith) (omega arith)

  pub map_loop-Laid :
      (p fuel offset : ℕ) (level : Ptr → ℕ) (k : Kernel) (m : Memory)
      → Tree level (frame k) k.pcx_root k.pages
      → Bump (4 * p + n) k
      → p < fuel
      → offset % 2 ^ 12 ≡ 0
      → at + offset + 0x1000 * p < 2 ^ 64
      → memsz ≤ offset + 0x1000 * p
      → offset + 0x1000 * p < memsz + 0x1000
      → ((a : ℕ)
          → at + offset ≤ a
          → a < at + offset + 0x1000 * p
          → walk k.pages 4 k.pcx_root a ≡ none)
      → Laid p fuel offset level k m
  unfolding map_loop
  map_loop-Laid p zero offset level k m tree bump enough whole top covers needed vacant =
      absurd (omega arith)
  map_loop-Laid zero (suc fuel) offset level k m tree bump enough whole top covers needed vacant =
      let done : ltb offset memsz ≡ false = ground arith in
      (
        m,
        k,
        level,
        rw done refl,
        Extended-refl n (at + offset) (at + offset + 0x1000 * 0) level k tree
            (Bump-le n (4 * 0 + n) k (omega arith) bump) (omega arith),
        λ b out. refl,
      )
  map_loop-Laid (suc p) (suc fuel) offset level k m tree bump enough whole top covers needed
        vacant =
      let addr = at + offset in
      let (g, level', ran, one) =
        map_page-Extended left (4 * p + n) addr level k m tree
          (Bump-le (4 + (4 * p + n)) (4 * suc p + n) k (omega arith) bump) (omega arith)
          (vacant addr (omega arith) (omega arith)) in
      let m1 = shown left (frame k) addr m in
      Laid-suc p fuel offset level level' k g m m1 whole (omega arith) top ran
        (λ b out. shown-outside left (frame k) addr m b (omega arith) out) one
        (map_loop-Laid p fuel (offset + 0x1000) level' g m1 one.tree one.bump (omega arith)
          (omega arith) (omega arith) (omega arith) (omega arith)
          (rest_vacant p offset level level' k g whole top one vacant))
