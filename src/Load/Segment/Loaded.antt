-- ===== src/Load/Segment/Loaded.antt =====
-- What a segment is, once it has been loaded.
use pinion.Prelude.{
  ℕ, ◌≡◌, ◌<◌, ◌≤◌, ◌+◌, ◌*◌, true, none, ◌⊎◌, ◌/◌, ◌%◌, ◌≢◌, ◌^◌, arith, ◌-◌, refl, ap, ◌∙◌, false,
  inl, subst, ◌==◌, ◌||◌, Bool-cases, ltb, inr,
}
use pinion.Alloc.Bump.{Bump, frame}
use pinion.Bytes.{Memory}
use pinion.Load.Copy.{mapped, memcpy, memclr}
use pinion.Load.Copy.Filled.{AllMapped, memcpy-Filled, memclr-Filled}
use pinion.Load.Elf.{Phdr}
use pinion.Load.Segment.{map_segment, map_loop}
use pinion.Load.Segment.Pages.{Extended, page_bits}
use pinion.Load.Segment.Rounds.{map_loop-Laid}
use pinion.Machine.{Kernel, Ptr, ok}
use pinion.Paging.{walk}
use pinion.Paging.Tree.{Tree, walk-page}

-- The pages of a segment, from `at` on.
abbrev pub pages_of : Phdr → ℕ
pages_of p = (p.memsz + 0xFFF) / 0x1000

-- A segment of whole pages in the upper half, where nothing is mapped, and its bytes in the image, which
-- is mapped.
pub record Loadable (base kernel : ℕ) (p : Phdr) (k : Kernel) : Type 0 where
  pub loads : (p.type ≡ 1) ⊎ (p.type ≡ 2)
  pub aligned : (base + p.vaddr) % 2 ^ 64 % 2 ^ 12 ≡ 0
  pub upper : 2 ^ 64 - 2 ^ 48 ≤ (base + p.vaddr) % 2 ^ 64
  pub fits : (base + p.vaddr) % 2 ^ 64 + 0x1000 * pages_of p < 2 ^ 64
  pub image_fits : (kernel + p.offset) % 2 ^ 64 + p.filesz < 2 ^ 64
  pub sizes : p.filesz ≤ p.memsz
  pub vacant :
      (a : ℕ)
      → (base + p.vaddr) % 2 ^ 64 ≤ a
      → a < (base + p.vaddr) % 2 ^ 64 + 0x1000 * pages_of p
      → walk k.pages 4 k.pcx_root a ≡ none
  pub source : AllMapped k ((kernel + p.offset) % 2 ^ 64) p.filesz

-- The bytes of the file, then zeros.
pub record Loaded (base kernel : ℕ) (p : Phdr) (m m' : Memory) : Type 0 where
  pub file :
      (i : ℕ)
      → i < p.filesz
      → m' ((base + p.vaddr) % 2 ^ 64 + i) ≡ m ((kernel + p.offset) % 2 ^ 64 + i)
  pub zeros : (i : ℕ) → p.filesz ≤ i → i < p.memsz → m' ((base + p.vaddr) % 2 ^ 64 + i) ≡ 0
  pub outside :
      (b : ℕ)
      → (b < (base + p.vaddr) % 2 ^ 64) ⊎ ((base + p.vaddr) % 2 ^ 64 + 0x1000 * pages_of p ≤ b)
      → m' b ≡ m b

-- An address that is mapped has other bits than one that is not.
pub mapped-vacant :
    (k : Kernel) (a b : ℕ)
    → mapped k a ≡ true
    → walk k.pages 4 k.pcx_root b ≡ none
    → page_bits a ≢ page_bits b
unfolding mapped
mapped-vacant k a b here gone same =
    let e = walk-page k.pages k.pcx_root a b same ∙ gone in
    let not_here : mapped k a ≡ false = rw (mapped, e) refl in ground (arith, here, not_here)

-- What was mapped still is.
pub mapped-Extended :
    (n lo hi : ℕ) (level level' : Ptr → ℕ) (k h : Kernel)
    → Extended n lo hi level level' k h
    → ((a : ℕ) → lo ≤ a → a < hi → walk k.pages 4 k.pcx_root a ≡ none)
    → (a : ℕ) → mapped k a ≡ true
    → mapped h a ≡ true
unfolding mapped
mapped-Extended n lo hi level level' k h extended vacant a here =
    rw (mapped, extended.elsewhere a (λ b low high. mapped-vacant k a b here (vacant b low high)))
      here

-- The two byte loops, one after the other.
fill_segment :
    (at src filesz memsz : ℕ) (m : Memory) (h : Kernel)
    → filesz ≤ memsz
    → at + memsz < 2 ^ 64
    → src + filesz < 2 ^ 64
    → AllMapped h at memsz
    → AllMapped h src filesz
    → ((i j : ℕ) → i < filesz → j < filesz → src + i ≢ at + j)
    → (m1 m' : Memory) × (memcpy filesz at src m h ≡ ok m1 h)
      × (memclr ((memsz + 2 ^ 64 - filesz) % 2 ^ 64) ((at + filesz) % 2 ^ 64) m1 h ≡ ok m' h)
      × ((i : ℕ) → i < filesz → m' (at + i) ≡ m (src + i))
      × ((i : ℕ) → filesz ≤ i → i < memsz → m' (at + i) ≡ 0)
      × ((b : ℕ) → (b < at) ⊎ (at + memsz ≤ b) → m' b ≡ m b)
fill_segment at src filesz memsz m h sizes fits fits' to from apart =
    let left : (memsz + 2 ^ 64 - filesz) % 2 ^ 64 ≡ memsz - filesz = omega arith in
    let next : (at + filesz) % 2 ^ 64 ≡ at + filesz = omega arith in
    let (m1, ran, copied) =
      memcpy-Filled filesz at src m h (omega arith) (omega arith) (λ i small. to i (omega arith))
        from apart in
    let rest : AllMapped h (at + filesz) (memsz - filesz) =
      λ i small. ap (mapped h) (omega arith) ∙ to (filesz + i) (omega arith) in
    let (m', ran', cleared) =
      memclr-Filled (memsz - filesz) (at + filesz) m1 h (omega arith) rest in
    (
      m1,
      m',
      ran,
      ap (λ n. memclr n ((at + filesz) % 2 ^ 64) m1 h) left
          ∙ ap (λ a. memclr (memsz - filesz) a m1 h) next
          ∙ ran',
      λ i small. cleared.outside (at + i) (inl (omega arith)) ∙ copied.inside i small,
      λ i big small. ap m' (omega arith) ∙ cleared.inside (i - filesz) (omega arith),
      λ b out. cleared.outside b (ground (arith, out)) ∙ copied.outside b (ground (arith, out)),
    )

pub out_of : (x lo hi : ℕ) → ((j : ℕ) → lo ≤ j → j < hi → x ≢ j) → (x < lo) ⊎ (hi ≤ x)
out_of x lo hi apart = elim (Bool-cases (ltb x lo)) [
  | inl below ↦ inl (ground (arith, below))
  | inr low ↦ elim (Bool-cases (ltb x hi)) [
    | inl high ↦ absurd (apart x (ground (arith, low)) (ground (arith, high)) refl)
    | inr above ↦ inr (ground (arith, above))
  ]
]

map_segment-ran :
    (left : Ptr → ℕ → ℕ) (base kernel : ℕ) (p : Phdr) (k h : Kernel) (m m1 m2 m' : Memory)
    → (p.type ≡ 1) ⊎ (p.type ≡ 2)
    → map_loop left (p.memsz / 0x1000 + 2) ((base + p.vaddr) % 2 ^ 64) p.memsz 0 m k ≡ ok m1 h
    → memcpy p.filesz ((base + p.vaddr) % 2 ^ 64) ((kernel + p.offset) % 2 ^ 64) m1 h ≡ ok m2 h
    → memclr
        ((p.memsz + 2 ^ 64 - p.filesz) % 2 ^ 64)
        (((base + p.vaddr) % 2 ^ 64 + p.filesz) % 2 ^ 64)
        m2
        h
      ≡ ok m' h
    → map_segment left base kernel p m k ≡ ok m' h
unfolding map_segment
map_segment-ran left base kernel p k h m m1 m2 m' loads one two three =
    let test : (p.type == 1 || p.type == 2) ≡ true = ground (arith, loads) in
    rw (test, one, two, three) refl

module _ (left : Ptr → ℕ → ℕ) (n base kernel : ℕ) (p : Phdr) (level : Ptr → ℕ) (k : Kernel)
    (m : Memory) where
  -- For a loadable segment, with a tree of tables and four frames left for each of its pages,
  -- the loop of load_kernel loads it.
  pub map_segment-Loaded :
      Tree level (frame k) k.pcx_root k.pages
      → Bump (4 * pages_of p + n) k
      → Loadable base kernel p k
      → (m' : Memory) × (h : Kernel) × (level' : Ptr → ℕ) × (map_segment left base kernel p m k
          ≡ ok m' h)
        × Loaded base kernel p m m'
        × Extended n
            ((base + p.vaddr) % 2 ^ 64)
            ((base + p.vaddr) % 2 ^ 64 + 0x1000 * pages_of p)
            level
            level'
            k
            h
  unfolding map_segment
  map_segment-Loaded tree bump l =
      let at = (base + p.vaddr) % 2 ^ 64 in
      let src = (kernel + p.offset) % 2 ^ 64 in
      let hi = at + 0x1000 * pages_of p in
      let (m1, h, level', ran, extended, kept) =
        map_loop-Laid left n at p.memsz l.aligned l.upper (pages_of p) (p.memsz / 0x1000 + 2) 0
          level k m tree bump (omega arith) refl (let fits = l.fits in omega arith) (omega arith)
          (omega arith) (λ a low high. l.vacant a (omega arith) (omega arith)) in
      let start : at + 0 ≡ at = omega arith in
      let extended' : Extended n at hi level level' k h =
        subst (λ a. Extended n a (a + 0x1000 * pages_of p) level level' k h) start extended in
      let apart : (i j : ℕ) → i < p.filesz → at ≤ j → j < hi → src + i ≢ j = λ i j small low high e.
        mapped-vacant k (src + i) j (l.source i small) (l.vacant j low high) (ap page_bits e) in
      let whole : AllMapped h at p.memsz =
        λ i small. extended'.inside (at + i) (omega arith) (omega arith) in
      let from : AllMapped h src p.filesz = λ i small.
        mapped-Extended n at hi level level' k h extended' l.vacant (src + i) (l.source i small) in
      let (m2, m', copied, cleared, file, zeros, outside) =
        fill_segment at src p.filesz p.memsz m1 h l.sizes (let fits = l.fits in omega arith)
          l.image_fits whole from
          (λ i j small small'.
            apart i (at + j) small (omega arith) (let sizes = l.sizes in omega arith)) in
      let still : (i : ℕ) → i < p.filesz → m1 (src + i) ≡ m (src + i) = λ i small. kept (src + i) (
        let out = out_of (src + i) at hi (λ j low high. apart i j small low high) in
        ground (arith, out)) in
      (
        m',
        h,
        level',
        map_segment-ran left base kernel p k h m m1 m2 m' l.loads ran copied cleared,
        record {
          file = λ i small. file i small ∙ still i small;
          zeros = zeros;
          outside = λ b out. outside b (ground (arith, out)) ∙ kept b (ground (arith, out));
        },
        extended',
      )
