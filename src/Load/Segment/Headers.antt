-- ===== src/Load/Segment/Headers.antt =====
-- The loop over the program headers.
use pinion.Prelude.{
  ℕ, List, ◌+◌, ◌∷◌, ◌≡◌, ◌%◌, ◌*◌, suc, arith, ◌≤◌, ◌<◌, [], ◌^◌, if◌then◌else◌, ◌⊎◌, ◌∙◌, ◌==◌,
  refl, ◌≢◌, inl, inr, sym,
}
use pinion.Bytes.{Memory}
use pinion.Bytes.Writes.{Agree, little-Agree}
use pinion.Load.Copy.Filled.{AllMapped}
use pinion.Load.Elf.{Phdr, phdr}
use pinion.Load.Segment.Pages.{Extended, page_bits, apart_bits}
use pinion.Load.Segment.Loaded.{Loadable, Loaded, pages_of, mapped-Extended}
use pinion.Machine.{Kernel, Ptr}

-- How many pages the segments have.
abbrev pub all_pages : List Phdr → ℕ
all_pages [] = 0
all_pages (p ∷ ps) = pages_of p + all_pages ps

abbrev pub headers : List Phdr → ℕ
headers [] = 0
headers (p ∷ ps) = suc (headers ps)

phdr-Agree : (a : ℕ) (m m' : Memory) → Agree a (a + 56) m m' → phdr m' a ≡ phdr m a
unfolding phdr
phdr-Agree a m m' same =
    rw
      (
        little-Agree 4 a a (a + 56) m m' same (omega arith) (omega arith),
        little-Agree 4 (a + 4) a (a + 56) m m' same (omega arith) (omega arith),
        little-Agree 8 (a + 8) a (a + 56) m m' same (omega arith) (omega arith),
        little-Agree 8 (a + 16) a (a + 56) m m' same (omega arith) (omega arith),
        little-Agree 8 (a + 24) a (a + 56) m m' same (omega arith) (omega arith),
        little-Agree 8 (a + 32) a (a + 56) m m' same (omega arith) (omega arith),
        little-Agree 8 (a + 40) a (a + 56) m m' same (omega arith) (omega arith),
        little-Agree 8 (a + 48) a (a + 56) m m' same (omega arith) (omega arith),
      )
      refl

module _ (base : ℕ) where
  abbrev pub target : Phdr → ℕ
  target p = (base + p.vaddr) % 2 ^ 64

  abbrev pub end : Phdr → ℕ
  end p = target p + 0x1000 * pages_of p

  -- `a` and `n` bytes are outside of the pages of the segments.
  abbrev pub Outside : (a n : ℕ) → List Phdr → Type 0
  Outside a n [] = Unit {0}
  Outside a n (p ∷ ps) = ((a + n ≤ target p) ⊎ (end p ≤ a)) × Outside a n ps

  -- The page of an address is none of the segments'.
  abbrev pub Off : ℕ → List Phdr → Type 0
  Off a [] = Unit {0}
  Off a (p ∷ ps) = ((b : ℕ) → target p ≤ b → b < end p → page_bits a ≢ page_bits b) × Off a ps

  pub Outside-part :
      (lo size a n : ℕ) (ps : List Phdr)
      → lo ≤ a
      → a + n ≤ lo + size
      → Outside lo size ps
      → Outside a n ps
  Outside-part lo size a n [] low high out = tt
  Outside-part lo size a n (p ∷ ps) low high (out, outs) =
      (ground (arith, out), Outside-part lo size a n ps low high outs)

module _ (base kernel : ℕ) where
  -- Loadable segments, the pages of each outside of those of the others.
  abbrev pub AllLoadable : Kernel → List Phdr → Type 0
  AllLoadable k [] = Unit {0}
  AllLoadable k (p ∷ ps) =
      Loadable base kernel p k
      × Outside base (target base p) (0x1000 * pages_of p) ps
      × AllLoadable k ps

  -- Each segment is mapped, and has the bytes of the file, then zeros.
  abbrev pub AllLoaded : Kernel → (m m' : Memory) → List Phdr → Type 0
  AllLoaded h m m' [] = Unit {0}
  AllLoaded h m m' (p ∷ ps) =
      AllMapped h (target base p) p.memsz
      × ((i : ℕ) → i < p.filesz → m' (target base p + i) ≡ m ((kernel + p.offset) % 2 ^ 64 + i))
      × ((i : ℕ) → p.filesz ≤ i → i < p.memsz → m' (target base p + i) ≡ 0)
      × AllLoaded h m m' ps

  -- The dynamic section is that of the last header of this type.
  abbrev pub dynamic_of : ℕ → List Phdr → ℕ
  dynamic_of d [] = d
  dynamic_of d (p ∷ ps) = dynamic_of (if p.type == 2 then (kernel + p.offset) % 2 ^ 64 else d) ps

  apart_ranges :
      (k : Kernel) (p q : Phdr) (a b : ℕ)
      → Loadable base kernel p k
      → Loadable base kernel q k
      → (end base p ≤ target base q) ⊎ (end base q ≤ target base p)
      → target base q ≤ a
      → a < end base q
      → target base p ≤ b
      → b < end base p
      → page_bits a ≢ page_bits b
  apart_ranges k p q a b lp lq (inl before) low high from to e =
      apart_bits a b (target base q) (let upper = lp.upper in omega arith)
        (let fits = lq.fits in omega arith) lq.aligned (omega arith) low e
  apart_ranges k p q a b lp lq (inr after) low high from to e =
      apart_bits b a (target base p) (let upper = lq.upper in omega arith)
        (let fits = lp.fits in omega arith) lp.aligned (omega arith) from (sym e)

  -- After a segment has been loaded, the others are loadable.
  pub AllLoadable-Extended :
      (n : ℕ) (level level' : Ptr → ℕ) (k h : Kernel) (p : Phdr) (ps : List Phdr)
      → Loadable base kernel p k
      → Extended n (target base p) (end base p) level level' k h
      → Outside base (target base p) (0x1000 * pages_of p) ps
      → AllLoadable k ps
      → AllLoadable h ps
  AllLoadable-Extended n level level' k h p [] l extended out all = tt
  AllLoadable-Extended n level level' k h p (q ∷ ps) l extended (out, outs) (lq, between, all) = (
    record {
      loads = lq.loads;
      aligned = lq.aligned;
      upper = lq.upper;
      fits = lq.fits;
      image_fits = lq.image_fits;
      sizes = lq.sizes;
      vacant = λ a low high.
          extended.elsewhere a (λ b from to. apart_ranges k p q a b l lq out low high from to)
          ∙ lq.vacant a low high;
      source = λ i small.
          mapped-Extended n (target base p) (end base p) level level' k h extended l.vacant
            ((kernel + q.offset) % 2 ^ 64 + i) (lq.source i small);
    },
    between,
    AllLoadable-Extended n level level' k h p ps l extended outs all,
  )

module _ (base kernel phoff phentsize : ℕ) where
  abbrev pub header : ℕ → ℕ
  header i = (kernel + phoff + i * phentsize) % 2 ^ 64

  -- The headers from header `i` on, outside of the pages of `qs`.
  abbrev pub Headers : Memory → ℕ → (qs ps : List Phdr) → Type 0
  Headers m i qs [] = Unit {0}
  Headers m i qs (p ∷ ps) =
      (phdr m (header i) ≡ p) × Outside base (header i) 56 qs × Headers m (i + 1) qs ps

  -- After a segment has been loaded, the other headers are as before.
  pub Headers-Loaded :
      (i : ℕ) (m m' : Memory) (p : Phdr) (qs ps : List Phdr)
      → Loaded base kernel p m m'
      → Headers m i (p ∷ qs) ps
      → Headers m' i qs ps
  Headers-Loaded i m m' p qs [] loaded heads = tt
  Headers-Loaded i m m' p qs (h ∷ ps) loaded (is, (out, outs), heads) = (
    phdr-Agree (header i) m m' (λ a low high. loaded.outside a (ground (arith, out, low, high)))
        ∙ is,
    outs,
    Headers-Loaded (i + 1) m m' p qs ps loaded heads,
  )
